-- ===== src/Plugin/SyncLog/Bounds.antt =====
-- apps/plugin/src/logs/log-store.ts: the length of the log.
use obsidian_baritone.Prelude.{
  ℕ, ◌≡◌, ◌+◌, ◌-◌, min, List, [], ◌∷◌, ◌++◌, length, length-append, arith,
}
use obsidian_baritone.Plugin.SyncLog.Newest.{length-drop}
use obsidian_baritone.Plugin.SyncLog.{
  SyncLogEntry, SyncLogEntryInput, SyncLogStore, trimmed, append,
}

length-trimmed :
    (limit : ℕ) (xs : List SyncLogEntry) → length (trimmed limit xs) ≡ min limit (length xs)
unfolding trimmed
length-trimmed limit xs = ground (arith, length-drop (length xs - limit) xs)

-- After `append` the log is one entry longer, or holds as many as its limit: the lesser of the two.
pub length-append_log :
    (now : ℕ) (input : SyncLogEntryInput) (s : SyncLogStore)
    → length (append now input s).1.logged ≡ min s.limit (length s.logged + 1)
unfolding append
length-append_log now input s = omega (
  arith,
  length-trimmed s.limit (s.logged ++ ((append now input s).0 ∷ [])),
  length-append s.logged ((append now input s).0 ∷ []),
)
