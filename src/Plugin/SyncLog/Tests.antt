-- ===== src/Plugin/SyncLog/Tests.antt =====
-- Tests of the log: three entries for a log for two.
use obsidian_baritone.Prelude.{◌≡◌, refl, none, lit, List, [], ◌∷◌}
use obsidian_baritone.Plugin.SyncLog.{SyncLogEntryInput, SyncLogLevel, append, trimmed, new_log}
use obsidian_baritone.Plugin.SyncLog.Newest.{
  Call, append_all, entry_for, entries_from, newest, append_all-newest,
}

abbrev input : SyncLogEntryInput
input = record { ts = none; level = SyncLogLevel.warn; source = lit "sync"; message = lit "retry" }

abbrev calls : List Call
calls = (7, input) ∷ (8, input) ∷ (9, input) ∷ []

keeps_two :
    (append_all calls (new_log 2)).logged ≡ entry_for 2 (8, input) ∷ entry_for 3 (9, input) ∷ []
unfolding append trimmed new_log
keeps_two = refl

append_all-newest_example : (append_all calls (new_log 2)).logged ≡ newest 2 (entries_from 1 calls)
append_all-newest_example = append_all-newest 2 calls
