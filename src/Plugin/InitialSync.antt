-- ===== src/Plugin/InitialSync.antt =====
-- apps/plugin/src/sync/initial-sync.ts: `fetchManifest`, with the server's answers as a function. An
-- error that the server answers makes the wait for the page fail.
use obsidian_baritone.Prelude.{
  ℕ, zero, suc, Option, none, some, List, [], ◌++◌, JsString, nonempty, if◌then◌else◌, Result, ok,
  err,
}
use obsidian_baritone.Protocol.{SyncError}
use obsidian_baritone.Protocol.ServerMessage.{ManifestEntry, ManifestPageMessage}
pub mod Fetch
pub mod Tests

pub record Manifest : Type 0 where
  pub entries : List ManifestEntry
  pub watermark_seq : ℕ

abbrev pub Fetched : Type 0
Fetched = Option (Result SyncError Manifest)

-- What follows a page: another round, `again`, or the end.
abbrev pub next_round :
    (Option JsString → List ManifestEntry → Fetched)
    → ℕ
    → List ManifestEntry
    → Option JsString
    → Fetched
next_round again watermark_seq entries none =
    some (ok (record { entries = entries; watermark_seq = watermark_seq }))
next_round again watermark_seq entries (some cursor) =
    if nonempty cursor
    then again (some cursor) entries
    else some (ok (record { entries = entries; watermark_seq = watermark_seq }))

abbrev pub round :
    (Option JsString → List ManifestEntry → Fetched)
    → List ManifestEntry
    → Result SyncError ManifestPageMessage
    → Fetched
round again entries (err e) = some (err e)
round again entries (ok page) =
    next_round again page.watermark_seq (entries ++ page.items) page.next_cursor

-- The loop of `fetchManifest`, with the rounds that are left; nothing when they run out.
module _ (ask : Option JsString → Result SyncError ManifestPageMessage) where
  unfoldable pub fetch_pages : ℕ → Option JsString → List ManifestEntry → Fetched
  fetch_pages zero cursor entries = none
  fetch_pages (suc rounds) cursor entries = round (fetch_pages rounds) entries (ask cursor)

  abbrev pub fetch_manifest : ℕ → Fetched
  fetch_manifest rounds = fetch_pages rounds none []
