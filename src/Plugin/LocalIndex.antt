-- ===== src/Plugin/LocalIndex.antt =====
-- apps/plugin/src/localindex/index.ts: `LocalIndexStore` in memory. `load` and `save`, which go
-- through the plugin's file adapter, are not modelled.
pub mod Laws
pub mod Tests
use obsidian_baritone.Prelude.{
  ℕ, ◌+◌, max, Bool, true, false, not, ◌&&◌, Option, none, some, List, [], ◌∷◌, ◌++◌, JsString,
  if◌then◌else◌, str_eq, opt_eq, any, find, filter, ◌otherwise◌,
}
use obsidian_baritone.Clock.VersionVector.{VersionVector}
use obsidian_baritone.Clock.Lamport.{PathClock}
use obsidian_baritone.Unicode.{Platform}
use obsidian_baritone.Path.{case_fold_path}
use obsidian_baritone.Protocol.{FileType}
use obsidian_baritone.Plugin.Outbox.{OutboxEntry}

pub record FileIndexEntry : Type 0 where
  pub file_id : JsString
  pub path : JsString
  pub path_normalized : JsString
  pub type : FileType
  pub content_hash : Option JsString
  pub size : ℕ
  pub applied_content_vv : VersionVector
  pub path_clock : Option PathClock
  pub is_dir : Bool
  pub mtime : ℕ
  pub deleted : Bool

pub record DeviceState : Type 0 where
  pub applied_seq : ℕ
  pub device_id : JsString
  pub vault_id : Option JsString
  pub next_device_seq : ℕ
  pub outbox : List OutboxEntry
  pub manifest_cursor : Option JsString
  pub manifest_watermark_seq : Option ℕ
  pub downloaded_hashes : List JsString

pub record LocalIndexSnapshot : Type 0 where
  pub files : List FileIndexEntry
  pub device : DeviceState
  pub conflicts : List JsString

unfoldable pub default_device_state : JsString → Option JsString → DeviceState
default_device_state device_id vault_id = record {
  applied_seq = 0;
  device_id = device_id;
  vault_id = vault_id;
  next_device_seq = 1;
  outbox = [];
  manifest_cursor = none;
  manifest_watermark_seq = none;
  downloaded_hashes = [];
}

unfoldable pub default_snapshot : JsString → Option JsString → LocalIndexSnapshot
default_snapshot device_id vault_id = record {
  files = [];
  device = default_device_state device_id vault_id;
  conflicts = [];
}

-- The array after `files[idx] = next` at the first entry of the file, or after `push`.
unfoldable pub put_file : FileIndexEntry → List FileIndexEntry → List FileIndexEntry
put_file next [] = next ∷ []
put_file next (item ∷ files) =
    let rest = put_file next files in
    if str_eq item.file_id next.file_id then next ∷ files else item ∷ rest

-- `upsertFile`, for an entry and the `pathNormalized` that it may carry.
unfoldable pub upsert_file :
    Platform → FileIndexEntry → Option JsString → LocalIndexSnapshot → LocalIndexSnapshot
upsert_file os entry path_normalized snapshot =
    let next : FileIndexEntry = record entry {
      path_normalized = path_normalized otherwise case_fold_path os entry.path;
    } in
    record snapshot { files = put_file next snapshot.files }

unfoldable pub by_path : JsString → LocalIndexSnapshot → Option FileIndexEntry
by_path path snapshot = find (λ entry. str_eq entry.path path && not entry.deleted) snapshot.files

unfoldable pub by_file_id : JsString → LocalIndexSnapshot → Option FileIndexEntry
by_file_id file_id snapshot = find (λ entry. str_eq entry.file_id file_id) snapshot.files

-- The array after `deleted` is set on the first entry of the file.
unfoldable pub mark_first : JsString → List FileIndexEntry → List FileIndexEntry
mark_first file_id [] = []
mark_first file_id (entry ∷ files) =
    let rest = mark_first file_id files in
    if str_eq entry.file_id file_id then (record entry { deleted = true }) ∷ files else entry ∷ rest

unfoldable pub mark_deleted : JsString → LocalIndexSnapshot → LocalIndexSnapshot
mark_deleted file_id snapshot = record snapshot { files = mark_first file_id snapshot.files }

unfoldable pub remove_file_id : JsString → LocalIndexSnapshot → LocalIndexSnapshot
remove_file_id file_id snapshot = record snapshot {
  files = filter (λ entry. not (str_eq entry.file_id file_id)) snapshot.files;
}

unfoldable pub set_applied_seq : ℕ → LocalIndexSnapshot → LocalIndexSnapshot
set_applied_seq seq snapshot = record snapshot {
  device = record snapshot.device { applied_seq = max snapshot.device.applied_seq seq };
}

unfoldable pub set_outbox : List OutboxEntry → ℕ → LocalIndexSnapshot → LocalIndexSnapshot
set_outbox outbox next_device_seq snapshot = record snapshot {
  device = record snapshot.device { outbox = outbox; next_device_seq = next_device_seq };
}

unfoldable pub reset_session_state :
    JsString → Option JsString → LocalIndexSnapshot → LocalIndexSnapshot
reset_session_state device_id vault_id snapshot =
    if str_eq snapshot.device.device_id device_id && opt_eq snapshot.device.vault_id vault_id
    then snapshot
    else if not (opt_eq snapshot.device.vault_id vault_id)
    then default_snapshot device_id vault_id
    else record snapshot { device = default_device_state device_id vault_id }

unfoldable pub add_conflict : JsString → LocalIndexSnapshot → LocalIndexSnapshot
add_conflict conflict_id snapshot =
    if not (any (λ id. str_eq id conflict_id) snapshot.conflicts)
    then record snapshot { conflicts = snapshot.conflicts ++ (conflict_id ∷ []) }
    else snapshot

unfoldable pub remove_conflict : JsString → LocalIndexSnapshot → LocalIndexSnapshot
remove_conflict conflict_id snapshot = record snapshot {
  conflicts = filter (λ id. not (str_eq id conflict_id)) snapshot.conflicts;
}
