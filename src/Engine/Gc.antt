-- ===== src/Engine/Gc.antt =====
-- packages/server/src/engine/yjs-gc.ts: which old versions of the rooms are collected, and a run of
-- the collection over the store of rooms. The timer of `start`, `stop` and `schedule` is left out.
use obsidian_baritone.Prelude.{
  ℕ, ◌+◌, Bool, true, false, Option, none, some, List, [], ◌∷◌, ◌++◌, JsString, ltb, if◌then◌else◌,
  str_eq, ◌otherwise◌, any, filter, sort,
}
use obsidian_baritone.Prelude.Maps.{JsMap, get, set, values}
use obsidian_baritone.Engine.Store.{key_of}
use obsidian_baritone.Engine.Rooms.RoomStore.{
  GcSnapshotRow, InMemoryYjsRoomStore, is_newer, list_snapshot_history_for_gc,
  prune_snapshot_history,
}
pub mod Current
pub mod History
pub mod Tests

-- `keep` is a `Set<string>`.
pub record Retention : Type 0 where
  pub keep : List JsString
  pub prune : List JsString

abbrev pub no_retention : Retention
no_retention = record { keep = []; prune = [] }

abbrev pub id_of : GcSnapshotRow → JsString
id_of row = row.metadata.version_id

abbrev pub has_id : List JsString → JsString → Bool
has_id keep id = any (λ other. str_eq other id) keep

-- `keep.add(id)`
abbrev pub add_id : JsString → List JsString → List JsString
add_id id keep = if has_id keep id then keep else keep ++ (id ∷ [])

abbrev pub group_key : GcSnapshotRow → JsString
group_key row = key_of row.vault_id row.metadata.file_id

unfoldable pub grouped :
    JsMap (List GcSnapshotRow) → List GcSnapshotRow → JsMap (List GcSnapshotRow)
grouped groups [] = groups
grouped groups (row ∷ rows) =
    grouped (set (group_key row) ((get (group_key row) groups otherwise []) ++ (row ∷ [])) groups)
      rows

unfoldable pub keep_current : List GcSnapshotRow → List JsString → List JsString
keep_current [] keep = keep
keep_current (row ∷ rows) keep = keep_current rows (add_id (id_of row) keep)

-- The versions of a group from the newest on, `retained` of which are kept so far.
unfoldable pub retain : ℕ → ℕ → List GcSnapshotRow → Retention → Retention
retain retained_per_file retained [] r = r
retain retained_per_file retained (row ∷ rows) r =
    let skipped = retain retained_per_file retained rows r in
    let kept =
      retain retained_per_file (retained + 1) rows
        (record r { keep = add_id (id_of row) r.keep }) in
    let pruned =
      retain retained_per_file retained rows (record r { prune = r.prune ++ (id_of row ∷ []) }) in
    if has_id r.keep (id_of row)
    then skipped
    else if ltb retained retained_per_file
    then kept
    else pruned

pub record YjsGcResult : Type 0 where
  pub history_pruned : ℕ
  pub snapshots_pruned : ℕ
  pub updates_pruned : ℕ

abbrev pub nothing_pruned : YjsGcResult
nothing_pruned = record { history_pruned = 0; snapshots_pruned = 0; updates_pruned = 0 }

pub record YjsGcJob : Type 0 where
  pub running : Bool
  pub store : InMemoryYjsRoomStore

-- `locale_lt` is `localeCompare` with a negative answer.
module _ (locale_lt : JsString → JsString → Bool) where
  abbrev pub newer_row : GcSnapshotRow → GcSnapshotRow → Bool
  newer_row a b = is_newer locale_lt a.metadata b.metadata

  abbrev pub retain_group : ℕ → List GcSnapshotRow → Retention → Retention
  retain_group retained_per_file group r =
      let sorted = sort newer_row group in
      retain retained_per_file 0 sorted
        (record r { keep = keep_current (filter (λ row. row.is_current) sorted) r.keep })

  unfoldable pub retain_groups : ℕ → List (List GcSnapshotRow) → Retention → Retention
  retain_groups retained_per_file [] r = r
  retain_groups retained_per_file (group ∷ groups) r =
      retain_groups retained_per_file groups (retain_group retained_per_file group r)

  unfoldable pub select_yjs_history_retention : List GcSnapshotRow → ℕ → Retention
  select_yjs_history_retention rows retained_per_file =
      retain_groups retained_per_file (values (grouped [] rows)) no_retention

  -- The in-memory store has no `pruneSupersededYjsData`, and its calls do not fail.
  unfoldable pub run_once : ℕ → YjsGcJob → YjsGcResult × YjsGcJob
  run_once retained_per_file job =
      let plan =
        select_yjs_history_retention (list_snapshot_history_for_gc job.store) retained_per_file in
      let (history_pruned, store) = prune_snapshot_history plan.prune job.store in
      if job.running then (nothing_pruned, job) else (
        record { history_pruned = history_pruned; snapshots_pruned = 0; updates_pruned = 0 },
        record { running = false; store = store },
      )

-- Opens the file's functions, for tests that run them.
unfoldable pub code : Unit {0}
unfolding grouped keep_current retain retain_groups select_yjs_history_retention run_once
code = tt
