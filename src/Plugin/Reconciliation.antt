-- ===== src/Plugin/Reconciliation.antt =====
-- apps/plugin/src/watcher/reconciliation.ts: the plan that brings the index in line with the disk.
-- A `Map` made from pairs keeps the last entry of a key, and a `Set` is a list here.
use obsidian_baritone.Prelude.{
  ℕ, Bool, not, ◌||◌, ◌==◌, Option, none, some, List, [], ◌∷◌, ◌++◌, JsString, if◌then◌else◌,
  str_eq, opt_eq, any, find, filter, nonempty, is_some, ◌otherwise◌,
}
use obsidian_baritone.Prelude.Maps.{JsMap, get, set}

pub record IndexedFileSnapshot : Type 0 where
  pub file_id : JsString
  pub path : JsString
  pub content_hash : Option JsString
  pub mtime : ℕ
  pub size : ℕ

pub record DiskFileSnapshot : Type 0 where
  pub path : JsString
  pub content_hash : JsString
  pub mtime : ℕ
  pub size : ℕ

pub record PlannedUpdate : Type 0 where
  pub indexed : IndexedFileSnapshot
  pub disk : DiskFileSnapshot

pub record PlannedRename : Type 0 where
  pub file_id : JsString
  pub old_path : JsString
  pub new_path : JsString
  pub content_hash : JsString

pub record ReconciliationPlan : Type 0 where
  pub creates : List DiskFileSnapshot
  pub updates : List PlannedUpdate
  pub deletes : List IndexedFileSnapshot
  pub renames : List PlannedRename

abbrev pub indexed_by_path :
    List IndexedFileSnapshot → JsMap IndexedFileSnapshot → JsMap IndexedFileSnapshot
indexed_by_path [] m = m
indexed_by_path (entry ∷ entries) m = indexed_by_path entries (set entry.path entry m)

abbrev pub on_disk : List DiskFileSnapshot → JsString → Bool
on_disk disk path = any (λ entry. str_eq entry.path path) disk

abbrev pub contains : List JsString → JsString → Bool
contains paths path = any (λ p. str_eq p path) paths

-- The loop that fills `missingByHash`.
unfoldable pub missing_by_hash :
    List IndexedFileSnapshot → JsMap (List IndexedFileSnapshot) → JsMap (List IndexedFileSnapshot)
missing_by_hash [] m = m
missing_by_hash (item ∷ missing) m = missing_by_hash missing (elim item.content_hash [
  | none ↦ m
  | some hash ↦ if nonempty hash then set hash ((get hash m otherwise []) ++ (item ∷ [])) m else m
])

-- What the loop over the appearing files has made so far.
pub record Matched : Type 0 where
  pub renames : List PlannedRename
  pub consumed_missing : List JsString
  pub consumed_appearing : List JsString

unfoldable pub match_one : JsMap (List IndexedFileSnapshot) → DiskFileSnapshot → Matched → Matched
match_one by_hash candidate matched =
    elim (find (λ entry. not (contains matched.consumed_missing entry.path))
      (get candidate.content_hash by_hash otherwise [])) [
        | none ↦ matched
        | some match ↦ record {
          renames =
              matched.renames
              ++ (record {
                file_id = match.file_id;
                old_path = match.path;
                new_path = candidate.path;
                content_hash = candidate.content_hash;
              }
                  ∷ []);
          consumed_missing = match.path ∷ matched.consumed_missing;
          consumed_appearing = candidate.path ∷ matched.consumed_appearing;
        }
      ]

unfoldable pub match_all :
    JsMap (List IndexedFileSnapshot) → List DiskFileSnapshot → Matched → Matched
match_all by_hash [] matched = matched
match_all by_hash (candidate ∷ appearing) matched =
    match_all by_hash appearing (match_one by_hash candidate matched)

unfoldable pub planned_updates :
    JsMap IndexedFileSnapshot → List DiskFileSnapshot → List PlannedUpdate
planned_updates by_path [] = []
planned_updates by_path (disk ∷ rest) =
    let more = planned_updates by_path rest in
    elim (get disk.path by_path) [
      | none ↦ more
      | some indexed ↦
          if not (opt_eq indexed.content_hash (some disk.content_hash))
            || not (indexed.size == disk.size)
          then (record { indexed = indexed; disk = disk }) ∷ more
          else more
    ]

unfoldable pub plan_reconciliation :
    List IndexedFileSnapshot → List DiskFileSnapshot → ReconciliationPlan
plan_reconciliation indexed disk =
    let by_path = indexed_by_path indexed [] in
    let missing = filter (λ entry. not (on_disk disk entry.path)) indexed in
    let appearing = filter (λ entry. not (is_some (get entry.path by_path))) disk in
    let none_yet : Matched = record {
      renames = [];
      consumed_missing = [];
      consumed_appearing = [];
    } in
    let matched = match_all (missing_by_hash missing []) appearing none_yet in
    record {
      creates = filter (λ entry. not (contains matched.consumed_appearing entry.path)) appearing;
      updates = planned_updates by_path disk;
      deletes = filter (λ entry. not (contains matched.consumed_missing entry.path)) missing;
      renames = matched.renames;
    }
