-- ===== src/Plugin/LocalIndex/Laws.antt =====
-- apps/plugin/src/localindex/index.ts: what the index finds after a write.
use obsidian_baritone.Prelude.{
  ◌≡◌, not, Option, none, some, List, [], ◌∷◌, JsString, if◌then◌else◌, str_eq, str_eq_iff, find,
  filter, arith, ◌otherwise◌,
}
use obsidian_baritone.Unicode.{Platform}
use obsidian_baritone.Path.{case_fold_path}
use obsidian_baritone.Plugin.LocalIndex.{
  FileIndexEntry, LocalIndexSnapshot, put_file, upsert_file, by_file_id, remove_file_id,
}

find-put_file :
    (next : FileIndexEntry) (id : JsString) (files : List FileIndexEntry)
    → find (λ e. str_eq e.file_id id) (put_file next files)
      ≡ (if str_eq next.file_id id then some next else find (λ e. str_eq e.file_id id) files)
unfolding put_file
find-put_file next id [] = ground arith
find-put_file next id (item ∷ files) = ground (
  arith,
  str_eq_iff item.file_id next.file_id,
  str_eq_iff next.file_id id,
  str_eq_iff item.file_id id,
  find-put_file next id files,
)

find-filter :
    (gone id : JsString) (files : List FileIndexEntry)
    → find (λ e. str_eq e.file_id id) (filter (λ e. not (str_eq e.file_id gone)) files)
      ≡ (if str_eq gone id then none else find (λ e. str_eq e.file_id id) files)
find-filter gone id [] = ground arith
find-filter gone id (item ∷ files) = ground (
  arith,
  str_eq_iff item.file_id gone,
  str_eq_iff gone id,
  str_eq_iff item.file_id id,
  find-filter gone id files,
)

-- After `upsertFile` the file's id finds the new entry, with the folded path where none was given,
-- and every other id finds what it found before. After `removeFileId` the id finds nothing, and
-- every other id finds what it found before.
pub by_file_id-writes :
    (os : Platform) (entry : FileIndexEntry) (normalized : Option JsString) (gone id : JsString)
    (s : LocalIndexSnapshot)
    → (by_file_id id (upsert_file os entry normalized s) ≡ (
        if str_eq entry.file_id id
        then some
            (record entry { path_normalized = normalized otherwise case_fold_path os entry.path })
        else by_file_id id s))
      × (by_file_id id (remove_file_id gone s) ≡ (if str_eq gone id then none else by_file_id id s))
unfolding by_file_id upsert_file remove_file_id
by_file_id-writes os entry normalized gone id s =
    (find-put_file _ id s.files, find-filter gone id s.files)
