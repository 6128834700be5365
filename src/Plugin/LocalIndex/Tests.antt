-- ===== src/Plugin/LocalIndex/Tests.antt =====
-- Tests of the index: an entry written to the empty one, another id removed.
use obsidian_baritone.Prelude.{◌≡◌, none, some, [], false, lit, str_eq, if◌then◌else◌, ◌otherwise◌}
use obsidian_baritone.Unicode.Samples.{plain_platform}
use obsidian_baritone.Path.{case_fold_path}
use obsidian_baritone.Protocol.{FileType}
use obsidian_baritone.Plugin.LocalIndex.{
  FileIndexEntry, LocalIndexSnapshot, default_snapshot, by_file_id, upsert_file, remove_file_id,
}
use obsidian_baritone.Plugin.LocalIndex.Laws.{by_file_id-writes}

abbrev entry : FileIndexEntry
entry = record {
  file_id = lit "f1";
  path = lit "a.md";
  path_normalized = lit "a.md";
  type = FileType.note;
  content_hash = none;
  size = 0;
  applied_content_vv = [];
  path_clock = none;
  is_dir = false;
  mtime = 0;
  deleted = false;
}

abbrev fresh : LocalIndexSnapshot
fresh = default_snapshot (lit "d1") none

by_file_id-writes_example :
    (by_file_id (lit "f1") (upsert_file plain_platform entry none fresh) ≡ (
      if str_eq (lit "f1") (lit "f1")
      then some (record entry {
        path_normalized = none otherwise case_fold_path plain_platform (lit "a.md");
      })
      else by_file_id (lit "f1") fresh))
    × (by_file_id (lit "f1") (remove_file_id (lit "f2") fresh)
        ≡ (if str_eq (lit "f2") (lit "f1") then none else by_file_id (lit "f1") fresh))
by_file_id-writes_example = by_file_id-writes plain_platform entry none (lit "f2") (lit "f1") fresh
