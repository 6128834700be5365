-- ===== src/Plugin/ForceSync/Tests.antt =====
-- Tests of a force push: one file to create, one to delete.
use obsidian_baritone.Prelude.{ℕ, none, some, List, [], ◌∷◌, All, JsString, lit}
use obsidian_baritone.Protocol.{FileType}
use obsidian_baritone.Unicode.Samples.{plain_platform}
use obsidian_baritone.Plugin.ForceSync.{
  LocalFileSnapshot, RemoteFileSnapshot, index_remote, plan_force_push,
}
use obsidian_baritone.Plugin.ForceSync.Served.{Served}
use obsidian_baritone.Plugin.ForceSync.Plans.{Deleted, Spares, plan_force_push-mirrors}

abbrev files : List LocalFileSnapshot
files = (record { path = lit "a.md"; hash = lit "h1"; type = FileType.note; file_id = none }) ∷ []

abbrev remote : List RemoteFileSnapshot
remote =
    (record {
      file_id = lit "f2";
      path = lit "b.md";
      content_hash = some (lit "h2");
      content_vv = [];
      type = FileType.note;
    })
    ∷ []

abbrev new_id : ℕ → JsString
new_id n = lit "new"

plan_force_push-mirrors_example :
    All
      (Served plain_platform
        (index_remote plain_platform remote [])
        (plan_force_push plain_platform files remote new_id).actions)
      files
    × All
        (Deleted plain_platform files (plan_force_push plain_platform files remote new_id).actions)
        remote
    × All (Spares plain_platform files) (plan_force_push plain_platform files remote new_id).actions
plan_force_push-mirrors_example = plan_force_push-mirrors plain_platform files remote new_id
