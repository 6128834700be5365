-- ===== src/Plugin/ForceSync.antt =====
-- apps/plugin/src/sync/force-sync.ts. `newFileId()` is a supply of ids; its n-th call gives the n-th.
pub mod Served
pub mod Plans
pub mod Tests
use obsidian_baritone.Prelude.{
  ℕ, zero, suc, ◌+◌, Bool, true, false, not, ◌&&◌, ◌||◌, Option, none, some, List, [], ◌∷◌, ◌++◌,
  JsString, if◌then◌else◌, str_eq, opt_eq, any, filter, map, nonempty, is_some,
}
use obsidian_baritone.Prelude.Maps.{JsMap, get, set}
use obsidian_baritone.Clock.VersionVector.{VersionVector}
use obsidian_baritone.Unicode.{Platform}
use obsidian_baritone.Path.{case_fold_path}
use obsidian_baritone.Protocol.{FileType}

pub record LocalFileSnapshot : Type 0 where
  pub path : JsString
  pub hash : JsString
  pub type : FileType
  pub file_id : Option JsString

pub record RemoteFileSnapshot : Type 0 where
  pub file_id : JsString
  pub path : JsString
  pub content_hash : Option JsString
  pub content_vv : VersionVector
  pub type : FileType

pub data ContentMode : Type 0 where
  create : ContentMode
  update : ContentMode

pub data ForcePushAction : Type 0 where
  content : ContentMode → JsString → JsString → FileType → VersionVector → ForcePushAction
  delete : JsString → JsString → FileType → ForcePushAction

pub record ForcePushAdoption : Type 0 where
  pub path : JsString
  pub old_file_id : Option JsString
  pub new_file_id : JsString

pub record ForcePushPlan : Type 0 where
  pub actions : List ForcePushAction
  pub adoptions : List ForcePushAdoption

-- `remoteFileIds.has(fileId)`
abbrev pub has_file_id : List RemoteFileSnapshot → JsString → Bool
has_file_id remote file_id = any (λ entry. str_eq entry.file_id file_id) remote

-- The actions for a local file that the remote vault has at its path, and the adoption of its id.
unfoldable pub update_actions : LocalFileSnapshot → RemoteFileSnapshot → List ForcePushAction
update_actions file match =
    if opt_eq match.content_hash (some file.hash)
    then []
    else content update match.file_id file.path file.type match.content_vv ∷ []

unfoldable pub adoptions_of : LocalFileSnapshot → RemoteFileSnapshot → List ForcePushAdoption
adoptions_of file match =
    let adoption : ForcePushAdoption = record {
      path = file.path;
      old_file_id = file.file_id;
      new_file_id = match.file_id;
    } in
    if opt_eq file.file_id (some match.file_id) then [] else adoption ∷ []

-- The id that a local file keeps when it is created, if it has one that is free.
unfoldable pub kept_file_id : List RemoteFileSnapshot → Option JsString → Option JsString
kept_file_id remote none = none
kept_file_id remote (some file_id) =
    if nonempty file_id && not (has_file_id remote file_id) then some file_id else none

module _ (os : Platform) where
  -- The loop over the remote files that fills `remoteByPath`; of two files on one path the later wins.
  unfoldable pub index_remote :
      List RemoteFileSnapshot → JsMap RemoteFileSnapshot → JsMap RemoteFileSnapshot
  index_remote [] m = m
  index_remote (entry ∷ remote) m = index_remote remote (set (case_fold_path os entry.path) entry m)

  -- `localPaths.has(path)` and `remotePaths.has(path)`, for a folded path
  abbrev pub has_local_path : List LocalFileSnapshot → JsString → Bool
  has_local_path files folded = any (λ file. str_eq (case_fold_path os file.path) folded) files

  abbrev pub has_remote_path : List RemoteFileSnapshot → JsString → Bool
  has_remote_path remote folded = any (λ entry. str_eq (case_fold_path os entry.path) folded) remote

  -- The loop over the local files, after `n` calls of `newFileId`.
  unfoldable pub plan_local :
      List RemoteFileSnapshot
      → JsMap RemoteFileSnapshot
      → (ℕ → JsString)
      → ℕ
      → List LocalFileSnapshot
      → ForcePushPlan
  plan_local remote by_path new_file_id n [] = record { actions = []; adoptions = [] }
  plan_local remote by_path new_file_id n (file ∷ files) =
      elim (get (case_fold_path os file.path) by_path) [
        | some match ↦
            let rest = plan_local remote by_path new_file_id n files in
            record {
              actions = update_actions file match ++ rest.actions;
              adoptions = adoptions_of file match ++ rest.adoptions;
            }
        | none ↦ elim (kept_file_id remote file.file_id) [
          | some file_id ↦
              let rest = plan_local remote by_path new_file_id n files in
              record {
                actions = content create file_id file.path file.type [] ∷ rest.actions;
                adoptions = rest.adoptions;
              }
          | none ↦
              let rest = plan_local remote by_path new_file_id (n + 1) files in
              record {
                actions = content create (new_file_id n) file.path file.type [] ∷ rest.actions;
                adoptions = rest.adoptions;
              }
        ]
      ]

  -- The loop that deletes the remote files whose path is no local one.
  unfoldable pub plan_deletes :
      List LocalFileSnapshot → List RemoteFileSnapshot → List ForcePushAction
  plan_deletes files [] = []
  plan_deletes files (entry ∷ remote) =
      let rest = plan_deletes files remote in
      if not (has_local_path files (case_fold_path os entry.path))
      then delete entry.file_id entry.path entry.type ∷ rest
      else rest

  unfoldable pub plan_force_push :
      List LocalFileSnapshot → List RemoteFileSnapshot → (ℕ → JsString) → ForcePushPlan
  plan_force_push files remote new_file_id =
      let plan = plan_local remote (index_remote remote []) new_file_id 0 files in
      record { actions = plan.actions ++ plan_deletes files remote; adoptions = plan.adoptions }

  unfoldable pub plan_force_pull_strays : List JsString → List RemoteFileSnapshot → List JsString
  plan_force_pull_strays local_paths remote =
      filter (λ path. not (has_remote_path remote (case_fold_path os path))) local_paths
