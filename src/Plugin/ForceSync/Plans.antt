-- ===== src/Plugin/ForceSync/Plans.antt =====
-- apps/plugin/src/sync/force-sync.ts: what a force push writes and deletes.
use mathlib.Core.Path.{subst⁻¹}
use obsidian_baritone.Prelude.{
  ℕ, ◌+◌, ◌≡◌, refl, sym, ◌∙◌, true, false, some, List, [], ◌∷◌, ◌++◌, All, All-append, All-map,
  JsString, str_eq_refl, opt_eq, any, Bool-cases, Option-cases, inl, inr,
}
use obsidian_baritone.Prelude.Maps.{JsMap, get}
use obsidian_baritone.Unicode.{Platform}
use obsidian_baritone.Path.{case_fold_path}
use obsidian_baritone.Plugin.ForceSync.{
  LocalFileSnapshot, RemoteFileSnapshot, ForcePushAction, content, delete, index_remote,
  has_local_path, update_actions, kept_file_id, plan_local, plan_deletes, plan_force_push,
}
use obsidian_baritone.Plugin.ForceSync.Served.{
  deletes_file, Served, any-right, Served-left, plan_local-match, plan_local-kept, plan_local-fresh,
  plan_local-Served,
}

module _ (os : Platform) where
  abbrev pub Deleted : List LocalFileSnapshot → List ForcePushAction → RemoteFileSnapshot → Type 0
  Deleted files actions entry =
      has_local_path os files (case_fold_path os entry.path) ≡ false
      → any (deletes_file entry.file_id entry.path) actions ≡ true

  Deleted-right :
      (files : List LocalFileSnapshot) (xs ys : List ForcePushAction) (entry : RemoteFileSnapshot)
      → Deleted files ys entry
      → Deleted files (xs ++ ys) entry
  Deleted-right files xs ys entry h out =
      any-right (deletes_file entry.file_id entry.path) xs ys (h out)

  plan_deletes-in :
      (files : List LocalFileSnapshot) (entry : RemoteFileSnapshot)
      (remote : List RemoteFileSnapshot)
      → has_local_path os files (case_fold_path os entry.path) ≡ true
      → plan_deletes os files (entry ∷ remote) ≡ plan_deletes os files remote
  unfolding plan_deletes
  plan_deletes-in files entry remote e = rw e refl

  plan_deletes-out :
      (files : List LocalFileSnapshot) (entry : RemoteFileSnapshot)
      (remote : List RemoteFileSnapshot)
      → has_local_path os files (case_fold_path os entry.path) ≡ false
      → plan_deletes os files (entry ∷ remote)
        ≡ delete entry.file_id entry.path entry.type ∷ plan_deletes os files remote
  unfolding plan_deletes
  plan_deletes-out files entry remote e = rw e refl

  Deleted-in :
      (files : List LocalFileSnapshot) (actions : List ForcePushAction) (entry : RemoteFileSnapshot)
      → has_local_path os files (case_fold_path os entry.path) ≡ true
      → Deleted files actions entry
  Deleted-in files actions entry e out = absurd (let q = sym e ∙ out in cc)

  Deleted-out :
      (files : List LocalFileSnapshot) (actions : List ForcePushAction) (entry : RemoteFileSnapshot)
      → Deleted files (delete entry.file_id entry.path entry.type ∷ actions) entry
  Deleted-out files actions entry out = simp str_eq_refl

  plan_deletes-Deleted :
      (files : List LocalFileSnapshot) (remote : List RemoteFileSnapshot)
      → All (Deleted files (plan_deletes os files remote)) remote
  plan_deletes-Deleted files [] = tt
  plan_deletes-Deleted files (entry ∷ remote) =
      let rest = plan_deletes-Deleted files remote in
      elim (Bool-cases (has_local_path os files (case_fold_path os entry.path))) [
        | inl e ↦
            subst⁻¹ (λ acts. All (Deleted files acts) (entry ∷ remote))
              (plan_deletes-in files entry remote e)
              (Deleted-in files (plan_deletes os files remote) entry e, rest)
        | inr e ↦
            subst⁻¹ (λ acts. All (Deleted files acts) (entry ∷ remote))
              (plan_deletes-out files entry remote e)
              (
                Deleted-out files (plan_deletes os files remote) entry,
                All-map
                    (Deleted-right files (delete entry.file_id entry.path entry.type ∷ [])
                      (plan_deletes os files remote))
                    remote rest,
              )
      ]

  abbrev pub Spares : List LocalFileSnapshot → ForcePushAction → Type 0
  Spares files (content mode id at type vv) = Unit
  Spares files (delete id at type) = has_local_path os files (case_fold_path os at) ≡ false

  plan_deletes-Spares :
      (files : List LocalFileSnapshot) (remote : List RemoteFileSnapshot)
      → All (Spares files) (plan_deletes os files remote)
  unfolding plan_deletes
  plan_deletes-Spares files [] = tt
  plan_deletes-Spares files (entry ∷ remote) =
      elim (Bool-cases (has_local_path os files (case_fold_path os entry.path))) [
        | inl e ↦ rw e (plan_deletes-Spares files remote)
        | inr e ↦ rw e (e, plan_deletes-Spares files remote)
      ]

  update_actions-Spares :
      (all_files : List LocalFileSnapshot) (f : LocalFileSnapshot) (r : RemoteFileSnapshot)
      → All (Spares all_files) (update_actions f r)
  unfolding update_actions
  update_actions-Spares all_files f r = elim (Bool-cases (opt_eq r.content_hash (some f.hash))) [
    | inl e ↦ rw e tt
    | inr e ↦ rw e (tt, tt)
  ]

  plan_local-Spares :
      (remote : List RemoteFileSnapshot) (by_path : JsMap RemoteFileSnapshot)
      (new_file_id : ℕ → JsString) (n : ℕ) (files all_files : List LocalFileSnapshot)
      → All (Spares all_files) (plan_local os remote by_path new_file_id n files).actions
  plan_local-Spares remote by_path new_file_id n [] all_files = unfold plan_local in tt
  plan_local-Spares remote by_path new_file_id n (file ∷ files) all_files =
      elim (Option-cases (get (case_fold_path os file.path) by_path)) [
        | inr (match, e) ↦
            subst⁻¹ (All (Spares all_files))
              (plan_local-match os remote by_path new_file_id n file files match e)
              (All-append (Spares all_files) (update_actions file match) _
                (update_actions-Spares all_files file match)
                (plan_local-Spares remote by_path new_file_id n files all_files))
        | inl e ↦ elim (Option-cases (kept_file_id remote file.file_id)) [
          | inl t ↦
              subst⁻¹ (All (Spares all_files))
                (plan_local-fresh os remote by_path new_file_id n file files e t)
                (tt, plan_local-Spares remote by_path new_file_id (n + 1) files all_files)
          | inr (id, t) ↦
              subst⁻¹ (All (Spares all_files))
                (plan_local-kept os remote by_path new_file_id n file files id e t)
                (tt, plan_local-Spares remote by_path new_file_id n files all_files)
        ]
      ]

-- A force push leaves nothing out and deletes nothing that is local. Every local file has its
-- content on the remote file that the plan finds at its path, or an action that writes its path.
-- Every remote file whose path is that of no local file, up to case, has an action that deletes it.
-- No action deletes a file whose path is that of a local file, up to case.
pub plan_force_push-mirrors :
    (os : Platform) (files : List LocalFileSnapshot) (remote : List RemoteFileSnapshot)
    (new_file_id : ℕ → JsString)
    → All
        (Served os
          (index_remote os remote [])
          (plan_force_push os files remote new_file_id).actions)
        files
      × All (Deleted os files (plan_force_push os files remote new_file_id).actions) remote
      × All (Spares os files) (plan_force_push os files remote new_file_id).actions
unfolding plan_force_push
plan_force_push-mirrors os files remote new_file_id =
    let by_path = index_remote os remote [] in
    let writes = (plan_local os remote by_path new_file_id 0 files).actions in
    let deletes = plan_deletes os files remote in
    (
      All-map (Served-left os by_path writes deletes) files
          (plan_local-Served os remote by_path new_file_id 0 files),
      All-map (Deleted-right os files writes deletes) remote (plan_deletes-Deleted os files remote),
      All-append (Spares os files) writes deletes
          (plan_local-Spares os remote by_path new_file_id 0 files files)
          (plan_deletes-Spares os files remote),
    )
