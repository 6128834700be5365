-- ===== src/Plugin/ForceSync/Served.antt =====
-- apps/plugin/src/sync/force-sync.ts: a force push leaves no local file out.
use mathlib.Core.Path.{subst⁻¹}
use obsidian_baritone.Prelude.{
  ℕ, ◌+◌, ◌≡◌, refl, Bool, true, false, ◌&&◌, Option, none, some, List, [], ◌∷◌, ◌++◌, All, All-map,
  JsString, str_eq, str_eq_refl, opt_eq, any, Bool-cases, Option-cases, ◌⊎◌, inl, inr, arith,
}
use obsidian_baritone.Prelude.Maps.{JsMap, get}
use obsidian_baritone.Unicode.{Platform}
use obsidian_baritone.Path.{case_fold_path}
use obsidian_baritone.Plugin.ForceSync.{
  LocalFileSnapshot, RemoteFileSnapshot, ForcePushAction, content, delete, update_actions,
  kept_file_id, plan_local, create,
}

-- An action that writes the content of a path; one that deletes a file.
abbrev pub writes_path : JsString → ForcePushAction → Bool
writes_path path (content mode file_id at type vv) = str_eq at path
writes_path path (delete file_id at type) = false

abbrev pub deletes_file : JsString → JsString → ForcePushAction → Bool
deletes_file file_id path (content mode id at type vv) = false
deletes_file file_id path (delete id at type) = str_eq id file_id && str_eq at path

module _ {A : Type 0} (p : A → Bool) where
  any-left : (xs ys : List A) → any p xs ≡ true → any p (xs ++ ys) ≡ true
  any-left [] ys h = absurd (cc)
  any-left (x ∷ xs) ys h = ground (arith, any-left xs ys)

  pub any-right : (xs ys : List A) → any p ys ≡ true → any p (xs ++ ys) ≡ true
  any-right [] ys h = h
  any-right (x ∷ xs) ys h = ground (arith, any-right xs ys h)

-- The remote file on a path has the wanted content already.
abbrev pub is_current : Option RemoteFileSnapshot → JsString → Bool
is_current none hash = false
is_current (some entry) hash = opt_eq entry.content_hash (some hash)

module _ (os : Platform) where
  abbrev pub Served : JsMap RemoteFileSnapshot → List ForcePushAction → LocalFileSnapshot → Type 0
  Served by_path actions file =
      (is_current (get (case_fold_path os file.path) by_path) file.hash ≡ true)
      ⊎ (any (writes_path file.path) actions ≡ true)

  Served-right :
      (by_path : JsMap RemoteFileSnapshot) (xs ys : List ForcePushAction) (file : LocalFileSnapshot)
      → Served by_path ys file
      → Served by_path (xs ++ ys) file
  Served-right by_path xs ys file (inl e) = inl e
  Served-right by_path xs ys file (inr e) = inr (any-right (writes_path file.path) xs ys e)

  pub Served-left :
      (by_path : JsMap RemoteFileSnapshot) (xs ys : List ForcePushAction) (file : LocalFileSnapshot)
      → Served by_path xs file
      → Served by_path (xs ++ ys) file
  Served-left by_path xs ys file (inl e) = inl e
  Served-left by_path xs ys file (inr e) = inr (any-left (writes_path file.path) xs ys e)

  Served-match :
      (by_path : JsMap RemoteFileSnapshot) (file : LocalFileSnapshot) (match : RemoteFileSnapshot)
      → get (case_fold_path os file.path) by_path ≡ some match
      → Served by_path (update_actions file match) file
  unfolding update_actions
  Served-match by_path file match e =
      elim (Bool-cases (opt_eq match.content_hash (some file.hash))) [
        | inl t ↦ inl (rw e t)
        | inr t ↦ inr (rw t (simp str_eq_refl))
      ]

  serve :
      (by_path : JsMap RemoteFileSnapshot) (actions xs ys : List ForcePushAction)
      (file : LocalFileSnapshot) (files : List LocalFileSnapshot)
      → actions ≡ xs ++ ys
      → Served by_path xs file
      → All (Served by_path ys) files
      → All (Served by_path actions) (file ∷ files)
  serve by_path actions xs ys file files e first rest =
      subst⁻¹ (λ acts. All (Served by_path acts) (file ∷ files)) e
        (Served-left by_path xs ys file first, All-map (Served-right by_path xs ys) files rest)

  pub plan_local-match :
      (remote : List RemoteFileSnapshot) (by_path : JsMap RemoteFileSnapshot)
      (new_file_id : ℕ → JsString) (n : ℕ) (file : LocalFileSnapshot)
      (files : List LocalFileSnapshot) (match : RemoteFileSnapshot)
      → get (case_fold_path os file.path) by_path ≡ some match
      → (plan_local os remote by_path new_file_id n (file ∷ files)).actions
        ≡ update_actions file match ++ (plan_local os remote by_path new_file_id n files).actions
  unfolding plan_local
  plan_local-match remote by_path new_file_id n file files match e = rw (e, plan_local) refl

  pub plan_local-kept :
      (remote : List RemoteFileSnapshot) (by_path : JsMap RemoteFileSnapshot)
      (new_file_id : ℕ → JsString) (n : ℕ) (file : LocalFileSnapshot)
      (files : List LocalFileSnapshot) (id : JsString)
      → get (case_fold_path os file.path) by_path ≡ none
      → kept_file_id remote file.file_id ≡ some id
      → (plan_local os remote by_path new_file_id n (file ∷ files)).actions
        ≡ content create id file.path file.type []
          ∷ (plan_local os remote by_path new_file_id n files).actions
  unfolding plan_local
  plan_local-kept remote by_path new_file_id n file files id e t = rw (e, plan_local, t) refl

  pub plan_local-fresh :
      (remote : List RemoteFileSnapshot) (by_path : JsMap RemoteFileSnapshot)
      (new_file_id : ℕ → JsString) (n : ℕ) (file : LocalFileSnapshot)
      (files : List LocalFileSnapshot)
      → get (case_fold_path os file.path) by_path ≡ none
      → kept_file_id remote file.file_id ≡ none
      → (plan_local os remote by_path new_file_id n (file ∷ files)).actions
        ≡ content create (new_file_id n) file.path file.type []
          ∷ (plan_local os remote by_path new_file_id (n + 1) files).actions
  unfolding plan_local
  plan_local-fresh remote by_path new_file_id n file files e t = rw (e, plan_local, t) refl

  pub plan_local-Served :
      (remote : List RemoteFileSnapshot) (by_path : JsMap RemoteFileSnapshot)
      (new_file_id : ℕ → JsString) (n : ℕ) (files : List LocalFileSnapshot)
      → All (Served by_path (plan_local os remote by_path new_file_id n files).actions) files
  plan_local-Served remote by_path new_file_id n [] = tt
  plan_local-Served remote by_path new_file_id n (file ∷ files) =
      elim (Option-cases (get (case_fold_path os file.path) by_path)) [
        | inr (match, e) ↦
            serve by_path _ (update_actions file match) _ file files
              (plan_local-match remote by_path new_file_id n file files match e)
              (Served-match by_path file match e)
              (plan_local-Served remote by_path new_file_id n files)
        | inl e ↦ elim (Option-cases (kept_file_id remote file.file_id)) [
          | inl t ↦
              serve by_path _ (content create (new_file_id n) file.path file.type [] ∷ []) _ file
                files (plan_local-fresh remote by_path new_file_id n file files e t)
                (inr (simp str_eq_refl))
                (plan_local-Served remote by_path new_file_id (n + 1) files)
          | inr (id, t) ↦
              serve by_path _ (content create id file.path file.type [] ∷ []) _ file files
                (plan_local-kept remote by_path new_file_id n file files id e t)
                (inr (simp str_eq_refl)) (plan_local-Served remote by_path new_file_id n files)
        ]
      ]
