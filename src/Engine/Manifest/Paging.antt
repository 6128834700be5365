-- ===== src/Engine/Manifest/Paging.antt =====
-- `listManifest` of packages/server/src/engine/store.ts: what a page leaves for the next ones.
use obsidian_baritone.Prelude.{
  ℕ, zero, suc, ◌<◌, ◌≤◌, ◌≡◌, refl, sym, Bool, true, false, Option, none, some, List, [], ◌∷◌, ltb,
  str_eq_iff, str_lt_trans, str_lt_irrefl, filter, take, length, if◌then◌else◌, All,
  length-filter-le, Bool-cases, inl, inr, arith,
}
use mathlib.Core.Option.{some_inj, none-ne-some}
use obsidian_baritone.Engine.Store.{StoredFile}
use obsidian_baritone.Engine.Manifest.{
  ManifestCursor, cursor_of, last, is_after, remaining, next_cursor,
}

module _ {A : Type 0} (p : A → Bool) where
  filter-All : (xs : List A) → All (λ x. p x ≡ true) (filter p xs)
  filter-All [] = tt
  filter-All (x ∷ xs) = elim (Bool-cases (p x)) [
    | inl e ↦ rw e (e, filter-All xs)
    | inr e ↦ rw e (filter-All xs)
  ]

  filter-narrower :
      (q : A → Bool) (xs : List A)
      → ((x : A) → q x ≡ true → p x ≡ true)
      → filter q (filter p xs) ≡ filter q xs
  filter-narrower q [] h = refl
  filter-narrower q (x ∷ xs) h = ground (arith, filter-narrower q xs h, h x)

module _ {A : Type 0} (P : A → Type 0) where
  pub take-All : (n : ℕ) (xs : List A) → All P xs → All P (take n xs)
  take-All zero xs h = tt
  take-All (suc n) [] h = tt
  take-All (suc n) (x ∷ xs) h = (h.0, take-All n xs h.1)

  pub last-All : (xs : List A) (x : A) → All P xs → last xs ≡ some x → P x
  last-All [] x h e = absurd (none-ne-some x e)
  last-All (y ∷ []) x h e = rw (← some_inj.0 e) (h.0)
  last-All (y ∷ z ∷ xs) x h e = last-All (z ∷ xs) x h.1 e

module _ {A : Type 0} (q : A → Bool) where
  length-filter_cons :
      (x : A) (xs : List A) → length (filter q (x ∷ xs)) ≤ suc (length (filter q xs))
  length-filter_cons x xs = elim (Bool-cases (q x)) [
    | inl e ↦ rw e (omega arith)
    | inr e ↦ rw e (omega arith)
  ]

  -- An element of the list that the filter drops makes it shorter.
  length-filter_lt :
      (n : ℕ) (xs : List A) (x : A)
      → last (take n xs) ≡ some x
      → q x ≡ false
      → length (filter q xs) < length xs
  length-filter_lt zero xs x e d = absurd (none-ne-some x e)
  length-filter_lt (suc n) [] x e d = absurd (none-ne-some x e)
  length-filter_lt (suc zero) (y ∷ ys) x e d =
      let dropped : q y ≡ false = rw (some_inj.0 e) d in
      rw dropped (omega (arith, length-filter-le q ys))
  length-filter_lt (suc (suc n)) (y ∷ []) x e d =
      let dropped : q y ≡ false = rw (some_inj.0 e) d in rw dropped (omega arith)
  length-filter_lt (suc (suc n)) (y ∷ z ∷ ys) x e d =
      let shorter = length-filter_lt (suc n) (z ∷ ys) x e d in
      omega (arith, shorter, length-filter_cons y (z ∷ ys))

pub is_after_trans :
    (c : ManifestCursor) (f g : StoredFile)
    → is_after c f ≡ true
    → is_after (cursor_of f) g ≡ true
    → is_after c g ≡ true
unfolding is_after
is_after_trans c f g h k = ground (
  arith,
  str_lt_trans c.path_normalized f.path_normalized g.path_normalized,
  str_lt_trans c.file_id f.file_id g.file_id,
  str_eq_iff f.path_normalized c.path_normalized,
  str_eq_iff g.path_normalized f.path_normalized,
  str_eq_iff g.path_normalized c.path_normalized,
)

pub is_after_irrefl : (f : StoredFile) → is_after (cursor_of f) f ≡ false
unfolding is_after
is_after_irrefl f = ground (arith, str_lt_irrefl f.path_normalized, str_lt_irrefl f.file_id)

-- The cursor that a page leaves is that of a file which stood after the cursor of the page.
pub next_cursor-last :
    (limit : ℕ) (files : List StoredFile) (c : ManifestCursor)
    → next_cursor limit files ≡ some c
    → (f : StoredFile) × (last (take limit files) ≡ some f) × (c ≡ cursor_of f)
next_cursor-last limit files c e = from_last (last (take limit files)) refl e
  where
    from_last :
        (o : Option StoredFile)
        → last (take limit files) ≡ o
        → (elim o [
          | none ↦ none
          | some f ↦ if ltb limit (length files) then some (cursor_of f) else none
        ])
          ≡ some c
        → (f : StoredFile) × (last (take limit files) ≡ some f) × (c ≡ cursor_of f)
    from_last none l h = absurd (none-ne-some c h)
    from_last (some f) l h = elim (Bool-cases (ltb limit (length files))) [
      | inl t ↦ (f, l, sym (some_inj.0 (rw t at h)))
      | inr t ↦ absurd (none-ne-some c (rw t at h))
    ]

module _ (limit : ℕ) (files : List StoredFile) (c : ManifestCursor) where
  -- What remains after a page is found among what remained before it.
  pub remaining-next :
      (from : Option ManifestCursor)
      → next_cursor limit (remaining from files) ≡ some c
      → remaining (some c) files ≡ filter (is_after c) (remaining from files)
  remaining-next none e = refl
  remaining-next (some b) e =
      let (f, l, same) = next_cursor-last limit (filter (is_after b) files) c e in
      let after : is_after b f ≡ true =
        last-All (λ g. is_after b g ≡ true) (take limit (filter (is_after b) files)) f
          (take-All (λ g. is_after b g ≡ true) limit (filter (is_after b) files)
            (filter-All (is_after b) files))
          l in
      sym (
        filter-narrower (is_after b) (is_after c) files
          (λ g k. is_after_trans b f g after (rw same at k)))

  -- With a next cursor, less remains.
  pub remaining-shrinks :
      (from : Option ManifestCursor)
      → next_cursor limit (remaining from files) ≡ some c
      → length (remaining (some c) files) < length (remaining from files)
  remaining-shrinks from e =
      let (f, l, same) = next_cursor-last limit (remaining from files) c e in
      let own : is_after c f ≡ false = rw same (is_after_irrefl f) in
      rw (remaining-next from e)
        (length-filter_lt (is_after c) limit (remaining from files) f l own)
