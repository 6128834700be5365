-- ===== src/Plugin/Outbox/Kept.antt =====
-- Entries of a map, as a list that is sorted and filtered, and the entries that a deletion leaves.
use obsidian_baritone.Prelude.{
  ◌≡◌, refl, ◌∙◌, Bool, true, false, none, some, List, [], ◌∷◌, All, All-map, JsString, ltb, filter,
  any, sort, insert_sorted, Bool-cases, inl, inr, arith, str_eq_iff, str_eq_refl,
}
use obsidian_baritone.Prelude.Maps.{JsMap, get, delete, values, HasDistinctKeys, get-delete}
use obsidian_baritone.Plugin.Outbox.{OutboxEntry, seq_of, lowest, delete_all}

module _ {ℓ κ} {A : Type ℓ} (P : A → Type κ) (before : A → A → Bool) where
  All-insert_sorted : (x : A) (xs : List A) → P x → All P xs → All P (insert_sorted before x xs)
  All-insert_sorted x [] p h = (p, tt)
  All-insert_sorted x (y ∷ ys) p h = elim (Bool-cases (before y x)) [
    | inl e ↦ rw e (h.0, All-insert_sorted x ys p h.1)
    | inr e ↦ rw e (p, h)
  ]

  pub All-sort : (xs : List A) → All P xs → All P (sort before xs)
  All-sort [] h = tt
  All-sort (x ∷ xs) h = All-insert_sorted x (sort before xs) h.0 (All-sort xs h.1)

  All-of_insert_sorted : (x : A) (xs : List A) → All P (insert_sorted before x xs) → P x × All P xs
  All-of_insert_sorted x [] h = h
  All-of_insert_sorted x (y ∷ ys) h = elim (Bool-cases (before y x)) [
    | inl e ↦
        let (p, rest) = (rw e at h) in
        let (q, others) = All-of_insert_sorted x ys rest in (q, (p, others))
    | inr e ↦ rw e at h
  ]

  pub All-of_sort : (xs : List A) → All P (sort before xs) → All P xs
  All-of_sort [] h = tt
  All-of_sort (x ∷ xs) h =
      let (p, rest) = All-of_insert_sorted x (sort before xs) h in (p, All-of_sort xs rest)

module _ {ℓ} {A : Type ℓ} (p : A → Bool) where
  pub any-All : (xs : List A) → any p xs ≡ false → All (λ a. p a ≡ false) xs
  any-All [] h = tt
  any-All (x ∷ xs) h = ground (arith, any-All xs)

  pub filter-All : (xs : List A) → All (λ a. p a ≡ true) (filter p xs)
  filter-All [] = tt
  filter-All (x ∷ xs) = elim (Bool-cases (p x)) [
    | inl e ↦ rw e (e, filter-All xs)
    | inr e ↦ rw e (filter-All xs)
  ]

module _ {ℓ κ} {A : Type ℓ} (P : A → Type κ) (p : A → Bool) where
  pub All-of_filter : (xs : List A) → All P (filter p xs) → All (λ a. p a ≡ true → P a) xs
  All-of_filter [] h = tt
  All-of_filter (x ∷ xs) h = elim (Bool-cases (p x)) [
    | inl e ↦ let (q, rest) = (rw e at h) in (λ _. q, All-of_filter xs rest)
    | inr e ↦ (λ t. absurd (cc), All-of_filter xs (rw e at h))
  ]

module _ {ℓ κ μ} {A : Type ℓ} (P : A → Type κ) (Q : A → Type μ) where
  pub All-both : (xs : List A) → All P xs → All Q xs → All (λ a. P a × Q a) xs
  All-both [] h k = tt
  All-both (x ∷ xs) h k = ((h.0, k.0), All-both xs h.1 k.1)

module _ {ℓ} {V : Type ℓ} where
  get-tail :
      (k j : JsString) (v w : V) (m : JsMap V)
      → get k m ≡ none
      → get j m ≡ some w
      → get j ((k, v) ∷ m) ≡ some w
  unfolding get
  get-tail k j v w m h e = ground (arith, str_eq_iff k j)

  -- Every value of a map with distinct keys is found under some key.
  pub values-All :
      (m : JsMap V) → HasDistinctKeys m → All (λ v. (k : JsString) × (get k m ≡ some v)) (values m)
  unfolding get
  values-All [] h = tt
  values-All ((k, v) ∷ m) h = (
    (k, simp str_eq_refl),
    All-map (λ w found. (found.0, get-tail k found.0 v w m h.0 found.1)) (values m)
        (values-All m h.1),
  )

-- The least number is that of one of the entries.
pub lowest-attained :
    {P : OutboxEntry → Type 0} (e : OutboxEntry) (rest : List OutboxEntry)
    → All P (e ∷ rest)
    → (a : OutboxEntry) × P a × (seq_of a ≡ lowest e rest)
lowest-attained e [] h = (e, h.0, refl)
lowest-attained e (next ∷ rest) h =
    let (a, p, least) = lowest-attained next rest h.1 in
    elim (Bool-cases (ltb (seq_of e) (lowest next rest))) [
      | inl t ↦ (e, h.0, ground arith)
      | inr t ↦ (a, p, ground arith)
    ]

-- What a deletion leaves was there before.
pub delete_all-some :
    (es : List OutboxEntry) (m : JsMap OutboxEntry) (k : JsString) (a : OutboxEntry)
    → get k (delete_all es m) ≡ some a
    → get k m ≡ some a
delete_all-some [] m k a h = h
delete_all-some (e ∷ es) m k a h =
    let before = delete_all-some es (delete e.op.op_id m) k a h in
    ground (arith, get-delete e.op.op_id k m)

delete_all-none :
    (es : List OutboxEntry) (m : JsMap OutboxEntry) (k : JsString)
    → get k m ≡ none
    → get k (delete_all es m) ≡ none
delete_all-none [] m k h = h
delete_all-none (e ∷ es) m k h =
    delete_all-none es (delete e.op.op_id m) k (ground (arith, get-delete e.op.op_id k m))

pub delete_all-All :
    (es : List OutboxEntry) (m : JsMap OutboxEntry)
    → All (λ e. get e.op.op_id (delete_all es m) ≡ none) es
delete_all-All [] m = tt
delete_all-All (e ∷ es) m = (
  delete_all-none es (delete e.op.op_id m) e.op.op_id
      (get-delete e.op.op_id e.op.op_id m ∙ simp str_eq_refl),
  delete_all-All es (delete e.op.op_id m),
)
