-- ===== src/Engine/Manifest/Order.antt =====
-- `listManifest` of packages/server/src/engine/store.ts: the order of the files, where their names are
-- such that `localeCompare` orders them as code units do.
use obsidian_baritone.Prelude.{
  ℕ, zero, suc, ◌<◌, ◌≤◌, ◌≡◌, refl, sym, ap, ◌∙◌, Bool, true, false, Option, none, some, List, [],
  ◌∷◌, ◌++◌, JsString, ltb, leb, ◌==◌, ◌||◌, ◌&&◌, all, str_eq, str_eq_iff, str_eq_comm, str_lt,
  str_lt_irrefl, str_lt_asymm, str_lt_total, filter, insert_sorted, sort, take, drop, length, All,
  All-map, insert_sorted-All, sort-All, Bool-cases, inl, inr, arith,
}
use mathlib.Core.Option.{some_inj, none-ne-some}
use obsidian_baritone.Engine.Store.{StoredFile}
use obsidian_baritone.Engine.Manifest.{
  ManifestCursor, cursor_of, last, is_after, is_before, remaining, next_cursor,
}
use obsidian_baritone.Engine.Manifest.Paging.{
  is_after_trans, is_after_irrefl, next_cursor-last, remaining-next, take-All, last-All,
}

module _ {A : Type 0} (before : A → A → Bool) where
  length-insert_sorted :
      (x : A) (xs : List A) → length (insert_sorted before x xs) ≡ suc (length xs)
  length-insert_sorted x [] = refl
  length-insert_sorted x (y ∷ ys) = ground (arith, length-insert_sorted x ys)

  pub length-sort : (xs : List A) → length (sort before xs) ≡ length xs
  length-sort [] = refl
  length-sort (x ∷ xs) = omega (arith, length-insert_sorted x (sort before xs), length-sort xs)

-- Each element stands before those that follow it.
module _ {A : Type 0} (R : A → A → Type 0) where
  abbrev pub AllPairs : List A → Type 0
  AllPairs [] = Unit
  AllPairs (x ∷ xs) = All (R x) xs × AllPairs xs

abbrev pub HasOtherId : StoredFile → StoredFile → Type 0
HasOtherId f g = str_eq f.file_id g.file_id ≡ false

abbrev pub Precedes : StoredFile → StoredFile → Type 0
Precedes f g = is_after (cursor_of f) g ≡ true

is_after-total :
    (f g : StoredFile)
    → HasOtherId f g
    → is_after (cursor_of g) f ≡ false
    → is_after (cursor_of f) g ≡ true
unfolding is_after
is_after-total f g d e = ground (
  arith,
  str_lt_total f.path_normalized g.path_normalized,
  str_lt_total g.path_normalized f.path_normalized,
  str_lt_total g.file_id f.file_id,
  str_eq_comm f.file_id g.file_id,
  str_eq_comm f.path_normalized g.path_normalized,
)

-- Space, `-`, `.`, `/`, the digits, and the small letters from a to z: the root collation of Unicode has
-- them in the order of their code units, and ignores none of them.
abbrev pub is_plain_unit : ℕ → Bool
is_plain_unit u =
    (u == b' ')
    || (u == b'-')
    || (u == b'.')
    || (u == b'/')
    || leb b'0' u && leb u b'9'
    || leb b'a' u && leb u b'z'

abbrev pub is_plain : JsString → Bool
is_plain = all is_plain_unit

abbrev pub HasPlainNames : StoredFile → Type 0
HasPlainNames f = (is_plain f.path_normalized ≡ true) × (is_plain f.file_id ≡ true)

-- `localeCompare` of plain strings.
abbrev pub OrdersPlain : (JsString → JsString → Bool) → Type 0
OrdersPlain locale_lt =
    (a b : JsString) → is_plain a ≡ true → is_plain b ≡ true → locale_lt a b ≡ str_lt a b

module _ (locale_lt : JsString → JsString → Bool) where
  is_before-is_after :
      OrdersPlain locale_lt
      → (f g : StoredFile) → HasPlainNames f
      → HasPlainNames g
      → is_before locale_lt f g ≡ is_after (cursor_of f) g
  unfolding is_before is_after
  is_before-is_after agree f g p q =
      rw
        (
          agree f.path_normalized g.path_normalized p.0 q.0,
          agree g.path_normalized f.path_normalized q.0 p.0,
          agree f.file_id g.file_id p.1 q.1,
        )
        (ground (
          arith,
          str_lt_total f.path_normalized g.path_normalized,
          str_lt_asymm f.path_normalized g.path_normalized,
          str_eq_iff g.path_normalized f.path_normalized,
          str_lt_irrefl f.path_normalized,
          str_lt_irrefl g.path_normalized,
          str_eq_comm f.path_normalized g.path_normalized,
        ))

  module _ (agree : OrdersPlain locale_lt) where
    insert_sorted-AllPairs :
        (x : StoredFile) (xs : List StoredFile)
        → HasPlainNames x
        → All HasPlainNames xs
        → All (HasOtherId x) xs
        → AllPairs Precedes xs
        → AllPairs Precedes (insert_sorted (is_before locale_lt) x xs)
    insert_sorted-AllPairs x [] n ns d h = (tt, tt)
    insert_sorted-AllPairs x (y ∷ ys) n ns d h = elim (Bool-cases (is_before locale_lt y x)) [
      | inl e ↦ rw e (
        insert_sorted-All (Precedes y) (is_before locale_lt) x ys
            (sym (is_before-is_after agree y x ns.0 n) ∙ e) h.0,
        insert_sorted-AllPairs x ys n ns.1 d.1 h.1,
      )
      | inr e ↦
          let first : Precedes x y =
            is_after-total x y d.0 (sym (is_before-is_after agree y x ns.0 n) ∙ e) in
          rw e ((first, precedes_all ys first h.0), h)
    ]
      where
        precedes_all :
            (zs : List StoredFile) → Precedes x y → All (Precedes y) zs → All (Precedes x) zs
        precedes_all zs first k = All-map (λ g p. is_after_trans (cursor_of x) y g first p) zs k

    pub sort-AllPairs :
        (xs : List StoredFile)
        → All HasPlainNames xs
        → AllPairs HasOtherId xs
        → AllPairs Precedes (sort (is_before locale_lt) xs)
    sort-AllPairs [] n d = tt
    sort-AllPairs (x ∷ xs) n d =
        insert_sorted-AllPairs x (sort (is_before locale_lt) xs) n.0
          (sort-All HasPlainNames (is_before locale_lt) xs n.1)
          (sort-All (HasOtherId x) (is_before locale_lt) xs d.0) (sort-AllPairs xs n.1 d.1)

filter-Precedes :
    (f : StoredFile) (fs : List StoredFile)
    → All (Precedes f) fs
    → filter (is_after (cursor_of f)) fs ≡ fs
filter-Precedes f [] h = refl
filter-Precedes f (g ∷ fs) h = rw (h.0, filter-Precedes f fs h.1) refl

filter-own :
    (g f : StoredFile) (fs : List StoredFile)
    → g ≡ f
    → All (Precedes g) fs
    → filter (is_after (cursor_of f)) (g ∷ fs) ≡ fs
filter-own g f fs e h =
    let own : filter (is_after (cursor_of g)) (g ∷ fs) ≡ fs =
      rw (is_after_irrefl g) (filter-Precedes g fs h) in
    ap (λ k. filter (is_after (cursor_of k)) (g ∷ fs)) (sym e) ∙ own

Precedes-asymm : (f g : StoredFile) → Precedes f g → is_after (cursor_of g) f ≡ false
Precedes-asymm f g h = elim (Bool-cases (is_after (cursor_of g) f)) [
  | inl e ↦
      let wrong : true ≡ false = sym (is_after_trans (cursor_of f) g f h e) ∙ is_after_irrefl f in
      absurd (cc)
  | inr e ↦ e
]

-- In an ordered list the files after the last one of a page are those that the page leaves.
filter-last :
    (n : ℕ) (files : List StoredFile) (f : StoredFile)
    → AllPairs Precedes files
    → last (take n files) ≡ some f
    → filter (is_after (cursor_of f)) files ≡ drop n files
filter-last zero files f h e = absurd (none-ne-some f e)
filter-last (suc n) [] f h e = absurd (none-ne-some f e)
filter-last (suc zero) (g ∷ files) f h e = filter-own g f files (some_inj.0 e) h.0
filter-last (suc (suc n)) (g ∷ []) f h e = filter-own g f [] (some_inj.0 e) tt
filter-last (suc (suc n)) (g ∷ k ∷ files) f h e =
    let first : Precedes g f =
      last-All (Precedes g) (take (suc n) (k ∷ files)) f
        (take-All (Precedes g) (suc n) (k ∷ files) h.0) e in
    drop_first (k ∷ files) (Precedes-asymm g f first) (filter-last (suc n) (k ∷ files) f h.1 e)
  where
    drop_first :
        (rest : List StoredFile)
        → is_after (cursor_of f) g ≡ false
        → filter (is_after (cursor_of f)) rest ≡ drop (suc n) rest
        → filter (is_after (cursor_of f)) (g ∷ rest) ≡ drop (suc n) rest
    drop_first rest d same = rw d same

module _ {A : Type 0} where
  pub append-take-drop : (n : ℕ) (xs : List A) → take n xs ++ drop n xs ≡ xs
  append-take-drop zero xs = refl
  append-take-drop (suc n) [] = refl
  append-take-drop (suc n) (x ∷ xs) = ap (λ ys. x ∷ ys) (append-take-drop n xs)

  take-all : (n : ℕ) (xs : List A) → length xs ≤ n → take n xs ≡ xs
  take-all zero [] h = refl
  take-all zero (x ∷ xs) h = absurd (omega arith)
  take-all (suc n) [] h = refl
  take-all (suc n) (x ∷ xs) h = ap (λ ys. x ∷ ys) (take-all n xs (omega arith))

  last-take : (n : ℕ) (x : A) (xs : List A) → (y : A) × (last (take (suc n) (x ∷ xs)) ≡ some y)
  last-take zero x [] = (x, refl)
  last-take (suc n) x [] = (x, refl)
  last-take zero x (y ∷ ys) = (x, refl)
  last-take (suc n) x (y ∷ ys) = last-take n y ys

-- A page without a next cursor holds all that remains.
pub take-last_page :
    (limit : ℕ) (files : List StoredFile)
    → 0 < limit
    → next_cursor limit files ≡ none
    → take limit files ≡ files
take-last_page zero files p e = absurd (omega arith)
take-last_page (suc n) [] p e = refl
take-last_page (suc n) (f ∷ files) p e =
    let (g, l) = last-take n f files in
    elim (Bool-cases (ltb (suc n) (length (f ∷ files)))) [
      | inl t ↦ absurd (none-ne-some (cursor_of g) (sym e ∙ rw l (rw t refl)))
      | inr t ↦ take-all (suc n) (f ∷ files) (ground arith)
    ]

module _ (limit : ℕ) (files : List StoredFile) (c : ManifestCursor) where
  -- What remains after a page are the files behind it.
  pub remaining-drop :
      (from : Option ManifestCursor)
      → AllPairs Precedes (remaining from files)
      → next_cursor limit (remaining from files) ≡ some c
      → remaining (some c) files ≡ drop limit (remaining from files)
  remaining-drop from h e =
      let (f, l, same) = next_cursor-last limit (remaining from files) c e in
      remaining-next limit files c from e
      ∙ ap (λ b. filter (is_after b) (remaining from files)) same
      ∙ filter-last limit (remaining from files) f h l

module _ {A : Type 0} (R : A → A → Type 0) where
  pub drop-AllPairs : (n : ℕ) (xs : List A) → AllPairs R xs → AllPairs R (drop n xs)
  drop-AllPairs zero xs h = h
  drop-AllPairs (suc n) [] h = tt
  drop-AllPairs (suc n) (x ∷ xs) h = drop-AllPairs n xs h.1
