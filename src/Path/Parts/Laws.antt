-- ===== src/Path/Parts/Laws.antt =====
-- A path is its directory and its base name; a numbered name stays in the directory, and different
-- numbers give different names.
use mathlib.Core.List.{append_cancel_left, append_cancel_right}
use obsidian_baritone.Prelude.{
  ℕ, zero, suc, ◌+◌, ◌-◌, ◌*◌, ◌/◌, ◌<◌, ◌≡◌, ◌≢◌, refl, sym, ap, ◌∙◌, Bool, true, false, none,
  some, [], ◌∷◌, ◌++◌, arith, JsString, lit, ltb, ltb→lt, ◌==◌, if◌then◌else◌, length, take,
  nonempty, Option-cases, All, All-append, Bool-cases, inl, inr,
}
use obsidian_baritone.Path.Parts.{
  split_last, split_path, join_path, extension, extname, digits_from, decimal, suffix_base,
  suffix_path,
}

-- The text has no such unit.
abbrev pub Lacks : ℕ → JsString → Type 0
Lacks c = All (λ u. u ≢ c)

split_last-none : (c : ℕ) (s : JsString) → split_last c s ≡ none → Lacks c s
unfolding split_last
split_last-none c [] h = tt
split_last-none c (u ∷ s) h = ground (arith, split_last-none c s)

none_of_Lacks : (c : ℕ) (s : JsString) → Lacks c s → split_last c s ≡ none
unfolding split_last
none_of_Lacks c [] h = refl
none_of_Lacks c (u ∷ s) h = ground (arith, none_of_Lacks c s)

split_last-some :
    (c : ℕ) (s b a : JsString) → split_last c s ≡ some (b, a) → (s ≡ b ++ (c ∷ a)) × Lacks c a
unfolding split_last
split_last-some c [] b a h = absurd (cc)
split_last-some c (u ∷ s) b a h = elim (Option-cases (split_last c s)) [
  | inl e ↦
      let f : (b ≡ []) × (a ≡ s) × (u ≡ c) = ground arith in
      rw (f.0, f.1, f.2) (refl, split_last-none c s e)
  | inr (p, e) ↦
      let f : (b ≡ u ∷ p.0) × (a ≡ p.1) = ground arith in
      let (whole, free) = split_last-some c s p.0 p.1 e in rw (f.0, f.1) (ap (◌∷◌ u) whole, free)
]

split_last-append : (c : ℕ) (b a : JsString) → Lacks c a → split_last c (b ++ (c ∷ a)) ≡ some (b, a)
unfolding split_last
split_last-append c [] a h = ground (arith, none_of_Lacks c a)
split_last-append c (u ∷ b) a h = ground (arith, split_last-append c b a)

-- The path does not begin with a slash.
abbrev pub IsRelative : JsString → Type 0
IsRelative [] = Unit
IsRelative (c ∷ _) = c ≢ b'/'

rejoin : (dir base p : JsString) → p ≡ dir ++ (b'/' ∷ base) → IsRelative p → join_path dir base ≡ p
unfolding join_path
rejoin [] base p e r = absurd ((rw e at r) refl)
rejoin (c ∷ dir) base p e r = sym e

-- Joining the directory and the base name of a path that does not begin with a slash gives the
-- path back.
pub join_path-split_path :
    (p : JsString) → IsRelative p → join_path (split_path p).0 (split_path p).1 ≡ p
unfolding split_path
join_path-split_path p r = elim (Option-cases (split_last b'/' p)) [
  | inl e ↦ rw (e, split_path) (unfold join_path in refl)
  | inr (q, e) ↦ rw (e, split_path) (rejoin q.0 q.1 p (split_last-some b'/' p q.0 q.1 e).0 r)
]

-- The other way round: a base name without a slash is the base name of the joined path.
pub split_path-join_path :
    (dir base : JsString) → Lacks b'/' base → split_path (join_path dir base) ≡ (dir, base)
unfolding split_path join_path
split_path-join_path [] base h = ground (arith, none_of_Lacks b'/' base h)
split_path-join_path (c ∷ dir) base h = ground (arith, split_last-append b'/' (c ∷ dir) base h)

split_path-Lacks : (p : JsString) → Lacks b'/' (split_path p).1
unfolding split_path
split_path-Lacks p = elim (Option-cases (split_last b'/' p)) [
  | inl e ↦ rw (e, split_path) (split_last-none b'/' p e)
  | inr (q, e) ↦ rw (e, split_path) (split_last-some b'/' p q.0 q.1 e).1
]

digits_from-Lacks : (f n : ℕ) → Lacks b'/' (digits_from f n)
unfolding digits_from
digits_from-Lacks zero n = tt
digits_from-Lacks (suc f) n = elim (Bool-cases (ltb n 10)) [
  | inl e ↦ rw e (omega arith, tt)
  | inr e ↦ rw e (
      All-append (λ u. u ≢ b'/') (digits_from f (n / 10)) _ (digits_from-Lacks f (n / 10))
        (omega arith, tt))
]

split_last-Lacks :
    (sep c : ℕ) (s b a : JsString) → split_last sep s ≡ some (b, a) → Lacks c s → Lacks c a
unfolding split_last
split_last-Lacks sep c [] b a h l = absurd (cc)
split_last-Lacks sep c (u ∷ s) b a h l = elim (Option-cases (split_last sep s)) [
  | inl e ↦ let f : a ≡ s = ground arith in rw f l.1
  | inr (q, e) ↦ let f : a ≡ q.1 = ground arith in rw f (split_last-Lacks sep c s q.0 q.1 e l.1)
]

extension-Lacks : (base : JsString) → Lacks b'/' base → Lacks b'/' (extension base)
unfolding extension
extension-Lacks base l = elim (Option-cases (split_last b'.' base)) [
  | inl e ↦ rw (e, extension) tt
  | inr (q, e) ↦ elim (Bool-cases (length q.0 == 0)) [
    | inl z ↦ rw (e, extension, z) tt
    | inr z ↦ rw (e, extension, z) (omega arith, split_last-Lacks b'.' b'/' base q.0 q.1 e l)
  ]
]

take-Lacks : (c n : ℕ) (s : JsString) → Lacks c s → Lacks c (take n s)
take-Lacks c zero s l = tt
take-Lacks c (suc n) [] l = tt
take-Lacks c (suc n) (u ∷ s) l = (l.0, take-Lacks c n s l.1)

stem-Lacks :
    (b : Bool) (n : ℕ) (s : JsString) → Lacks b'/' s → Lacks b'/' (if b then take n s else s)
stem-Lacks true n s l = take-Lacks b'/' n s l
stem-Lacks false n s l = l

suffix_base-Lacks : (base : JsString) (n : ℕ) → Lacks b'/' base → Lacks b'/' (suffix_base base n)
unfolding suffix_base extname decimal
suffix_base-Lacks base n l =
    let tail = extension-Lacks (split_path base).1 (split_path-Lacks base) in
    All-append (λ u. u ≢ b'/') _ _ (stem-Lacks (nonempty (extname base)) _ base l)
      (
        omega arith,
        (
          omega arith,
          All-append (λ u. u ≢ b'/') (decimal n) _ (digits_from-Lacks (suc n) n)
              (omega arith, tail),
        ),
      )

-- The numbered name of a path stands in the directory of the path.
pub split_path-suffix_path :
    (p : JsString) (n : ℕ)
    → split_path (suffix_path p n) ≡ ((split_path p).0, suffix_base (split_path p).1 n)
unfolding suffix_path
split_path-suffix_path p n =
    split_path-join_path (split_path p).0 _ (suffix_base-Lacks _ n (split_path-Lacks p))

-- The number that a text of digits writes.
pub value_from : ℕ → JsString → ℕ
value_from v [] = v
value_from v (d ∷ s) = value_from (v * 10 + (d - b'0')) s

value_from-append :
    (v : ℕ) (s : JsString) (d : ℕ) → value_from v (s ++ (d ∷ [])) ≡ value_from v s * 10 + (d - b'0')
unfolding value_from
value_from-append v [] d = refl
value_from-append v (c ∷ s) d = value_from-append (v * 10 + (c - b'0')) s d

value-digits_from : (fuel n : ℕ) → n < fuel → value_from 0 (digits_from fuel n) ≡ n
unfolding digits_from
value-digits_from zero n h = absurd (omega arith)
value-digits_from (suc fuel) n h = elim (Bool-cases (ltb n 10)) [
  | inl e ↦ rw e (unfold value_from in omega (arith, ltb→lt n 10 e))
  | inr e ↦ rw (e, value_from-append) (ground (arith, value-digits_from fuel (n / 10)))
]

-- Printing a number and reading the digits gives the number back, so the fuel was enough.
pub value-decimal : (n : ℕ) → value_from 0 (decimal n) ≡ n
unfolding decimal
value-decimal n = value-digits_from (suc n) n (omega arith)

decimal-injective : (n m : ℕ) → decimal n ≡ decimal m → n ≡ m
decimal-injective n m e = sym (value-decimal n) ∙ ap (value_from 0) e ∙ value-decimal m

suffix_base-injective :
    (base : JsString) (n m : ℕ) → suffix_base base n ≡ suffix_base base m → n ≡ m
unfolding suffix_base
suffix_base-injective base n m e = decimal-injective n m (
    append_cancel_right _ _ (lit ")" ++ extname base)
      (append_cancel_left (lit " (") _ _ (append_cancel_left _ _ _ e)))

-- Different numbers give different names.
pub suffix_path-injective : (p : JsString) (n m : ℕ) → suffix_path p n ≡ suffix_path p m → n ≡ m
suffix_path-injective p n m e = suffix_base-injective (split_path p).1 n m (
    ap (λ (q : JsString × JsString). q.1)
      (sym (split_path-suffix_path p n) ∙ ap split_path e ∙ split_path-suffix_path p m))
