-- ===== src/Path/Idempotent.antt =====
-- Cleaning a path that is clean changes nothing.
use obsidian_baritone.Prelude.{
  ℕ, ◌≡◌, ◌≢◌, refl, true, false, List, [], ◌∷◌, arith, JsString, ◌==◌, inl, inr, Bool-cases, All,
  map, ==_iff,
}
use obsidian_baritone.Unicode.{Platform}
use obsidian_baritone.Path.{
  to_slash, collapse_slashes, trim_leading, trim_trailing, cons_head, split, clean_path,
}

abbrev pub NoneEmpty : List JsString → Type 0
NoneEmpty = All (λ seg. seg ≢ [])

abbrev pub NoneHas : ℕ → List JsString → Type 0
NoneHas c = All (All (λ u. u ≢ c))

abbrev later : List JsString → List JsString
later [] = []
later (_ ∷ segs) = segs

later-cons_head : (c : ℕ) (segs : List JsString) → later (cons_head c segs) ≡ later segs
later-cons_head c [] = refl
later-cons_head c (seg ∷ segs) = refl

later-NoneEmpty : (segs : List JsString) → NoneEmpty segs → NoneEmpty (later segs)
later-NoneEmpty [] h = tt
later-NoneEmpty (seg ∷ segs) h = h.1

split-slash : (c : ℕ) (s : JsString) → (c == b'/') ≡ true → split b'/' (c ∷ s) ≡ [] ∷ split b'/' s
unfolding split
split-slash c s e = rw e

split-other :
    (c : ℕ) (s : JsString) → (c == b'/') ≡ false → split b'/' (c ∷ s) ≡ cons_head c (split b'/' s)
unfolding split
split-other c s e = rw e

-- The segments behind the first of `c ∷ s` are those of `s`, all of them if `c` is a slash.
later-split :
    (c : ℕ) (s : JsString)
    → NoneEmpty (later (split b'/' (c ∷ s)))
    → NoneEmpty (later (split b'/' s)) × (c ≡ b'/' → NoneEmpty (split b'/' s))
unfolding split
later-split c s h = elim (Bool-cases (c == b'/')) [
  | inl e ↦ let k : NoneEmpty (split b'/' s) = rw (e, split) at h in (later-NoneEmpty _ k, λ _. k)
  | inr e ↦
      let k : NoneEmpty (later (split b'/' s)) = rw (e, split, later-cons_head) at h in
      (k, λ q. ground (arith))
]

not_empty : NoneEmpty (split b'/' []) → ⊥
unfolding split
not_empty h = h.0 refl

slash_free_head : (c : ℕ) (s : JsString) → NoneEmpty (split b'/' (c ∷ s)) → c ≢ b'/'
slash_free_head c s h e =
    let k : NoneEmpty ([] ∷ split b'/' s) = rw (split-slash c s ((==_iff c b'/').1 e)) at h in
    k.0 refl

collapse_fixed : (s : JsString) → NoneEmpty (later (split b'/' s)) → collapse_slashes s ≡ s
unfolding collapse_slashes
collapse_fixed [] h = refl
collapse_fixed (c ∷ []) h = refl
collapse_fixed (c ∷ d ∷ s) h =
    let (tail, all) = later-split c (d ∷ s) h in
    let ih = collapse_fixed (d ∷ s) tail in
    let single = λ (e : c ≡ b'/'). slash_free_head d s (all e) in ground (arith, single)

trim_leading_fixed : (s : JsString) → NoneEmpty (split b'/' s) → trim_leading s ≡ s
unfolding trim_leading
trim_leading_fixed [] h = refl
trim_leading_fixed (c ∷ s) h = ground (arith, slash_free_head c s h)

trim_trailing_fixed : (s : JsString) → NoneEmpty (later (split b'/' s)) → trim_trailing s ≡ s
unfolding trim_trailing
trim_trailing_fixed [] h = refl
trim_trailing_fixed (c ∷ []) h =
    let (tail, all) = later-split c [] h in ground (arith, λ (e : c ≡ b'/'). not_empty (all e))
trim_trailing_fixed (c ∷ d ∷ s) h =
    let (tail, all) = later-split c (d ∷ s) h in
    let ih = trim_trailing_fixed (d ∷ s) tail in rw ih (ground arith)

has_cons :
    (c u : ℕ) (segs : List JsString) → NoneHas c (cons_head u segs) → (u ≢ c) × NoneHas c segs
has_cons c u [] h = (h.0.0, tt)
has_cons c u (seg ∷ segs) h = (h.0.0, (h.0.1, h.1))

to_slash_slash : (c : ℕ) → (c == b'/') ≡ true → to_slash c ≡ c
unfolding to_slash
to_slash_slash c e = ground arith

to_slash_plain : (c : ℕ) → c ≢ 92 → to_slash c ≡ c
unfolding to_slash
to_slash_plain c h = ground arith

to_slash_fixed : (s : JsString) → NoneHas 92 (split b'/' s) → map to_slash s ≡ s
to_slash_fixed [] h = refl
to_slash_fixed (c ∷ s) h = elim (Bool-cases (c == b'/')) [
  | inl e ↦
      let k : NoneHas 92 ([] ∷ split b'/' s) = rw (split-slash c s e) at h in
      cc (to_slash_slash c e, to_slash_fixed s k.1)
  | inr e ↦
      let k : NoneHas 92 (cons_head c (split b'/' s)) = rw (split-other c s e) at h in
      let (plain, rest) = has_cons 92 c _ k in cc (to_slash_plain c plain, to_slash_fixed s rest)
]

-- A path whose segments are not empty and hold no backslash is clean, if it is in normal form C.
pub clean_path_fixed :
    (os : Platform) (p : JsString)
    → os.nfc p ≡ p
    → NoneEmpty (split b'/' p)
    → NoneHas 92 (split b'/' p)
    → clean_path os p ≡ p
unfolding clean_path
clean_path_fixed os p n e b = rw (
  n,
  to_slash_fixed p b,
  collapse_fixed p (later-NoneEmpty _ e),
  trim_leading_fixed p e,
  trim_trailing_fixed p (later-NoneEmpty _ e),
)
