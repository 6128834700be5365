-- ===== src/Path/Canonical.antt =====
-- What `normalizePath` returns is a canonical path, and a canonical path is returned unchanged.
use mathlib.Core.List.{Memᴰ}
use obsidian_baritone.Prelude.{
  ℕ, ◌≤◌, ◌≡◌, ◌≢◌, refl, Bool, true, false, none, List, [], ◌∷◌, arith, JsString, lit, ◌==◌,
  length, any, str_eq, str_eq_iff, inl, inr, Option-cases, Bool-cases, All, All-map, ok,
}
use obsidian_baritone.Unicode.{Platform}
use obsidian_baritone.Path.{
  windows_reserved, is_illegal_char, byte_length, split, ends_badly, before_dot, is_reserved,
  segment_error, segments_error, clean_path, check_path, normalize_path,
}
use obsidian_baritone.Path.Idempotent.{NoneHas, clean_path_fixed}

-- The part before the first dot, in small letters, is the name of a Windows device.
pub data IsReserved (os : Platform) (seg : JsString) : Type 0 where
  named : Memᴰ (os.lower (before_dot seg)) windows_reserved → IsReserved os seg

-- What is asked of each segment of a canonical path.
pub record IsSegment (os : Platform) (seg : JsString) : Type 0 where
  pub present : seg ≢ []
  pub not_dot : seg ≢ lit "."
  pub not_dots : seg ≢ lit ".."
  pub short : byte_length seg ≤ 255
  pub legal : All (λ c. is_illegal_char c ≡ false) seg
  pub ends_well : ends_badly seg ≡ false
  pub not_reserved : ¬ IsReserved os seg

pub record IsCanonical (os : Platform) (p : JsString) : Type 0 where
  pub short : byte_length p ≤ 1024
  pub segments : All (IsSegment os) (split b'/' p)

any-false : (p : ℕ → Bool) (s : JsString) → any p s ≡ false → All (λ c. p c ≡ false) s
any-false p [] h = tt
any-false p (c ∷ s) h = ground (arith, any-false p s)

false_of_All : (p : ℕ → Bool) (s : JsString) → All (λ c. p c ≡ false) s → any p s ≡ false
false_of_All p [] h = refl
false_of_All p (c ∷ s) h = ground (arith, false_of_All p s)

listed : (b : JsString) (names : List JsString) → any (str_eq b) names ≡ true → Memᴰ b names
listed b [] h = absurd (cc)
listed b (name ∷ names) h = elim (Bool-cases (str_eq b name)) [
  | inl e ↦ Memᴰ.head ((str_eq_iff b name).0 e)
  | inr e ↦ Memᴰ.tail (listed b names (rw e at h))
]

any_of_listed : (b : JsString) (names : List JsString) → Memᴰ b names → any (str_eq b) names ≡ true
any_of_listed b [] m = elim m [ ]
any_of_listed b (name ∷ names) (Memᴰ.head e) = rw ((str_eq_iff b name).1 e)
any_of_listed b (name ∷ names) (Memᴰ.tail m) = ground (arith, any_of_listed b names m)

not_legal : (c : ℕ) → is_illegal_char c ≡ false → c ≢ 92
unfolding is_illegal_char
not_legal c e q = ground arith

module _ (os : Platform) where
  is_reserved-IsReserved : (seg : JsString) → is_reserved os seg ≡ true → IsReserved os seg
  unfolding is_reserved
  is_reserved-IsReserved seg h = named (listed _ windows_reserved h)

  true_of_IsReserved : (seg : JsString) → IsReserved os seg → is_reserved os seg ≡ true
  unfolding is_reserved
  true_of_IsReserved seg (named m) = any_of_listed _ windows_reserved m

  segment_error-IsSegment : (seg : JsString) → segment_error os seg ≡ none → IsSegment os seg
  unfolding segment_error
  segment_error-IsSegment seg h = record {
    present = ground arith;
    not_dot = ground (arith, str_eq_iff seg (lit "."));
    not_dots = ground (arith, str_eq_iff seg (lit ".."));
    short = ground arith;
    legal = any-false is_illegal_char seg (ground arith);
    ends_well = ground arith;
    not_reserved = λ r. ground (arith, true_of_IsReserved seg r);
  }

  none_of_IsSegment : (seg : JsString) → IsSegment os seg → segment_error os seg ≡ none
  unfolding segment_error
  none_of_IsSegment seg h =
      let legal = false_of_All is_illegal_char seg h.legal in
      let free : is_reserved os seg ≡ false = elim (Bool-cases (is_reserved os seg)) [
        | inl r ↦ absurd (h.not_reserved (is_reserved-IsReserved seg r))
        | inr e ↦ e
      ] in
      ground (arith, str_eq_iff seg (lit "."), str_eq_iff seg (lit ".."))

  segments_error-All :
      (segs : List JsString) → segments_error os segs ≡ none → All (IsSegment os) segs
  unfolding segments_error
  segments_error-All [] h = tt
  segments_error-All (seg ∷ segs) h = elim (Option-cases (segment_error os seg)) [
    | inl e ↦ (segment_error-IsSegment seg e, segments_error-All segs (rw (e, segments_error) at h))
    | inr (r, e) ↦ absurd (ground arith)
  ]

  none_of_All : (segs : List JsString) → All (IsSegment os) segs → segments_error os segs ≡ none
  unfolding segments_error
  none_of_All [] h = refl
  none_of_All (seg ∷ segs) h = rw (none_of_IsSegment seg h.0, none_of_All segs h.1, segments_error)

  check_path-IsCanonical :
      (raw q p : JsString) → check_path os raw q ≡ ok p → (q ≡ p) × IsCanonical os q
  unfolding check_path
  check_path-IsCanonical raw q p h = elim (Option-cases (segments_error os (split b'/' q))) [
    | inl e ↦ (
      ground arith,
      record { short = ground arith; segments = segments_error-All (split b'/' q) e },
    )
    | inr (r, e) ↦ absurd (ground arith)
  ]

  -- What `normalizePath` returns is canonical: at most 1024 bytes, and every segment is present,
  -- is no dot segment, has at most 255 bytes and no illegal character, ends neither in a space
  -- nor in a dot, and does not name a Windows device.
  pub normalize_path-IsCanonical :
      (raw p : JsString) → normalize_path os raw ≡ ok p → IsCanonical os p
  unfolding normalize_path
  normalize_path-IsCanonical raw p h =
      let (same, c) = check_path-IsCanonical raw (clean_path os raw) p h in rw same at c

  legal-NoneHas : (segs : List JsString) → All (IsSegment os) segs → NoneHas 92 segs
  legal-NoneHas [] h = tt
  legal-NoneHas (seg ∷ segs) h =
      (All-map (λ c e q. not_legal c e q) seg h.0.legal, legal-NoneHas segs h.1)

  not_empty : (p : JsString) → IsCanonical os p → (length p == 0) ≡ false
  not_empty [] c = absurd (unfold split in c.segments.0.present refl)
  not_empty (_ ∷ _) c = ground arith

  -- A canonical path in normal form C is accepted and returned unchanged, so that normalising a
  -- second time changes nothing.
  pub normalize_path-fixed :
      (p : JsString) → IsCanonical os p → os.nfc p ≡ p → normalize_path os p ≡ ok p
  unfolding normalize_path check_path
  normalize_path-fixed p c n =
      let clean =
        clean_path_fixed os p n (All-map (λ seg s. s.present) (split b'/' p) c.segments)
          (legal-NoneHas (split b'/' p) c.segments) in
      let checked = none_of_All (split b'/' p) c.segments in
      rw (clean, checked, not_empty p c) (ground (arith, c.short))
