-- ===== src/Prelude/Strings.antt =====
-- JavaScript strings: sequences of UTF-16 code units, compared unit by unit.
use Prim.Native.Nat.{ℕ}
use Prim.Native.Char.{code}
use Prim.Native.String.{String}
use mathlib.Core.Path.{◌≡◌, refl}
use mathlib.Core.Logic.{◌↔◌, ◌≢◌}
use mathlib.Core.Bool.{Bool, true, false, ◌&&◌, ◌||◌}
use mathlib.Core.List.{List, [], ◌∷◌}
use native.Mathlib.Omega.{arith}
use obsidian_baritone.Prelude.Tests.{ltb, ◌==◌}

abbrev pub JsString : Type 0
JsString = List ℕ

-- A literal of the source. All of them are ASCII, so a code point is a code unit.
abbrev pub lit : String → JsString
lit String.[] = []
lit (String.◌∷◌ c s) = code c ∷ lit s

-- `s === t`
unfoldable pub str_eq : JsString → JsString → Bool
str_eq [] [] = true
str_eq (a ∷ s) (b ∷ t) = a == b && str_eq s t
str_eq _ _ = false

pub str_eq_iff : (s t : JsString) → (str_eq s t ≡ true) ↔ (s ≡ t)
unfolding str_eq
str_eq_iff [] [] = ground arith
str_eq_iff (a ∷ s) [] = ground arith
str_eq_iff [] (b ∷ t) = ground arith
str_eq_iff (a ∷ s) (b ∷ t) = ground (arith, str_eq_iff s t)

pub str_eq_refl : (s : JsString) → str_eq s s ≡ true
str_eq_refl s = (str_eq_iff s s).1 refl

pub str_eq_comm : (s t : JsString) → str_eq s t ≡ str_eq t s
str_eq_comm s t = ground (arith, str_eq_iff s t, str_eq_iff t s)

pub str_ne : (s t : JsString) → s ≢ t → str_eq s t ≡ false
str_ne s t h = ground (arith, str_eq_iff s t)

-- `s < t`
unfoldable pub str_lt : JsString → JsString → Bool
str_lt [] [] = false
str_lt [] (b ∷ t) = true
str_lt (a ∷ s) [] = false
str_lt (a ∷ s) (b ∷ t) = ltb a b || (a == b && str_lt s t)

pub str_lt_irrefl : (s : JsString) → str_lt s s ≡ false
unfolding str_lt
str_lt_irrefl [] = refl
str_lt_irrefl (a ∷ s) = ground (arith, str_lt_irrefl s)

pub str_lt_trans : (s t u : JsString) → str_lt s t ≡ true → str_lt t u ≡ true → str_lt s u ≡ true
unfolding str_lt
str_lt_trans [] [] u h k = absurd (cc)
str_lt_trans [] (b ∷ t) [] h k = absurd (cc)
str_lt_trans [] (b ∷ t) (c ∷ u) h k = refl
str_lt_trans (a ∷ s) [] u h k = absurd (cc)
str_lt_trans (a ∷ s) (b ∷ t) [] h k = absurd (cc)
str_lt_trans (a ∷ s) (b ∷ t) (c ∷ u) h k = ground (arith, str_lt_trans s t u)

pub str_lt_asymm : (s t : JsString) → str_lt s t ≡ true → str_lt t s ≡ false
str_lt_asymm s t h = ground (arith, str_lt_trans s t s, str_lt_irrefl s)

-- Strings that are not equal are ordered.
pub str_lt_total : (s t : JsString) → str_eq s t ≡ false → str_lt s t ≡ false → str_lt t s ≡ true
unfolding str_eq str_lt
str_lt_total [] [] e h = absurd (cc)
str_lt_total [] (b ∷ t) e h = absurd (cc)
str_lt_total (a ∷ s) [] e h = refl
str_lt_total (a ∷ s) (b ∷ t) e h = ground (arith, str_lt_total s t)

-- The truthiness of a string.
abbrev pub nonempty : JsString → Bool
nonempty [] = false
nonempty (_ ∷ _) = true
