-- ===== src/Prelude/Nullable.antt =====
-- `null` and `undefined` are both `none`; `??`, `?.` and truthiness over them.
use mathlib.Core.Bool.{Bool, true, false}
use mathlib.Core.Option.{Option, none, some}
use obsidian_baritone.Prelude.Strings.{JsString, nonempty, str_eq}

-- `o ?? d`
infixr 30 ◌otherwise◌
abbrev pub ◌otherwise◌ {ℓ} : {A : Type ℓ} → Option A → A → A
none otherwise d = d
some a otherwise d = a

-- `o ?? p`, where `p` may be null too
abbrev pub or_else {ℓ} : {A : Type ℓ} → Option A → Option A → Option A
or_else none p = p
or_else (some a) p = some a

abbrev pub is_some {ℓ} : {A : Type ℓ} → Option A → Bool
is_some none = false
is_some (some _) = true

-- The truthiness of a string that may be missing: the empty string is falsy.
abbrev pub truthy : Option JsString → Bool
truthy none = false
truthy (some s) = nonempty s

-- `a === b` for strings that may be null
unfoldable pub opt_eq : Option JsString → Option JsString → Bool
unfolding str_eq
opt_eq none none = true
opt_eq (some a) (some b) = str_eq a b
opt_eq _ _ = false
