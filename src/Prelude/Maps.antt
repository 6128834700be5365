-- ===== src/Prelude/Maps.antt =====
-- The `Map<string, V>` of JavaScript: entries in insertion order. A write to a key that is there
-- keeps its place; a new key goes to the end.
use mathlib.Core.Path.{◌≡◌, refl}
use mathlib.Core.Logic.{inl, inr}
use mathlib.Core.List.{List, [], ◌∷◌, map}
use mathlib.Core.Option.{Option, none, some}
use native.Mathlib.Omega.{arith}
use obsidian_baritone.Prelude.Tests.{if◌then◌else◌, Bool-cases}
use obsidian_baritone.Prelude.Lists.{All}
use obsidian_baritone.Prelude.Strings.{JsString, str_eq, str_eq_iff, str_eq_refl}

abbrev pub JsMap {ℓ} : Type ℓ → Type ℓ
JsMap V = List (JsString × V)

module _ {ℓ} {V : Type ℓ} where
  unfoldable pub get : JsString → JsMap V → Option V
  get k [] = none
  get k ((j, v) ∷ m) = if str_eq j k then some v else get k m

  unfoldable pub set : JsString → V → JsMap V → JsMap V
  set k v [] = (k, v) ∷ []
  set k v ((j, w) ∷ m) = if str_eq j k then (j, v) ∷ m else (j, w) ∷ set k v m

  unfoldable pub delete : JsString → JsMap V → JsMap V
  delete k [] = []
  delete k ((j, w) ∷ m) = let rest = delete k m in if str_eq j k then rest else (j, w) ∷ rest

  -- `[...m.values()]`
  abbrev pub values : JsMap V → List V
  values = map (λ e. e.1)

  pub get-set :
      (k j : JsString) (v : V) (m : JsMap V)
      → get j (set k v m) ≡ (if str_eq k j then some v else get j m)
  unfolding get set
  get-set k j v [] = refl
  get-set k j v ((i, w) ∷ m) =
      ground (arith, str_eq_iff k j, str_eq_iff i k, str_eq_iff i j, get-set k j v m)

  pub get-set_self : (k : JsString) (v : V) (m : JsMap V) → get k (set k v m) ≡ some v
  get-set_self k v m = simp (get-set, str_eq_refl)

  pub get-delete :
      (k j : JsString) (m : JsMap V) → get j (delete k m) ≡ (if str_eq k j then none else get j m)
  unfolding get delete
  get-delete k j [] = ground arith
  get-delete k j ((i, w) ∷ m) =
      ground (arith, str_eq_iff k j, str_eq_iff i k, str_eq_iff i j, get-delete k j m)

  pub ruleset map_laws = (get-set, get-delete, str_eq_refl)

module _ {ℓ κ} {V : Type ℓ} (P : V → Type κ) where
  -- A property of all values survives a write of a value that has it.
  pub All-set :
      (k : JsString) (v : V) (m : JsMap V) → All P (values m) → P v → All P (values (set k v m))
  unfolding set
  All-set k v [] h p = (p, tt)
  All-set k v ((j, w) ∷ m) h p = elim (Bool-cases (str_eq j k)) [
    | inl e ↦ rw e (p, h.1)
    | inr e ↦ rw e (h.0, All-set k v m h.1 p)
  ]

  pub All-get : (k : JsString) (v : V) (m : JsMap V) → All P (values m) → get k m ≡ some v → P v
  unfolding get
  All-get k v [] h e = absurd (cc)
  All-get k v ((j, w) ∷ m) h e = elim (Bool-cases (str_eq j k)) [
    | inl t ↦ subst_value (rw t at e) h.0
    | inr t ↦ All-get k v m h.1 (rw t at e)
  ]
    where
      subst_value : some w ≡ some v → P w → P v
      subst_value q p = ground arith

module _ {ℓ} {V : Type ℓ} where
  -- A JavaScript object or `Map` holds each key once.
  abbrev pub HasDistinctKeys : JsMap V → Type ℓ
  HasDistinctKeys [] = Unit
  HasDistinctKeys ((k, v) ∷ m) = (get k m ≡ none) × HasDistinctKeys m

  pub set-HasDistinctKeys :
      (k : JsString) (v : V) (m : JsMap V) → HasDistinctKeys m → HasDistinctKeys (set k v m)
  unfolding set
  set-HasDistinctKeys k v [] h = (unfold get in refl, tt)
  set-HasDistinctKeys k v ((j, w) ∷ m) h = elim (Bool-cases (str_eq j k)) [
    | inl e ↦ rw e (h.0, h.1)
    | inr e ↦ rw e (
      ground (arith, get-set k j v m, str_eq_iff k j, str_eq_iff j k),
      set-HasDistinctKeys k v m h.1,
    )
  ]
