-- ===== src/Plugin/Engine/Step.antt =====
-- apps/plugin/src/sync/engine.ts: a step of the engine, which may throw and changes the engine and the
-- vault, with what the steps are composed of.
use obsidian_baritone.Prelude.{Bool, JsString, if◌then◌else◌, Result, ok, err}
use obsidian_baritone.Plugin.Engine.{SyncEngine}

abbrev pub Step {ℓ} : Type 0 → Type ℓ → Type ℓ
Step V A = SyncEngine V → Result JsString A × SyncEngine V

module _ {ℓ κ} {V : Type 0} {A : Type ℓ} {B : Type κ} where
  abbrev pub resume : Result JsString A → (A → Step V B) → Step V B
  resume (ok a) f e = f a e
  resume (err x) f e = (err x, e)

  infixl 5 ◌>>=◌
  unfoldable pub ◌>>=◌ : Step V A → (A → Step V B) → Step V B
  ◌>>=◌ m f e = let (r, e') = m e in resume r f e'

module _ {ℓ} {V : Type 0} {B : Type ℓ} where
  infixl 5 ◌>>◌
  abbrev pub ◌>>◌ : Step V (Unit {0}) → Step V B → Step V B
  m >> n = m >>= λ _. n

module _ {ℓ} {V : Type 0} {A : Type ℓ} where
  unfoldable pub pure : A → Step V A
  pure a e = (ok a, e)

  -- A call that reads the vault, or nothing of the engine.
  unfoldable pub asks : (V → Result JsString A) → Step V A
  asks f e = (f e.vault, e)

module _ {V : Type 0} where
  abbrev pub changes : (SyncEngine V → SyncEngine V) → Step V (Unit {0})
  changes f e = (ok tt, f e)

  abbrev pub put_vault : Result JsString V → Step V (Unit {0})
  put_vault (ok v) e = (ok tt, record e { vault = v })
  put_vault (err x) e = (err x, e)

  -- A call that writes to the vault.
  unfoldable pub writes : (V → Result JsString V) → Step V (Unit {0})
  writes f e = put_vault (f e.vault) e

  unfoldable pub when : Bool → Step V (Unit {0}) → Step V (Unit {0})
  when test m e = if test then m e else (ok tt, e)
