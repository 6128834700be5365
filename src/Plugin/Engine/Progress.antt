-- ===== src/Plugin/Engine/Progress.antt =====
-- Steps of the engine in apps/plugin/src/sync/engine.ts that leave the handshake and the applied
-- operations as they are and send no operation, and how they are composed.
use mathlib.Core.List.{append-nil}
use obsidian_baritone.Prelude.{
  ◌≡◌, refl, ◌∙◌, Bool, true, false, List, [], ◌∷◌, ◌++◌, JsString, if◌then◌else◌, Result, ok, err,
  Bool-cases, inl, inr, filter,
}
use obsidian_baritone.Protocol.ClientMessage.{ClientMessage}
use obsidian_baritone.Plugin.Engine.{SyncEngine, send}
use obsidian_baritone.Plugin.Engine.Step.{Step, resume, ◌>>=◌, pure, asks, put_vault, writes, when}

abbrev pub is_op : ClientMessage → Bool
is_op (ClientMessage.file_op _) = true
is_op _ = false

-- The operations among messages.
abbrev pub ops_of : List ClientMessage → List ClientMessage
ops_of = filter is_op

ops_of-append : (xs ys : List ClientMessage) → ops_of (xs ++ ys) ≡ ops_of xs ++ ops_of ys
ops_of-append [] ys = refl
ops_of-append (x ∷ xs) ys = elim (Bool-cases (is_op x)) [
  | inl t ↦ rw (t, ops_of-append xs ys) refl
  | inr t ↦ rw (t, ops_of-append xs ys) refl
]

-- What applying an operation leaves as it was.
pub record SameProgress {V : Type 0} (e f : SyncEngine V) : Type 0 where
  pub handshake : f.handshake_complete ≡ e.handshake_complete
  pub applied : f.index.device.applied_seq ≡ e.index.device.applied_seq
  pub ops : ops_of f.sent ≡ ops_of e.sent

module _ {V : Type 0} where
  pub SameProgress-refl : (e : SyncEngine V) → SameProgress e e
  SameProgress-refl e = record { handshake = refl; applied = refl; ops = refl }

  pub SameProgress-trans :
      {e f g : SyncEngine V} → SameProgress e f → SameProgress f g → SameProgress e g
  SameProgress-trans h k = record {
    handshake = k.handshake ∙ h.handshake;
    applied = k.applied ∙ h.applied;
    ops = k.ops ∙ h.ops;
  }

pub record Quiet {V A : Type 0} (m : Step V A) : Type 0 where
  pub at : (e : SyncEngine V) → SameProgress e (m e).1

module _ {V A : Type 0} where
  pub Quiet-pure : (a : A) → Quiet {V = V} (pure a)
  unfolding pure
  Quiet-pure a = record { at = SameProgress-refl }

  pub Quiet-asks : (f : V → Result JsString A) → Quiet (asks f)
  unfolding asks
  Quiet-asks f = record { at = SameProgress-refl }

  pub Quiet-if : (b : Bool) (m n : Step V A) → Quiet m → Quiet n → Quiet (if b then m else n)
  Quiet-if true m n km kn = km
  Quiet-if false m n km kn = kn

module _ {V A B : Type 0} where
  Quiet-resume :
      (r : Result JsString A) (f : A → Step V B) (e : SyncEngine V)
      → ((a : A) → Quiet (f a))
      → SameProgress e (resume r f e).1
  Quiet-resume (ok a) f e k = (k a).at e
  Quiet-resume (err x) f e k = SameProgress-refl e

  pub Quiet-bind :
      (m : Step V A) (f : A → Step V B) → Quiet m → ((a : A) → Quiet (f a)) → Quiet (m >>= f)
  unfolding ◌>>=◌
  Quiet-bind m f km kf = record {
    at = λ e. SameProgress-trans (km.at e) (Quiet-resume (m e).0 f (m e).1 kf);
  }

module _ {V : Type 0} where
  put_vault-SameProgress :
      (r : Result JsString V) (e : SyncEngine V) → SameProgress e (put_vault r e).1
  put_vault-SameProgress (ok v) e = record { handshake = refl; applied = refl; ops = refl }
  put_vault-SameProgress (err x) e = SameProgress-refl e

  pub Quiet-writes : (f : V → Result JsString V) → Quiet (writes f)
  unfolding writes
  Quiet-writes f = record { at = λ e. put_vault-SameProgress (f e.vault) e }

  pub Quiet-when : (b : Bool) (m : Step V (Unit {0})) → Quiet m → Quiet (when b m)
  unfolding when
  Quiet-when true m k = record { at = λ e. k.at e }
  Quiet-when false m k = record { at = SameProgress-refl }

  pub send-SameProgress :
      (message : ClientMessage) (e : SyncEngine V)
      → is_op message ≡ false
      → SameProgress e (send message e)
  unfolding send
  send-SameProgress message e h = record {
    handshake = refl;
    applied = refl;
    ops = ops_of-append e.sent (message ∷ []) ∙ rw h (append-nil (ops_of e.sent));
  }

  pub if-SameProgress :
      {A : Type 0} (b : Bool) (e : SyncEngine V) (x y : Result JsString A × SyncEngine V)
      → SameProgress e x.1
      → SameProgress e y.1
      → SameProgress e (if b then x else y).1
  if-SameProgress true e x y hx hy = hx
  if-SameProgress false e x y hx hy = hy

pub ruleset quiet_rules = (Quiet-pure, Quiet-asks, Quiet-if, Quiet-bind, Quiet-writes, Quiet-when)
