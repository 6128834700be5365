-- ===== src/Engine/Conflict/Settled.antt =====
-- packages/server/src/engine/conflict.ts: what happens to a conflict that is resolved.
use obsidian_baritone.Prelude.{
  ◌≡◌, refl, ◌∙◌, Bool, true, false, not, ◌||◌, some, JsString, ok, err, ℕ, inl, inr, ◌⊎◌, str_eq,
  is_some, if◌then◌else◌,
}
use obsidian_baritone.Unicode.{Platform}
use obsidian_baritone.Protocol.{ConflictRecord, is_resolved, forbidden, conflict_already_resolved}
use obsidian_baritone.Engine.Store.{InMemoryDataStore, get_conflict, get_role}
use obsidian_baritone.Engine.Store.Tx.{
  Tx, Thrown, sync, pure, reads, throw, throw_if, ◌>>=◌, ◌>>◌, >>=-ok, >>=-err,
}
use obsidian_baritone.Engine.OpProcessor.{is_writer}
use obsidian_baritone.Engine.Conflict.{require_conflict, require_conflict_access, claim, release}
use obsidian_baritone.Engine.Conflict.Resolve.{resolve, ResolveInput}

-- What a resolved conflict answers to a call, behind `require_conflict_access`.
require_conflict-ok :
    (s : InMemoryDataStore) (conflict_id : JsString) (c : ConflictRecord)
    → get_conflict s conflict_id ≡ some c
    → require_conflict conflict_id s ≡ (ok c, s)
unfolding require_conflict
require_conflict-ok s conflict_id c stored = rw (stored, require_conflict) refl

throw_if-cases :
    (b : Bool) (e : Thrown) (s : InMemoryDataStore)
    → (throw_if b e s ≡ (ok tt, s)) ⊎ ((x : Thrown) × (throw_if b e s ≡ (err x, s)))
unfolding throw_if
throw_if-cases true e s = inr (e, refl)
throw_if-cases false e s = inl refl

-- The tests on the user change nothing.
access-cases :
    (c : ConflictRecord) (vault_id user_id : JsString) (s : InMemoryDataStore)
    → (require_conflict_access c vault_id user_id true s ≡ (ok tt, s))
      ⊎ ((x : Thrown) × (require_conflict_access c vault_id user_id true s ≡ (err x, s)))
unfolding require_conflict_access reads
access-cases c vault_id user_id s =
    elim (throw_if-cases (not (str_eq c.vault_id vault_id))
      (sync forbidden "Conflict does not belong to this vault") s) [
        | inr (x, e) ↦ inr (x, >>=-err _ _ s s x e)
        | inl e ↦
            elim (throw_if-cases
              (not (is_some (get_role s vault_id user_id))
                || not (is_writer (get_role s vault_id user_id)))
              (sync forbidden "Write permission required") s) [
                | inr (x, k) ↦
                    inr (
                      x,
                      >>=-ok _ _ s s tt e ∙ >>=-ok _ _ s s (get_role s vault_id user_id) refl ∙ k,
                    )
                | inl k ↦
                    inl
                      (>>=-ok _ _ s s tt e ∙ >>=-ok _ _ s s (get_role s vault_id user_id) refl ∙ k)
              ]
      ]

-- A call that stops at its test on the status.
module _ {A : Type 0} where
  stops-at :
      {s : InMemoryDataStore} (c : ConflictRecord)
      → is_resolved c.status ≡ true
      → (m n : Tx A) → (m s).1 ≡ s
      → ((if is_resolved c.status then m else n) s).1 ≡ s
  stops-at c settled m n quiet = rw settled quiet

  -- A call that reads the conflict, tests the user and then the status.
  guarded :
      JsString → JsString → JsString → (ConflictRecord → Tx A) → (ConflictRecord → Tx A) → Tx A
  guarded conflict_id vault_id user_id stop go = do
    conflict ← require_conflict conflict_id
    require_conflict_access conflict vault_id user_id true
    if is_resolved conflict.status then stop conflict else go conflict

  guarded-settled :
      (s : InMemoryDataStore) (conflict_id vault_id user_id : JsString) (c : ConflictRecord)
      (stop go : ConflictRecord → Tx A)
      → get_conflict s conflict_id ≡ some c
      → is_resolved c.status ≡ true
      → (stop c s).1 ≡ s
      → (guarded conflict_id vault_id user_id stop go s).1 ≡ s
  unfolding guarded
  guarded-settled s conflict_id vault_id user_id c stop go stored settled quiet =
      let access = require_conflict_access c vault_id user_id true in
      let tested = if is_resolved c.status then stop c else go c in
      let start =
        >>=-ok (require_conflict conflict_id) _ s s c
          (require_conflict-ok s conflict_id c stored) in
      elim (access-cases c vault_id user_id s) [
        | inr (x, e) ↦ (λ i. (start i).1) ∙ (λ i. (>>=-err access (λ _. tested) s s x e i).1)
        | inl e ↦
            (λ i. (start i).1)
            ∙ (λ i. (>>=-ok access (λ _. tested) s s tt e i).1)
            ∙ stops-at c settled (stop c) (go c) quiet
      ]

already_resolved : ConflictRecord → Tx ConflictRecord
already_resolved _ = throw (sync conflict_already_resolved "Conflict already resolved")

-- A resolved conflict is final: `claim`, `release` and `resolve` on it leave the whole store as it is,
-- whoever calls.
pub resolved-IsFinal :
    (os : Platform) (now : ℕ) (s : InMemoryDataStore) (c : ConflictRecord)
    (vault_id user_id device_id conflict_id : JsString) (input : ResolveInput)
    → get_conflict s conflict_id ≡ some c
    → is_resolved c.status ≡ true
    → input.conflict_id ≡ conflict_id
    → ((claim vault_id user_id device_id conflict_id s).1 ≡ s)
      × ((release vault_id user_id device_id conflict_id s).1 ≡ s)
      × ((resolve os now input s).1 ≡ s)
unfolding claim release resolve pure throw guarded already_resolved
resolved-IsFinal os now s c vault_id user_id device_id conflict_id input stored settled same = (
  guarded-settled s conflict_id vault_id user_id c already_resolved _ stored settled refl,
  guarded-settled s conflict_id vault_id user_id c already_resolved _ stored settled refl,
  guarded-settled s input.conflict_id input.vault_id input.user_id c pure _
      ((λ i. get_conflict s (same i)) ∙ stored) settled refl,
)
