-- ===== src/Engine/Conflict/Claims.antt =====
-- packages/server/src/engine/conflict.ts: two devices that claim one conflict at the same time.
-- Each call has read the conflict before either writes, so both writes carry the same record.
use obsidian_baritone.Prelude.{
  ◌≡◌, refl, ◌∙◌, true, false, not, ◌||◌, Option, none, some, JsString, ok, err, str_eq,
  str_eq_refl, opt_eq, nonempty, if◌then◌else◌,
}
use obsidian_baritone.Prelude.Maps.{set, get-set_self}
use obsidian_baritone.Protocol.{
  ConflictRecord, ConflictStatus, opened, claimed, resolved, status_eq, is_resolved, forbidden,
}
use obsidian_baritone.Engine.Store.{InMemoryDataStore, get_conflict}
use obsidian_baritone.Engine.Store.Tx.{sync, pure, throw, >>=-ok, compare_and_set_conflict}
use obsidian_baritone.Engine.Conflict.{
  require_conflict, held_by_other, claim_failed, claimed_by_device, write_claim,
}

abbrev with_conflict : InMemoryDataStore → ConflictRecord → InMemoryDataStore
with_conflict s c = record s { conflicts = set c.conflict_id c s.conflicts }

get_conflict-with_conflict :
    (s : InMemoryDataStore) (c : ConflictRecord)
    → get_conflict (with_conflict s c) c.conflict_id ≡ some c
unfolding get_conflict
get_conflict-with_conflict s c = get-set_self c.conflict_id c s.conflicts

opt_eq_refl : (o : Option JsString) → opt_eq o o ≡ true
unfolding opt_eq
opt_eq_refl none = refl
opt_eq_refl (some a) = str_eq_refl a

status_eq_refl : (x : ConflictStatus) → status_eq x x ≡ true
unfolding status_eq
status_eq_refl opened = refl
status_eq_refl claimed = refl
status_eq_refl resolved = refl

-- A compare-and-set on a record that is stored.
cas_value :
    (s : InMemoryDataStore) (c latest : ConflictRecord) (status : ConflictStatus)
    (by : Option JsString)
    → get_conflict s c.conflict_id ≡ some latest
    → compare_and_set_conflict c status by s ≡ (
        if not (status_eq latest.status status) || not (opt_eq latest.claimed_by by)
        then (ok false, s)
        else (ok true, with_conflict s c))
unfolding compare_and_set_conflict status_eq
cas_value s c latest status by stored = rw (stored, compare_and_set_conflict) refl

require_conflict-ok :
    (s : InMemoryDataStore) (conflict_id : JsString) (c : ConflictRecord)
    → get_conflict s conflict_id ≡ some c
    → require_conflict conflict_id s ≡ (ok c, s)
unfolding require_conflict
require_conflict-ok s conflict_id c stored = rw (stored, require_conflict) refl

cas-ok :
    (s : InMemoryDataStore) (c latest : ConflictRecord)
    → get_conflict s c.conflict_id ≡ some latest
    → compare_and_set_conflict c latest.status latest.claimed_by s ≡ (ok true, with_conflict s c)
cas-ok s c latest stored =
    simp (cas_value s c latest latest.status latest.claimed_by stored, status_eq_refl, opt_eq_refl)

cas-late :
    (s : InMemoryDataStore) (c latest : ConflictRecord) (status : ConflictStatus)
    (by : Option JsString)
    → get_conflict s c.conflict_id ≡ some latest
    → status_eq latest.status status ≡ false
    → compare_and_set_conflict c status by s ≡ (ok false, s)
cas-late s c latest status by stored differs = simp (cas_value s c latest status by stored, differs)

-- The first write goes through.
write_claim-ok :
    (s : InMemoryDataStore) (c : ConflictRecord) (device_id : JsString)
    → get_conflict s c.conflict_id ≡ some c
    → write_claim c device_id s
      ≡ (ok (claimed_by_device c device_id), with_conflict s (claimed_by_device c device_id))
unfolding write_claim pure
write_claim-ok s c device_id stored =
    >>=-ok _ _ s _ true (cas-ok s (claimed_by_device c device_id) c stored) ∙ refl

-- The second finds another status, and reads the conflict again.
write_claim-late :
    (s : InMemoryDataStore) (c latest : ConflictRecord) (device_id : JsString)
    → get_conflict s c.conflict_id ≡ some latest
    → status_eq latest.status c.status ≡ false
    → write_claim c device_id s ≡ (err (claim_failed device_id latest), s)
unfolding write_claim throw
write_claim-late s c latest device_id stored differs =
    >>=-ok _ _ s s false
      (cas-late s (claimed_by_device c device_id) latest c.status c.claimed_by stored differs)
    ∙ >>=-ok _ _ s s latest (require_conflict-ok s c.conflict_id latest stored)
    ∙ refl

claimed-differs : (x : ConflictStatus) → x ≡ opened → status_eq claimed x ≡ false
unfolding status_eq
claimed-differs x e = rw e refl

claim_failed-held :
    (c : ConflictRecord) (holder device_id : JsString)
    → nonempty holder ≡ true
    → str_eq holder device_id ≡ false
    → claim_failed device_id (claimed_by_device c holder)
      ≡ sync forbidden "Conflict is claimed by another device"
unfolding claim_failed held_by_other opt_eq is_resolved
claim_failed-held c holder device_id named other = rw (named, other) refl

-- Two devices have both read the same open conflict, as it is stored. The first one's claim
-- succeeds and is stored. The write of the other device then fails with the message that another
-- device holds the conflict, and leaves the store as it is. The first device's name is not empty.
pub write_claim-exclusive :
    (s : InMemoryDataStore) (c : ConflictRecord) (first second : JsString)
    → get_conflict s c.conflict_id ≡ some c
    → c.status ≡ opened
    → nonempty first ≡ true
    → str_eq first second ≡ false
    → (t : InMemoryDataStore) × (write_claim c first s ≡ (ok (claimed_by_device c first), t))
      × (get_conflict t c.conflict_id ≡ some (claimed_by_device c first))
      × (write_claim c second t ≡ (err (sync forbidden "Conflict is claimed by another device"), t))
write_claim-exclusive s c first second stored is_open named other =
    let held = claimed_by_device c first in
    let at_held = get_conflict-with_conflict s held in
    (
      with_conflict s held,
      write_claim-ok s c first stored,
      at_held,
      write_claim-late (with_conflict s held) c held second at_held
            (claimed-differs c.status is_open)
          ∙ (λ i. (err (claim_failed-held c first second named other i), with_conflict s held)),
    )
