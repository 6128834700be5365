-- ===== src/Engine/Conflict/Tests.antt =====
-- Tests of conflicts: one open, one resolved.
use obsidian_baritone.Prelude.{◌≡◌, refl, false, none, some, [], ◌∷◌, ok, err, lit, str_eq}
use obsidian_baritone.Prelude.Maps.{get}
use obsidian_baritone.Unicode.Samples.{plain_platform}
use obsidian_baritone.Protocol.{
  ConflictRecord, ConflictKind, ConflictStatus, opened, resolved, forbidden,
}
use obsidian_baritone.Engine.Store.{InMemoryDataStore, empty_store, get_conflict}
use obsidian_baritone.Engine.Store.Tx.{sync}
use obsidian_baritone.Engine.Conflict.Resolve.{ResolveInput, resolve}
use obsidian_baritone.Engine.Conflict.{claimed_by_device, write_claim, claim, release}
use obsidian_baritone.Engine.Conflict.Claims.{write_claim-exclusive}
use obsidian_baritone.Engine.Conflict.Settled.{resolved-IsFinal}

abbrev conflict_in : ConflictStatus → ConflictRecord
conflict_in status = record {
  conflict_id = lit "c1";
  vault_id = lit "v1";
  file_id = lit "f1";
  kind = ConflictKind.content;
  base_hash = none;
  ours_hash = none;
  theirs_hash = none;
  ours_vv = none;
  theirs_vv = none;
  status = status;
  claimed_by = none;
  resolved_by = none;
  resolved_hash = none;
  resolved_vv = none;
}

abbrev store_with : ConflictStatus → InMemoryDataStore
store_with status = record empty_store { conflicts = (lit "c1", conflict_in status) ∷ [] }

write_claim-exclusive_example :
    (t : InMemoryDataStore) × (write_claim (conflict_in opened) (lit "d1") (store_with opened)
      ≡ (ok (claimed_by_device (conflict_in opened) (lit "d1")), t))
    × (get_conflict t (lit "c1") ≡ some (claimed_by_device (conflict_in opened) (lit "d1")))
    × (write_claim (conflict_in opened) (lit "d2") t
        ≡ (err (sync forbidden "Conflict is claimed by another device"), t))
unfolding get_conflict get str_eq
write_claim-exclusive_example =
    write_claim-exclusive (store_with opened) (conflict_in opened) (lit "d1") (lit "d2") refl refl
      refl refl

abbrev input : ResolveInput
input = record {
  vault_id = lit "v1";
  user_id = lit "u1";
  conflict_id = lit "c1";
  device_id = lit "d1";
  resolved_hash = none;
  inline_text = some (lit "text");
  resolved_vv = [];
  allow_pending_resolved_hash = false;
}

resolved-IsFinal_example :
    ((claim (lit "v1") (lit "u1") (lit "d1") (lit "c1") (store_with resolved)).1
      ≡ store_with resolved)
    × ((release (lit "v1") (lit "u1") (lit "d1") (lit "c1") (store_with resolved)).1
        ≡ store_with resolved)
    × ((resolve plain_platform 7 input (store_with resolved)).1 ≡ store_with resolved)
unfolding get_conflict get str_eq
resolved-IsFinal_example =
    resolved-IsFinal plain_platform 7 (store_with resolved) (conflict_in resolved) (lit "v1")
      (lit "u1") (lit "d1") (lit "c1") input refl refl refl
