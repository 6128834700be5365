-- ===== src/Engine/Conflict.antt =====
-- packages/server/src/engine/conflict.ts: `claim` and `release` of `ConflictService`; `resolve` is in
-- `Conflict/Resolve`. A call is one action on the store; that the compare-and-set protects a call
-- against what happens between its reads and its write is in `Conflict/Claims`.
pub mod Resolve
pub mod Settled
pub mod Claims
pub mod Tests
use obsidian_baritone.Prelude.{
  ℕ, ◌+◌, Bool, true, false, not, ◌&&◌, ◌||◌, Option, none, some, List, [], ◌∷◌, ◌++◌, JsString,
  lit, if◌then◌else◌, str_eq, opt_eq, nonempty, truthy, is_some, ◌otherwise◌, or_else, length, ok,
  err, String,
}
use obsidian_baritone.Clock.VersionVector.{VersionVector, bump, join}
use obsidian_baritone.Unicode.{Platform, utf8}
use obsidian_baritone.Hash.{is_valid_content_hash, content_hash_text}
use obsidian_baritone.Protocol.{
  ConflictRecord, ConflictStatus, opened, claimed, resolved, is_resolved, is_claimed, ErrorCode,
  not_found, forbidden, conflict_already_resolved, conflict_not_claimed, bad_request,
}
use obsidian_baritone.Engine.Store.{
  InMemoryDataStore, Role, StoredFile, BlobRecord, BlobRef, verified, key_of, get_role, get_file,
  get_blob, get_content, get_conflict, has_content_for_vault,
}
use obsidian_baritone.Engine.Store.Tx.{
  Thrown, sync, Tx, pure, throw, reads, lift, throw_if, when, when_some, ◌>>=◌, ◌>>◌, save_file,
  add_blob_ref, remove_blob_ref, put_content, compare_and_set_conflict,
}
use obsidian_baritone.Engine.OpProcessor.{is_writer}

-- `requireConflictAccess`
unfoldable pub require_conflict_access : ConflictRecord → JsString → JsString → Bool → Tx (Unit {0})
require_conflict_access conflict vault_id user_id write = do
  throw_if (not (str_eq conflict.vault_id vault_id))
      (sync forbidden "Conflict does not belong to this vault")
  role ← reads (λ s. get_role s vault_id user_id)
  throw_if (not (is_some role) || write && not (is_writer role))
      (sync forbidden (if write then "Write permission required" else "Read permission required"))

-- The record that a call is about.
unfoldable pub require_conflict : JsString → Tx ConflictRecord
require_conflict conflict_id s = elim (get_conflict s conflict_id) [
  | none ↦ (err (sync not_found "Conflict not found"), s)
  | some conflict ↦ (ok conflict, s)
]

-- Claimed, and by a device other than `device_id`.
unfoldable pub held_by_other : Option JsString → JsString → Bool
held_by_other claimed_by device_id = truthy claimed_by && not (opt_eq claimed_by (some device_id))

-- What `claim` throws when its compare-and-set failed.
unfoldable pub claim_failed : JsString → ConflictRecord → Thrown
claim_failed device_id latest =
    if is_resolved latest.status
    then sync conflict_already_resolved "Conflict already resolved"
    else if held_by_other latest.claimed_by device_id
    then sync forbidden "Conflict is claimed by another device"
    else sync conflict_not_claimed "Conflict claim changed concurrently"

abbrev pub claimed_by_device : ConflictRecord → JsString → ConflictRecord
claimed_by_device conflict device_id = record conflict {
  status = claimed;
  claimed_by = some device_id;
}

-- The write of `claim`.
unfoldable pub write_claim : ConflictRecord → JsString → Tx ConflictRecord
write_claim conflict device_id = do
  written ←
      compare_and_set_conflict (claimed_by_device conflict device_id) conflict.status
        conflict.claimed_by
  if written
      then pure (claimed_by_device conflict device_id)
      else do latest ← require_conflict conflict.conflict_id; throw (claim_failed device_id latest)

-- `claim`
unfoldable pub claim : JsString → JsString → JsString → JsString → Tx ConflictRecord
claim vault_id user_id device_id conflict_id = do
  conflict ← require_conflict conflict_id
  require_conflict_access conflict vault_id user_id true
  if is_resolved conflict.status
      then throw (sync conflict_already_resolved "Conflict already resolved")
      else if is_claimed conflict.status && held_by_other conflict.claimed_by device_id
      then throw (sync forbidden "Conflict is claimed by another device")
      else write_claim conflict device_id

-- What `release` throws when its compare-and-set failed.
unfoldable pub release_failed : ConflictRecord → Thrown
release_failed latest =
    if is_resolved latest.status
    then sync conflict_already_resolved "Conflict already resolved"
    else sync conflict_not_claimed "Conflict not claimed by this device"

abbrev pub released_record : ConflictRecord → ConflictRecord
released_record conflict = record conflict { status = opened; claimed_by = none }

-- The write of `release`.
unfoldable pub write_release : ConflictRecord → JsString → Tx ConflictRecord
write_release conflict device_id = do
  written ← compare_and_set_conflict (released_record conflict) conflict.status (some device_id)
  if written
      then pure (released_record conflict)
      else do latest ← require_conflict conflict.conflict_id; throw (release_failed latest)

-- `release`
unfoldable pub release : JsString → JsString → JsString → JsString → Tx ConflictRecord
release vault_id user_id device_id conflict_id = do
  conflict ← require_conflict conflict_id
  require_conflict_access conflict vault_id user_id true
  if is_resolved conflict.status
      then throw (sync conflict_already_resolved "Conflict already resolved")
      else if not (opt_eq conflict.claimed_by (some device_id))
      then throw (sync conflict_not_claimed "Conflict not claimed by this device")
      else write_release conflict device_id
