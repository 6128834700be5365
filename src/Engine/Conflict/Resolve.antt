-- ===== src/Engine/Conflict/Resolve.antt =====
-- packages/server/src/engine/conflict.ts: `resolve` of `ConflictService`.
use obsidian_baritone.Prelude.{
  ℕ, Bool, true, false, not, ◌&&◌, Option, none, some, [], JsString, lit, if◌then◌else◌, opt_eq,
  nonempty, truthy, is_some, ◌otherwise◌, or_else, length, ok, err,
}
use obsidian_baritone.Clock.VersionVector.{VersionVector, bump, join}
use obsidian_baritone.Unicode.{Platform, utf8}
use obsidian_baritone.Hash.{is_valid_content_hash, content_hash_text}
use obsidian_baritone.Protocol.{
  ConflictRecord, resolved, is_resolved, not_found, forbidden, conflict_not_claimed, bad_request,
}
use obsidian_baritone.Engine.Store.{
  StoredFile, BlobRecord, verified, key_of, get_file, get_blob, get_content, has_content_for_vault,
}
use obsidian_baritone.Engine.Store.Tx.{
  sync, Tx, pure, throw, reads, throw_if, when, when_some, ◌>>=◌, ◌>>◌, save_file, add_blob_ref,
  remove_blob_ref, put_content, compare_and_set_conflict,
}
use obsidian_baritone.Engine.Conflict.{require_conflict_access, require_conflict}

-- The argument of `resolve`.
pub record ResolveInput : Type 0 where
  pub vault_id : JsString
  pub user_id : JsString
  pub conflict_id : JsString
  pub device_id : JsString
  pub resolved_hash : Option JsString
  pub inline_text : Option JsString
  pub resolved_vv : VersionVector
  pub allow_pending_resolved_hash : Bool

-- The content that a conflict is resolved to: its blob and its size.
abbrev Chosen : Type 0
Chosen = Option JsString × Option ℕ

unfoldable pub stored_content : JsString → Tx Chosen
stored_content hash s = elim (get_content s hash) [
  | none ↦ (err (sync bad_request "Resolved content not found"), s)
  | some bytes ↦ (ok (none, some (length bytes)), s)
]

unfoldable pub stored_choice : JsString → Option BlobRecord → Tx Chosen
stored_choice hash none = stored_content hash
stored_choice hash (some blob) = elim blob.state [
  | verified ↦ pure (some hash, some blob.size)
  | _ ↦ stored_content hash
]

-- The `if`/`else` of `resolve` on inline text.
unfoldable pub choose_content :
    ResolveInput → ConflictRecord → JsString → Option JsString → Tx Chosen
choose_content input conflict hash (some text) = do
  put_content hash (utf8 text)
  pure (none, some (length (utf8 text)))
choose_content input conflict hash none = do
  available ← reads (λ s. has_content_for_vault s conflict.vault_id hash)
  throw_if (not available && not input.allow_pending_resolved_hash)
      (sync forbidden "Resolved content is not available for this vault")
  blob ← reads (λ s. get_blob s hash)
  stored_choice hash blob

-- The blob references that `resolve` removes and adds.
unfoldable pub move_refs : ConflictRecord → StoredFile → Option JsString → Tx (Unit {0})
move_refs conflict file new_blob_ref = do
  when_some conflict.ours_hash λ hash. when (nonempty hash) (
      remove_blob_ref (record {
        hash = hash;
        ref_type = lit "conflict_side";
        ref_id = key_of conflict.conflict_id (lit "ours");
      }))
  when_some conflict.theirs_hash λ hash. when (nonempty hash) (
      remove_blob_ref (record {
        hash = hash;
        ref_type = lit "conflict_side";
        ref_id = key_of conflict.conflict_id (lit "theirs");
      }))
  when_some file.blob_ref λ hash.
      when (nonempty hash && not (opt_eq file.blob_ref new_blob_ref)) (
        remove_blob_ref (record { hash = hash; ref_type = lit "file_live"; ref_id = file.file_id }))
  when_some new_blob_ref λ hash.
      when (nonempty hash)
        (add_blob_ref (record { hash = hash; ref_type = lit "file_live"; ref_id = file.file_id }))

-- `bump(join(join(oursVV, theirsVV), resolvedVV), deviceId)`
unfoldable pub joined_vv : ResolveInput → ConflictRecord → VersionVector
joined_vv input conflict =
    bump
      (join (join (conflict.ours_vv otherwise []) (conflict.theirs_vv otherwise []))
        input.resolved_vv)
      input.device_id

abbrev pub resolved_record : ResolveInput → ConflictRecord → JsString → ConflictRecord
resolved_record input conflict hash = record conflict {
  status = resolved;
  resolved_by = some input.device_id;
  resolved_hash = some hash;
  resolved_vv = some (joined_vv input conflict);
}

abbrev pub resolved_file :
    ℕ → ResolveInput → ConflictRecord → StoredFile → JsString → Chosen → StoredFile
resolved_file now input conflict file hash (new_blob_ref, new_size) = record file {
  content_hash = some hash;
  blob_ref = new_blob_ref;
  size = new_size;
  content_encoding = if truthy new_blob_ref then file.content_encoding else none;
  content_vv = joined_vv input conflict;
  conflict_id = none;
  deleted = false;
  deleted_at = none;
  updated_at = now;
}

-- The writes of `resolve`.
unfoldable pub write_resolution :
    ℕ → ResolveInput → ConflictRecord → StoredFile → JsString → Chosen → Tx ConflictRecord
write_resolution now input conflict file hash chosen = do
  move_refs conflict file chosen.0
  written ←
      compare_and_set_conflict (resolved_record input conflict hash) conflict.status
        (some input.device_id)
  if not written
      then (do
        latest ← require_conflict input.conflict_id
        if is_resolved latest.status
            then pure latest
            else throw (sync conflict_not_claimed "Conflict must be claimed before resolving"))
      else (do
        save_file (resolved_file now input conflict file hash chosen)
        pure (resolved_record input conflict hash))

abbrev bad_hash : Option JsString → Bool
bad_hash none = false
bad_hash (some hash) = not (is_valid_content_hash hash)

module _ (os : Platform) (now : ℕ) where
  -- `resolvedHash ?? (inlineText !== undefined ? await contentHashText(inlineText) : undefined)`
  unfoldable pub hash_of : ResolveInput → Option JsString
  hash_of input =
      or_else input.resolved_hash
        (elim input.inline_text [ none ↦ none | some text ↦ some (content_hash_text os text) ])

  -- `resolve` behind its tests on the conflict, for the hash that it takes.
  unfoldable pub resolve_to :
      ResolveInput → ConflictRecord → StoredFile → Option JsString → Tx ConflictRecord
  resolve_to input conflict file none = throw (sync bad_request "Resolved content required")
  resolve_to input conflict file (some hash) =
      if not (nonempty hash) then throw (sync bad_request "Resolved content required") else do
        chosen ← choose_content input conflict hash input.inline_text
        write_resolution now input conflict file hash chosen

  unfoldable pub resolve_file :
      ResolveInput → ConflictRecord → Option StoredFile → Tx ConflictRecord
  resolve_file input conflict none = throw (sync not_found "File not found")
  resolve_file input conflict (some file) = do
    throw_if (bad_hash input.resolved_hash) (sync bad_request "Invalid resolved hash")
    throw_if (is_some input.resolved_hash && is_some input.inline_text)
        (sync bad_request "Provide either resolvedHash or inlineText, not both")
    resolve_to input conflict file (hash_of input)

  -- `resolve`
  unfoldable pub resolve : ResolveInput → Tx ConflictRecord
  resolve input = do
    conflict ← require_conflict input.conflict_id
    require_conflict_access conflict input.vault_id input.user_id true
    if is_resolved conflict.status
        then pure conflict
        else if not (opt_eq conflict.claimed_by (some input.device_id))
        then throw (sync conflict_not_claimed "Conflict must be claimed before resolving")
        else do
          file ← reads (λ s. get_file s conflict.vault_id conflict.file_id)
          resolve_file input conflict file
