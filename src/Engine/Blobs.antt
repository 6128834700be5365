-- ===== src/Engine/Blobs.antt =====
-- packages/server/src/blob/store.ts: the states of a blob. The object storage is a parameter: the
-- size and the hash that it reports of an object, and the address that it signs for an upload.
pub mod Collected
pub mod Tests
use Prim.Native.Nat.{◌^◌}
use obsidian_baritone.Prelude.{
  ℕ, ◌+◌, ◌-◌, Bool, true, false, not, ◌&&◌, ◌||◌, ◌==◌, Option, none, some, List, [], ◌∷◌, ◌++◌,
  JsString, lit, if◌then◌else◌, str_eq, leb, nonempty, is_some, ◌otherwise◌, take, drop, ok, err,
}
use obsidian_baritone.Prelude.Maps.{values}
use obsidian_baritone.Hash.{is_valid_content_hash, content_hash}
use obsidian_baritone.Unicode.{Platform}
use obsidian_baritone.Protocol.{ErrorCode, bad_request, blob_hash_mismatch, blob_missing}
use obsidian_baritone.Engine.Store.{
  InMemoryDataStore, BlobRecord, BlobState, pending, verified, unreferenced, deleted, BlobRef,
  get_blob, list_blob_refs,
}
use obsidian_baritone.Engine.Store.Tx.{
  Thrown, sync, Tx, pure, throw, reads, throw_if, ◌>>=◌, ◌>>◌, save_blob,
}

-- `size_of` is the content length of an object, `hash_of` the hash of its bytes, if it has a body;
-- `sign` the address for an upload.
pub record ObjectStorage : Type 0 where
  pub size_of : JsString → Option ℕ
  pub hash_of : JsString → Option JsString
  pub sign : JsString → ℕ → JsString

pub record UploadStart : Type 0 where
  pub hash : JsString
  pub url : Option JsString
  pub already_exists : Bool

-- `objectKey`
unfoldable pub object_key : JsString → JsString
object_key hash =
    lit "blobs/"
    ++ take 2 (drop 7 hash)
    ++ lit "/"
    ++ take 2 (drop 9 hash)
    ++ lit "/"
    ++ drop 7 hash

-- `validateHashAndSize`
unfoldable pub validate_hash_and_size : JsString → ℕ → Tx (Unit {0})
validate_hash_and_size hash size = do
  throw_if (not (is_valid_content_hash hash)) (sync bad_request "Invalid content hash")
  throw_if (not (leb size (2 ^ 53 - 1))) (sync bad_request "Invalid blob size")

abbrev pub is_verified : BlobState → Bool
is_verified verified = true
is_verified _ = false

abbrev pub is_deleted : BlobState → Bool
is_deleted deleted = true
is_deleted _ = false

module _ (storage : ObjectStorage) (now : ℕ) where
  unfoldable pub new_blob : JsString → ℕ → BlobRecord
  new_blob hash size = record {
    hash = hash;
    size = size;
    state = pending;
    object_key = object_key hash;
    created_at = now;
    verified_at = none;
    unreferenced_at = none;
    deleted_at = none;
  }

  -- `initUpload` behind its test for a verified blob.
  unfoldable pub start_upload : JsString → ℕ → BlobRecord → Tx UploadStart
  start_upload hash size blob = do
    throw_if (not (blob.size == size))
        (sync blob_hash_mismatch "Hash already registered with different size")
    save_blob (record blob { state = pending })
    pure (record {
      hash = hash;
      url = some (storage.sign blob.object_key size);
      already_exists = false;
    })

  unfoldable pub init_upload : JsString → ℕ → Tx UploadStart
  init_upload hash size = do
    validate_hash_and_size hash size
    existing ← reads (λ s. get_blob s hash)
    elim existing [
      | none ↦ start_upload hash size (new_blob hash size)
      | some blob ↦
          if is_verified blob.state
          then pure (record { hash = hash; url = none; already_exists = true })
          else start_upload hash size blob
    ]

  abbrev has_size : Option ℕ → ℕ → Bool
  has_size none size = false
  has_size (some n) size = n == size

  -- `completeUpload` for the record that it finds.
  unfoldable pub verify_upload : JsString → Option BlobRecord → Tx BlobRecord
  verify_upload hash none = throw (sync blob_missing "Upload was not initialized")
  verify_upload hash (some blob) =
      if not (has_size (storage.size_of blob.object_key) blob.size)
      then throw (sync blob_hash_mismatch "Uploaded object size mismatch")
      else elim (storage.hash_of blob.object_key) [
        | none ↦ throw (sync blob_missing "Uploaded object body is unavailable")
        | some actual ↦
            if not (str_eq actual hash)
            then throw (sync blob_hash_mismatch "Uploaded object hash mismatch")
            else do
              let done : BlobRecord = record blob {
                state = verified;
                verified_at = some now;
                unreferenced_at = none;
              }
              save_blob done
              pure done
      ]

  unfoldable pub complete_upload : JsString → Tx BlobRecord
  complete_upload hash = do
    throw_if (not (is_valid_content_hash hash)) (sync bad_request "Invalid hash")
    blob ← reads (λ s. get_blob s hash)
    verify_upload hash blob

-- One round of the loop of `gcUnreferenced`: what is written, and whether the blob is removed.
unfoldable pub collect : ℕ → ℕ → List BlobRef → BlobRecord → Option BlobRecord × Bool
collect min_age_ms now (ref ∷ refs) blob = (none, false)
collect min_age_ms now [] blob =
    if is_deleted blob.state then (none, false) else elim blob.unreferenced_at [
      | none ↦ (some (record blob { state = unreferenced; unreferenced_at = some now }), false)
      | some mark ↦
          if leb (mark + min_age_ms) now
          then (some (record blob { state = deleted; deleted_at = some now }), true)
          else (none, false)
    ]

unfoldable pub write_collected : Option BlobRecord × Bool → InMemoryDataStore → InMemoryDataStore
write_collected (none, removed) s = s
write_collected (some blob, removed) s = (save_blob blob s).1

-- The loop of `gcUnreferenced` over the blobs; no round changes the references.
unfoldable pub collect_all :
    ℕ → ℕ → List BlobRecord → InMemoryDataStore → List JsString × InMemoryDataStore
collect_all min_age_ms now [] s = ([], s)
collect_all min_age_ms now (blob ∷ blobs) s =
    let outcome = collect min_age_ms now (list_blob_refs s blob.hash) blob in
    let (removed, last) = collect_all min_age_ms now blobs (write_collected outcome s) in
    (if outcome.1 then blob.hash ∷ removed else removed, last)

unfoldable pub gc_unreferenced : ℕ → ℕ → InMemoryDataStore → List JsString × InMemoryDataStore
gc_unreferenced min_age_ms now s = collect_all min_age_ms now (values s.blobs) s
