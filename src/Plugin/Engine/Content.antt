-- ===== src/Plugin/Engine/Content.antt =====
-- apps/plugin/src/sync/engine.ts: the content that operations carry, and how it is fetched.
use obsidian_baritone.Prelude.{
  ℕ, Bool, false, not, ◌&&◌, ◌||◌, Option, none, some, List, [], ◌∷◌, ◌++◌, JsString, lit,
  if◌then◌else◌, str_eq, any, length, Result, ok, err, is_some,
}
use obsidian_baritone.Clock.VersionVector.{VersionVector, empty_vv, bump, join}
use obsidian_baritone.Hash
use obsidian_baritone.Unicode.{utf8}
use obsidian_baritone.Protocol.{FileType, OpKind, ContentEncryptionEncoding}
use obsidian_baritone.Protocol.ClientMessage.{ClientMessage}
use obsidian_baritone.Plugin.Outbox.{FileOpDraft}
use obsidian_baritone.Plugin.LocalIndex.{FileIndexEntry, by_file_id}
use obsidian_baritone.Plugin.Engine.{
  Surroundings, SyncEngine, ContentPayload, Given, nothing, given_text, given_bytes,
  content_encryption_encoding, is_text_path, send, draft_for,
}
use obsidian_baritone.Plugin.Engine.Step.{Step, ◌>>=◌, ◌>>◌, pure, asks, changes, writes, when}

module _ {V : Type 0} (around : Surroundings V) where
  -- `readPlaintextBytes`
  unfoldable pub read_plaintext_bytes : JsString → Given → V → Result JsString (List ℕ)
  read_plaintext_bytes path (given_text text) v = ok (utf8 text)
  read_plaintext_bytes path (given_bytes bytes) v = ok bytes
  read_plaintext_bytes path nothing v =
      if is_text_path path
      then elim (around.read_text path v) [ ok text ↦ ok (utf8 text) | err x ↦ err x ]
      else around.read_bytes path v

  abbrev text_payload : JsString → ContentPayload
  text_payload text = record {
    content_hash = Hash.content_hash_text around.os text;
    size = length (utf8 text);
    inline_text = some text;
    blob_ref = none;
    content_encoding = none;
  }

  abbrev blob_payload : JsString → List ℕ → Option ContentEncryptionEncoding → ContentPayload
  blob_payload hash bytes content_encoding = record {
    content_hash = hash;
    size = length bytes;
    inline_text = none;
    blob_ref = some hash;
    content_encoding = content_encoding;
  }

  abbrev upload_payload :
      JsString → Option ContentEncryptionEncoding → Step V (List ℕ) → Step V ContentPayload
  upload_payload file_id content_encoding m = do
    bytes ← m
    hash ← asks λ v. around.upload file_id bytes
    pure (blob_payload hash bytes content_encoding)

  unfoldable pub plain_payload : JsString → JsString → Given → Step V ContentPayload
  plain_payload file_id path (given_text text) = pure (text_payload text)
  plain_payload file_id path (given_bytes bytes) = upload_payload file_id none (pure bytes)
  plain_payload file_id path nothing =
      if is_text_path path
      then (do text ← asks (around.read_text path); pure (text_payload text))
      else upload_payload file_id none (asks (around.read_bytes path))

  unfoldable pub encrypted_bytes : JsString → Given → Step V (List ℕ)
  encrypted_bytes path given = do
    plaintext ← asks (read_plaintext_bytes path given)
    asks λ v. around.encrypt plaintext

  -- `buildContentPayload`
  unfoldable pub build_content_payload : JsString → JsString → Given → Step V ContentPayload
  build_content_payload file_id path given e =
      if e.settings.encrypts
      then upload_payload file_id (some content_encryption_encoding) (encrypted_bytes path given) e
      else plain_payload file_id path given e

  abbrev content_draft :
      SyncEngine V
      → JsString
      → JsString
      → FileType
      → OpKind
      → VersionVector
      → VersionVector
      → ContentPayload
      → FileOpDraft
  content_draft e file_id path type kind base next payload =
      record (draft_for e file_id kind type) {
        new_path = some path;
        base_content_vv = some base;
        new_content_vv = some next;
        content_hash = some payload.content_hash;
        size = some payload.size;
        inline_text = payload.inline_text;
        blob_ref = payload.blob_ref;
        content_encoding = payload.content_encoding;
      }

  -- `entry?.appliedContentVV ?? {}`
  abbrev pub base_of : Option FileIndexEntry → VersionVector
  base_of none = empty_vv
  base_of (some entry) = entry.applied_content_vv

  unfoldable pub make_content_op : JsString → JsString → FileType → Given → Step V FileOpDraft
  make_content_op file_id path type given e =
      let entry = by_file_id file_id e.index in
      let kind = if is_some entry then OpKind.update else OpKind.create in
      let next = bump (base_of entry) e.settings.device_id in
      (build_content_payload file_id path given >>= λ payload.
      pure (content_draft e file_id path type kind (base_of entry) next payload))
        e

  unfoldable pub make_forced_content_op :
      JsString → JsString → FileType → VersionVector → Bool → Step V FileOpDraft
  make_forced_content_op file_id path type dominate_vv remote_exists e =
      let base = base_of (by_file_id file_id e.index) in
      let next = bump (join base dominate_vv) e.settings.device_id in
      let kind = if remote_exists then OpKind.update else OpKind.create in
      (build_content_payload file_id path nothing >>= λ payload.
      pure (content_draft e file_id path type kind base next payload))
        e

  unfoldable pub plain_hash : JsString → Step V JsString
  plain_hash path =
      if is_text_path path
      then (do text ← asks (around.read_text path); pure (Hash.content_hash_text around.os text))
      else (do bytes ← asks (around.read_bytes path); pure (Hash.content_hash around.os bytes))

  unfoldable pub encrypted_hash : JsString → Step V JsString
  encrypted_hash path = do
    bytes ← encrypted_bytes path nothing
    pure (Hash.content_hash around.os bytes)

  -- `hashPath`
  unfoldable pub hash_path : JsString → Step V JsString
  hash_path path e = if not e.settings.encrypts then plain_hash path e else encrypted_hash path e

  abbrev decrypted : JsString → List ℕ → Option ContentEncryptionEncoding → Result JsString (List ℕ)
  decrypted hash bytes none = ok bytes
  decrypted hash bytes (some encoding) =
      if not (str_eq encoding.algorithm content_encryption_encoding.algorithm)
        || not (around.is_envelope bytes)
      then err (lit "Unsupported encrypted content format for " ++ hash)
      else around.decrypt bytes

  -- The tests of `fetchContentBytes` on what the server answered.
  unfoldable pub verified_content :
      JsString → Option ContentEncryptionEncoding → Option (List ℕ) → Result JsString (List ℕ)
  verified_content hash content_encoding none =
      err (lit "Content " ++ hash ++ lit " unavailable; resync required")
  verified_content hash content_encoding (some bytes) =
      if not (str_eq (Hash.content_hash around.os bytes) hash)
      then err (lit "Hash verification failed for " ++ hash)
      else decrypted hash bytes content_encoding

  -- `fetchContentBytes`
  unfoldable pub fetch_content_bytes : JsString → Option ContentEncryptionEncoding → Step V (List ℕ)
  fetch_content_bytes hash content_encoding = do
    changes (send (ClientMessage.get_content (record { hash = hash })))
    asks λ v. verified_content hash content_encoding (around.content_answer hash)

  -- `[...new Set([...hashes, hash])]` of hashes without repetition
  abbrev with_hash : JsString → List JsString → List JsString
  with_hash hash hashes = if any (λ h. str_eq h hash) hashes then hashes else hashes ++ (hash ∷ [])

  unfoldable pub remember_hash : JsString → SyncEngine V → SyncEngine V
  remember_hash hash e = record e {
    index = record e.index {
      device = record e.index.device {
        downloaded_hashes = with_hash hash e.index.device.downloaded_hashes;
      };
    };
  }

  -- The hash of what the vault has at the path.
  unfoldable pub present_hash : JsString → Option ContentEncryptionEncoding → Step V JsString
  present_hash target (some encoding) = hash_path target
  present_hash target none = do
    bytes ← asks (around.read_bytes target)
    pure (Hash.content_hash around.os bytes)

  unfoldable pub has_hash : JsString → JsString → Option ContentEncryptionEncoding → Step V Bool
  has_hash target hash content_encoding = do
    there ← present_hash target content_encoding
    pure (str_eq there hash)

  -- Whether the vault has the content already.
  unfoldable pub has_downloaded :
      JsString → JsString → Option ContentEncryptionEncoding → Step V Bool
  has_downloaded target hash content_encoding e =
      if any (λ h. str_eq h hash) e.index.device.downloaded_hashes && around.exists target e.vault
      then has_hash target hash content_encoding e
      else (ok false, e)

  unfoldable pub download :
      JsString → JsString → Option ContentEncryptionEncoding → Step V (Unit {0})
  download target hash content_encoding = do
    bytes ← fetch_content_bytes hash content_encoding
    writes (
        if is_some content_encoding && is_text_path target
        then around.write_text target (around.decode_utf8 bytes)
        else around.write_bytes target bytes)
    changes (remember_hash hash)

  -- `fetchAndWriteBlob`
  unfoldable pub fetch_and_write_blob :
      JsString → JsString → Option ContentEncryptionEncoding → Step V (Unit {0})
  fetch_and_write_blob target hash content_encoding = do
    downloaded ← has_downloaded target hash content_encoding
    when (not downloaded) (download target hash content_encoding)
