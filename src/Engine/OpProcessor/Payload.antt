-- ===== src/Engine/OpProcessor/Payload.antt =====
-- packages/server/src/engine/op-processor.ts: validation of the payload of an operation.
use obsidian_baritone.Prelude.{
  ℕ, ◌-◌, Bool, true, false, not, ◌&&◌, Option, none, some, JsString, leb, ◌==◌, str_eq, nonempty,
  truthy, is_some, Result, ok, err,
}
use Prim.Native.Nat.{◌^◌}
use obsidian_baritone.Unicode.{Platform, utf8}
use obsidian_baritone.Hash.{is_valid_content_hash, content_hash_text}
use obsidian_baritone.Path.{normalize_path}
use obsidian_baritone.Protocol.{
  OpKind, create, update, rename, restore, FileOp, bad_request, illegal_path, blob_hash_mismatch,
  blob_missing,
}
use obsidian_baritone.Engine.Store.{BlobRecord, verified, get_blob, get_content}
use obsidian_baritone.Engine.Store.Tx.{
  Thrown, path_error, sync, Tx, pure, reads, lift, throw_if, when_some, when, ◌>>=◌, ◌>>◌,
  put_content,
}

-- `Number.MAX_SAFE_INTEGER`
abbrev pub max_safe_integer : ℕ
max_safe_integer = 2 ^ 53 - 1

abbrev pub is_content_kind : OpKind → Bool
is_content_kind create = true
is_content_kind update = true
is_content_kind restore = true
is_content_kind _ = false

abbrev pub names_path : OpKind → Bool
names_path create = true
names_path rename = true
names_path _ = false

-- `blob && blob.state === 'verified' && blob.size === op.size`
abbrev is_usable : Option BlobRecord → Option ℕ → Bool
is_usable none size = false
is_usable (some blob) none = false
is_usable (some blob) (some size) = elim blob.state [ verified ↦ blob.size == size | _ ↦ false ]

-- The identity and sequence test of `validatePayload`.
unfoldable pub is_well_formed : FileOp → Bool
is_well_formed op =
    nonempty op.op_id
    && nonempty op.device_id
    && nonempty op.vault_id
    && nonempty op.file_id
    && leb op.device_seq max_safe_integer
    && leb 1 op.device_seq

-- `normalizePath`, whose exception is no `SyncError`
unfoldable pub normalized : Platform → JsString → Result Thrown JsString
normalized os raw = elim (normalize_path os raw) [ ok p ↦ ok p | err e ↦ err (path_error e) ]

-- The block of `validatePayload` on inline text.
unfoldable pub check_inline_text : Platform → JsString → Option JsString → Tx (Unit {0})
check_inline_text os content_hash inline_text = when_some inline_text λ text. do
  throw_if (not (str_eq (content_hash_text os text) content_hash))
      (sync blob_hash_mismatch "Inline content hash mismatch")
  put_content content_hash (utf8 text)

-- The block of `validatePayload` on a blob.
unfoldable pub check_blob : FileOp → Option JsString → Tx (Unit {0})
check_blob op blob_ref = when_some blob_ref λ hash. when (nonempty hash) do
  blob ← reads (λ s. get_blob s hash)
  throw_if (not (is_usable blob op.size)) (sync blob_missing "Referenced blob is not verified")

-- The part of `validatePayload` for an operation with content.
unfoldable pub check_content : Platform → FileOp → JsString → Tx (Unit {0})
check_content os op content_hash = do
  throw_if (not (is_valid_content_hash content_hash)) (sync bad_request "Invalid content hash")
  throw_if (is_some op.content_encoding && is_some op.inline_text)
      (sync bad_request "Encrypted content must be uploaded as an opaque blob")
  stored ← reads (λ s. get_content s content_hash)
  throw_if (is_some op.content_encoding && not (truthy op.blob_ref) && not (is_some stored))
      (sync bad_request "Encrypted content requires an uploaded blob")
  check_inline_text os content_hash op.inline_text
  check_blob op op.blob_ref

-- `if (op.newPath) normalizePath(op.newPath)`
unfoldable pub check_new_path : Platform → Option JsString → Tx (Unit {0})
check_new_path os new_path =
    when_some new_path λ raw. when (nonempty raw) do path ← lift (normalized os raw); pure tt

-- `validatePayload`
unfoldable pub validate_payload : Platform → FileOp → Tx (Unit {0})
validate_payload os op = do
  throw_if (not (is_well_formed op)) (sync bad_request "Invalid op identity or sequence")
  throw_if (names_path op.kind && not (truthy op.new_path))
      (sync illegal_path "newPath is required")
  check_new_path os op.new_path
  when (is_content_kind op.kind)
      (when_some op.content_hash λ hash. when (nonempty hash) (check_content os op hash))

-- Opens the file's functions, for tests that run them.
unfoldable pub code : Unit {0}
unfolding is_well_formed normalized check_inline_text check_blob check_content check_new_path
    validate_payload
code = tt
