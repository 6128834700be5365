-- ===== src/Engine/Store.antt =====
-- packages/server/src/engine/store.ts: the records that the server keeps, and `InMemoryDataStore`,
-- the store behind the `OpDataStore` interface, as a record of `Map`s. Dates are milliseconds.
-- `structuredClone` is left out: values here are never shared. A method that writes is an action
-- of `Tx`; an exception keeps what was written before it, since `withTransaction` of this store
-- only calls its argument.
pub mod Tx
pub mod Frame
use obsidian_baritone.Prelude.{
  ℕ, zero, suc, ◌+◌, ◌-◌, ◌≡◌, Bool, true, false, not, ◌&&◌, ◌||◌, Option, none, some, List, [],
  ◌∷◌, ◌++◌, JsString, lit, ltb, ◌==◌, if◌then◌else◌, str_eq, opt_eq, ◌otherwise◌, or_else, filter,
  any, take, find, map, sort, String,
}
use obsidian_baritone.Prelude.Maps.{JsMap, get, set, delete, values}
use obsidian_baritone.Clock.VersionVector.{VersionVector}
use obsidian_baritone.Clock.Lamport.{PathClock}
use obsidian_baritone.Unicode.{Platform}
use obsidian_baritone.Path.{case_fold_path}
use obsidian_baritone.Path.Parts.{decimal}
use obsidian_baritone.Protocol.{
  FileType, OpKind, ContentEncryptionEncoding, FileOp, ResultingClocks, AppliedOp, ConflictRecord,
  ConflictStatus, opened, kind_eq, is_resolved, status_eq, ErrorCode, Details,
}

pub data Role : Type 0 where
  owner : Role
  editor : Role
  viewer : Role

pub data BlobState : Type 0 where
  pending : BlobState
  uploaded : BlobState
  verified : BlobState
  unreferenced : BlobState
  deleted : BlobState

pub record StoredDevice : Type 0 where
  pub device_id : JsString
  pub user_id : JsString
  pub vault_id : JsString
  pub last_device_seq : ℕ
  pub last_seq : ℕ
  pub revoked : Bool
  pub last_seen : Option ℕ

pub record StoredFile : Type 0 where
  pub file_id : JsString
  pub vault_id : JsString
  pub type : FileType
  pub path : JsString
  pub path_normalized : JsString
  pub path_clock : PathClock
  pub content_vv : VersionVector
  pub content_hash : Option JsString
  pub size : Option ℕ
  pub blob_ref : Option JsString
  pub content_encoding : Option ContentEncryptionEncoding
  pub delete_vv : Option VersionVector
  pub deleted : Bool
  pub deleted_at : Option ℕ
  pub epoch : ℕ
  pub conflict_id : Option JsString
  pub active_until : Option ℕ
  pub updated_at : ℕ

pub record OpAckResult : Type 0 where
  pub op_id : JsString
  pub vault_seq : ℕ
  pub resulting_clocks : ResultingClocks
  pub conflict_id : Option JsString

pub record OpRejectResult : Type 0 where
  pub op_id : JsString
  pub code : ErrorCode
  pub message : String
  pub details : Option Details

pub data OpApplyResult : Type 0 where
  ack : OpAckResult → OpApplyResult
  reject : OpRejectResult → OpApplyResult

pub record StoredOp : Type 0 where
  pub vault_id : JsString
  pub seq : ℕ
  pub op_id : JsString
  pub device_id : JsString
  pub device_seq : ℕ
  pub file_id : JsString
  pub kind : OpKind
  pub payload : FileOp
  pub result : OpApplyResult
  pub created_at : ℕ

pub record BlobRecord : Type 0 where
  pub hash : JsString
  pub size : ℕ
  pub state : BlobState
  pub object_key : JsString
  pub created_at : ℕ
  pub verified_at : Option ℕ
  pub unreferenced_at : Option ℕ
  pub deleted_at : Option ℕ

-- `refType` is the text that it is in the source.
pub record BlobRef : Type 0 where
  pub hash : JsString
  pub ref_type : JsString
  pub ref_id : JsString

-- An element of `outbox`.
pub record OutboxRow : Type 0 where
  pub vault_id : JsString
  pub vault_seq : ℕ
  pub payload : AppliedOp
  pub published : Bool

pub record InMemoryDataStore : Type 0 where
  pub devices : JsMap StoredDevice
  pub roles : JsMap Role
  pub files : JsMap StoredFile
  pub ops_by_id : JsMap StoredOp
  pub ops_by_device_seq : JsMap StoredOp
  pub ops_by_vault : JsMap (List StoredOp)
  pub blobs : JsMap BlobRecord
  pub blob_refs : JsMap BlobRef
  pub conflicts : JsMap ConflictRecord
  pub content : JsMap (List ℕ)
  pub outbox : List OutboxRow
  pub seqs : JsMap ℕ

abbrev pub empty_store : InMemoryDataStore
empty_store = record {
  devices = [];
  roles = [];
  files = [];
  ops_by_id = [];
  ops_by_device_seq = [];
  ops_by_vault = [];
  blobs = [];
  blob_refs = [];
  conflicts = [];
  content = [];
  outbox = [];
  seqs = [];
}

-- `${a}:${b}`, the form of all keys
abbrev pub key_of : JsString → JsString → JsString
key_of a b = a ++ (b':' ∷ b)

unfoldable pub role_key : JsString → JsString → JsString
role_key vault_id user_id = key_of vault_id user_id

unfoldable pub file_key : JsString → JsString → JsString
file_key vault_id file_id = key_of vault_id file_id

abbrev pub device_seq_key : JsString → ℕ → JsString
device_seq_key device_id device_seq = key_of device_id (decimal device_seq)

abbrev pub blob_ref_key : BlobRef → JsString
blob_ref_key ref = key_of ref.hash (key_of ref.ref_type ref.ref_id)

-- The test of the loop of `findLiveFileByPath`.
unfoldable pub is_live_at : JsString → JsString → StoredFile → Bool
is_live_at vault_id path_normalized file =
    str_eq file.vault_id vault_id && not file.deleted && str_eq file.path_normalized path_normalized

abbrev pub applied_of : StoredOp → AppliedOp
applied_of op = record {
  vault_seq = op.seq;
  op = op.payload;
  resulting_clocks = elim op.result [
    | ack a ↦ a.resulting_clocks
    | reject r ↦ record { content_vv = none; path_clock = none; delete_vv = none; epoch = 0 }
  ];
}

-- The reading methods.
module _ (s : InMemoryDataStore) where
  unfoldable pub get_device : JsString → Option StoredDevice
  get_device device_id = get device_id s.devices

  unfoldable pub get_role : JsString → JsString → Option Role
  get_role vault_id user_id = get (role_key vault_id user_id) s.roles

  unfoldable pub get_op_by_id : JsString → Option StoredOp
  get_op_by_id op_id = get op_id s.ops_by_id

  unfoldable pub get_op_by_device_seq : JsString → ℕ → Option StoredOp
  get_op_by_device_seq device_id device_seq =
      get (device_seq_key device_id device_seq) s.ops_by_device_seq

  unfoldable pub get_file : JsString → JsString → Option StoredFile
  get_file vault_id file_id = get (file_key vault_id file_id) s.files

  unfoldable pub find_live_file_by_path : JsString → JsString → Option StoredFile
  find_live_file_by_path vault_id path_normalized =
      find (is_live_at vault_id path_normalized) (values s.files)

  unfoldable pub vault_ops : JsString → List StoredOp
  vault_ops vault_id = get vault_id s.ops_by_vault otherwise []

  unfoldable pub list_ops : JsString → ℕ → ℕ → List AppliedOp
  list_ops vault_id since_seq limit =
      map applied_of (take limit (filter (λ op. ltb since_seq op.seq) (vault_ops vault_id)))

  unfoldable pub next_seq : JsString → ℕ
  next_seq vault_id = get vault_id s.seqs otherwise 1

  unfoldable pub current_seq : JsString → ℕ
  current_seq vault_id = next_seq vault_id - 1

  unfoldable pub get_blob : JsString → Option BlobRecord
  get_blob hash = get hash s.blobs

  unfoldable pub list_blob_refs : JsString → List BlobRef
  list_blob_refs hash = filter (λ r. str_eq r.hash hash) (values s.blob_refs)

  unfoldable pub get_conflict : JsString → Option ConflictRecord
  get_conflict conflict_id = get conflict_id s.conflicts

  unfoldable pub list_trash : JsString → List StoredFile
  list_trash vault_id = filter (λ f. str_eq f.vault_id vault_id && f.deleted) (values s.files)

  unfoldable pub has_content_for_vault : JsString → JsString → Bool
  has_content_for_vault vault_id hash =
      any (λ f. str_eq f.vault_id vault_id && opt_eq f.content_hash (some hash)) (values s.files)
      || any
          (λ c.
            str_eq c.vault_id vault_id
            && (opt_eq c.base_hash (some hash)
                || opt_eq c.ours_hash (some hash)
                || opt_eq c.theirs_hash (some hash)))
          (values s.conflicts)
      || any
          (λ op.
            opt_eq op.payload.content_hash (some hash) || opt_eq op.payload.blob_ref (some hash))
          (vault_ops vault_id)

  unfoldable pub get_content : JsString → Option (List ℕ)
  get_content hash = get hash s.content

-- Opens the file's functions, for tests that run them.
unfoldable pub code : Unit {0}
unfolding role_key file_key is_live_at get_device get_role get_op_by_id get_op_by_device_seq
    get_file find_live_file_by_path vault_ops list_ops next_seq current_seq get_blob list_blob_refs
    get_conflict list_trash has_content_for_vault get_content
code = tt
