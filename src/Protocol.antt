-- ===== src/Protocol.antt =====
-- packages/shared/src/protocol/types.ts and errors/codes.ts: the operations that clients send, the
-- clocks that the server answers with, conflict records, and the errors. Optional fields and
-- fields that may be null are `Option`s; sizes, sequence numbers and times are natural numbers.
pub mod ClientMessage
pub mod ServerMessage
use obsidian_baritone.Prelude.{ℕ, Bool, true, false, ◌==◌, Option, String, JsString}
use obsidian_baritone.Clock.VersionVector.{VersionVector}
use obsidian_baritone.Clock.Lamport.{PathClock}

-- `PROTOCOL_VERSION`
abbrev pub protocol_version : ℕ
protocol_version = 1

pub data FileType : Type 0 where
  note : FileType
  attachment : FileType
  config : FileType

pub data OpKind : Type 0 where
  create : OpKind
  update : OpKind
  rename : OpKind
  delete : OpKind
  restore : OpKind

pub record ContentEncryptionEncoding : Type 0 where
  pub algorithm : JsString
  pub version : ℕ

pub record FileOp : Type 0 where
  pub op_id : JsString
  pub device_id : JsString
  pub device_seq : ℕ
  pub file_id : JsString
  pub vault_id : JsString
  pub kind : OpKind
  pub type : FileType
  pub base_content_vv : Option VersionVector
  pub new_content_vv : Option VersionVector
  pub content_hash : Option JsString
  pub size : Option ℕ
  pub content_encoding : Option ContentEncryptionEncoding
  pub inline_text : Option JsString
  pub blob_ref : Option JsString
  pub new_path : Option JsString
  pub path_clock : Option PathClock
  pub delete_clock : Option PathClock
  pub schema_version : Option ℕ

pub record ResultingClocks : Type 0 where
  pub content_vv : Option VersionVector
  pub path_clock : Option PathClock
  pub delete_vv : Option VersionVector
  pub epoch : ℕ

pub record AppliedOp : Type 0 where
  pub vault_seq : ℕ
  pub op : FileOp
  pub resulting_clocks : ResultingClocks

pub data ConflictKind : Type 0 where
  content : ConflictKind
  delete : ConflictKind
  attachment : ConflictKind
  rename : ConflictKind

-- `opened` is 'open'.
pub data ConflictStatus : Type 0 where
  opened : ConflictStatus
  claimed : ConflictStatus
  resolved : ConflictStatus

-- `resolved_by`, `resolved_hash` and `resolved_vv` are what `ConflictService.resolve` adds.
pub record ConflictRecord : Type 0 where
  pub conflict_id : JsString
  pub vault_id : JsString
  pub file_id : JsString
  pub kind : ConflictKind
  pub base_hash : Option JsString
  pub ours_hash : Option JsString
  pub theirs_hash : Option JsString
  pub ours_vv : Option VersionVector
  pub theirs_vv : Option VersionVector
  pub status : ConflictStatus
  pub claimed_by : Option JsString
  pub resolved_by : Option JsString
  pub resolved_hash : Option JsString
  pub resolved_vv : Option VersionVector

-- `===` on kinds and on statuses
abbrev kind_index : ConflictKind → ℕ
kind_index ConflictKind.content = 0
kind_index ConflictKind.delete = 1
kind_index ConflictKind.attachment = 2
kind_index ConflictKind.rename = 3

unfoldable pub kind_eq : ConflictKind → ConflictKind → Bool
kind_eq a b = kind_index a == kind_index b

abbrev pub is_resolved : ConflictStatus → Bool
is_resolved resolved = true
is_resolved _ = false

abbrev pub is_claimed : ConflictStatus → Bool
is_claimed claimed = true
is_claimed _ = false

unfoldable pub status_eq : ConflictStatus → ConflictStatus → Bool
status_eq opened opened = true
status_eq claimed claimed = true
status_eq resolved resolved = true
status_eq _ _ = false

pub data ErrorCode : Type 0 where
  upgrade_required : ErrorCode
  bad_request : ErrorCode
  unsupported : ErrorCode
  unauthenticated : ErrorCode
  token_expired : ErrorCode
  forbidden : ErrorCode
  device_revoked : ErrorCode
  seq_gap : ErrorCode
  stale : ErrorCode
  illegal_path : ErrorCode
  blob_missing : ErrorCode
  blob_hash_mismatch : ErrorCode
  file_active : ErrorCode
  conflict_pending : ErrorCode
  not_found : ErrorCode
  room_not_found : ErrorCode
  room_epoch_stale : ErrorCode
  not_participant : ErrorCode
  quota_exceeded : ErrorCode
  rate_limited : ErrorCode
  payload_too_large : ErrorCode
  conflict_not_claimed : ErrorCode
  conflict_already_resolved : ErrorCode
  internal : ErrorCode

-- `SyncErrorDetails`: the keys that the code puts there.
pub data Details : Type 0 where
  expected : ℕ → Details
  hint : String → Details
  retry_after_ms : ℕ → Details
  min_client_protocol : ℕ → Details

pub record SyncError : Type 0 where
  pub code : ErrorCode
  pub message : String
  pub details : Option Details

-- `isRecoverable`
unfoldable pub is_recoverable : ErrorCode → Bool
is_recoverable seq_gap = true
is_recoverable stale = true
is_recoverable rate_limited = true
is_recoverable room_epoch_stale = true
is_recoverable _ = false
