-- ===== src/Protocol/ServerMessage.antt =====
-- packages/shared/src/protocol/types.ts: the messages that the server sends, and what they carry. The
-- field `t` of a message is its constructor in the union; `content_data` is `data`.
use obsidian_baritone.Prelude.{ℕ, Bool, Option, List, JsString, String}
use obsidian_baritone.Clock.VersionVector.{VersionVector}
use obsidian_baritone.Clock.Lamport.{PathClock}
use obsidian_baritone.Protocol.{
  FileType, AppliedOp, ResultingClocks, ContentEncryptionEncoding, ConflictRecord, ConflictStatus,
  ErrorCode, Details,
}

pub data SnapshotHistoryReason : Type 0 where
  activation : SnapshotHistoryReason
  cadence : SnapshotHistoryReason
  compact : SnapshotHistoryReason
  demote : SnapshotHistoryReason
  restore : SnapshotHistoryReason

pub data RoomClosedReason : Type 0 where
  demoted : RoomClosedReason
  lease_expired : RoomClosedReason
  deleted : RoomClosedReason
  evicted : RoomClosedReason
  epoch_stale : RoomClosedReason

-- An element of the items of `TrashListMessage`.
pub record TrashListItem : Type 0 where
  pub file_id : JsString
  pub path : JsString
  pub deleted_at : ℕ
  pub size : Option ℕ

pub record SnapshotVersionMetadata : Type 0 where
  pub version_id : JsString
  pub file_id : JsString
  pub room_epoch : ℕ
  pub seq : ℕ
  pub created_at : ℕ
  pub reason : SnapshotHistoryReason
  pub device_id : Option JsString
  pub user_id : Option JsString

pub record ManifestEntry : Type 0 where
  pub file_id : JsString
  pub type : FileType
  pub path : JsString
  pub content_hash : Option JsString
  pub size : Option ℕ
  pub blob_ref : Option JsString
  pub content_encoding : Option ContentEncryptionEncoding
  pub content_vv : VersionVector
  pub path_clock : PathClock
  pub epoch : ℕ
  pub deleted : Bool

pub record WelcomeMessage : Type 0 where
  pub server_time : ℕ
  pub current_seq : ℕ
  pub server_protocol : ℕ
  pub min_client_protocol : ℕ
  pub capabilities : List JsString

pub record OpsMessage : Type 0 where
  pub ops : List AppliedOp
  pub more : Bool

pub record OpAckMessage : Type 0 where
  pub op_id : JsString
  pub vault_seq : ℕ
  pub resulting_clocks : ResultingClocks
  pub conflict_id : Option JsString

pub record BlobUploadUrlMessage : Type 0 where
  pub hash : JsString
  pub url : Option JsString
  pub already_exists : Bool

pub record ConflictMessage : Type 0 where
  pub conflict : ConflictRecord

pub record ConflictStateMessage : Type 0 where
  pub conflict_id : JsString
  pub status : ConflictStatus
  pub claimed_by : Option JsString
  pub resolved_by : Option JsString

pub record RoomStateMessage : Type 0 where
  pub file_id : JsString
  pub room_epoch : ℕ
  pub yjs_snapshot : JsString
  pub state_vector : JsString

pub record YjsRelayUpdateMessage : Type 0 where
  pub file_id : JsString
  pub room_epoch : ℕ
  pub seq : ℕ
  pub update : JsString

pub record YjsAckMessage : Type 0 where
  pub file_id : JsString
  pub room_epoch : ℕ
  pub update_id : ℕ
  pub seq : ℕ

pub record YjsAwarenessRelayMessage : Type 0 where
  pub file_id : JsString
  pub room_epoch : ℕ
  pub from : JsString
  pub state : JsString

pub record RoomClosedMessage : Type 0 where
  pub file_id : JsString
  pub room_epoch : ℕ
  pub reason : RoomClosedReason
  pub final_hash : Option JsString

pub record ManifestPageMessage : Type 0 where
  pub watermark_seq : ℕ
  pub items : List ManifestEntry
  pub next_cursor : Option JsString

pub record ContentMessage : Type 0 where
  pub hash : JsString
  pub content_data : Option JsString

pub record TrashListMessage : Type 0 where
  pub items : List TrashListItem

pub record HistoryListResponseMessage : Type 0 where
  pub request_id : JsString
  pub file_id : JsString
  pub versions : List SnapshotVersionMetadata
  pub more : Bool

pub record HistoryVersionMessage : Type 0 where
  pub request_id : JsString
  pub file_id : JsString
  pub version_id : JsString
  pub text : JsString

pub record HistoryRestoredMessage : Type 0 where
  pub request_id : JsString
  pub file_id : JsString
  pub version_id : JsString
  pub text : JsString
  pub vault_seq : Option ℕ
  pub resulting_clocks : Option ResultingClocks

pub record ErrorMessage : Type 0 where
  pub code : ErrorCode
  pub message : String
  pub details : Option Details

pub record RejectMessage : Type 0 where
  pub op_id : Option JsString
  pub code : ErrorCode
  pub message : String
  pub details : Option Details

pub data ServerMessage : Type 0 where
  welcome : WelcomeMessage → ServerMessage
  ops : OpsMessage → ServerMessage
  op_ack : OpAckMessage → ServerMessage
  blob_upload_url : BlobUploadUrlMessage → ServerMessage
  conflict_message : ConflictMessage → ServerMessage
  conflict_state : ConflictStateMessage → ServerMessage
  room_state : RoomStateMessage → ServerMessage
  yjs_relay_update : YjsRelayUpdateMessage → ServerMessage
  yjs_ack : YjsAckMessage → ServerMessage
  yjs_awareness_relay : YjsAwarenessRelayMessage → ServerMessage
  room_closed : RoomClosedMessage → ServerMessage
  manifest_page : ManifestPageMessage → ServerMessage
  content_message : ContentMessage → ServerMessage
  trash_list : TrashListMessage → ServerMessage
  history_list_response : HistoryListResponseMessage → ServerMessage
  history_version : HistoryVersionMessage → ServerMessage
  history_restored : HistoryRestoredMessage → ServerMessage
  error_message : ErrorMessage → ServerMessage
  reject_message : RejectMessage → ServerMessage
