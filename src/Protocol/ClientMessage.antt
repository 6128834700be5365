-- ===== src/Protocol/ClientMessage.antt =====
-- packages/shared/src/protocol/types.ts: the messages that a client sends. The field `t` of a message
-- is its constructor in the union.
use obsidian_baritone.Prelude.{ℕ, Option, List, JsString}
use obsidian_baritone.Clock.VersionVector.{VersionVector}
use obsidian_baritone.Protocol.{FileOp}

pub record HelloMessage : Type 0 where
  pub token : JsString
  pub device_id : JsString
  pub vault_id : JsString
  pub last_seq : ℕ
  pub protocol_version : ℕ
  pub client_build : JsString
  pub capabilities : List JsString

pub record FileOpMessage : Type 0 where
  pub op : FileOp

pub record GetOpsMessage : Type 0 where
  pub since_seq : ℕ

pub record PromoteMessage : Type 0 where
  pub file_id : JsString

pub record DemoteMessage : Type 0 where
  pub file_id : JsString

pub record YjsUpdateMessage : Type 0 where
  pub file_id : JsString
  pub room_epoch : ℕ
  pub update_id : ℕ
  pub update : JsString

pub record YjsAwarenessMessage : Type 0 where
  pub file_id : JsString
  pub room_epoch : ℕ
  pub state : JsString

pub record YjsSyncMessage : Type 0 where
  pub file_id : JsString
  pub room_epoch : ℕ
  pub state_vector : JsString

pub record YjsHeartbeatMessage : Type 0 where
  pub file_id : JsString
  pub room_epoch : ℕ

pub record LeaveRoomMessage : Type 0 where
  pub file_id : JsString
  pub room_epoch : ℕ

pub record HistoryListMessage : Type 0 where
  pub request_id : JsString
  pub file_id : JsString
  pub limit : Option ℕ
  pub before : Option JsString

pub record HistoryGetMessage : Type 0 where
  pub request_id : JsString
  pub file_id : JsString
  pub version_id : JsString

pub record HistoryRestoreMessage : Type 0 where
  pub request_id : JsString
  pub file_id : JsString
  pub version_id : JsString

pub record BlobUploadInitMessage : Type 0 where
  pub file_id : Option JsString
  pub hash : JsString
  pub size : ℕ

pub record BlobUploadCompleteMessage : Type 0 where
  pub hash : JsString

pub record ClaimConflictMessage : Type 0 where
  pub conflict_id : JsString

pub record ResolveConflictMessage : Type 0 where
  pub conflict_id : JsString
  pub resolved_hash : Option JsString
  pub inline_text : Option JsString
  pub resolved_vv : VersionVector

pub record ReleaseConflictMessage : Type 0 where
  pub conflict_id : JsString

pub record ListTrashMessage : Type 0 where
  pub vault_id : JsString

pub record RestoreMessage : Type 0 where
  pub file_id : JsString

pub record GetManifestMessage : Type 0 where
  pub vault_id : JsString
  pub cursor : Option JsString

pub record GetContentMessage : Type 0 where
  pub hash : JsString

pub data ClientMessage : Type 0 where
  hello : HelloMessage → ClientMessage
  file_op : FileOpMessage → ClientMessage
  get_ops : GetOpsMessage → ClientMessage
  promote_message : PromoteMessage → ClientMessage
  demote_message : DemoteMessage → ClientMessage
  yjs_update : YjsUpdateMessage → ClientMessage
  yjs_awareness : YjsAwarenessMessage → ClientMessage
  yjs_sync : YjsSyncMessage → ClientMessage
  yjs_heartbeat : YjsHeartbeatMessage → ClientMessage
  leave_room : LeaveRoomMessage → ClientMessage
  history_list : HistoryListMessage → ClientMessage
  history_get : HistoryGetMessage → ClientMessage
  history_restore : HistoryRestoreMessage → ClientMessage
  blob_upload_init : BlobUploadInitMessage → ClientMessage
  blob_upload_complete : BlobUploadCompleteMessage → ClientMessage
  claim_conflict : ClaimConflictMessage → ClientMessage
  resolve_conflict : ResolveConflictMessage → ClientMessage
  release_conflict : ReleaseConflictMessage → ClientMessage
  list_trash : ListTrashMessage → ClientMessage
  restore_message : RestoreMessage → ClientMessage
  get_manifest : GetManifestMessage → ClientMessage
  get_content : GetContentMessage → ClientMessage
