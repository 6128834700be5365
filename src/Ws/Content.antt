-- ===== src/Ws/Content.antt =====
-- packages/server/src/ws/server.ts: operations and contents, and the tests on what they name.
use mathlib.Core.Option
use obsidian_baritone.Prelude.{
  Bool, true, false, not, ◌||◌, Option, none, some, [], ◌∷◌, ◌++◌, JsString, str_eq, filter, any,
  if◌then◌else◌, ok, is_some, truthy, nonempty, ◌otherwise◌, or_else,
}
use obsidian_baritone.Protocol.{FileOp, OpKind, unauthenticated, forbidden}
use obsidian_baritone.Protocol.ServerMessage.{ServerMessage}
use obsidian_baritone.Engine.Store.{OpApplyResult, ack, reject, has_content_for_vault}
use obsidian_baritone.Engine.Store.Tx.{Tx}
use obsidian_baritone.Engine.OpProcessor.{process}
use obsidian_baritone.Engine.Manifest.{valid_content}
use obsidian_baritone.Engine.Rooms.{RoomSink}
use obsidian_baritone.Engine.Rooms.Method.{on_data}
use obsidian_baritone.Engine.Rooms.Manager as Manager
use obsidian_baritone.Ws.{
  Session, SyncWebSocketServer, Services, Action, ◌>>=◌, ◌>>◌, in_manager, reads, lift, fail_if,
  when, send, broadcast_ops, blob_owner_key,
}

-- Whether `assertOpContentAccess` looks for the content, and under which hash.
abbrev pub named_content : FileOp → Option JsString
named_content op =
    if is_some op.inline_text || not (truthy op.content_hash)
    then none
    else some (op.blob_ref otherwise (op.content_hash otherwise []))

abbrev pub is_delete : OpKind → Bool
is_delete OpKind.delete = true
is_delete _ = false

module _ {Doc : Type 0} where
  abbrev pub on_store {ℓ} : {A : Type ℓ} → Tx A → Action Doc A
  on_store m = in_manager (on_data m)

  abbrev pub owns_content : JsString → Option JsString → SyncWebSocketServer Doc → Bool
  owns_content vault_id none s = true
  owns_content vault_id (some hash) s =
      has_content_for_vault s.manager.data_store vault_id hash
      || any (λ key. str_eq key (blob_owner_key vault_id hash)) s.pending_blob_owners

  unfoldable pub assert_op_content_access : JsString → FileOp → Action Doc (Unit {0})
  assert_op_content_access vault_id op s =
      fail_if (not (owns_content vault_id (named_content op) s)) forbidden
        "Content hash is not available for this vault" s

  unfoldable pub forget_pending : JsString → Option JsString → Action Doc (Unit {0})
  forget_pending vault_id none s = (ok tt, s)
  forget_pending vault_id (some hash) s =
      let others =
        filter (λ key. not (str_eq key (blob_owner_key vault_id hash))) s.pending_blob_owners in
      (ok tt, if nonempty hash then record s { pending_blob_owners = others } else s)

  unfoldable pub add_pending : JsString → JsString → Action Doc (Unit {0})
  add_pending vault_id hash s =
      let key = blob_owner_key vault_id hash in
      (
        ok tt,
        if any (λ other. str_eq other key) s.pending_blob_owners
            then s
            else record s { pending_blob_owners = s.pending_blob_owners ++ (key ∷ []) },
      )

module _ {Doc : Type 0} (services : Services Doc) where
  -- The answer to an operation.
  unfoldable pub answer_op : RoomSink → Session → FileOp → OpApplyResult → Action Doc (Unit {0})
  answer_op sink session op (reject r) = send sink (
      ServerMessage.reject_message
        (record { op_id = some r.op_id; code = r.code; message = r.message; details = r.details }))
  answer_op sink session op (ack r) = do
    send sink (
        ServerMessage.op_ack (record {
          op_id = r.op_id;
          vault_seq = r.vault_seq;
          resulting_clocks = r.resulting_clocks;
          conflict_id = r.conflict_id;
        }))
    forget_pending session.vault_id op.blob_ref
    broadcast_ops session.vault_id (some sink.connection)
        (record { vault_seq = r.vault_seq; op = op; resulting_clocks = r.resulting_clocks } ∷ [])
    when (is_delete op.kind)
        (in_manager (Manager.close_deleted services.env session.vault_id op.file_id))

  unfoldable pub file_op : RoomSink → Session → FileOp → Action Doc (Unit {0})
  file_op sink session op = do
    fail_if
        (not (str_eq op.device_id session.device_id) || not (str_eq op.vault_id session.vault_id))
        unauthenticated "Operation device/vault must match the authenticated connection"
    assert_op_content_access session.vault_id op
    result ← on_store (
        process services.env.os services.env.now (services.env.uuid op.op_id) op
          (some session.claims.user_id))
    answer_op sink session op result

  unfoldable pub get_content : RoomSink → Session → JsString → Action Doc (Unit {0})
  get_content sink session hash = do
    available ← reads λ s. has_content_for_vault s session.vault_id hash
    fail_if (not available) forbidden "Content is not available for this vault"
    stored ← reads λ s. valid_content s hash
    bytes ← lift stored
    send sink (
        ServerMessage.content_message (record {
          hash = hash;
          content_data =
              Option.map services.env.to_base64 (or_else bytes (services.get_bytes hash));
        }))
