-- ===== src/Plugin/Engine/Queue.antt =====
-- apps/plugin/src/sync/engine.ts: how `SyncEngine` sends the outbox, what an acknowledgement and a
-- rejection do to it, and how the engine follows the states of the transport.
use obsidian_baritone.Prelude.{
  ℕ, Bool, true, false, not, ◌||◌, Option, none, some, [], ◌∷◌, ◌++◌, JsString, lit, if◌then◌else◌,
  str_eq, ◌otherwise◌, any, find, filter, truthy,
}
use obsidian_baritone.Protocol.{FileOp, ErrorCode, seq_gap, stale, file_active, protocol_version}
use obsidian_baritone.Protocol.ClientMessage.{ClientMessage}
use obsidian_baritone.Protocol.ServerMessage.{OpAckMessage}
use obsidian_baritone.Plugin.Outbox
use obsidian_baritone.Plugin.Outbox.{
  OutboxManager, OutboxEntry, FileOpDraft, is_inflight, is_queued, retryable, mark_inflight,
}
use obsidian_baritone.Plugin.LocalIndex.{set_applied_seq}
use obsidian_baritone.Plugin.Engine.{
  SyncEngine, TransportState, ForcePushOpResult, is_paused, is_connecting, syncing, send,
  persist_outbox,
}

abbrev pub is_out_of_order : ErrorCode → Bool
is_out_of_order seq_gap = true
is_out_of_order stale = true
is_out_of_order _ = false

abbrev pub is_file_active : ErrorCode → Bool
is_file_active file_active = true
is_file_active _ = false

abbrev pub ack_answer : Option JsString → ForcePushOpResult
ack_answer conflict_id =
    if truthy conflict_id
    then record {
      is_ok = false;
      consumed = true;
      message = some (lit "conflict " ++ (conflict_id otherwise []));
    }
    else record { is_ok = true; consumed = false; message = none }

module _ {V : Type 0} where
  -- `{ t: 'get_ops', sinceSeq: appliedSeq }`
  unfoldable pub request_resync : SyncEngine V → SyncEngine V
  request_resync e =
      send (ClientMessage.get_ops (record { since_seq = e.index.device.applied_seq })) e

  unfoldable pub promote : JsString → SyncEngine V → SyncEngine V
  promote file_id e =
      if e.settings.encrypts
      then record e {
        errors =
            e.errors
            ++ (lit "Realtime collaboration is disabled while vault content encryption is enabled"
                ∷ []);
      }
      else send (ClientMessage.promote_message (record { file_id = file_id })) e

  unfoldable pub demote : JsString → SyncEngine V → SyncEngine V
  demote file_id e = send (ClientMessage.demote_message (record { file_id = file_id })) e

  unfoldable pub send_op : FileOp → SyncEngine V → SyncEngine V
  send_op op e = send (ClientMessage.file_op (record { op = op })) e

  -- `flushOutbox` for the entry in flight and the entry that is queued, as `find` gives them.
  unfoldable pub flush_found :
      ℕ → Option OutboxEntry → Option OutboxEntry → SyncEngine V → SyncEngine V
  flush_found now (some flying) next e = send_op flying.op e
  flush_found now none none e = e
  flush_found now none (some next) e =
      persist_outbox
        (send_op next.op (record e { outbox = mark_inflight now next.op.op_id e.outbox }))

  -- `flushOutbox`
  unfoldable pub flush_outbox : ℕ → SyncEngine V → SyncEngine V
  flush_outbox now e =
      if not e.ready || e.is_paused_by_user || not e.handshake_complete
      then e
      else flush_found now (find (λ entry. is_inflight entry.status) (retryable e.outbox))
          (find (λ entry. is_queued entry.status) (retryable e.outbox)) e

  -- `enqueueLocalChange`
  unfoldable pub enqueue_local_change :
      ℕ → JsString → FileOpDraft → SyncEngine V → FileOp × SyncEngine V
  enqueue_local_change now uuid draft e =
      let (op, outbox) = Outbox.enqueue now uuid draft e.outbox in
      (op, flush_outbox now (persist_outbox (record e { outbox = outbox })))

  unfoldable pub discard_unsent_outbox : SyncEngine V → Outbox.Discarded × SyncEngine V
  discard_unsent_outbox e =
      let (result, outbox) = Outbox.discard_unsent e.outbox in
      (result, persist_outbox (record e { outbox = outbox }))

  -- A waiter gets its answer and is forgotten.
  unfoldable pub settle : JsString → ForcePushOpResult → SyncEngine V → SyncEngine V
  settle op_id result e =
      if any (λ id. str_eq id op_id) e.waiters
      then record e {
        waiters = filter (λ id. not (str_eq id op_id)) e.waiters;
        answers = e.answers ++ ((op_id, result) ∷ []);
      }
      else e

  -- `handleAck`
  unfoldable pub handle_ack : ℕ → OpAckMessage → SyncEngine V → SyncEngine V
  handle_ack now message e =
      let outbox =
        if truthy message.conflict_id
        then Outbox.conflict now message.op_id (message.conflict_id otherwise []) e.outbox
        else Outbox.ack message.op_id e.outbox in
      let acked =
        persist_outbox
          (record e { outbox = outbox; index = set_applied_seq message.vault_seq e.index }) in
      flush_outbox now (settle message.op_id (ack_answer message.conflict_id) acked)

  -- The operation of an entry that the server finds active in a room.
  abbrev pub promote_entry : Option OutboxEntry → SyncEngine V → SyncEngine V
  promote_entry none e = e
  promote_entry (some entry) e = promote entry.op.file_id e

  abbrev pub put_back : ℕ → JsString → JsString → SyncEngine V → SyncEngine V
  put_back now op_id message e = record e {
    outbox = Outbox.reject now op_id message false e.outbox;
  }

  -- What `handleReject` does with the outbox, by the code.
  unfoldable pub handle_code : ℕ → JsString → JsString → ErrorCode → SyncEngine V → SyncEngine V
  handle_code now op_id message code e =
      if is_out_of_order code
      then request_resync (put_back now op_id message e)
      else if is_file_active code
      then put_back now op_id message
          (promote_entry (find (λ item. str_eq item.op.op_id op_id) (Outbox.entries e.outbox)) e)
      else record e { outbox = (Outbox.remove_and_reindex op_id e.outbox).1 }

  -- `handleReject` of a message with an `opId`; `text` is `message`, and `coded` has the code before it.
  unfoldable pub handle_reject :
      ℕ → JsString → ErrorCode → JsString → JsString → SyncEngine V → SyncEngine V
  handle_reject now op_id code text coded e =
      if any (λ id. str_eq id op_id) e.waiters
      then settle op_id (record { is_ok = false; consumed = false; message = some coded }) e
      else flush_outbox now (persist_outbox (handle_code now op_id text code e))

  -- `finishHandshake`; what live editing does when the transport opens is outside of the engine.
  unfoldable pub finish_handshake : ℕ → SyncEngine V → SyncEngine V
  finish_handshake now e =
      flush_outbox now (record e { awaiting_catchup = false; handshake_complete = true })

  abbrev pub reset_handshake : SyncEngine V → SyncEngine V
  reset_handshake e = record e { handshake_complete = false; awaiting_catchup = false }

  abbrev pub hello_of : SyncEngine V → ClientMessage
  hello_of e = ClientMessage.hello (record {
    token = e.settings.access_token;
    device_id = e.settings.device_id;
    vault_id = e.settings.vault_id;
    last_seq = e.index.device.applied_seq;
    protocol_version = protocol_version;
    client_build = lit "0.1.0";
    capabilities = lit "layer1" ∷ lit "manual-conflicts" ∷ lit "promote-demote" ∷ [];
  })

  unfoldable pub enter_state : TransportState → SyncEngine V → SyncEngine V
  enter_state TransportState.opened e =
      send (hello_of e) (record (reset_handshake e) { state = syncing })
  enter_state TransportState.connecting e = record (reset_handshake e) { state = is_connecting }
  enter_state TransportState.closed e = reset_handshake e
  enter_state TransportState.ready e = e

  -- `handleTransportState`
  unfoldable pub handle_transport_state : TransportState → SyncEngine V → SyncEngine V
  handle_transport_state state e = if e.is_paused_by_user then e else enter_state state e

  unfoldable pub pause : SyncEngine V → SyncEngine V
  pause e = record e { is_paused_by_user = true; state = is_paused }

  unfoldable pub resume : SyncEngine V → SyncEngine V
  resume e = record e { is_paused_by_user = false }
