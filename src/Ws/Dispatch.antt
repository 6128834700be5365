-- ===== src/Ws/Dispatch.antt =====
-- packages/server/src/ws/server.ts: `handleMessage`, the queue of a connection and its end.
use obsidian_baritone.Prelude.{
  ◌==◌, Bool, true, false, not, ◌&&◌, Option, none, some, List, JsString, lit, map, str_eq, filter,
  any, length, if◌then◌else◌, Result, ok, err, nonempty,
}
use obsidian_baritone.Protocol.{
  SyncError, unauthenticated, unsupported, internal, rate_limited, Details,
}
use obsidian_baritone.Protocol.ClientMessage.{ClientMessage}
use obsidian_baritone.Protocol.ServerMessage.{
  ServerMessage, RoomClosedReason, ErrorMessage, TrashListItem,
}
use obsidian_baritone.Engine.Store.{InMemoryDataStore, list_ops}
use obsidian_baritone.Engine.Store.Tx.{sync_error}
use obsidian_baritone.Engine.Conflict.{claim, release}
use obsidian_baritone.Engine.Conflict.Resolve.{resolve}
use obsidian_baritone.Engine.Blobs.{init_upload, complete_upload}
use obsidian_baritone.Engine.Manifest.{page}
use obsidian_baritone.Engine.Trash.{list_items}
use obsidian_baritone.Engine.Rooms.{RoomSink, RoomThrown, thrown}
use obsidian_baritone.Engine.Rooms.Manager as Manager
use obsidian_baritone.RateLimit.{consume}
use obsidian_baritone.Ws.{
  Session, ConnectionState, SyncWebSocketServer, Services, Action, ◌>>=◌, ◌>>◌, in_manager, reads,
  lift, fail, when, sink_of, send, blob_owner_key,
}
use obsidian_baritone.Ws.Hello.{hello}
use obsidian_baritone.Ws.Content.{on_store, file_op, get_content, add_pending}

module _ {Doc : Type 0} (services : Services Doc) where
  abbrev items_of : JsString → InMemoryDataStore → List TrashListItem
  items_of vault_id s =
      map
        (λ i. record {
          file_id = i.file_id;
          path = i.path;
          deleted_at = i.deleted_at;
          size = i.size;
        })
        (list_items vault_id s)

  -- Whether the resolved hash is that of an upload of the vault.
  unfoldable pub pending : JsString → Option JsString → Action Doc Bool
  pending vault_id none s = (ok false, s)
  pending vault_id (some hash) s = (
    ok (
        nonempty hash
        && any (λ key. str_eq key (blob_owner_key vault_id hash)) s.pending_blob_owners),
    s,
  )

  -- The messages about blobs and conflicts, and those that only read the store.
  unfoldable pub dispatch_store : RoomSink → Session → ClientMessage → Action Doc (Unit {0})
  dispatch_store sink session (ClientMessage.file_op m) = file_op services sink session m.op
  dispatch_store sink session (ClientMessage.get_ops m) = do
    ops ← reads λ s. list_ops s session.vault_id m.since_seq 1000
    send sink (ServerMessage.ops (record { ops = ops; more = length ops == 1000 }))
  dispatch_store sink session (ClientMessage.blob_upload_init m) = do
    upload ← on_store (init_upload services.storage services.env.now m.hash m.size)
    when (not upload.already_exists) (add_pending session.vault_id m.hash)
    send sink (
        ServerMessage.blob_upload_url
          (record { hash = upload.hash; url = upload.url; already_exists = upload.already_exists }))
  dispatch_store sink session (ClientMessage.blob_upload_complete m) = do
    blob ← on_store (complete_upload services.storage services.env.now m.hash)
    send sink (
        ServerMessage.blob_upload_url (record { hash = m.hash; url = none; already_exists = true }))
  dispatch_store sink session (ClientMessage.claim_conflict m) = do
    conflict ←
        on_store (claim session.vault_id session.claims.user_id session.device_id m.conflict_id)
    send sink (
        ServerMessage.conflict_state (record {
          conflict_id = m.conflict_id;
          status = conflict.status;
          claimed_by = some session.device_id;
          resolved_by = none;
        }))
  dispatch_store sink session (ClientMessage.release_conflict m) = do
    conflict ←
        on_store (release session.vault_id session.claims.user_id session.device_id m.conflict_id)
    send sink (
        ServerMessage.conflict_state (record {
          conflict_id = m.conflict_id;
          status = conflict.status;
          claimed_by = none;
          resolved_by = none;
        }))
  dispatch_store sink session (ClientMessage.resolve_conflict m) = do
    is_pending ← pending session.vault_id m.resolved_hash
    conflict ← on_store (
        resolve services.env.os services.env.now (record {
          vault_id = session.vault_id;
          user_id = session.claims.user_id;
          conflict_id = m.conflict_id;
          device_id = session.device_id;
          resolved_hash = m.resolved_hash;
          inline_text = m.inline_text;
          resolved_vv = m.resolved_vv;
          allow_pending_resolved_hash = is_pending;
        }))
    send sink (ServerMessage.conflict_message (record { conflict = conflict }))
  dispatch_store sink session (ClientMessage.get_manifest m) = do
    answer ← reads λ s.
        page services.env.locale_lt services.encode services.decode 1000 s session.vault_id m.cursor
    manifest ← lift answer
    send sink (ServerMessage.manifest_page manifest)
  dispatch_store sink session (ClientMessage.get_content m) =
      get_content services sink session m.hash
  dispatch_store sink session (ClientMessage.list_trash m) = do
    items ← reads λ s. items_of session.vault_id s
    send sink (ServerMessage.trash_list (record { items = items }))
  dispatch_store sink session _ =
      fail unsupported "Use file_op restore so device_seq/idempotency are preserved"

  module _ (sink : RoomSink) (session : Session) where
    -- The messages about rooms; all others go on to `dispatch_store`.
    unfoldable pub dispatch : ClientMessage → Action Doc (Unit {0})
    dispatch (ClientMessage.promote_message m) = do
      state ← in_manager (
          Manager.promote services.env session.vault_id m.file_id session.device_id
            session.claims.user_id sink)
      send sink (ServerMessage.room_state state)
    dispatch (ClientMessage.demote_message m) = do
      hash ← in_manager (
          Manager.demote services.env session.vault_id m.file_id session.device_id none
            RoomClosedReason.demoted)
      (λ s. (ok tt, s))
    dispatch (ClientMessage.yjs_update m) = in_manager (
        Manager.handle_update services.env session.vault_id m.file_id session.device_id
          session.claims.user_id m.room_epoch m.update_id m.update)
    dispatch (ClientMessage.yjs_awareness m) = in_manager (
        Manager.handle_awareness services.env session.vault_id m.file_id session.device_id
          m.room_epoch m.state)
    dispatch (ClientMessage.yjs_sync m) = in_manager (
        Manager.handle_sync services.env session.vault_id m.file_id session.device_id m.room_epoch
          m.state_vector)
    dispatch (ClientMessage.yjs_heartbeat m) =
        in_manager
          (Manager.heartbeat services.env session.vault_id m.file_id session.device_id m.room_epoch)
    dispatch (ClientMessage.leave_room m) =
        in_manager
          (Manager.leave services.env session.vault_id m.file_id session.device_id m.room_epoch)
    dispatch (ClientMessage.history_list m) = do
      found ← in_manager (
          Manager.list_history services.env session.vault_id m.file_id session.device_id
            session.claims.user_id m.limit m.before)
      send sink (
          ServerMessage.history_list_response (record {
            request_id = m.request_id;
            file_id = m.file_id;
            versions = found.versions;
            more = found.more;
          }))
    dispatch (ClientMessage.history_get m) = do
      text ← in_manager (
          Manager.get_history_text services.env session.vault_id m.file_id session.device_id
            session.claims.user_id m.version_id)
      send sink (
          ServerMessage.history_version (record {
            request_id = m.request_id;
            file_id = m.file_id;
            version_id = m.version_id;
            text = text;
          }))
    dispatch (ClientMessage.history_restore m) = do
      restored ← in_manager (
          Manager.restore_history_version services.env session.vault_id m.file_id session.device_id
            session.claims.user_id m.version_id m.request_id)
      send sink (
          ServerMessage.history_restored (record {
            request_id = m.request_id;
            file_id = m.file_id;
            version_id = m.version_id;
            text = restored.text;
            vault_seq = some restored.vault_seq;
            resulting_clocks = some restored.resulting_clocks;
          }))
    dispatch m = dispatch_store sink session m

  unfoldable pub in_session :
      ConnectionState → Option Session → ClientMessage → Action Doc (Unit {0})
  in_session connection none m = fail unauthenticated "hello required first"
  in_session connection (some session) m = dispatch (sink_of connection) session m

  -- A message that has passed the schema.
  unfoldable pub handle_valid : ConnectionState → ClientMessage → Action Doc (Unit {0})
  handle_valid connection (ClientMessage.hello m) = hello services connection m
  handle_valid connection m = in_session connection connection.session m

  -- `errorToWire`, with what a `SyncError` says of itself.
  unfoldable pub error_to_wire : RoomThrown → ErrorMessage
  error_to_wire (thrown (sync_error e)) = record {
    code = e.code;
    message = e.message;
    details = e.details;
  }
  error_to_wire e = record { code = internal; message = services.env.message_of e; details = none }

  -- `JSON.parse` and the schema are `parse`.
  module _ (parse : JsString → Result SyncError ClientMessage) where
    unfoldable pub handle_message : ConnectionState → JsString → Action Doc (Unit {0})
    handle_message connection raw = do m ← lift (parse raw); handle_valid connection m

    abbrev limiter_key : Option Session → JsString
    limiter_key none = lit "unauthenticated"
    limiter_key (some session) = session.device_id

    -- The call counts in the limiter of the connection.
    unfoldable pub limited : ConnectionState → Action Doc (Unit {0})
    limited connection s =
        let (allowance, limiter) =
          consume services.env.now (limiter_key connection.session) connection.message_limiter in
        let s' = record s {
          clients =
              map
                (λ c.
                  if c.socket == connection.socket
                  then record c { message_limiter = limiter }
                  else c)
                s.clients;
        } in
        if allowance.allowed then (ok tt, s') else (
          err (
              thrown (
                sync_error (record {
                  code = rate_limited;
                  message = "Too many WebSocket messages";
                  details = some (Details.retry_after_ms allowance.retry_after_ms);
                }))),
          s',
        )

    abbrev report :
        RoomSink → Result RoomThrown (Unit {0}) × SyncWebSocketServer Doc → SyncWebSocketServer Doc
    report sink (ok _, s) = s
    report sink (err e, s) = (send sink (ServerMessage.error_message (error_to_wire e)) s).1

    -- A turn of the queue of a connection: a message, and the error where it fails.
    unfoldable pub receive :
        ConnectionState → JsString → SyncWebSocketServer Doc → SyncWebSocketServer Doc
    receive connection raw s =
        report (sink_of connection) ((limited connection >> handle_message connection raw) s)

  -- The socket is closed.
  unfoldable pub closed : ConnectionState → SyncWebSocketServer Doc → SyncWebSocketServer Doc
  closed connection s =
      let rest = record s {
        clients = filter (λ c. not (c.socket == connection.socket)) s.clients;
      } in
      elim connection.session [
        | none ↦ rest
        | some session ↦ (in_manager (Manager.disconnect services.env session.device_id) rest).1
      ]

-- Opens the file's functions, for tests that run them.
unfoldable pub code : Unit {0}
unfolding dispatch_store dispatch in_session handle_valid error_to_wire handle_message limited
    receive closed
code = tt
