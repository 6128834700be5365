-- ===== src/Engine/Rooms/Actions.antt =====
-- packages/server/src/engine/room-manager.ts: the private methods that the handlers share.
use obsidian_baritone.Prelude.{
  ℕ, ◌+◌, Bool, true, false, not, ◌&&◌, ◌||◌, Option, none, some, List, [], ◌∷◌, JsString, ltb, leb,
  ◌==◌, if◌then◌else◌, str_eq, map, filter, length, Result, ok, err,
}
use obsidian_baritone.Prelude.Maps.{get, set, values}
use obsidian_baritone.Protocol.{not_participant, rate_limited, payload_too_large, internal}
use obsidian_baritone.Protocol.ServerMessage.{
  ServerMessage, RoomStateMessage, SnapshotHistoryReason, RoomClosedReason,
}
use obsidian_baritone.Engine.Store.{Role, StoredFile, get_file}
use obsidian_baritone.Engine.Store.Tx.{Thrown, sync_error, sync, save_file}
use obsidian_baritone.Engine.Rooms.{
  Env, RoomSink, Participant, Phase, RuntimeRoom, World, RoomThrown, thrown, malformed_update, Act,
  pure, reads, on_data, on_rooms, sets, send, throw_if, when, ◌>>=◌, ◌>>◌, is_phase_closed,
}
use obsidian_baritone.Engine.Rooms.RoomStore.{
  PersistedYjsRoom, YjsSnapshot, save_room, save_snapshot, room_key,
}
use obsidian_baritone.Engine.Rooms.Helpers.{role_in, live_file_in, add_sinks}

module _ {Doc : Type 0} where
  abbrev pub sinks_of : RuntimeRoom Doc → List RoomSink
  sinks_of room =
      add_sinks (map (λ p. p.sink) (values room.participants)) (values room.closing_sinks)

  unfoldable pub send_all : List RoomSink → ServerMessage → Act Doc (Unit {0})
  send_all [] message = pure tt
  send_all (sink ∷ sinks) message = send sink message >> send_all sinks message

  -- An assignment to fields of what is persisted of the room.
  abbrev pub sets_persisted : (PersistedYjsRoom → PersistedYjsRoom) → Act Doc (Unit {0})
  sets_persisted f = sets λ room. record room { persisted = f room.persisted }

  unfoldable pub require_participant : JsString → Act Doc Participant
  require_participant device_id w = elim (get device_id w.room.participants) [
    | none ↦ (err (thrown (sync not_participant "Device is not a room participant")), w)
    | some participant ↦ (ok participant, w)
  ]

  unfoldable pub require_role : JsString → JsString → JsString → Bool → Act Doc Role
  require_role vault_id device_id user_id as_editor =
      on_data λ s. (role_in s vault_id device_id user_id as_editor, s)

  unfoldable pub required_live_file : JsString → JsString → Act Doc StoredFile
  required_live_file vault_id file_id = on_data λ s. (live_file_in s vault_id file_id, s)

  -- `if (file) await this.data.saveFile({ ...file, activeUntil })`
  unfoldable pub save_active_until : Option ℕ → Option StoredFile → Act Doc (Unit {0})
  save_active_until active_until none = pure tt
  save_active_until active_until (some file) =
      on_data (save_file (record file { active_until = active_until }))

  -- `saveRuntime`
  unfoldable pub save_runtime : Act Doc (Unit {0})
  save_runtime = do
    persisted ← reads λ w. w.room.persisted
    on_rooms λ s. save_room s persisted
    file ← reads λ w. get_file w.data_store persisted.vault_id persisted.file_id
    save_active_until (if persisted.active then persisted.lease_until else none) file

module _ {Doc : Type 0} (env : Env Doc) where
  -- `errorToRoomMessage`
  unfoldable pub error_to_room_message : RoomThrown → ServerMessage
  error_to_room_message (thrown (sync_error e)) =
      ServerMessage.error_message
        (record { code = e.code; message = e.message; details = e.details })
  error_to_room_message e =
      ServerMessage.error_message
        (record { code = internal; message = env.message_of e; details = none })

  abbrev pub lease_end : ℕ
  lease_end = env.now + env.options.lease_ms

  -- `decodeBase64`
  unfoldable pub decode_base64 : JsString → ℕ → Result Thrown (List ℕ)
  decode_base64 value max_bytes =
      let bytes = env.from_base64 value in
      if ltb max_bytes (length bytes)
      then err (sync payload_too_large "Yjs payload too large")
      else ok bytes

  unfoldable pub room_state : RuntimeRoom Doc → RoomStateMessage
  room_state room = record {
    file_id = room.persisted.file_id;
    room_epoch = room.persisted.epoch;
    yjs_snapshot = env.to_base64 (env.yjs.encode_state room.doc);
    state_vector = env.to_base64 (env.yjs.encode_state_vector room.doc);
  }

  -- `Y.applyUpdate(room.doc, update)`
  unfoldable pub apply_to_room : List ℕ → Act Doc (Unit {0})
  apply_to_room update w =
      let (returned, doc) = env.yjs.apply_update w.room.doc update in
      let w' : World Doc = record w { room = record w.room { doc = doc } } in
      if returned then (ok tt, w') else (err malformed_update, w')

  -- `textFromSnapshot`
  unfoldable pub text_from_snapshot : List ℕ → Result RoomThrown JsString
  text_from_snapshot snapshot =
      let (returned, doc) = env.yjs.apply_update env.yjs.new_doc snapshot in
      if returned then ok (env.yjs.text doc) else err malformed_update

  -- `replaceDocText`
  unfoldable pub replace_doc_text : Doc → JsString → Doc
  replace_doc_text doc text =
      let emptied = if ltb 0 (length (env.yjs.text doc)) then env.yjs.delete_text doc else doc in
      if ltb 0 (length text) then env.yjs.insert_text text emptied else emptied

  unfoldable pub relay_to : JsString → ServerMessage → List Participant → Act Doc (Unit {0})
  relay_to source message [] = pure tt
  relay_to source message (p ∷ ps) = do
    when (not (str_eq p.device_id source) && not (env.is_backpressured p.sink))
        (send p.sink message)
    relay_to source message ps

  unfoldable pub relay : JsString → ServerMessage → Act Doc (Unit {0})
  relay source message w = relay_to source message (values w.room.participants) w

  unfoldable pub broadcast_room : ServerMessage → Bool → Act Doc (Unit {0})
  broadcast_room message include_backpressured w =
      send_all
        (filter (λ sink. include_backpressured || not (env.is_backpressured sink))
          (sinks_of w.room))
        message w

  unfoldable pub send_if_some : Option Participant → ServerMessage → Act Doc (Unit {0})
  send_if_some none message = pure tt
  send_if_some (some participant) message = send participant.sink message

  abbrev pub epoch_stale_message : RuntimeRoom Doc → ℕ → ServerMessage
  epoch_stale_message room epoch = ServerMessage.room_closed (record {
    file_id = room.persisted.file_id;
    room_epoch = epoch;
    reason = RoomClosedReason.epoch_stale;
    final_hash = none;
  })

  -- `rejectIfStale`; the callers only ask whether the result is null.
  unfoldable pub reject_if_stale : ℕ → JsString → Act Doc Bool
  reject_if_stale epoch device_id w =
      let participant = get device_id w.room.participants in
      let persisted = w.room.persisted in
      if persisted.active && not (persisted.epoch == epoch)
      then (send_if_some participant (ServerMessage.room_state (room_state w.room)) >> pure true) w
      else if not persisted.active || is_phase_closed w.room.state
      then (send_if_some participant (epoch_stale_message w.room epoch) >> pure true) w
      else (ok false, w)

  -- The counters of a participant in the window of this moment.
  abbrev pub counted : Participant → Participant
  counted p =
      if leb (p.rate_window_started + env.options.window_ms) env.now
      then record p { rate_window_started = env.now; updates_in_window = 1 }
      else record p { updates_in_window = p.updates_in_window + 1 }

  -- `checkRateLimit`
  unfoldable pub check_rate_limit : Participant → Act Doc (Unit {0})
  check_rate_limit participant = do
    sets λ room. record room {
      participants = set participant.device_id (counted participant) room.participants;
    }
    throw_if (ltb env.options.max_updates (counted participant).updates_in_window)
        (sync rate_limited "Too many Yjs updates")

  -- The snapshot that `captureSnapshot` saves.
  abbrev pub snapshot_of :
      RuntimeRoom Doc → ℕ → SnapshotHistoryReason → Option JsString → Option JsString → YjsSnapshot
  snapshot_of room seq reason device_id user_id = record {
    vault_id = room.persisted.vault_id;
    file_id = room.persisted.file_id;
    room_epoch = room.persisted.epoch;
    snapshot = env.yjs.encode_state room.doc;
    state_vector = env.yjs.encode_state_vector room.doc;
    compacted_through_seq = seq;
    created_at = env.now;
    reason = reason;
    device_id = device_id;
    user_id = user_id;
  }

  abbrev pub version_id_for : RuntimeRoom Doc → JsString
  version_id_for room = env.uuid (room_key room.persisted.vault_id room.persisted.file_id)

  -- `captureSnapshot`
  unfoldable pub capture_snapshot :
      ℕ → SnapshotHistoryReason → Option JsString → Option JsString → Act Doc (Unit {0})
  capture_snapshot seq reason device_id user_id = do
    room ← reads λ w. w.room
    on_rooms (save_snapshot (version_id_for room) (snapshot_of room seq reason device_id user_id))
    sets_persisted λ persisted. record persisted {
      snapshot = some (env.yjs.encode_state room.doc);
      state_vector = some (env.yjs.encode_state_vector room.doc);
      compacted_through_seq = seq;
    }

  -- `scheduleClosingIfEmpty`
  unfoldable pub schedule_closing_if_empty : Act Doc (Unit {0})
  schedule_closing_if_empty w =
      if ltb 0 (length w.room.participants) || not w.room.persisted.active then (ok tt, w) else (
        ok tt,
        record w {
          room = record w.room {
            state = Phase.is_closing;
            closing_timer = some (env.now + env.options.closing_grace_ms);
          };
        },
      )

-- Opens the file's functions, for tests that run them.
unfoldable pub code : Unit {0}
unfolding error_to_room_message send_all require_participant require_role required_live_file
    save_active_until send_if_some save_runtime decode_base64 room_state apply_to_room
    text_from_snapshot replace_doc_text relay_to relay broadcast_room reject_if_stale
    check_rate_limit capture_snapshot schedule_closing_if_empty
code = tt
