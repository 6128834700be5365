-- ===== src/Engine/Rooms/Lifecycle.antt =====
-- packages/server/src/engine/room-manager.ts: how a room is opened and joined, what is restored into
-- it, and how its timer and the end of the server close it.
use obsidian_baritone.Prelude.{
  ℕ, ◌+◌, Bool, true, false, not, ◌&&◌, ◌||◌, Option, none, some, List, JsString, leb, ◌==◌,
  if◌then◌else◌, or_else, is_some, max, length, Result, ok, err,
}
use obsidian_baritone.Prelude.Maps.{set, delete}
use obsidian_baritone.Protocol.{unsupported}
use obsidian_baritone.Protocol.ServerMessage.{
  ServerMessage, RoomStateMessage, SnapshotHistoryReason, RoomClosedReason,
}
use obsidian_baritone.Engine.Store.{StoredFile, get_content}
use obsidian_baritone.Engine.Store.Tx.{sync}
use obsidian_baritone.Engine.Rooms.{
  Env, RoomSink, is_active, World, RoomThrown, malformed_update, Act, pure, reads, on_rooms, sets,
  throw_if, when, ◌>>=◌, ◌>>◌, is_phase_closed,
}
use obsidian_baritone.Engine.Rooms.RoomStore.{PersistedYjsRoom, append_update, save_snapshot}
use obsidian_baritone.Engine.Rooms.Actions.{
  sets_persisted, require_role, required_live_file, save_runtime, lease_end, room_state,
  apply_to_room, replace_doc_text, broadcast_room, capture_snapshot, version_id_for, snapshot_of,
  error_to_room_message,
}
use obsidian_baritone.Engine.Rooms.Demotion.{demote_locked}

module _ {Doc : Type 0} (env : Env Doc) where
  -- The bytes of a file, where the store has them.
  abbrev pub content_of : StoredFile → World Doc → Option (List ℕ)
  content_of file w = elim file.content_hash [
    | none ↦ none
    | some hash ↦ get_content w.data_store hash
  ]

  abbrev pub doc_of_text : Option (List ℕ) → Doc
  doc_of_text none = env.yjs.new_doc
  doc_of_text (some bytes) = env.yjs.insert_text (env.decode_utf8 bytes) env.yjs.new_doc

  -- The document that a room starts with: from its snapshot, or else from the content of the file.
  unfoldable pub seed_from : Option (List ℕ) → StoredFile → Act Doc (Unit {0})
  seed_from (some snapshot) file w =
      (sets (λ room. record room { doc = env.yjs.new_doc }) >> apply_to_room env snapshot) w
  seed_from none file w = sets (λ room. record room { doc = doc_of_text (content_of file w) }) w

  unfoldable pub seed : StoredFile → Act Doc (Unit {0})
  seed file w = seed_from w.room.persisted.snapshot file w

  abbrev pub next_epoch : PersistedYjsRoom → ℕ
  next_epoch persisted =
      if persisted.seeded then persisted.epoch + 1 else max 1 (persisted.epoch + 1)

  abbrev pub activated : StoredFile → JsString → ℕ → Doc → PersistedYjsRoom
  activated file device_id epoch doc = record {
    vault_id = file.vault_id;
    file_id = file.file_id;
    epoch = epoch;
    active = true;
    seeded = true;
    lease_owner = some device_id;
    lease_until = some (lease_end env);
    activation_base_vv = file.content_vv;
    activation_base_hash = file.content_hash;
    next_seq = 1;
    snapshot = some (env.yjs.encode_state doc);
    state_vector = some (env.yjs.encode_state_vector doc);
    compacted_through_seq = 0;
  }

  -- `activate`
  unfoldable pub activate : StoredFile → JsString → Act Doc (Unit {0})
  activate file device_id = do
    persisted ← reads λ w. w.room.persisted
    seed file
    sets
        λ room. record room { persisted = activated file device_id (next_epoch persisted) room.doc }
    save_runtime
    room ← reads λ w. w.room
    on_rooms (
        save_snapshot (version_id_for env room)
          (snapshot_of env room 0 SnapshotHistoryReason.activation (some device_id) none))

  -- The end of `promote`: the device becomes a participant.
  unfoldable pub take_seat :
      JsString → JsString → JsString → RoomSink → StoredFile → Act Doc RoomStateMessage
  take_seat vault_id device_id user_id sink file = do
    sets λ room. record room { closing_sinks = delete device_id room.closing_sinks }
    role ← require_role vault_id device_id user_id false
    sets λ room. record room {
      participants =
          set device_id
            (record {
              device_id = device_id;
              user_id = user_id;
              role = role;
              sink = sink;
              joined_vv = file.content_vv;
              rate_window_started = env.now;
              updates_in_window = 0;
            })
            room.participants;
    }
    reads λ w. room_state env w.room

  abbrev pub joining : JsString → PersistedYjsRoom → PersistedYjsRoom
  joining device_id p = record p {
    lease_until = some (lease_end env);
    lease_owner = or_else p.lease_owner (some device_id);
  }

  -- The rest of the locked section of `promote`, from `room.state = 'active'` on.
  unfoldable pub join_room :
      JsString → JsString → JsString → RoomSink → StoredFile → Act Doc RoomStateMessage
  join_room vault_id device_id user_id sink file = do
    sets λ room. record room { state = is_active; closing_timer = none }
    sets_persisted (joining device_id)
    save_runtime
    take_seat vault_id device_id user_id sink file

  -- The locked section of `promote`
  unfoldable pub promote_locked :
      JsString → JsString → JsString → JsString → RoomSink → Act Doc RoomStateMessage
  promote_locked vault_id file_id device_id user_id sink = do
    file ← required_live_file vault_id file_id
    throw_if (is_some file.content_encoding)
        (sync unsupported "Layer 2 realtime collaboration is disabled for encrypted content")
    before ← reads λ w. w.room
    when (not before.persisted.active || is_phase_closed before.state) (activate file device_id)
    join_room vault_id device_id user_id sink file

  -- `const nextDoc = new Y.Doc(); Y.applyUpdate(nextDoc, Y.encodeStateAsUpdate(room.doc))`
  abbrev pub copied : Doc → Bool × Doc
  copied doc = env.yjs.apply_update env.yjs.new_doc (env.yjs.encode_state doc)

  unfoldable pub returned_or_malformed : Bool → Act Doc (Unit {0})
  returned_or_malformed returned w = if returned then (ok tt, w) else (err malformed_update, w)

  -- The update that turns the text of a document into another text.
  abbrev pub replacing_update : Doc → JsString → List ℕ
  replacing_update doc text =
      env.yjs.encode_diff (replace_doc_text env (copied doc).1 text)
        (env.yjs.encode_state_vector doc)

  -- The locked section of `restoreHistoryVersion`
  unfoldable pub restore_locked :
      JsString → JsString → JsString → JsString → JsString → Act Doc (Unit {0})
  restore_locked vault_id file_id device_id user_id text = do
    room ← reads λ w. w.room
    returned_or_malformed (copied room.doc).0
    let update = replacing_update room.doc text
    let seq = room.persisted.next_seq
    on_rooms λ s. append_update s (record {
      vault_id = vault_id;
      file_id = file_id;
      room_epoch = room.persisted.epoch;
      seq = seq;
      device_id = device_id;
      update = update;
      created_at = env.now;
    })
    apply_to_room env update
    sets_persisted λ p. record p { next_seq = seq + 1 }
    capture_snapshot env seq SnapshotHistoryReason.restore (some device_id) (some user_id)
    save_runtime
    broadcast_room env
        (ServerMessage.yjs_relay_update (record {
          file_id = file_id;
          room_epoch = room.persisted.epoch;
          seq = seq;
          update = env.to_base64 update;
        }))
        false

  -- The handler of `catch`; `recover` is what it does first.
  unfoldable pub report : Act Doc (Unit {0}) → Result RoomThrown JsString → Act Doc (Unit {0})
  report recover (ok hash) = pure tt
  report recover (err e) = recover >> broadcast_room env (error_to_room_message env e) true

  -- `try { await this.demoteLocked(room, reason) } catch`
  unfoldable pub demote_or_report : RoomClosedReason → Act Doc (Unit {0}) → Act Doc (Unit {0})
  demote_or_report reason recover w =
      let (r, w') = demote_locked env reason w in report recover r w'

  -- What the timer of `scheduleClosingIfEmpty` does.
  unfoldable pub closing_timer_fires : Act Doc (Unit {0})
  closing_timer_fires w =
      if length w.room.participants == 0 && w.room.persisted.active
      then demote_or_report RoomClosedReason.demoted
          (sets λ room. record room { state = is_active }) w
      else (ok tt, w)

  -- Of `closeAll`, for one room
  unfoldable pub close_all_locked : RoomClosedReason → Act Doc (Unit {0})
  close_all_locked reason = do
    sets λ room. record room { closing_timer = none }
    active ← reads λ w. w.room.persisted.active
    when active (demote_or_report reason (pure tt))

  abbrev pub is_expired : Option ℕ → Bool
  is_expired none = false
  is_expired (some lease_until) = leb lease_until env.now

  -- Of `sweepExpired`, for one room
  unfoldable pub sweep_locked : Act Doc (Unit {0})
  sweep_locked w =
      if w.room.persisted.active
        && length w.room.participants == 0
        && is_expired w.room.persisted.lease_until
      then (demote_locked env RoomClosedReason.lease_expired >>= λ hash. pure tt) w
      else (ok tt, w)

-- Opens the file's functions, for tests that run them.
unfoldable pub code : Unit {0}
unfolding seed_from seed activate take_seat join_room promote_locked returned_or_malformed
    restore_locked report demote_or_report closing_timer_fires close_all_locked sweep_locked
code = tt
