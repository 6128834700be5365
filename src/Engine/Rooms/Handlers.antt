-- ===== src/Engine/Rooms/Handlers.antt =====
-- packages/server/src/engine/room-manager.ts: the locked sections of a participant's messages: updates,
-- awareness, sync, heartbeat, and leaving.
use obsidian_baritone.Prelude.{
  ℕ, ◌+◌, ◌-◌, ◌%◌, Bool, not, ◌&&◌, Option, none, some, List, JsString, ltb, ◌==◌, or_else,
}
use obsidian_baritone.Prelude.Maps.{get, set, delete}
use obsidian_baritone.Protocol.{forbidden}
use obsidian_baritone.Protocol.ServerMessage.{ServerMessage, SnapshotHistoryReason}
use obsidian_baritone.Engine.Store.Tx.{sync}
use obsidian_baritone.Engine.Rooms.{
  Env, Participant, Act, pure, reads, on_rooms, sets, send, throw_if, when, ◌>>=◌, ◌>>◌,
}
use obsidian_baritone.Engine.Rooms.RoomStore.{PersistedYjsRoom, StoredYjsUpdate, append_update}
use obsidian_baritone.Engine.Rooms.Helpers.{can_write}
use obsidian_baritone.Engine.Rooms.Actions.{
  sets_persisted, require_participant, save_runtime, lease_end, apply_to_room, relay,
  reject_if_stale, check_rate_limit, capture_snapshot, schedule_closing_if_empty,
}

module _ {Doc : Type 0} (env : Env Doc) where
  -- The rest of a handler, unless the room rejects the epoch.
  unfoldable pub unless_stale : ℕ → JsString → Act Doc (Unit {0}) → Act Doc (Unit {0})
  unless_stale room_epoch device_id m = do
    stale ← reject_if_stale env room_epoch device_id
    when (not stale) m

  abbrev pub stored_update :
      JsString → JsString → PersistedYjsRoom → JsString → List ℕ → StoredYjsUpdate
  stored_update vault_id file_id persisted device_id update = record {
    vault_id = vault_id;
    file_id = file_id;
    room_epoch = persisted.epoch;
    seq = persisted.next_seq;
    device_id = device_id;
    update = update;
    created_at = env.now;
  }

  -- `this.snapshotEveryUpdates > 0 && seq % this.snapshotEveryUpdates === 0`
  abbrev pub is_cadence : ℕ → Bool
  is_cadence seq =
      ltb 0 env.options.snapshot_every_updates && seq % env.options.snapshot_every_updates == 0

  -- The writes of an update: to the store first, then to the document and the room.
  unfoldable pub persist_update :
      JsString → JsString → JsString → JsString → List ℕ → Act Doc (Unit {0})
  persist_update vault_id file_id device_id user_id update = do
    persisted ← reads λ w. w.room.persisted
    on_rooms λ s. append_update s (stored_update vault_id file_id persisted device_id update)
    apply_to_room env update
    sets_persisted λ p. record p {
      next_seq = persisted.next_seq + 1;
      lease_owner = or_else p.lease_owner (some device_id);
      lease_until = some (lease_end env);
    }
    when (is_cadence persisted.next_seq) (
        capture_snapshot env persisted.next_seq SnapshotHistoryReason.cadence (some device_id)
          (some user_id))
    save_runtime

  -- The acknowledgement of an update, and its relay.
  unfoldable pub answer_update :
      JsString → JsString → ℕ → JsString → Participant → ℕ → Act Doc (Unit {0})
  answer_update file_id device_id update_id update participant seq = do
    epoch ← reads λ w. w.room.persisted.epoch
    send participant.sink (
        ServerMessage.yjs_ack
          (record { file_id = file_id; room_epoch = epoch; update_id = update_id; seq = seq }))
    relay env device_id (
        ServerMessage.yjs_relay_update
          (record { file_id = file_id; room_epoch = epoch; seq = seq; update = update }))

  -- The update of a participant; `decoded` is the decoded `update`.
  unfoldable pub accept_update :
      JsString
      → JsString
      → JsString
      → JsString
      → ℕ
      → JsString
      → List ℕ
      → Participant
      → Act Doc (Unit {0})
  accept_update vault_id file_id device_id user_id update_id update decoded participant = do
    throw_if (not (can_write participant.role)) (sync forbidden "Write permission required")
    check_rate_limit env participant
    seq ← reads λ w. w.room.persisted.next_seq
    persist_update vault_id file_id device_id user_id decoded
    answer_update file_id device_id update_id update participant seq

  -- The locked section of `handleUpdate`
  unfoldable pub update_locked :
      JsString → JsString → JsString → JsString → ℕ → ℕ → JsString → List ℕ → Act Doc (Unit {0})
  update_locked vault_id file_id device_id user_id room_epoch update_id update decoded =
      unless_stale room_epoch device_id (do
        participant ← require_participant device_id
        accept_update vault_id file_id device_id user_id update_id update decoded participant)

  -- Of `handleAwareness`
  unfoldable pub awareness_locked : JsString → JsString → ℕ → JsString → Act Doc (Unit {0})
  awareness_locked file_id device_id room_epoch state = unless_stale room_epoch device_id (do
    participant ← require_participant device_id
    epoch ← reads λ w. w.room.persisted.epoch
    when (not (env.is_backpressured participant.sink)) (
        relay env device_id (
          ServerMessage.yjs_awareness_relay
            (record { file_id = file_id; room_epoch = epoch; from = device_id; state = state }))))

  -- Of `handleSync`
  unfoldable pub sync_locked : JsString → JsString → ℕ → List ℕ → Act Doc (Unit {0})
  sync_locked file_id device_id room_epoch vector = unless_stale room_epoch device_id (do
    participant ← require_participant device_id
    room ← reads λ w. w.room
    send participant.sink (
        ServerMessage.yjs_relay_update (record {
          file_id = file_id;
          room_epoch = room.persisted.epoch;
          seq = room.persisted.next_seq - 1;
          update = env.to_base64 (env.yjs.encode_diff room.doc vector);
        })))

  -- Of `heartbeat`
  unfoldable pub heartbeat_locked : JsString → ℕ → Act Doc (Unit {0})
  heartbeat_locked device_id room_epoch = unless_stale room_epoch device_id (do
    participant ← require_participant device_id
    sets_persisted λ p. record p { lease_until = some (lease_end env) }
    save_runtime)

  -- The participant becomes a closing sink.
  unfoldable pub move_to_closing : JsString → Participant → Act Doc (Unit {0})
  move_to_closing device_id participant = sets λ room. record room {
    closing_sinks = set device_id participant.sink room.closing_sinks;
    participants = delete device_id room.participants;
  }

  -- Of `leave`
  unfoldable pub leave_locked : JsString → ℕ → Act Doc (Unit {0})
  leave_locked device_id room_epoch = unless_stale room_epoch device_id (do
    participant ← require_participant device_id
    move_to_closing device_id participant
    schedule_closing_if_empty env)

  unfoldable pub drop_participant : JsString → Option Participant → Act Doc (Unit {0})
  drop_participant device_id none = pure tt
  drop_participant device_id (some participant) =
      move_to_closing device_id participant >> schedule_closing_if_empty env

  -- Of `disconnect`, for one room
  unfoldable pub disconnect_locked : JsString → Act Doc (Unit {0})
  disconnect_locked device_id w = drop_participant device_id (get device_id w.room.participants) w
