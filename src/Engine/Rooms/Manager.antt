-- ===== src/Engine/Rooms/Manager.antt =====
-- packages/server/src/engine/room-manager.ts: the class `RoomManager`, its rooms in memory, and its
-- public methods. A locked section runs on the room that `materialize` finds or loads, and the room
-- that it leaves is the one in memory, also after an exception.
use obsidian_baritone.Prelude.{
  ℕ, true, false, Option, none, some, [], ◌∷◌, ◌++◌, JsString, ◌==◌, if◌then◌else◌, ◌otherwise◌,
  max, min, Result, ok, err,
}
use obsidian_baritone.Prelude.Maps.{get, set}
use obsidian_baritone.Clock.VersionVector.{bump}
use obsidian_baritone.Protocol.{FileOp}
use obsidian_baritone.Protocol.ServerMessage.{RoomStateMessage, RoomClosedReason}
use obsidian_baritone.Engine.Store.{StoredFile, OpAckResult}
use obsidian_baritone.Engine.Store.Tx.{Thrown}
use obsidian_baritone.Engine.OpProcessor.{process}
use obsidian_baritone.Engine.Rooms
use obsidian_baritone.Engine.Rooms.{
  Env, RoomSink, Phase, is_active, is_closed, RuntimeRoom, World, VaultBroadcast, RoomThrown,
  thrown, malformed_update, Act, as_thrown,
}
use obsidian_baritone.Engine.Rooms.RoomStore.{
  InMemoryYjsRoomStore, YjsHistoryPage, YjsSnapshotVersion, room_key, get_snapshot_version,
  list_snapshot_history,
}
use obsidian_baritone.Engine.Rooms.Helpers.{
  max_update_bytes, max_sync_bytes, collab_device, device_seq_from_uuid, role_in, live_file_in,
}
use obsidian_baritone.Engine.Rooms.Actions.{decode_base64, text_from_snapshot, reject_if_stale}
use obsidian_baritone.Engine.Rooms.Handlers.{
  update_locked, awareness_locked, sync_locked, heartbeat_locked, leave_locked, disconnect_locked,
}
use obsidian_baritone.Engine.Rooms.Demotion.{
  demote_locked, close_deleted_locked, compact_locked, note_update, acked,
}
use obsidian_baritone.Engine.Rooms.Loading.{load_runtime}
use obsidian_baritone.Engine.Rooms.Lifecycle.{
  promote_locked, restore_locked, close_all_locked, sweep_locked, closing_timer_fires,
}
use obsidian_baritone.Engine.Rooms.Method.{
  Method, ◌>>=◌, pure, lift, reads, lookups, checks, on_data, locked, each_room, keys_of,
  or_no_version, Restored,
}

module _ {Doc : Type 0} (env : Env Doc) where
  -- `materialize`
  unfoldable pub materialize : JsString → JsString → Method Doc (RuntimeRoom Doc)
  materialize vault_id file_id s = elim (get (room_key vault_id file_id) s.rooms) [
    | some room ↦ (ok room, s)
    | none ↦ elim (load_runtime env.yjs s.room_store vault_id file_id) [
      | err e ↦ (err e, s)
      | ok room ↦ (ok room, record s { rooms = set (room_key vault_id file_id) room s.rooms })
    ]
  ]

  module _ {ℓ} {A : Type ℓ} where
    unfoldable pub in_room : JsString → JsString → Act Doc A → Method Doc A
    in_room vault_id file_id m = do
      room ← materialize vault_id file_id
      locked (room_key vault_id file_id) m room

  module _ (vault_id file_id device_id : JsString) where
    unfoldable pub promote : JsString → RoomSink → Method Doc RoomStateMessage
    promote user_id sink = do
      role ← checks λ s. role_in s vault_id device_id user_id true
      in_room vault_id file_id (promote_locked env vault_id file_id device_id user_id sink)

    unfoldable pub handle_update : JsString → ℕ → ℕ → JsString → Method Doc (Unit {0})
    handle_update user_id room_epoch update_id update = do
      role ← checks λ s. role_in s vault_id device_id user_id true
      decoded ← checks λ s. decode_base64 env update max_update_bytes
      in_room vault_id file_id
          (update_locked env vault_id file_id device_id user_id room_epoch update_id update decoded)

    unfoldable pub handle_awareness : ℕ → JsString → Method Doc (Unit {0})
    handle_awareness room_epoch state = do
      decoded ← checks λ s. decode_base64 env state max_sync_bytes
      in_room vault_id file_id (awareness_locked env file_id device_id room_epoch state)

    unfoldable pub handle_sync : ℕ → JsString → Method Doc (Unit {0})
    handle_sync room_epoch state_vector = do
      vector ← checks λ s. decode_base64 env state_vector max_sync_bytes
      in_room vault_id file_id (sync_locked env file_id device_id room_epoch vector)

    unfoldable pub heartbeat : ℕ → Method Doc (Unit {0})
    heartbeat room_epoch = in_room vault_id file_id (heartbeat_locked env device_id room_epoch)

    unfoldable pub leave : ℕ → Method Doc (Unit {0})
    leave room_epoch = in_room vault_id file_id (leave_locked env device_id room_epoch)

    abbrev other_epoch : Option ℕ → ℕ → Option ℕ
    other_epoch none epoch = none
    other_epoch (some room_epoch) epoch = if epoch == room_epoch then none else some room_epoch

    -- The locked section of `demote`
    unfoldable pub demote_if_current : Option ℕ → RoomClosedReason → Act Doc (Option JsString)
    demote_if_current room_epoch reason w = elim (other_epoch room_epoch w.room.persisted.epoch) [
      | some epoch ↦ (ok none, (reject_if_stale env epoch device_id w).1)
      | none ↦ (Rooms.◌>>=◌ (demote_locked env reason) λ hash. Rooms.pure (some hash)) w
    ]

    unfoldable pub demote : Option ℕ → RoomClosedReason → Method Doc (Option JsString)
    demote room_epoch reason = in_room vault_id file_id (demote_if_current room_epoch reason)

    unfoldable pub list_history : JsString → Option ℕ → Option JsString → Method Doc YjsHistoryPage
    list_history user_id limit before = do
      role ← checks λ d. role_in d vault_id device_id user_id false
      file ← checks λ d. live_file_in d vault_id file_id
      reads λ s.
          list_snapshot_history env.locale_lt s vault_id file_id
            (min (max (limit otherwise 50) 1) 100) before

    abbrev version_in : InMemoryYjsRoomStore → JsString → Result Thrown YjsSnapshotVersion
    version_in s version_id = or_no_version (get_snapshot_version s vault_id file_id version_id)

    unfoldable pub get_history_text : JsString → JsString → Method Doc JsString
    get_history_text user_id version_id = do
      role ← checks λ d. role_in d vault_id device_id user_id false
      file ← checks λ d. live_file_in d vault_id file_id
      version ← lookups λ s. version_in s version_id
      lift (text_from_snapshot env version.snapshot)

    -- The operation of `restoreHistoryVersion`
    abbrev restore_op : StoredFile → JsString → JsString → FileOp
    restore_op file request_id text =
        note_update env request_id (device_seq_from_uuid request_id) vault_id file_id
          file.content_vv (bump file.content_vv (collab_device file_id)) text

    abbrev tell_vault : FileOp → OpAckResult → Method Doc (Unit {0})
    tell_vault op result s = (
      ok tt,
      record s {
        broadcasts =
            s.broadcasts
            ++ (record {
              vault_id = vault_id;
              source_device_id = none;
              ops =
                  record {
                    vault_seq = result.vault_seq;
                    op = op;
                    resulting_clocks = result.resulting_clocks;
                  }
                  ∷ [];
            }
                ∷ []);
      },
    )

    unfoldable pub restore_history_version : JsString → JsString → JsString → Method Doc Restored
    restore_history_version user_id version_id request_id = do
      role ← checks λ d. role_in d vault_id device_id user_id true
      file ← checks λ d. live_file_in d vault_id file_id
      version ← lookups λ s. version_in s version_id
      text ← lift (text_from_snapshot env version.snapshot)
      let op = restore_op file request_id text
      answer ← on_data (process env.os env.now (env.uuid (room_key vault_id file_id)) op none)
      result ← checks λ d. acked "History restore failed: " answer
      told ← tell_vault op result
      done ← in_room vault_id file_id (restore_locked env vault_id file_id device_id user_id text)
      pure (record {
        text = text;
        vault_seq = result.vault_seq;
        resulting_clocks = result.resulting_clocks;
      })

  -- The timer of a room in memory runs out.
  unfoldable pub timer_fires : JsString → JsString → Method Doc (Unit {0})
  timer_fires vault_id file_id = in_room vault_id file_id (closing_timer_fires env)

  unfoldable pub disconnect : JsString → Method Doc (Unit {0})
  disconnect device_id s = each_room (disconnect_locked env device_id) (keys_of s.rooms) s

  unfoldable pub close_deleted : JsString → JsString → Method Doc (Unit {0})
  close_deleted vault_id file_id = in_room vault_id file_id (close_deleted_locked env)

  unfoldable pub sweep_expired : Method Doc (Unit {0})
  sweep_expired s = each_room (sweep_locked env) (keys_of s.rooms) s

  unfoldable pub compact : JsString → JsString → Option ℕ → Method Doc ℕ
  compact vault_id file_id through_seq =
      in_room vault_id file_id (compact_locked env vault_id file_id through_seq)

  unfoldable pub close_all : RoomClosedReason → Method Doc (Unit {0})
  close_all reason s = each_room (close_all_locked env reason) (keys_of s.rooms) s
