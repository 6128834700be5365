-- ===== src/Engine/Rooms/Demotion.antt =====
-- packages/server/src/engine/room-manager.ts: how the text of a room goes back to the vault as an
-- operation, how the room is closed after it, and the compaction of its updates.
use obsidian_baritone.Prelude.{
  ℕ, ◌-◌, true, false, Option, none, some, List, [], ◌∷◌, JsString, if◌then◌else◌, ◌otherwise◌,
  is_some, length, Result, ok, err, String,
}
use Prim.Native.String.{◌++◌ as ◌++ₛ◌}
use obsidian_baritone.Prelude.Maps.{values}
use obsidian_baritone.Clock.VersionVector.{VersionVector, bump, join}
use obsidian_baritone.Hash
use obsidian_baritone.Unicode.{utf8}
use obsidian_baritone.Protocol.{FileOp, FileType, OpKind}
use obsidian_baritone.Protocol.ServerMessage.{
  ServerMessage, SnapshotHistoryReason, RoomClosedReason,
}
use obsidian_baritone.Engine.Store.{StoredFile, OpApplyResult, OpAckResult, ack, reject, get_file}
use obsidian_baritone.Engine.Store.Tx.{Thrown, sync_error}
use obsidian_baritone.Engine.OpProcessor.{process}
use obsidian_baritone.Engine.Rooms.{
  Env, Participant, is_closed, RuntimeRoom, Act, pure, reads, on_data, on_rooms, sets,
  broadcast_vault, when, ◌>>=◌, ◌>>◌,
}
use obsidian_baritone.Engine.Rooms.RoomStore.{PersistedYjsRoom, delete_updates_through, room_key}
use obsidian_baritone.Engine.Rooms.Helpers.{collab_device, stable_op_id}
use obsidian_baritone.Engine.Rooms.Actions.{
  sets_persisted, save_active_until, save_runtime, broadcast_room, capture_snapshot,
}

-- `if (result.type !== 'ack') throw …`
abbrev pub acked : String → OpApplyResult → Result Thrown OpAckResult
acked prefix (ack result) = ok result
acked prefix (reject r) =
    err (sync_error (record { code = r.code; message = prefix ++ₛ r.message; details = r.details }))

module _ {Doc : Type 0} (env : Env Doc) where
  -- The version vector that the flush of a room has seen.
  unfoldable pub join_all : VersionVector → List Participant → VersionVector
  join_all vv [] = vv
  join_all vv (p ∷ ps) = join_all (join vv p.joined_vv) ps

  -- An update of a note by the room itself.
  abbrev pub note_update :
      JsString → ℕ → JsString → JsString → VersionVector → VersionVector → JsString → FileOp
  note_update op_id device_seq vault_id file_id base_vv new_vv text = record {
    op_id = op_id;
    device_id = collab_device file_id;
    device_seq = device_seq;
    file_id = file_id;
    vault_id = vault_id;
    kind = OpKind.update;
    type = FileType.note;
    base_content_vv = some base_vv;
    new_content_vv = some new_vv;
    content_hash = some (Hash.content_hash_text env.os text);
    size = some (length (utf8 text));
    content_encoding = none;
    inline_text = some text;
    blob_ref = none;
    new_path = none;
    path_clock = none;
    delete_clock = none;
    schema_version = some 1;
  }

  -- The operation that `demoteLocked` makes of the document.
  unfoldable pub flush_op : RuntimeRoom Doc → FileOp
  flush_op room =
      let persisted = room.persisted in
      note_update (stable_op_id env.os persisted.vault_id persisted.file_id persisted.epoch)
        persisted.epoch persisted.vault_id persisted.file_id persisted.activation_base_vv
        (bump (join_all persisted.activation_base_vv (values room.participants))
          (collab_device persisted.file_id))
        (env.yjs.text room.doc)

  abbrev pub id_of : RuntimeRoom Doc → JsString
  id_of room = env.uuid (room_key room.persisted.vault_id room.persisted.file_id)

  -- `process`, an exception for a rejection, and the broadcast to the vault
  unfoldable pub process_and_broadcast : JsString → FileOp → Act Doc OpAckResult
  process_and_broadcast vault_id op = do
    room ← reads λ w. w.room
    result ← on_data (process env.os env.now (id_of room) op none)
    acknowledged ← on_data λ s. (acked "Collab flush failed: " result, s)
    broadcast_vault (record {
      vault_id = vault_id;
      source_device_id = none;
      ops =
          record {
            vault_seq = acknowledged.vault_seq;
            op = op;
            resulting_clocks = acknowledged.resulting_clocks;
          }
          ∷ [];
    })
    pure acknowledged

  -- What closing a room does to it at the end.
  abbrev pub emptied : RuntimeRoom Doc → RuntimeRoom Doc
  emptied room = record room { participants = []; closing_sinks = []; state = is_closed }

  abbrev pub deactivated : PersistedYjsRoom → PersistedYjsRoom
  deactivated p = record p { active = false; lease_owner = none; lease_until = none }

  -- `if (file?.activeUntil) await this.data.saveFile({ ...file, activeUntil: null })`
  unfoldable pub clear_active_until : Option StoredFile → Act Doc (Unit {0})
  clear_active_until none = pure tt
  clear_active_until (some file) =
      when (is_some file.active_until) (save_active_until none (some file))

  -- From `room.persisted = { …, active: false, … }` to the end.
  unfoldable pub close_room : RoomClosedReason → Option JsString → Act Doc (Unit {0})
  close_room reason final_hash = do
    sets_persisted deactivated
    save_runtime
    persisted ← reads λ w. w.room.persisted
    broadcast_room env
        (ServerMessage.room_closed (record {
          file_id = persisted.file_id;
          room_epoch = persisted.epoch;
          reason = reason;
          final_hash = final_hash;
        }))
        true
    sets emptied
    file ← reads λ w. get_file w.data_store persisted.vault_id persisted.file_id
    clear_active_until file

  -- `closeWithoutFlush`
  unfoldable pub close_without_flush : RoomClosedReason → Act Doc (Unit {0})
  close_without_flush reason = close_room reason none

  -- From the last snapshot of the room as it was flushed to the end of `demoteLocked`.
  unfoldable pub close_flushed : RuntimeRoom Doc → RoomClosedReason → Act Doc JsString
  close_flushed room reason = do
    let hash = Hash.content_hash_text env.os (env.yjs.text room.doc)
    capture_snapshot env (room.persisted.next_seq - 1) SnapshotHistoryReason.demote
        room.persisted.lease_owner none
    close_room reason (some hash)
    pure hash

  -- `demoteLocked` of an active room
  unfoldable pub flush_and_close : RoomClosedReason → Act Doc JsString
  flush_and_close reason = do
    room ← reads λ w. w.room
    result ← process_and_broadcast room.persisted.vault_id (flush_op room)
    close_flushed room reason

  -- `demoteLocked`
  unfoldable pub demote_locked : RoomClosedReason → Act Doc JsString
  demote_locked reason w =
      if w.room.persisted.active
      then flush_and_close reason w
      else (ok (w.room.persisted.activation_base_hash otherwise []), w)

  -- Of `closeDeleted`
  unfoldable pub close_deleted_locked : Act Doc (Unit {0})
  close_deleted_locked w =
      if w.room.persisted.active then close_without_flush RoomClosedReason.deleted w else (ok tt, w)

  -- Of `compact`
  unfoldable pub compact_locked : JsString → JsString → Option ℕ → Act Doc ℕ
  compact_locked vault_id file_id through_seq = do
    persisted ← reads λ w. w.room.persisted
    let seq = through_seq otherwise (persisted.next_seq - 1)
    capture_snapshot env seq SnapshotHistoryReason.compact none none
    on_rooms λ s. delete_updates_through s vault_id file_id persisted.epoch seq
    save_runtime
    pure seq
