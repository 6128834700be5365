-- ===== src/Engine/Rooms/Restoring.antt =====
-- The locked section of `restoreHistoryVersion` in packages/server/src/engine/room-manager.ts keeps a room
-- such that the store has all of it.
use mathlib.Core.Path.{subst⁻¹}
use obsidian_baritone.Prelude.{
  ℕ, ◌+◌, ◌≡◌, refl, true, false, some, JsString, List, Bool-cases, inl, inr, arith,
}
use obsidian_baritone.Protocol.ServerMessage.{ServerMessage, SnapshotHistoryReason}
use obsidian_baritone.Engine.Rooms.{Env, World, Act, reads, ◌>>=◌, ◌>>◌}
use obsidian_baritone.Engine.Rooms.RoomStore.{append_update}
use obsidian_baritone.Engine.Rooms.Actions.{
  capture_snapshot, save_runtime, apply_to_room, broadcast_room,
}
use obsidian_baritone.Engine.Rooms.Handlers.{stored_update}
use obsidian_baritone.Engine.Rooms.Lifecycle.{
  copied, replacing_update, returned_or_malformed, restore_locked,
}
use obsidian_baritone.Engine.Rooms.Durable.{EncodesAll}
use obsidian_baritone.Engine.Rooms.Persist.{ReplayableWorld, DurableWorld}
use obsidian_baritone.Engine.Rooms.Edits.{edited-ReplayableWorld}
use obsidian_baritone.Engine.Rooms.Quiet.{Quiet-broadcast_room}
use obsidian_baritone.Engine.Rooms.Keeps.{Saves-bind, Saves-save_runtime, Keeps-Quiet}
use obsidian_baritone.Engine.Rooms.Closing.{capture_snapshot-Saves}

module _ {Doc : Type 0} (env : Env Doc) (vault_id file_id device_id user_id : JsString) where
  -- The world when the document has the update, and the room its next number.
  abbrev rewritten : List ℕ → World Doc → World Doc
  rewritten update w = record w {
    room_store =
        append_update w.room_store
          (stored_update env vault_id file_id w.room.persisted device_id update);
    room = record w.room {
      doc = (env.yjs.apply_update w.room.doc update).1;
      persisted = record w.room.persisted { next_seq = w.room.persisted.next_seq + 1 };
    };
  }

  rewritten-ReplayableWorld :
      (update : List ℕ) (w : World Doc)
      → (env.yjs.apply_update w.room.doc update).0 ≡ true
      → ReplayableWorld env.yjs vault_id file_id w
      → ReplayableWorld env.yjs vault_id file_id (rewritten update w)
  rewritten-ReplayableWorld update w a r =
      let e = edited-ReplayableWorld env vault_id file_id device_id user_id update w a r in
      record {
        of_vault = e.of_vault;
        of_file = e.of_file;
        is_seeded = e.is_seeded;
        numbered = e.numbered;
        compacted = e.compacted;
        rebuilds = e.rebuilds;
      }

  -- What follows the snapshot.
  abbrev told : List ℕ → World Doc → Act Doc (Unit {0})
  told update w =
      save_runtime
      >> broadcast_room env
          (ServerMessage.yjs_relay_update (record {
            file_id = file_id;
            room_epoch = w.room.persisted.epoch;
            seq = w.room.persisted.next_seq;
            update = env.to_base64 update;
          }))
          false

  restore_locked-rewritten :
      (text : JsString) (w : World Doc)
      → (copied env w.room.doc).0 ≡ true
      → (env.yjs.apply_update w.room.doc (replacing_update env w.room.doc text)).0 ≡ true
      → restore_locked env vault_id file_id device_id user_id text w
        ≡ (capture_snapshot env w.room.persisted.next_seq SnapshotHistoryReason.restore
                (some device_id)
                (some user_id)
              >> told (replacing_update env w.room.doc text) w)
            (rewritten (replacing_update env w.room.doc text) w)
  unfolding restore_locked ◌>>=◌ reads apply_to_room returned_or_malformed
  restore_locked-rewritten text w c a = rw (c, a) refl

  restore_locked-malformed :
      (text : JsString) (w : World Doc)
      → (copied env w.room.doc).0 ≡ false
      → (restore_locked env vault_id file_id device_id user_id text w).1 ≡ w
  unfolding restore_locked ◌>>=◌ reads returned_or_malformed
  restore_locked-malformed text w c = rw c refl

  pub restore_locked-DurableWorld :
      EncodesAll env.yjs
      → (text : JsString) (w : World Doc)
      → (env.yjs.apply_update w.room.doc (replacing_update env w.room.doc text)).0 ≡ true
      → DurableWorld env.yjs vault_id file_id w
      → DurableWorld env.yjs vault_id file_id
          (restore_locked env vault_id file_id device_id user_id text w).1
  restore_locked-DurableWorld encodes text w a d = elim (Bool-cases (copied env w.room.doc).0) [
    | inr c ↦ subst⁻¹ (DurableWorld env.yjs vault_id file_id) (restore_locked-malformed text w c) d
    | inl c ↦
        let update = replacing_update env w.room.doc text in
        subst⁻¹ (λ r. DurableWorld env.yjs vault_id file_id r.1)
          (restore_locked-rewritten text w c a)
          (capture_snapshot-Saves env vault_id file_id encodes w.room.persisted.next_seq
            SnapshotHistoryReason.restore (some device_id) (some user_id) (told update w)
            (rewritten update w) (omega arith)
            (Saves-bind env vault_id file_id _ _ (Saves-save_runtime env vault_id file_id)
              λ _. Keeps-Quiet env vault_id file_id _ (Quiet-broadcast_room env _ false))
            (rewritten-ReplayableWorld update w a d.replayable))
  ]
