-- ===== src/Engine/Rooms/Closing.antt =====
-- The locked sections of packages/server/src/engine/room-manager.ts that close a room keep it such that
-- the store has all of it.
use obsidian_baritone.Prelude.{
  ℕ, suc, ◌-◌, ◌≡◌, refl, Bool, true, false, Option, none, some, JsString, if◌then◌else◌, Result,
  inl, inr, Result-cases, arith, ap,
}
use obsidian_baritone.Hash
use obsidian_baritone.Protocol.ServerMessage.{SnapshotHistoryReason, RoomClosedReason}
use obsidian_baritone.Engine.Store.{OpAckResult}
use obsidian_baritone.Engine.Rooms.{
  Env, RuntimeRoom, World, RoomThrown, Act, pure, reads, sets, ◌>>=◌, ◌>>◌,
}
use obsidian_baritone.Engine.Rooms.Actions.{capture_snapshot}
use obsidian_baritone.Engine.Rooms.Demotion.{
  close_room, close_without_flush, close_flushed, flush_and_close, flush_op, process_and_broadcast,
  demote_locked, close_deleted_locked, deactivated, emptied,
}
use obsidian_baritone.Engine.Rooms.Durable.{EncodesAll}
use obsidian_baritone.Engine.Rooms.Persist.{
  ReplayableWorld, DurableWorld, capture_snapshot-ReplayableWorld,
}
use obsidian_baritone.Engine.Rooms.Quiet.{
  Quiet, Quiet-pure, Quiet-broadcast_room, Quiet-clear_active_until, Quiet-process_and_broadcast,
}
use obsidian_baritone.Engine.Rooms.Keeps.{
  Keeps, Saves, IsHarmless, SameRoom-DurableWorld, Keeps-Quiet, Saves-bind, Saves-save_runtime,
  Saves-sets_persisted, keeps_rules,
}

module _ {Doc : Type 0} (env : Env Doc) (vault_id file_id : JsString) where
  Quiet-emptied : Quiet {Doc = Doc} (sets (emptied env))
  Quiet-emptied = record { at = λ w. record { room_store = refl; persisted = refl; doc = refl } }

  IsHarmless-deactivated : IsHarmless env vault_id file_id (deactivated env)
  IsHarmless-deactivated = record {
    at = λ s p doc r. record {
      of_vault = r.of_vault;
      of_file = r.of_file;
      is_seeded = r.is_seeded;
      numbered = r.numbered;
      compacted = r.compacted;
      rebuilds = r.rebuilds;
    };
  }

  pub close_room-Saves :
      (reason : RoomClosedReason) (final_hash : Option JsString)
      → Saves env vault_id file_id (close_room env reason final_hash)
  unfolding close_room
  close_room-Saves reason final_hash =
      Saves-sets_persisted env vault_id file_id (deactivated env) _ IsHarmless-deactivated (
        Saves-bind env vault_id file_id _ _ (Saves-save_runtime env vault_id file_id) λ _.
          search (keeps_rules, Quiet-broadcast_room, Quiet-clear_active_until, Quiet-emptied) depth
            12)

  -- A snapshot that covers all updates, and the save of the room after it.
  pub capture_snapshot-Saves :
      {A : Type 0}
      → EncodesAll env.yjs
      → (seq : ℕ) (reason : SnapshotHistoryReason) (device_id user_id : Option JsString)
        (m : Act Doc A) (w : World Doc)
      → w.room.persisted.next_seq ≡ suc seq
      → Saves env vault_id file_id m
      → ReplayableWorld env.yjs vault_id file_id w
      → DurableWorld env.yjs vault_id file_id
          ((capture_snapshot env seq reason device_id user_id >> m) w).1
  unfolding ◌>>=◌ capture_snapshot reads
  capture_snapshot-Saves encodes seq reason device_id user_id m w e k r =
      k.at (capture_snapshot env seq reason device_id user_id w).1 (
        capture_snapshot-ReplayableWorld env vault_id file_id encodes seq reason device_id user_id w
          e r)

  bind-DurableWorld :
      {A B : Type 0} (m : Act Doc A) (f : A → Act Doc B) (w : World Doc)
      → DurableWorld env.yjs vault_id file_id (m w).1
      → ((a : A) → DurableWorld env.yjs vault_id file_id (f a (m w).1).1)
      → DurableWorld env.yjs vault_id file_id ((m >>= f) w).1
  unfolding ◌>>=◌
  bind-DurableWorld m f w d k = elim (Result-cases (m w).0) [
    | inl (a, e) ↦ rw e (k a)
    | inr (x, e) ↦ rw e d
  ]

  close_flushed-DurableWorld :
      EncodesAll env.yjs
      → (reason : RoomClosedReason) (room : RuntimeRoom Doc) (w : World Doc)
      → w.room.persisted ≡ room.persisted
      → DurableWorld env.yjs vault_id file_id w
      → DurableWorld env.yjs vault_id file_id (close_flushed env room reason w).1
  unfolding close_flushed
  close_flushed-DurableWorld encodes reason room w e d =
      let hash = Hash.content_hash_text env.os (env.yjs.text room.doc) in
      let next : w.room.persisted.next_seq ≡ room.persisted.next_seq = ap (λ p. p.next_seq) e in
      capture_snapshot-Saves encodes (room.persisted.next_seq - 1) SnapshotHistoryReason.demote
        room.persisted.lease_owner none (close_room env reason (some hash) >> pure hash) w
        (omega (arith, next, d.replayable.compacted))
        (Saves-bind env vault_id file_id (close_room env reason (some hash)) (λ _. pure hash)
          (close_room-Saves reason (some hash))
          λ _. Keeps-Quiet env vault_id file_id _ (Quiet-pure hash))
        d.replayable

  flush_and_close-Keeps :
      EncodesAll env.yjs
      → (reason : RoomClosedReason) → Keeps env vault_id file_id (flush_and_close env reason)
  unfolding flush_and_close ◌>>=◌ reads
  flush_and_close-Keeps encodes reason = record {
    at = λ w d.
        bind-DurableWorld (flush w) (λ result. close_flushed env w.room reason) w (flushed w d)
          λ result.
            close_flushed-DurableWorld encodes reason w.room (flush w w).1
              ((quiet w).at w).persisted (flushed w d);
  }
    where
      flush : World Doc → Act Doc OpAckResult
      flush w = process_and_broadcast env w.room.persisted.vault_id (flush_op env w.room)

      quiet : (w : World Doc) → Quiet (flush w)
      quiet w = Quiet-process_and_broadcast env w.room.persisted.vault_id (flush_op env w.room)

      flushed :
          (w : World Doc)
          → DurableWorld env.yjs vault_id file_id w
          → DurableWorld env.yjs vault_id file_id (flush w w).1
      flushed w d = SameRoom-DurableWorld env vault_id file_id w (flush w w).1 ((quiet w).at w) d

  -- A test on the room decides between two actions.
  pub if-DurableWorld :
      {A : Type 0} (b : Bool) (x y : Result RoomThrown A × World Doc)
      → DurableWorld env.yjs vault_id file_id x.1
      → DurableWorld env.yjs vault_id file_id y.1
      → DurableWorld env.yjs vault_id file_id (if b then x else y).1
  if-DurableWorld true x y dx dy = dx
  if-DurableWorld false x y dx dy = dy

  pub demote_locked-Keeps :
      EncodesAll env.yjs
      → (reason : RoomClosedReason) → Keeps env vault_id file_id (demote_locked env reason)
  unfolding demote_locked
  demote_locked-Keeps encodes reason = record {
    at = λ w d.
        if-DurableWorld w.room.persisted.active _ _ ((flush_and_close-Keeps encodes reason).at w d)
          d;
  }

  pub close_deleted_locked-Keeps : Keeps env vault_id file_id (close_deleted_locked env)
  unfolding close_deleted_locked close_without_flush
  close_deleted_locked-Keeps = record {
    at = λ w d.
        if-DurableWorld w.room.persisted.active _ _
          ((close_room-Saves RoomClosedReason.deleted none).at w d.replayable) d;
  }
