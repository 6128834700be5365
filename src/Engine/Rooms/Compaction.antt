-- ===== src/Engine/Rooms/Compaction.antt =====
-- `compact` of packages/server/src/engine/room-manager.ts keeps a room such that the store has all of it,
-- when it goes through the last update.
use mathlib.Core.Path.{subst⁻¹}
use obsidian_baritone.Prelude.{ℕ, ◌-◌, ◌≡◌, none, Option, some, suc, ap, [], JsString, arith}
use obsidian_baritone.Protocol.ServerMessage.{SnapshotHistoryReason}
use obsidian_baritone.Engine.Rooms.{Env, World, pure, reads, ◌>>=◌, ◌>>◌}
use obsidian_baritone.Engine.Rooms.RoomStore.{delete_updates_through}
use obsidian_baritone.Engine.Rooms.Actions.{save_runtime, capture_snapshot}
use obsidian_baritone.Engine.Rooms.Demotion.{compact_locked}
use obsidian_baritone.Engine.Rooms.Durable.{EncodesAll, IsRebuildable, rebuilt-snapshot}
use obsidian_baritone.Engine.Rooms.Persist.{
  ReplayableWorld, DurableWorld, capture_snapshot-ReplayableWorld,
  stored_updates-delete_updates_through,
}
use obsidian_baritone.Engine.Rooms.Quiet.{Quiet-pure}
use obsidian_baritone.Engine.Rooms.Keeps.{Keeps, Keeps-Quiet, Saves, Saves-save_runtime, Saves-bind}

module _ {Doc : Type 0} (env : Env Doc) (vault_id file_id : JsString) where
  -- The world of `compact` before it saves the room.
  abbrev compacted : World Doc → World Doc
  compacted w =
      let seq = w.room.persisted.next_seq - 1 in
      let captured = capture_snapshot env seq SnapshotHistoryReason.compact none none w in
      record captured.1 {
        room_store =
            delete_updates_through captured.1.room_store vault_id file_id w.room.persisted.epoch
              seq;
      }

  compacted-ReplayableWorld :
      EncodesAll env.yjs
      → (w : World Doc) → ReplayableWorld env.yjs vault_id file_id w
      → ReplayableWorld env.yjs vault_id file_id (compacted w)
  unfolding capture_snapshot ◌>>=◌ reads
  compacted-ReplayableWorld encodes w r =
      let seq = w.room.persisted.next_seq - 1 in
      let c : World Doc = (capture_snapshot env seq SnapshotHistoryReason.compact none none w).1 in
      let full =
        capture_snapshot-ReplayableWorld env vault_id file_id encodes seq
          SnapshotHistoryReason.compact none none w (omega (arith, r.compacted)) r in
      let rebuildable : IsRebuildable env.yjs vault_id file_id [] c.room.persisted c.room.doc =
        record {
          of_vault = r.of_vault;
          of_file = r.of_file;
          is_seeded = r.is_seeded;
          numbered = omega (arith, r.compacted);
          compacted = omega (arith, r.compacted);
          rebuilds =
              rebuilt-snapshot env.yjs encodes w.room.doc 1 1 seq [] (omega arith) (omega arith);
        } in
      subst⁻¹ (λ us. IsRebuildable env.yjs vault_id file_id us c.room.persisted c.room.doc)
        (stored_updates-delete_updates_through vault_id file_id w.room.persisted.epoch c.room_store
          w.room.persisted.next_seq seq (omega arith) full.numbered)
        rebuildable

  pub compact_locked-Keeps :
      EncodesAll env.yjs → Keeps env vault_id file_id (compact_locked env vault_id file_id none)
  unfolding compact_locked ◌>>=◌ reads capture_snapshot
  compact_locked-Keeps encodes = record {
    at = λ w d.
        (saved (w.room.persisted.next_seq - 1)).at (compacted w)
          (compacted-ReplayableWorld encodes w d.replayable);
  }
    where
      saved : (n : ℕ) → Saves env vault_id file_id (save_runtime >> pure n)
      saved n =
          Saves-bind env vault_id file_id save_runtime (λ _. pure n)
            (Saves-save_runtime env vault_id file_id)
            λ _. Keeps-Quiet env vault_id file_id _ (Quiet-pure n)

  compact_locked-given :
      (n : ℕ) (w : World Doc)
      → n ≡ w.room.persisted.next_seq - 1
      → compact_locked env vault_id file_id (some n) w ≡ compact_locked env vault_id file_id none w
  unfolding compact_locked ◌>>=◌ reads
  compact_locked-given n w e = ap (λ k. compact_locked env vault_id file_id (some k) w) e

  -- The number given, if any, is that of the last update.
  abbrev pub IsLast : Option ℕ → World Doc → Type 0
  IsLast none w = Unit
  IsLast (some n) w = w.room.persisted.next_seq ≡ suc n

  pub compact_locked-DurableWorld :
      EncodesAll env.yjs
      → (through_seq : Option ℕ) (w : World Doc) → IsLast through_seq w
      → DurableWorld env.yjs vault_id file_id w
      → DurableWorld env.yjs vault_id file_id (compact_locked env vault_id file_id through_seq w).1
  compact_locked-DurableWorld encodes none w l d = (compact_locked-Keeps encodes).at w d
  compact_locked-DurableWorld encodes (some n) w l d =
      subst⁻¹ (λ r. DurableWorld env.yjs vault_id file_id r.1)
        (compact_locked-given n w (omega (arith, l))) ((compact_locked-Keeps encodes).at w d)
