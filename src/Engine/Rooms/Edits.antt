-- ===== src/Engine/Rooms/Edits.antt =====
-- An edit of packages/server/src/engine/room-manager.ts, from the append of the update to the store to
-- the save of the room.
use mathlib.Core.Path.{subst⁻¹}
use obsidian_baritone.Prelude.{
  ℕ, suc, ◌+◌, ◌≡◌, refl, ◌∙◌, true, some, List, [], ◌∷◌, ◌++◌, JsString, arith, ap, Bool-cases,
  inl, inr, Result, ok, or_else,
}
use obsidian_baritone.Protocol.ServerMessage.{SnapshotHistoryReason}
use obsidian_baritone.Engine.Rooms.{Env, World, RoomThrown, Act, ◌>>=◌, ◌>>◌, reads, when}
use obsidian_baritone.Engine.Rooms.RoomStore.{stored_updates, append_update}
use obsidian_baritone.Engine.Rooms.Actions.{
  lease_end, save_runtime, capture_snapshot, apply_to_room,
}
use obsidian_baritone.Engine.Rooms.Handlers.{persist_update, stored_update, is_cadence}
use obsidian_baritone.Engine.Rooms.Updates.{Ascends, Ascends-append}
use obsidian_baritone.Engine.Rooms.Durable.{EncodesAll, rebuilt-append, IsRebuildable}
use obsidian_baritone.Engine.Rooms.Persist.{
  ReplayableWorld, DurableWorld, save_runtime-DurableWorld, capture_snapshot-ReplayableWorld,
  stored_updates-append_update, save_runtime_lem,
}

module _ {Doc : Type 0} (env : Env Doc) (vault_id file_id device_id user_id : JsString)
    (update : List ℕ) where
  -- The world when the document has the update, and the room its next number.
  abbrev pub edited : World Doc → World Doc
  edited w = record w {
    room_store =
        append_update w.room_store
          (stored_update env vault_id file_id w.room.persisted device_id update);
    room = record w.room {
      doc = (env.yjs.apply_update w.room.doc update).1;
      persisted = record w.room.persisted {
        next_seq = w.room.persisted.next_seq + 1;
        lease_owner = or_else w.room.persisted.lease_owner (some device_id);
        lease_until = some (lease_end env);
      };
    };
  }

  abbrev finish : World Doc → Act Doc (Unit {0})
  finish w =
      when (is_cadence env w.room.persisted.next_seq) (
        capture_snapshot env w.room.persisted.next_seq SnapshotHistoryReason.cadence
          (some device_id) (some user_id))
      >> save_runtime

  persist_update-edited :
      (w : World Doc)
      → (env.yjs.apply_update w.room.doc update).0 ≡ true
      → persist_update env vault_id file_id device_id user_id update w ≡ finish w (edited w)
  unfolding persist_update ◌>>=◌ reads apply_to_room
  persist_update-edited w a = rw a refl

  pub edited-ReplayableWorld :
      (w : World Doc)
      → (env.yjs.apply_update w.room.doc update).0 ≡ true
      → ReplayableWorld env.yjs vault_id file_id w
      → ReplayableWorld env.yjs vault_id file_id (edited w)
  edited-ReplayableWorld w a r =
      let u = stored_update env vault_id file_id w.room.persisted device_id update in
      let us = stored_updates w.room_store vault_id file_id w.room.persisted.epoch in
      let e = edited w in
      let rebuildable : IsRebuildable env.yjs vault_id file_id (us ++ (u ∷ [])) e.room.persisted
          e.room.doc =
        record {
          of_vault = r.of_vault;
          of_file = r.of_file;
          is_seeded = r.is_seeded;
          numbered =
              subst⁻¹ (λ n. Ascends 1 n (us ++ (u ∷ []))) (omega arith)
                (Ascends-append 1 w.room.persisted.next_seq us u refl r.numbered);
          compacted = omega (arith, r.compacted);
          rebuilds =
              rebuilt-append env.yjs w.room.persisted.snapshot
                w.room.persisted.compacted_through_seq w.room.doc us u r.compacted r.rebuilds a;
        } in
      subst⁻¹ (λ vs. IsRebuildable env.yjs vault_id file_id vs e.room.persisted e.room.doc)
        (stored_updates-append_update w.room.persisted.next_seq u w.room_store refl r.numbered)
        rebuildable

  -- What an edit leaves when the document takes the update.
  pub record Edited (w : World Doc) (r : Result RoomThrown (Unit {0}) × World Doc) : Type 0 where
    pub returned : r.0 ≡ ok tt
    pub document : r.1.room.doc ≡ (env.yjs.apply_update w.room.doc update).1
    pub numbers : r.1.room.persisted.next_seq ≡ suc w.room.persisted.next_seq
    pub epoch : r.1.room.persisted.epoch ≡ w.room.persisted.epoch
    pub participants : r.1.room.participants ≡ w.room.participants
    pub sent : r.1.sent ≡ w.sent
    pub durable : DurableWorld env.yjs vault_id file_id r.1

  save_runtime-Edited :
      (w v : World Doc)
      → v.room.doc ≡ (env.yjs.apply_update w.room.doc update).1
      → v.room.persisted.next_seq ≡ suc w.room.persisted.next_seq
      → v.room.persisted.epoch ≡ w.room.persisted.epoch
      → v.room.participants ≡ w.room.participants
      → v.sent ≡ w.sent
      → ReplayableWorld env.yjs vault_id file_id v
      → Edited w (save_runtime v)
  save_runtime-Edited w v ed en ee ep es r =
      let (returned, same, stored, told) = save_runtime_lem v in
      record {
        returned = returned;
        document = ap (λ room. room.doc) same ∙ ed;
        numbers = ap (λ room. room.persisted.next_seq) same ∙ en;
        epoch = ap (λ room. room.persisted.epoch) same ∙ ee;
        participants = ap (λ room. room.participants) same ∙ ep;
        sent = told ∙ es;
        durable = save_runtime-DurableWorld env vault_id file_id v r;
      }

  finish-Edited :
      EncodesAll env.yjs
      → (w : World Doc) → ReplayableWorld env.yjs vault_id file_id (edited w)
      → Edited w (finish w (edited w))
  unfolding when ◌>>=◌ capture_snapshot reads
  finish-Edited encodes w r = elim (Bool-cases (is_cadence env w.room.persisted.next_seq)) [
    | inl t ↦ rw t (
        save_runtime-Edited w (captured).1 refl (omega arith) refl refl refl (
          capture_snapshot-ReplayableWorld env vault_id file_id encodes w.room.persisted.next_seq
            SnapshotHistoryReason.cadence (some device_id) (some user_id) (edited w) (omega arith)
            r))
    | inr t ↦ rw t (save_runtime-Edited w (edited w) refl (omega arith) refl refl refl r)
  ]
    where
      captured : Result RoomThrown (Unit {0}) × World Doc
      captured =
          capture_snapshot env w.room.persisted.next_seq SnapshotHistoryReason.cadence
            (some device_id) (some user_id) (edited w)

  pub persist_update-Edited :
      EncodesAll env.yjs
      → (w : World Doc) → (env.yjs.apply_update w.room.doc update).0 ≡ true
      → ReplayableWorld env.yjs vault_id file_id w
      → Edited w (persist_update env vault_id file_id device_id user_id update w)
  persist_update-Edited encodes w a r =
      subst⁻¹ (Edited w) (persist_update-edited w a)
        (finish-Edited encodes w (edited-ReplayableWorld w a r))
