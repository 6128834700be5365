-- ===== src/Engine/Rooms/Persist.antt =====
-- The writes of packages/server/src/engine/room-manager.ts to the store of rooms, and what they do to
-- a room that the store has all of.
use mathlib.Core.Path.{subst, subst⁻¹}
use obsidian_baritone.Prelude.{
  ℕ, suc, ◌≤◌, ◌≡◌, refl, Option, none, some, [], ◌∷◌, ◌++◌, JsString, ◌==◌, arith, Bool-cases, inl,
  inr, Option-cases, ok,
}
use obsidian_baritone.Prelude.Maps.{set, get-set_self}
use obsidian_baritone.Protocol.ServerMessage.{SnapshotHistoryReason}
use obsidian_baritone.Engine.Store.{get_file}
use obsidian_baritone.Engine.Store.Tx.{save_file}
use obsidian_baritone.Engine.Rooms.{Env, Yjs, World, ◌>>=◌, pure, reads, on_data}
use obsidian_baritone.Engine.Rooms.RoomStore.{
  PersistedYjsRoom, StoredYjsUpdate, YjsSnapshot, InMemoryYjsRoomStore, room_key, update_key,
  get_room, stored_updates, save_room, append_update, save_snapshot, save_current,
  delete_updates_through,
}
use obsidian_baritone.Engine.Rooms.Actions.{
  save_runtime, save_active_until, capture_snapshot, version_id_for, snapshot_of,
}
use obsidian_baritone.Engine.Rooms.Updates.{Ascends, Ascends-append, sort-Ascends, filter-none}
use obsidian_baritone.Engine.Rooms.Durable.{
  EncodesAll, rebuilt-snapshot, IsRebuildable, IsReplayable, IsDurable,
}

updates-save_current :
    (snapshot : YjsSnapshot) (room : Option PersistedYjsRoom) (s : InMemoryYjsRoomStore)
    → (save_current snapshot room s).updates ≡ s.updates
unfolding save_room
updates-save_current snapshot none s = refl
updates-save_current snapshot (some room) s =
    elim (Bool-cases (room.epoch == snapshot.room_epoch)) [ inl e ↦ rw e refl | inr e ↦ rw e refl ]

updates-save_snapshot :
    (id : JsString) (snapshot : YjsSnapshot) (s : InMemoryYjsRoomStore)
    → (save_snapshot id snapshot s).updates ≡ s.updates
unfolding save_snapshot
updates-save_snapshot id snapshot s =
    let kept : InMemoryYjsRoomStore = record s {
      snapshots =
          set (update_key snapshot.vault_id snapshot.file_id snapshot.room_epoch) snapshot
            s.snapshots;
    } in
    updates-save_current snapshot (get_room kept snapshot.vault_id snapshot.file_id) kept

pub stored_updates-append_update :
    (high : ℕ) (u : StoredYjsUpdate) (s : InMemoryYjsRoomStore)
    → u.seq ≡ high
    → Ascends 1 high (stored_updates s u.vault_id u.file_id u.room_epoch)
    → stored_updates (append_update s u) u.vault_id u.file_id u.room_epoch
      ≡ stored_updates s u.vault_id u.file_id u.room_epoch ++ (u ∷ [])
unfolding append_update
stored_updates-append_update high u s es h =
    rw
      (sort-Ascends 1 (suc high) (stored_updates s u.vault_id u.file_id u.room_epoch ++ (u ∷ []))
        (Ascends-append 1 high (stored_updates s u.vault_id u.file_id u.room_epoch) u es h))
      (unfold stored_updates in
        rw
          (get-set_self (update_key u.vault_id u.file_id u.room_epoch)
            (stored_updates s u.vault_id u.file_id u.room_epoch ++ (u ∷ [])) s.updates)
          refl)

module _ (vault_id file_id : JsString) (epoch : ℕ) (s : InMemoryYjsRoomStore) where
  pub stored_updates-save_room :
      (p : PersistedYjsRoom)
      → stored_updates (save_room s p) vault_id file_id epoch
        ≡ stored_updates s vault_id file_id epoch
  unfolding stored_updates save_room
  stored_updates-save_room p = refl

  pub stored_updates-save_snapshot :
      (id : JsString) (snapshot : YjsSnapshot)
      → stored_updates (save_snapshot id snapshot s) vault_id file_id epoch
        ≡ stored_updates s vault_id file_id epoch
  unfolding stored_updates
  stored_updates-save_snapshot id snapshot = rw (updates-save_snapshot id snapshot s) refl

  pub stored_updates-delete_updates_through :
      (high seq : ℕ)
      → high ≤ suc seq
      → Ascends 1 high (stored_updates s vault_id file_id epoch)
      → stored_updates (delete_updates_through s vault_id file_id epoch seq) vault_id file_id epoch
        ≡ []
  unfolding delete_updates_through
  stored_updates-delete_updates_through high seq l h =
      rw (filter-none 1 high seq (stored_updates s vault_id file_id epoch) l h) (
        unfold stored_updates in
        rw (get-set_self (update_key vault_id file_id epoch) [] s.updates) refl)

get_room-save_room :
    (s : InMemoryYjsRoomStore) (p : PersistedYjsRoom)
    → get_room (save_room s p) p.vault_id p.file_id ≡ some p
unfolding get_room save_room
get_room-save_room s p = get-set_self (room_key p.vault_id p.file_id) p s.rooms

module _ {Doc : Type 0} where
  -- What `saveRuntime` does to the room and to the store of rooms.
  pub save_runtime_lem :
      (w : World Doc)
      → ((save_runtime w).0 ≡ ok tt)
        × ((save_runtime w).1.room ≡ w.room)
        × ((save_runtime w).1.room_store ≡ save_room w.room_store w.room.persisted)
        × ((save_runtime w).1.sent ≡ w.sent)
  unfolding save_runtime save_active_until ◌>>=◌ reads pure on_data save_file
  save_runtime_lem w =
      elim (Option-cases
        (get_file w.data_store w.room.persisted.vault_id w.room.persisted.file_id)) [
          | inl e ↦ rw e (refl, refl, refl, refl)
          | inr (file, e) ↦ rw e (refl, refl, refl, refl)
        ]

module _ {Doc : Type 0} (yjs : Yjs Doc) (vault_id file_id : JsString) where
  -- The two conditions on the room that a locked section works on.
  abbrev pub ReplayableWorld : World Doc → Type 0
  ReplayableWorld w = IsReplayable yjs vault_id file_id w.room_store w.room.persisted w.room.doc

  abbrev pub DurableWorld : World Doc → Type 0
  DurableWorld w = IsDurable yjs vault_id file_id w.room_store w.room.persisted w.room.doc

module _ {Doc : Type 0} (env : Env Doc) (vault_id file_id : JsString) where
  save_room-IsDurable :
      (s : InMemoryYjsRoomStore) (p : PersistedYjsRoom) (doc : Doc)
      → IsReplayable env.yjs vault_id file_id s p doc
      → IsDurable env.yjs vault_id file_id (save_room s p) p doc
  save_room-IsDurable s p doc r = record {
    replayable =
        subst⁻¹ (λ us. IsRebuildable env.yjs vault_id file_id us p doc)
          (stored_updates-save_room vault_id file_id p.epoch s p) r;
    saved =
        subst (λ f. get_room (save_room s p) vault_id f ≡ some p) r.of_file
          (subst (λ v. get_room (save_room s p) v p.file_id ≡ some p) r.of_vault
            (get_room-save_room s p));
  }

  pub save_runtime-DurableWorld :
      (w : World Doc)
      → ReplayableWorld env.yjs vault_id file_id w
      → DurableWorld env.yjs vault_id file_id (save_runtime w).1
  save_runtime-DurableWorld w r =
      let (returned, same, stored, told) = save_runtime_lem w in
      subst⁻¹
        (λ room.
          IsDurable env.yjs vault_id file_id (save_runtime w).1.room_store room.persisted room.doc)
        same
        (subst⁻¹ (λ s. IsDurable env.yjs vault_id file_id s w.room.persisted w.room.doc) stored
          (save_room-IsDurable w.room_store w.room.persisted w.room.doc r))

  pub capture_snapshot-ReplayableWorld :
      EncodesAll env.yjs
      → (seq : ℕ) (reason : SnapshotHistoryReason) (device_id user_id : Option JsString)
        (w : World Doc)
      → w.room.persisted.next_seq ≡ suc seq
      → ReplayableWorld env.yjs vault_id file_id w
      → ReplayableWorld env.yjs vault_id file_id
          (capture_snapshot env seq reason device_id user_id w).1
  unfolding capture_snapshot ◌>>=◌ reads
  capture_snapshot-ReplayableWorld encodes seq reason device_id user_id w e r =
      let us = stored_updates w.room_store vault_id file_id w.room.persisted.epoch in
      let p : PersistedYjsRoom = record w.room.persisted {
        snapshot = some (env.yjs.encode_state w.room.doc);
        state_vector = some (env.yjs.encode_state_vector w.room.doc);
        compacted_through_seq = seq;
      } in
      let rebuildable : IsRebuildable env.yjs vault_id file_id us p w.room.doc = record {
        of_vault = r.of_vault;
        of_file = r.of_file;
        is_seeded = r.is_seeded;
        numbered = r.numbered;
        compacted = omega (arith, e);
        rebuilds =
            rebuilt-snapshot env.yjs encodes w.room.doc 1 p.next_seq seq us (omega (arith, e))
              r.numbered;
      } in
      subst⁻¹ (λ vs. IsRebuildable env.yjs vault_id file_id vs p w.room.doc)
        (stored_updates-save_snapshot vault_id file_id w.room.persisted.epoch w.room_store
          (version_id_for env w.room) (snapshot_of env w.room seq reason device_id user_id))
        rebuildable
