-- ===== src/Engine/Rooms/Opening.antt =====
-- How `promote` of packages/server/src/engine/room-manager.ts opens a room: the store has all of it from
-- the start.
use mathlib.Core.Path.{subst⁻¹}
use obsidian_baritone.Prelude.{
  ℕ, ◌≡◌, refl, ◌∙◌, Bool, true, false, not, ◌||◌, Option, none, some, List, [], JsString, ok,
  arith, ap, is_some,
}
use obsidian_baritone.Protocol.ServerMessage.{SnapshotHistoryReason}
use obsidian_baritone.Engine.Store.{StoredFile}
use obsidian_baritone.Engine.Rooms.{
  Env, RoomSink, is_active, RuntimeRoom, World, Act, reads, on_data, throw_if, on_rooms, sets, when,
  ◌>>=◌, ◌>>◌, then_ok, is_phase_closed,
}
use obsidian_baritone.Engine.Rooms.RoomStore.{stored_updates, save_snapshot}
use obsidian_baritone.Engine.Rooms.Actions.{
  save_runtime, sets_persisted, version_id_for, snapshot_of, apply_to_room, require_role,
  required_live_file, room_state,
}
use obsidian_baritone.Engine.Rooms.Helpers.{live_file_in}
use obsidian_baritone.Engine.Rooms.Loading.{snapshot_doc}
use obsidian_baritone.Engine.Rooms.Lifecycle.{
  seed, seed_from, content_of, doc_of_text, next_epoch, activated, activate, joining, take_seat,
  join_room, promote_locked,
}
use obsidian_baritone.Engine.Rooms.Durable.{EncodesAll, IsRebuildable, rebuilt-snapshot}
use obsidian_baritone.Engine.Rooms.Persist.{
  ReplayableWorld, DurableWorld, save_runtime_lem, save_runtime-DurableWorld,
  stored_updates-save_snapshot,
}
use obsidian_baritone.Engine.Rooms.Quiet.{Quiet, Quiet-on_data, Quiet-reads, Quiet-bind}
use obsidian_baritone.Engine.Rooms.Keeps.{
  Keeps, Keeps-Quiet, Saves, Saves-save_runtime, Saves-bind, IsHarmless, Saves-sets_persisted,
}

module _ {Doc : Type 0} (env : Env Doc) where
  -- The document that `activate` starts with.
  abbrev pub seeded_doc : Option (List ℕ) → StoredFile → World Doc → Doc
  seeded_doc (some snapshot) file w = (env.yjs.apply_update env.yjs.new_doc snapshot).1
  seeded_doc none file w = doc_of_text env (content_of env file w)

  abbrev with_doc : Doc → World Doc → World Doc
  with_doc doc w = record w { room = record w.room { doc = doc } }

  seed_from_lem :
      (snapshot : Option (List ℕ)) (file : StoredFile) (w : World Doc)
      → (snapshot_doc env.yjs snapshot).0 ≡ true
      → seed_from env snapshot file w ≡ (ok tt, with_doc (seeded_doc snapshot file w) w)
  unfolding seed_from apply_to_room ◌>>=◌
  seed_from_lem (some snapshot) file w h = rw h refl
  seed_from_lem none file w h = refl

  -- The room before it is saved, and the end of `activate`.
  abbrev opened : StoredFile → JsString → Doc → World Doc → World Doc
  opened file device_id doc w = record w {
    room = record w.room {
      doc = doc;
      persisted = activated env file device_id (next_epoch env w.room.persisted) doc;
    };
  }

  abbrev keep_first : StoredFile → JsString → Act Doc (Unit {0})
  keep_first file device_id = do
    room ← reads λ w. w.room
    on_rooms (
        save_snapshot (version_id_for env room)
          (snapshot_of env room 0 SnapshotHistoryReason.activation (some device_id) none))

  activate-opened :
      (file : StoredFile) (device_id : JsString) (w : World Doc)
      → (snapshot_doc env.yjs w.room.persisted.snapshot).0 ≡ true
      → activate env file device_id w
        ≡ (save_runtime >> keep_first file device_id)
            (opened file device_id (seeded_doc w.room.persisted.snapshot file w) w)
  unfolding activate seed ◌>>=◌ reads
  activate-opened file device_id w h = rw (seed_from_lem w.room.persisted.snapshot file w h) refl

  activate-returned :
      (file : StoredFile) (device_id : JsString) (w : World Doc)
      → (snapshot_doc env.yjs w.room.persisted.snapshot).0 ≡ true
      → (activate env file device_id w).0 ≡ ok tt
  unfolding reads ◌>>=◌
  activate-returned file device_id w h =
      let o = opened file device_id (seeded_doc w.room.persisted.snapshot file w) w in
      ap (λ r. r.0) (activate-opened file device_id w h)
      ∙ ap (λ r. r.0) (then_ok save_runtime (keep_first file device_id) o (save_runtime_lem o).0)

module _ {Doc : Type 0} (env : Env Doc) (vault_id file_id : JsString) where
  -- The store has no updates yet of the epoch that the room gets.
  abbrev pub IsFresh : World Doc → Type 0
  IsFresh w = stored_updates w.room_store vault_id file_id (next_epoch env w.room.persisted) ≡ []

  opened-ReplayableWorld :
      EncodesAll env.yjs
      → (file : StoredFile) (device_id : JsString) (doc : Doc) (w : World Doc)
      → file.vault_id ≡ vault_id
      → file.file_id ≡ file_id
      → IsFresh w
      → ReplayableWorld env.yjs vault_id file_id (opened env file device_id doc w)
  opened-ReplayableWorld encodes file device_id doc w ev ef e =
      let o = opened env file device_id doc w in
      let rebuildable : IsRebuildable env.yjs vault_id file_id [] o.room.persisted doc = record {
        of_vault = ev;
        of_file = ef;
        is_seeded = refl;
        numbered = omega arith;
        compacted = omega arith;
        rebuilds = rebuilt-snapshot env.yjs encodes doc 1 1 0 [] (omega arith) (omega arith);
      } in
      subst⁻¹ (λ us. IsRebuildable env.yjs vault_id file_id us o.room.persisted doc) e rebuildable

  keep_first-ReplayableWorld :
      (file : StoredFile) (device_id : JsString) (w : World Doc)
      → ReplayableWorld env.yjs vault_id file_id w
      → ReplayableWorld env.yjs vault_id file_id (keep_first env file device_id w).1
  unfolding ◌>>=◌ reads
  keep_first-ReplayableWorld file device_id w r =
      subst⁻¹ (λ us. IsRebuildable env.yjs vault_id file_id us w.room.persisted w.room.doc)
        (stored_updates-save_snapshot vault_id file_id w.room.persisted.epoch w.room_store
          (version_id_for env w.room)
          (snapshot_of env w.room 0 SnapshotHistoryReason.activation (some device_id) none))
        r

  finish-ReplayableWorld :
      (file : StoredFile) (device_id : JsString) (w : World Doc)
      → ReplayableWorld env.yjs vault_id file_id w
      → ReplayableWorld env.yjs vault_id file_id
          ((save_runtime >> keep_first env file device_id) w).1
  unfolding ◌>>=◌
  finish-ReplayableWorld file device_id w r = rw (save_runtime_lem w).0 (
      keep_first-ReplayableWorld file device_id (save_runtime w).1
        (save_runtime-DurableWorld env vault_id file_id w r).replayable)

  activate-ReplayableWorld :
      EncodesAll env.yjs
      → (file : StoredFile) (device_id : JsString) (w : World Doc) → file.vault_id ≡ vault_id
      → file.file_id ≡ file_id
      → (snapshot_doc env.yjs w.room.persisted.snapshot).0 ≡ true
      → IsFresh w
      → ReplayableWorld env.yjs vault_id file_id (activate env file device_id w).1
  activate-ReplayableWorld encodes file device_id w ev ef h e =
      let doc = seeded_doc env w.room.persisted.snapshot file w in
      subst⁻¹ (λ r. ReplayableWorld env.yjs vault_id file_id r.1)
        (activate-opened env file device_id w h)
        (finish-ReplayableWorld file device_id (opened env file device_id doc w)
          (opened-ReplayableWorld encodes file device_id doc w ev ef e))

  Quiet-require_role :
      (device_id user_id : JsString) (as_editor : Bool)
      → Quiet {Doc = Doc} (require_role vault_id device_id user_id as_editor)
  unfolding require_role
  Quiet-require_role device_id user_id as_editor = Quiet-on_data _

  IsHarmless-joining :
      (device_id : JsString) → IsHarmless env vault_id file_id (joining env device_id)
  IsHarmless-joining device_id = record {
    at = λ s p doc r. record {
      of_vault = r.of_vault;
      of_file = r.of_file;
      is_seeded = r.is_seeded;
      numbered = r.numbered;
      compacted = r.compacted;
      rebuilds = r.rebuilds;
    };
  }

  Quiet-sets :
      (f : RuntimeRoom Doc → RuntimeRoom Doc)
      → ((room : RuntimeRoom Doc) → (f room).persisted ≡ room.persisted)
      → ((room : RuntimeRoom Doc) → (f room).doc ≡ room.doc)
      → Quiet (sets f)
  Quiet-sets f p d = record {
    at = λ w. record { room_store = refl; persisted = p w.room; doc = d w.room };
  }

  take_seat-Keeps :
      (device_id user_id : JsString) (sink : RoomSink) (file : StoredFile)
      → Keeps env vault_id file_id (take_seat env vault_id device_id user_id sink file)
  unfolding take_seat
  take_seat-Keeps device_id user_id sink file = Keeps-Quiet env vault_id file_id _ (
      Quiet-bind _ _ (Quiet-sets _ (λ room. refl) λ room. refl) λ _.
        Quiet-bind _ _ (Quiet-require_role device_id user_id false) λ role.
          Quiet-bind _ _ (Quiet-sets _ (λ room. refl) λ room. refl)
            λ _. Quiet-reads λ w. room_state env w.room)

  pub join_room-Saves :
      (device_id user_id : JsString) (sink : RoomSink) (file : StoredFile)
      → Saves env vault_id file_id (join_room env vault_id device_id user_id sink file)
  unfolding join_room ◌>>=◌
  join_room-Saves device_id user_id sink file = record {
    at = λ w r.
        saves.at (record w { room = record w.room { state = is_active; closing_timer = none } }) r;
  }
    where
      saves : Saves env vault_id file_id (
          sets_persisted (joining env device_id)
          >> (save_runtime >> take_seat env vault_id device_id user_id sink file))
      saves =
          Saves-sets_persisted env vault_id file_id (joining env device_id) _
            (IsHarmless-joining device_id)
            (Saves-bind env vault_id file_id _ _ (Saves-save_runtime env vault_id file_id)
              λ _. take_seat-Keeps device_id user_id sink file)

  promote_locked-activate :
      (device_id user_id : JsString) (sink : RoomSink) (file : StoredFile) (w : World Doc)
      → live_file_in w.data_store vault_id file_id ≡ ok file
      → is_some file.content_encoding ≡ false
      → (not w.room.persisted.active || is_phase_closed w.room.state) ≡ true
      → promote_locked env vault_id file_id device_id user_id sink w
        ≡ (activate env file device_id >> join_room env vault_id device_id user_id sink file) w
  unfolding promote_locked required_live_file on_data ◌>>=◌ throw_if reads when
  promote_locked-activate device_id user_id sink file w live plain idle =
      rw (live, plain, idle) refl

  -- `promote` of a room that is not open, for a live file without encryption, which is in the store
  -- under its own ids, when an encoded document and the snapshot that the room may have can be read
  -- back and no updates of the new epoch are stored: after it the store has all of the room, whatever
  -- `promote` returned.
  pub promote_locked-DurableWorld :
      EncodesAll env.yjs
      → (device_id user_id : JsString) (sink : RoomSink) (file : StoredFile) (w : World Doc)
      → live_file_in w.data_store vault_id file_id ≡ ok file
      → is_some file.content_encoding ≡ false
      → file.vault_id ≡ vault_id
      → file.file_id ≡ file_id
      → (not w.room.persisted.active || is_phase_closed w.room.state) ≡ true
      → (snapshot_doc env.yjs w.room.persisted.snapshot).0 ≡ true
      → IsFresh w
      → DurableWorld env.yjs vault_id file_id
          (promote_locked env vault_id file_id device_id user_id sink w).1
  promote_locked-DurableWorld encodes device_id user_id sink file w live plain ev ef idle h e =
      subst⁻¹ (λ r. DurableWorld env.yjs vault_id file_id r.1)
        (promote_locked-activate device_id user_id sink file w live plain idle
          ∙ then_ok (activate env file device_id)
              (join_room env vault_id device_id user_id sink file) w
              (activate-returned env file device_id w h))
        ((join_room-Saves device_id user_id sink file).at (activate env file device_id w).1
          (activate-ReplayableWorld encodes file device_id w ev ef h e))
