-- ===== src/Engine/Rooms/Promoting.antt =====
-- `promote` of packages/server/src/engine/room-manager.ts on any room, open or not, keeps it such that the
-- store has all of it.
use mathlib.Core.Path.{subst⁻¹}
use obsidian_baritone.Prelude.{
  ◌≡◌, refl, true, false, not, ◌||◌, JsString, ok, err, Bool-cases, Result-cases, inl, inr, is_some,
}
use obsidian_baritone.Engine.Store.{StoredFile}
use obsidian_baritone.Engine.Store.Tx.{Thrown}
use obsidian_baritone.Engine.Rooms.{
  Env, RoomSink, World, reads, on_data, throw_if, when, ◌>>=◌, is_phase_closed,
}
use obsidian_baritone.Engine.Rooms.Actions.{required_live_file}
use obsidian_baritone.Engine.Rooms.Helpers.{live_file_in}
use obsidian_baritone.Engine.Rooms.Loading.{snapshot_doc}
use obsidian_baritone.Engine.Rooms.Lifecycle.{join_room, promote_locked}
use obsidian_baritone.Engine.Rooms.Durable.{EncodesAll}
use obsidian_baritone.Engine.Rooms.Persist.{DurableWorld}
use obsidian_baritone.Engine.Rooms.Opening.{IsFresh, join_room-Saves, promote_locked-DurableWorld}

module _ {Doc : Type 0} (env : Env Doc) (vault_id file_id : JsString) where
  -- `promote` that opens no room: it is open, or there is no live file without encryption.
  promote_locked-open :
      (device_id user_id : JsString) (sink : RoomSink) (file : StoredFile) (w : World Doc)
      → live_file_in w.data_store vault_id file_id ≡ ok file
      → is_some file.content_encoding ≡ false
      → (not w.room.persisted.active || is_phase_closed w.room.state) ≡ false
      → promote_locked env vault_id file_id device_id user_id sink w
        ≡ join_room env vault_id device_id user_id sink file w
  unfolding promote_locked required_live_file on_data ◌>>=◌ throw_if reads when
  promote_locked-open device_id user_id sink file w live plain already =
      rw (live, plain, already) refl

  promote_locked-missing :
      (device_id user_id : JsString) (sink : RoomSink) (e : Thrown) (w : World Doc)
      → live_file_in w.data_store vault_id file_id ≡ err e
      → (promote_locked env vault_id file_id device_id user_id sink w).1 ≡ w
  unfolding promote_locked required_live_file on_data ◌>>=◌
  promote_locked-missing device_id user_id sink e w missing = rw missing refl

  promote_locked-encrypted :
      (device_id user_id : JsString) (sink : RoomSink) (file : StoredFile) (w : World Doc)
      → live_file_in w.data_store vault_id file_id ≡ ok file
      → is_some file.content_encoding ≡ true
      → (promote_locked env vault_id file_id device_id user_id sink w).1 ≡ w
  unfolding promote_locked required_live_file on_data ◌>>=◌ throw_if
  promote_locked-encrypted device_id user_id sink file w live encrypted = rw (live, encrypted) refl

  -- When `promote` opens a room: for a live file that is in the store under its own ids, when the
  -- snapshot that the room may have can be read back and no updates of the new epoch are stored.
  pub record CanOpen (w : World Doc) : Type 0 where
    pub file : StoredFile
    pub live : live_file_in w.data_store vault_id file_id ≡ ok file
    pub own_vault : file.vault_id ≡ vault_id
    pub own_file : file.file_id ≡ file_id
    pub readable : (snapshot_doc env.yjs w.room.persisted.snapshot).0 ≡ true
    pub fresh : IsFresh env vault_id file_id w

  -- The room is open, or there is no live file, or the room can be opened.
  pub data CanPromote (w : World Doc) : Type 0 where
    is_open : (not w.room.persisted.active || is_phase_closed w.room.state) ≡ false → CanPromote w
    is_missing : (e : Thrown) → live_file_in w.data_store vault_id file_id ≡ err e → CanPromote w
    can_open : CanOpen w → CanPromote w

  unchanged_by :
      (file : StoredFile) (device_id user_id : JsString) (sink : RoomSink) (w : World Doc)
      → live_file_in w.data_store vault_id file_id ≡ ok file
      → is_some file.content_encoding ≡ true
      → DurableWorld env.yjs vault_id file_id w
      → DurableWorld env.yjs vault_id file_id
          (promote_locked env vault_id file_id device_id user_id sink w).1
  unchanged_by file device_id user_id sink w live encrypted d =
      subst⁻¹ (DurableWorld env.yjs vault_id file_id)
        (promote_locked-encrypted device_id user_id sink file w live encrypted) d

  joined :
      (file : StoredFile) (device_id user_id : JsString) (sink : RoomSink) (w : World Doc)
      → live_file_in w.data_store vault_id file_id ≡ ok file
      → is_some file.content_encoding ≡ false
      → (not w.room.persisted.active || is_phase_closed w.room.state) ≡ false
      → DurableWorld env.yjs vault_id file_id w
      → DurableWorld env.yjs vault_id file_id
          (promote_locked env vault_id file_id device_id user_id sink w).1
  joined file device_id user_id sink w live plain already d =
      subst⁻¹ (λ r. DurableWorld env.yjs vault_id file_id r.1)
        (promote_locked-open device_id user_id sink file w live plain already)
        ((join_room-Saves env vault_id file_id device_id user_id sink file).at w d.replayable)

  pub promotes-DurableWorld :
      EncodesAll env.yjs
      → (device_id user_id : JsString) (sink : RoomSink) (w : World Doc) → CanPromote w
      → DurableWorld env.yjs vault_id file_id w
      → DurableWorld env.yjs vault_id file_id
          (promote_locked env vault_id file_id device_id user_id sink w).1
  promotes-DurableWorld encodes device_id user_id sink w (is_missing e missing) d =
      subst⁻¹ (DurableWorld env.yjs vault_id file_id)
        (promote_locked-missing device_id user_id sink e w missing) d
  promotes-DurableWorld encodes device_id user_id sink w (is_open already) d =
      elim (Result-cases (live_file_in w.data_store vault_id file_id)) [
        | inr (e, missing) ↦
            subst⁻¹ (DurableWorld env.yjs vault_id file_id)
              (promote_locked-missing device_id user_id sink e w missing) d
        | inl (file, live) ↦ elim (Bool-cases (is_some file.content_encoding)) [
          | inl encrypted ↦ unchanged_by file device_id user_id sink w live encrypted d
          | inr plain ↦ joined file device_id user_id sink w live plain already d
        ]
      ]
  promotes-DurableWorld encodes device_id user_id sink w (can_open c) d =
      elim (Bool-cases (is_some c.file.content_encoding)) [
        | inl encrypted ↦ unchanged_by c.file device_id user_id sink w c.live encrypted d
        | inr plain ↦
            elim (Bool-cases (not w.room.persisted.active || is_phase_closed w.room.state)) [
              | inl idle ↦
                  promote_locked-DurableWorld env vault_id file_id encodes device_id user_id sink
                    c.file w c.live plain c.own_vault c.own_file idle c.readable c.fresh
              | inr already ↦ joined c.file device_id user_id sink w c.live plain already d
            ]
      ]
