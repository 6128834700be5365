-- ===== src/Engine/Rooms/Keeps.antt =====
-- Actions of packages/server/src/engine/room-manager.ts that keep a room such that the store has all of
-- it, and how they are composed.
use mathlib.Core.Path.{subst⁻¹}
use obsidian_baritone.Prelude.{Bool, true, false, JsString, if◌then◌else◌, Result, ok, err}
use obsidian_baritone.Engine.Rooms.{Env, World, RoomThrown, Act, resume, when, ◌>>=◌, ◌>>◌}
use obsidian_baritone.Engine.Rooms.RoomStore.{PersistedYjsRoom, InMemoryYjsRoomStore}
use obsidian_baritone.Engine.Rooms.Actions.{save_runtime, sets_persisted}
use obsidian_baritone.Engine.Rooms.Durable.{IsReplayable, IsDurable}
use obsidian_baritone.Engine.Rooms.Persist.{
  ReplayableWorld, DurableWorld, save_runtime-DurableWorld,
}
use obsidian_baritone.Engine.Rooms.Quiet.{
  SameRoom, Quiet, Quiet-pure, Quiet-bind, Quiet-reads, Quiet-send, Quiet-throw_if, Quiet-when,
  Quiet-require_participant, Quiet-relay, Quiet-broadcast_room, Quiet-reject_if_stale,
  Quiet-check_rate_limit, Quiet-move_to_closing, Quiet-schedule_closing_if_empty,
  Quiet-clear_active_until, Quiet-process_and_broadcast, basic_rules,
}

module _ {Doc : Type 0} (env : Env Doc) (vault_id file_id : JsString) where
  pub SameRoom-DurableWorld :
      (v w : World Doc)
      → SameRoom v w
      → DurableWorld env.yjs vault_id file_id v
      → DurableWorld env.yjs vault_id file_id w
  SameRoom-DurableWorld v w same d =
      subst⁻¹ (λ s. IsDurable env.yjs vault_id file_id s w.room.persisted w.room.doc)
        same.room_store
        (subst⁻¹ (λ p. IsDurable env.yjs vault_id file_id v.room_store p w.room.doc) same.persisted
          (subst⁻¹ (λ doc. IsDurable env.yjs vault_id file_id v.room_store v.room.persisted doc)
            same.doc d))

  pub record Keeps {A : Type 0} (m : Act Doc A) : Type 0 where
    pub at :
        (w : World Doc)
        → DurableWorld env.yjs vault_id file_id w
        → DurableWorld env.yjs vault_id file_id (m w).1

  -- After an assignment to what is persisted, until it is saved.
  pub record Saves {A : Type 0} (m : Act Doc A) : Type 0 where
    pub at :
        (w : World Doc)
        → ReplayableWorld env.yjs vault_id file_id w
        → DurableWorld env.yjs vault_id file_id (m w).1

  module _ {A : Type 0} where
    pub Keeps-Quiet : (m : Act Doc A) → Quiet m → Keeps m
    Keeps-Quiet m q = record { at = λ w d. SameRoom-DurableWorld w (m w).1 (q.at w) d }

    pub Keeps-if : (b : Bool) (m n : Act Doc A) → Keeps m → Keeps n → Keeps (if b then m else n)
    Keeps-if true m n km kn = km
    Keeps-if false m n km kn = kn

  module _ {A B : Type 0} where
    Keeps-resume :
        (r : Result RoomThrown A) (f : A → Act Doc B) (w : World Doc)
        → ((a : A) → Keeps (f a))
        → DurableWorld env.yjs vault_id file_id w
        → DurableWorld env.yjs vault_id file_id (resume r f w).1
    Keeps-resume (ok a) f w k d = (k a).at w d
    Keeps-resume (err e) f w k d = d

    pub Keeps-bind :
        (m : Act Doc A) (f : A → Act Doc B) → Keeps m → ((a : A) → Keeps (f a)) → Keeps (m >>= f)
    unfolding ◌>>=◌
    Keeps-bind m f km kf = record { at = λ w d. Keeps-resume (m w).0 f (m w).1 kf (km.at w d) }

    pub Saves-bind :
        (m : Act Doc A) (f : A → Act Doc B) → Saves m → ((a : A) → Keeps (f a)) → Saves (m >>= f)
    unfolding ◌>>=◌
    Saves-bind m f km kf = record { at = λ w d. Keeps-resume (m w).0 f (m w).1 kf (km.at w d) }

  pub Keeps-when : (b : Bool) (m : Act Doc (Unit {0})) → Keeps m → Keeps (when b m)
  unfolding when
  Keeps-when true m k = record { at = λ w d. k.at w d }
  Keeps-when false m k = record { at = λ w d. d }

  pub Saves-save_runtime : Saves save_runtime
  Saves-save_runtime = record { at = save_runtime-DurableWorld env vault_id file_id }

  -- Assignments that do not touch the numbers and the snapshot.
  pub record IsHarmless (f : PersistedYjsRoom → PersistedYjsRoom) : Type 0 where
    pub at :
        (s : InMemoryYjsRoomStore) (p : PersistedYjsRoom) (doc : Doc)
        → IsReplayable env.yjs vault_id file_id s p doc
        → IsReplayable env.yjs vault_id file_id s (f p) doc

  pub Keeps-Saves : {A : Type 0} (m : Act Doc A) → Saves m → Keeps m
  Keeps-Saves m k = record { at = λ w d. k.at w d.replayable }

  pub Saves-sets_persisted :
      {A : Type 0} (f : PersistedYjsRoom → PersistedYjsRoom) (m : Act Doc A)
      → IsHarmless f
      → Saves m
      → Saves (sets_persisted f >> m)
  unfolding ◌>>=◌
  Saves-sets_persisted f m h k = record {
    at = λ w r.
        k.at (record w { room = record w.room { persisted = f w.room.persisted } })
          (h.at w.room_store w.room.persisted w.room.doc r);
  }

  pub ruleset keeps_rules = (
    Keeps-Quiet, Keeps-bind, Keeps-when, Keeps-Saves, Saves-save_runtime, Saves-bind,
    Saves-sets_persisted, Quiet-pure, Quiet-reads, Quiet-send, Quiet-throw_if, Quiet-when,
    Quiet-require_participant, Quiet-bind,
  )
