-- ===== src/Engine/Rooms/Quiet.antt =====
-- Actions on a room of packages/server/src/engine/room-manager.ts that leave the store of rooms, what
-- is persisted of the room and its document as they are.
use obsidian_baritone.Prelude.{
  ℕ, ◌≡◌, refl, ◌∙◌, Bool, true, false, not, ◌&&◌, ◌||◌, Option, none, some, List, [], ◌∷◌,
  JsString, if◌then◌else◌, ◌==◌, Result, ok, err, Option-cases, inl, inr, Bool-cases, str_eq, ltb,
  length,
}
use obsidian_baritone.Prelude.Maps.{get, set, values}
use obsidian_baritone.Protocol.{FileOp, rate_limited}
use obsidian_baritone.Protocol.ServerMessage.{ServerMessage}
use obsidian_baritone.Engine.Store.{StoredFile}
use obsidian_baritone.Engine.Store.Tx.{Tx, Thrown, sync}
use obsidian_baritone.Engine.Rooms.{
  Env, RoomSink, Participant, World, VaultBroadcast, RoomThrown, Act, resume, pure, reads, on_data,
  sets, send, broadcast_vault, throw_if, when, ◌>>=◌, ◌>>◌, is_phase_closed,
}
use obsidian_baritone.Engine.Rooms.Actions.{
  send_all, require_participant, save_active_until, relay_to, relay, broadcast_room, send_if_some,
  room_state, epoch_stale_message, counted, reject_if_stale, check_rate_limit,
  schedule_closing_if_empty,
}
use obsidian_baritone.Engine.Rooms.Handlers.{move_to_closing}
use obsidian_baritone.Engine.Rooms.Demotion.{clear_active_until, process_and_broadcast}

pub record SameRoom {Doc : Type 0} (v w : World Doc) : Type 0 where
  pub room_store : w.room_store ≡ v.room_store
  pub persisted : w.room.persisted ≡ v.room.persisted
  pub doc : w.room.doc ≡ v.room.doc

module _ {Doc : Type 0} where
  pub SameRoom-refl : (w : World Doc) → SameRoom w w
  SameRoom-refl w = record { room_store = refl; persisted = refl; doc = refl }

  pub SameRoom-trans : {u v w : World Doc} → SameRoom u v → SameRoom v w → SameRoom u w
  SameRoom-trans h k = record {
    room_store = k.room_store ∙ h.room_store;
    persisted = k.persisted ∙ h.persisted;
    doc = k.doc ∙ h.doc;
  }

pub record Quiet {Doc A : Type 0} (m : Act Doc A) : Type 0 where
  pub at : (w : World Doc) → SameRoom w (m w).1

module _ {Doc A : Type 0} where
  pub Quiet-pure : (a : A) → Quiet {Doc = Doc} (pure a)
  unfolding pure
  Quiet-pure a = record { at = SameRoom-refl }

  pub Quiet-reads : (f : World Doc → A) → Quiet (reads f)
  unfolding reads
  Quiet-reads f = record { at = SameRoom-refl }

  pub Quiet-on_data : (m : Tx A) → Quiet {Doc = Doc} (on_data m)
  unfolding on_data
  Quiet-on_data m = record { at = λ w. record { room_store = refl; persisted = refl; doc = refl } }

  pub Quiet-if : (b : Bool) (m n : Act Doc A) → Quiet m → Quiet n → Quiet (if b then m else n)
  Quiet-if true m n km kn = km
  Quiet-if false m n km kn = kn

module _ {Doc A B : Type 0} where
  Quiet-resume :
      (r : Result RoomThrown A) (f : A → Act Doc B) (w : World Doc)
      → ((a : A) → Quiet (f a))
      → SameRoom w (resume r f w).1
  Quiet-resume (ok a) f w k = (k a).at w
  Quiet-resume (err e) f w k = SameRoom-refl w

  pub Quiet-bind :
      (m : Act Doc A) (f : A → Act Doc B) → Quiet m → ((a : A) → Quiet (f a)) → Quiet (m >>= f)
  unfolding ◌>>=◌
  Quiet-bind m f km kf = record {
    at = λ w. SameRoom-trans (km.at w) (Quiet-resume (m w).0 f (m w).1 kf);
  }

module _ {Doc : Type 0} where
  pub Quiet-send :
      (sink : RoomSink) (message : ServerMessage) → Quiet {Doc = Doc} (send sink message)
  unfolding send
  Quiet-send sink message = record {
    at = λ w. record { room_store = refl; persisted = refl; doc = refl };
  }

  pub Quiet-broadcast_vault : (b : VaultBroadcast) → Quiet {Doc = Doc} (broadcast_vault b)
  unfolding broadcast_vault
  Quiet-broadcast_vault b = record {
    at = λ w. record { room_store = refl; persisted = refl; doc = refl };
  }

  pub Quiet-throw_if : (b : Bool) (e : Thrown) → Quiet {Doc = Doc} (throw_if b e)
  unfolding throw_if
  Quiet-throw_if true e = record { at = SameRoom-refl }
  Quiet-throw_if false e = record { at = SameRoom-refl }

  pub Quiet-when : (b : Bool) (m : Act Doc (Unit {0})) → Quiet m → Quiet (when b m)
  unfolding when
  Quiet-when true m k = record { at = λ w. k.at w }
  Quiet-when false m k = record { at = SameRoom-refl }

  require_participant-SameRoom :
      (device_id : JsString) (w : World Doc) → SameRoom w (require_participant device_id w).1
  unfolding require_participant
  require_participant-SameRoom device_id w =
      elim (Option-cases (get device_id w.room.participants)) [
        | inl e ↦ rw (e, require_participant) (SameRoom-refl w)
        | inr (p, e) ↦ rw (e, require_participant) (SameRoom-refl w)
      ]

  pub Quiet-require_participant :
      (device_id : JsString) → Quiet {Doc = Doc} (require_participant device_id)
  Quiet-require_participant device_id = record { at = require_participant-SameRoom device_id }

  pub ruleset basic_rules = (
    Quiet-pure, Quiet-reads, Quiet-on_data, Quiet-if, Quiet-bind, Quiet-send, Quiet-broadcast_vault,
    Quiet-throw_if, Quiet-when, Quiet-require_participant,
  )

  Quiet-send_all :
      (sinks : List RoomSink) (message : ServerMessage) → Quiet {Doc = Doc} (send_all sinks message)
  unfolding send_all
  Quiet-send_all [] message = search basic_rules
  Quiet-send_all (sink ∷ sinks) message =
      Quiet-bind (send sink message) (λ _. send_all sinks message) (Quiet-send sink message)
        (λ _. Quiet-send_all sinks message)

  pub Quiet-save_active_until :
      (until : Option ℕ) (file : Option StoredFile)
      → Quiet {Doc = Doc} (save_active_until until file)
  unfolding save_active_until
  Quiet-save_active_until until none = search basic_rules
  Quiet-save_active_until until (some file) = search basic_rules

  pub Quiet-clear_active_until :
      (env : Env Doc) (file : Option StoredFile) → Quiet {Doc = Doc} (clear_active_until env file)
  unfolding clear_active_until
  Quiet-clear_active_until env none = search basic_rules
  Quiet-clear_active_until env (some file) = search (basic_rules, Quiet-save_active_until)

module _ {Doc : Type 0} (env : Env Doc) where
  Quiet-send_if_some :
      (p : Option Participant) (message : ServerMessage) → Quiet (send_if_some env p message)
  unfolding send_if_some
  Quiet-send_if_some none message = search basic_rules
  Quiet-send_if_some (some p) message = search basic_rules

  Quiet-relay_to :
      (source : JsString) (message : ServerMessage) (ps : List Participant)
      → Quiet (relay_to env source message ps)
  unfolding relay_to
  Quiet-relay_to source message [] = search basic_rules
  Quiet-relay_to source message (p ∷ ps) =
      Quiet-bind
        (when (not (str_eq p.device_id source) && not (env.is_backpressured p.sink))
          (send p.sink message))
        (λ _. relay_to env source message ps)
        (Quiet-when (not (str_eq p.device_id source) && not (env.is_backpressured p.sink))
          (send p.sink message) (Quiet-send p.sink message))
        (λ _. Quiet-relay_to source message ps)

  pub Quiet-relay : (source : JsString) (message : ServerMessage) → Quiet (relay env source message)
  unfolding relay
  Quiet-relay source message = record {
    at = λ w. (Quiet-relay_to source message (values w.room.participants)).at w;
  }

  pub Quiet-broadcast_room :
      (message : ServerMessage) (all : Bool) → Quiet (broadcast_room env message all)
  unfolding broadcast_room
  Quiet-broadcast_room message all = record { at = λ w. (Quiet-send_all _ message).at w }

  reject_if_stale-SameRoom :
      (epoch : ℕ) (device_id : JsString) (w : World Doc)
      → SameRoom w (reject_if_stale env epoch device_id w).1
  unfolding reject_if_stale
  reject_if_stale-SameRoom epoch device_id w =
      elim (Bool-cases (w.room.persisted.active && not (w.room.persisted.epoch == epoch))) [
        | inl t ↦ rw t ((answer (ServerMessage.room_state (room_state env w.room))).at w)
        | inr t ↦ elim (Bool-cases (not w.room.persisted.active || is_phase_closed w.room.state)) [
          | inl c ↦ rw (t, c) ((answer (epoch_stale_message env w.room epoch)).at w)
          | inr c ↦ rw (t, c) (SameRoom-refl w)
        ]
      ]
    where
      answer :
          (message : ServerMessage)
          → Quiet (send_if_some env (get device_id w.room.participants) message >> pure true)
      answer message = search (basic_rules, Quiet-send_if_some)

  pub Quiet-reject_if_stale :
      (epoch : ℕ) (device_id : JsString) → Quiet (reject_if_stale env epoch device_id)
  Quiet-reject_if_stale epoch device_id = record { at = reject_if_stale-SameRoom epoch device_id }

  pub Quiet-check_rate_limit : (p : Participant) → Quiet (check_rate_limit env p)
  unfolding check_rate_limit
  Quiet-check_rate_limit p =
      Quiet-bind
        (sets
          λ room. record room { participants = set p.device_id (counted env p) room.participants })
        (λ _.
          throw_if (ltb env.options.max_updates (counted env p).updates_in_window)
            (sync rate_limited "Too many Yjs updates"))
        (record { at = λ w. record { room_store = refl; persisted = refl; doc = refl } })
        (λ _. Quiet-throw_if _ _)

  pub Quiet-move_to_closing :
      (device_id : JsString) (p : Participant) → Quiet (move_to_closing env device_id p)
  unfolding move_to_closing
  Quiet-move_to_closing device_id p = record {
    at = λ w. record { room_store = refl; persisted = refl; doc = refl };
  }

  schedule-SameRoom : (w : World Doc) → SameRoom w (schedule_closing_if_empty env w).1
  unfolding schedule_closing_if_empty
  schedule-SameRoom w =
      elim (Bool-cases (ltb 0 (length w.room.participants) || not w.room.persisted.active)) [
        | inl t ↦ rw t (SameRoom-refl w)
        | inr t ↦ rw t (record { room_store = refl; persisted = refl; doc = refl })
      ]

  pub Quiet-schedule_closing_if_empty : Quiet (schedule_closing_if_empty env)
  Quiet-schedule_closing_if_empty = record { at = schedule-SameRoom }

  pub Quiet-process_and_broadcast :
      (vault_id : JsString) (op : FileOp) → Quiet (process_and_broadcast env vault_id op)
  unfolding process_and_broadcast
  Quiet-process_and_broadcast vault_id op = search basic_rules depth 10
