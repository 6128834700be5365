-- ===== src/Engine/Rooms/Sending.antt =====
-- Whom a room of packages/server/src/engine/room-manager.ts answers, and whom it relays a message to.
use obsidian_baritone.Prelude.{
  ℕ, ◌≡◌, refl, ◌∙◌, false, not, ◌&&◌, ◌||◌, Option, none, some, List, [], ◌∷◌, ◌++◌, JsString,
  if◌then◌else◌, ◌==◌, Result, ok, err, ap, map, filter, str_eq, Bool-cases, inl, inr,
}
use mathlib.Core.List.{append-nil, append_assoc}
use obsidian_baritone.Prelude.Maps.{get}
use obsidian_baritone.Protocol.{forbidden, not_participant}
use obsidian_baritone.Protocol.ServerMessage.{ServerMessage}
use obsidian_baritone.Engine.Store.Tx.{Thrown, sync}
use obsidian_baritone.Engine.Rooms.{
  Env, RoomSink, Participant, World, RoomThrown, thrown, Act, pure, send, when, ◌>>=◌,
  is_phase_closed,
}
use obsidian_baritone.Engine.Rooms.Helpers.{can_write}
use obsidian_baritone.Engine.Rooms.Actions.{require_participant, reject_if_stale, relay_to}
use obsidian_baritone.Engine.Rooms.Handlers.{unless_stale}

-- The reason for which an update of a device is refused.
abbrev pub refusal : Option Participant → Option Thrown
refusal none = some (sync not_participant "Device is not a room participant")
refusal (some p) =
    if can_write p.role then none else some (sync forbidden "Write permission required")

module _ {Doc : Type 0} (env : Env Doc) where
  -- The room is open, with this epoch.
  abbrev pub IsOpenAt : ℕ → World Doc → Type 0
  IsOpenAt room_epoch w =
      ((w.room.persisted.active && not (w.room.persisted.epoch == room_epoch)) ≡ false)
      × ((not w.room.persisted.active || is_phase_closed w.room.state) ≡ false)

  reject_if_stale_open :
      (room_epoch : ℕ) (device_id : JsString) (w : World Doc)
      → IsOpenAt room_epoch w
      → reject_if_stale env room_epoch device_id w ≡ (ok false, w)
  unfolding reject_if_stale
  reject_if_stale_open room_epoch device_id w o = rw (o.0, o.1) refl

  pub unless_stale_open :
      (room_epoch : ℕ) (device_id : JsString) (m : Act Doc (Unit {0})) (w : World Doc)
      → IsOpenAt room_epoch w
      → unless_stale env room_epoch device_id m w ≡ m w
  unfolding unless_stale ◌>>=◌ when
  unless_stale_open room_epoch device_id m w o =
      rw (reject_if_stale_open room_epoch device_id w o) refl

  require_found :
      (device_id : JsString) (p : Participant) (w : World Doc)
      → get device_id w.room.participants ≡ some p
      → require_participant device_id w ≡ (ok p, w)
  unfolding require_participant
  require_found device_id p w e = rw (e, require_participant) refl

  require_missing :
      (device_id : JsString) (w : World Doc)
      → get device_id w.room.participants ≡ none
      → require_participant device_id w
        ≡ (err (thrown (sync not_participant "Device is not a room participant")), w)
  unfolding require_participant
  require_missing device_id w e = rw (e, require_participant) refl

  pub bind_missing :
      (device_id : JsString) (w : World Doc)
      → get device_id w.room.participants ≡ none
      → (f : Participant → Act Doc (Unit {0}))
      → (require_participant device_id >>= f) w
        ≡ (err (thrown (sync not_participant "Device is not a room participant")), w)
  unfolding ◌>>=◌
  bind_missing device_id w e f = rw (require_missing device_id w e) refl

  pub bind_found :
      (device_id : JsString) (p : Participant) (w : World Doc)
      → get device_id w.room.participants ≡ some p
      → (f : Participant → Act Doc (Unit {0})) → (require_participant device_id >>= f) w ≡ f p w
  unfolding ◌>>=◌
  bind_found device_id p w e f = rw (require_found device_id p w e) refl

  -- Whom a message of a device is relayed to, with it.
  abbrev pub relayed : JsString → ServerMessage → List Participant → List (RoomSink × ServerMessage)
  relayed source message ps =
      map (λ p. (p.sink, message))
        (filter (λ p. not (str_eq p.device_id source) && not (env.is_backpressured p.sink)) ps)

  pub one_more :
      (x : RoomSink × ServerMessage) (rest : List (RoomSink × ServerMessage)) (w : World Doc)
      → Path
          (Result RoomThrown (Unit {0}) × World Doc)
          (ok tt, record w { sent = (w.sent ++ (x ∷ [])) ++ rest })
          (ok tt, record w { sent = w.sent ++ (x ∷ rest) })
  one_more x rest w =
      ap (λ sent. (ok tt, record w { sent = sent })) (append_assoc w.sent (x ∷ []) rest)

  pub relay_to_lem :
      (source : JsString) (message : ServerMessage) (ps : List Participant) (w : World Doc)
      → relay_to env source message ps w
        ≡ (ok tt, record w { sent = w.sent ++ relayed source message ps })
  unfolding relay_to ◌>>=◌ when send pure
  relay_to_lem source message [] w = rw (append-nil w.sent) refl
  relay_to_lem source message (p ∷ ps) w =
      elim (Bool-cases (not (str_eq p.device_id source) && not (env.is_backpressured p.sink))) [
        | inl t ↦ rw t (
            relay_to_lem source message ps (record w { sent = w.sent ++ ((p.sink, message) ∷ []) })
            ∙ one_more (p.sink, message) (relayed source message ps) w)
        | inr t ↦ rw t (relay_to_lem source message ps w)
      ]
