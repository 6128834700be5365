-- ===== src/Engine/Rooms/Sections.antt =====
-- The locked sections of packages/server/src/engine/room-manager.ts that leave a room open keep it such
-- that the store has all of it.
use obsidian_baritone.Prelude.{ℕ, ◌≡◌, true, not, Option, none, some, List, JsString}
use obsidian_baritone.Prelude.Maps.{get}
use obsidian_baritone.Engine.Rooms.{Env, Participant, Act}
use obsidian_baritone.Engine.Rooms.Handlers.{
  unless_stale, persist_update, answer_update, accept_update, update_locked, awareness_locked,
  sync_locked, heartbeat_locked, leave_locked, disconnect_locked, drop_participant,
}
use obsidian_baritone.Engine.Rooms.Durable.{EncodesAll}
use obsidian_baritone.Engine.Rooms.Edits.{persist_update-Edited}
use obsidian_baritone.Engine.Rooms.Quiet.{
  Quiet, Quiet-reads, Quiet-throw_if, Quiet-require_participant, Quiet-relay, Quiet-reject_if_stale,
  Quiet-check_rate_limit, Quiet-move_to_closing, Quiet-schedule_closing_if_empty, basic_rules,
}
use obsidian_baritone.Engine.Rooms.Keeps.{
  Keeps, IsHarmless, Keeps-Quiet, Keeps-bind, Keeps-when, keeps_rules,
}

module _ {Doc : Type 0} (env : Env Doc) (vault_id file_id : JsString) where
  pub IsHarmless-lease :
      (until : Option ℕ) → IsHarmless env vault_id file_id (λ p. record p { lease_until = until })
  IsHarmless-lease until = record {
    at = λ s p doc r. record {
      of_vault = r.of_vault;
      of_file = r.of_file;
      is_seeded = r.is_seeded;
      numbered = r.numbered;
      compacted = r.compacted;
      rebuilds = r.rebuilds;
    };
  }

  pub unless_stale-Keeps :
      (room_epoch : ℕ) (device_id : JsString) (m : Act Doc (Unit {0}))
      → Keeps env vault_id file_id m
      → Keeps env vault_id file_id (unless_stale env room_epoch device_id m)
  unfolding unless_stale
  unless_stale-Keeps room_epoch device_id m k =
      Keeps-bind env vault_id file_id _ _
        (Keeps-Quiet env vault_id file_id _ (Quiet-reject_if_stale env room_epoch device_id))
        λ stale. Keeps-when env vault_id file_id (not stale) m k

  persist_update-Keeps :
      EncodesAll env.yjs
      → (device_id user_id : JsString) (update : List ℕ)
      → ((doc : Doc) → (env.yjs.apply_update doc update).0 ≡ true)
      → Keeps env vault_id file_id (persist_update env vault_id file_id device_id user_id update)
  persist_update-Keeps encodes device_id user_id update a = record {
    at = λ w d.
        (persist_update-Edited env vault_id file_id device_id user_id update encodes w
          (a w.room.doc) d.replayable).durable;
  }

  Quiet-answer_update :
      (device_id : JsString) (update_id : ℕ) (update : JsString) (p : Participant) (seq : ℕ)
      → Quiet (answer_update env file_id device_id update_id update p seq)
  unfolding answer_update
  Quiet-answer_update device_id update_id update p seq = search (basic_rules, Quiet-relay) depth 8

  accept_update-Keeps :
      EncodesAll env.yjs
      → (device_id user_id : JsString) (update_id : ℕ) (update : JsString) (decoded : List ℕ)
        (p : Participant)
      → ((doc : Doc) → (env.yjs.apply_update doc decoded).0 ≡ true)
      → Keeps env vault_id file_id
          (accept_update env vault_id file_id device_id user_id update_id update decoded p)
  unfolding accept_update
  accept_update-Keeps encodes device_id user_id update_id update decoded p a =
      Keeps-bind env vault_id file_id _ _ (Keeps-Quiet env vault_id file_id _ (Quiet-throw_if _ _))
        λ _.
          Keeps-bind env vault_id file_id _ _
            (Keeps-Quiet env vault_id file_id _ (Quiet-check_rate_limit env p))
            λ _.
              Keeps-bind env vault_id file_id _ _
                (Keeps-Quiet env vault_id file_id _ (Quiet-reads _))
                λ seq.
                  Keeps-bind env vault_id file_id _ _
                    (persist_update-Keeps encodes device_id user_id decoded a)
                    λ _.
                      Keeps-Quiet env vault_id file_id _
                        (Quiet-answer_update device_id update_id update p seq)

  pub update_locked-Keeps :
      EncodesAll env.yjs
      → (device_id user_id : JsString) (room_epoch update_id : ℕ) (update : JsString)
        (decoded : List ℕ)
      → ((doc : Doc) → (env.yjs.apply_update doc decoded).0 ≡ true)
      → Keeps env vault_id file_id
          (update_locked env vault_id file_id device_id user_id room_epoch update_id update decoded)
  unfolding update_locked
  update_locked-Keeps encodes device_id user_id room_epoch update_id update decoded a =
      unless_stale-Keeps _ _ _ (
        Keeps-bind env vault_id file_id _ _
          (Keeps-Quiet env vault_id file_id _ (Quiet-require_participant device_id))
          λ participant.
            accept_update-Keeps encodes device_id user_id update_id update decoded participant a)

  pub awareness_locked-Keeps :
      (device_id : JsString) (room_epoch : ℕ) (state : JsString)
      → Keeps env vault_id file_id (awareness_locked env file_id device_id room_epoch state)
  unfolding awareness_locked
  awareness_locked-Keeps device_id room_epoch state =
      unless_stale-Keeps _ _ _ (search (keeps_rules, Quiet-relay) depth 12)

  pub sync_locked-Keeps :
      (device_id : JsString) (room_epoch : ℕ) (vector : List ℕ)
      → Keeps env vault_id file_id (sync_locked env file_id device_id room_epoch vector)
  unfolding sync_locked
  sync_locked-Keeps device_id room_epoch vector =
      unless_stale-Keeps _ _ _ (search keeps_rules depth 12)

  pub heartbeat_locked-Keeps :
      (device_id : JsString) (room_epoch : ℕ)
      → Keeps env vault_id file_id (heartbeat_locked env device_id room_epoch)
  unfolding heartbeat_locked
  heartbeat_locked-Keeps device_id room_epoch =
      unless_stale-Keeps _ _ _ (search (keeps_rules, IsHarmless-lease) depth 12)

  pub leave_locked-Keeps :
      (device_id : JsString) (room_epoch : ℕ)
      → Keeps env vault_id file_id (leave_locked env device_id room_epoch)
  unfolding leave_locked
  leave_locked-Keeps device_id room_epoch =
      unless_stale-Keeps _ _ _
        (search (keeps_rules, Quiet-move_to_closing, Quiet-schedule_closing_if_empty) depth 12)

  drop_participant-Keeps :
      (device_id : JsString) (p : Option Participant)
      → Keeps env vault_id file_id (drop_participant env device_id p)
  unfolding drop_participant
  drop_participant-Keeps device_id none = search keeps_rules
  drop_participant-Keeps device_id (some p) =
      search (keeps_rules, Quiet-move_to_closing, Quiet-schedule_closing_if_empty)

  pub disconnect_locked-Keeps :
      (device_id : JsString) → Keeps env vault_id file_id (disconnect_locked env device_id)
  unfolding disconnect_locked
  disconnect_locked-Keeps device_id = record {
    at = λ w d. (drop_participant-Keeps device_id (get device_id w.room.participants)).at w d;
  }
