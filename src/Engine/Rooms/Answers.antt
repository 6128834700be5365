-- ===== src/Engine/Rooms/Answers.antt =====
-- What `handleUpdate` of packages/server/src/engine/room-manager.ts answers, and to whom it relays.
use mathlib.Core.Path.{subst⁻¹}
use obsidian_baritone.Prelude.{
  ℕ, suc, ◌≡◌, refl, ◌∙◌, true, false, Option, none, some, List, [], ◌∷◌, ◌++◌, JsString, Result,
  ok, err, ap, ltb, Bool-cases, inl, inr,
}
use mathlib.Core.Option.{some_inj, none-ne-some}
use obsidian_baritone.Prelude.Maps.{JsMap, get, set, values}
use obsidian_baritone.Protocol.{forbidden}
use obsidian_baritone.Protocol.ServerMessage.{ServerMessage}
use obsidian_baritone.Engine.Store.Tx.{Thrown, sync}
use obsidian_baritone.Engine.Rooms.{
  Env, RoomSink, Participant, World, RoomThrown, thrown, reads, send, throw_if, ◌>>=◌, ◌>>◌,
  then_ok,
}
use obsidian_baritone.Engine.Rooms.Helpers.{can_write}
use obsidian_baritone.Engine.Rooms.Actions.{require_participant, check_rate_limit, counted, relay}
use obsidian_baritone.Engine.Rooms.Handlers.{
  accept_update, answer_update, update_locked, persist_update,
}
use obsidian_baritone.Engine.Rooms.Durable.{EncodesAll}
use obsidian_baritone.Engine.Rooms.Persist.{DurableWorld}
use obsidian_baritone.Engine.Rooms.Edits.{Edited, persist_update-Edited}
use obsidian_baritone.Engine.Rooms.Sending.{
  refusal, IsOpenAt, relayed, unless_stale_open, bind_missing, bind_found, one_more, relay_to_lem,
}

module _ {Doc : Type 0} (env : Env Doc) (vault_id file_id device_id user_id : JsString)
    (room_epoch update_id : ℕ) (update : JsString) (decoded : List ℕ) where
  accept_update-forbidden :
      (p : Participant) (w : World Doc)
      → can_write p.role ≡ false
      → accept_update env vault_id file_id device_id user_id update_id update decoded p w
        ≡ (err (thrown (sync forbidden "Write permission required")), w)
  unfolding accept_update ◌>>=◌ throw_if
  accept_update-forbidden p w e = rw e refl

  -- An update for an open room by a device that takes no part in it, or only with the role of a
  -- viewer, throws NOT_PARTICIPANT or FORBIDDEN, and changes and sends nothing.
  pub update_locked-refusal :
      (w : World Doc) (e : Thrown)
      → IsOpenAt env room_epoch w
      → refusal (get device_id w.room.participants) ≡ some e
      → update_locked env vault_id file_id device_id user_id room_epoch update_id update decoded w
        ≡ (err (thrown e), w)
  unfolding update_locked
  update_locked-refusal w e o r =
      unless_stale_open env room_epoch device_id _ w o
      ∙ refused (get device_id w.room.participants) refl r
    where
      refused :
          (p : Option Participant)
          → get device_id w.room.participants ≡ p
          → refusal p ≡ some e
          → (require_participant device_id
                >>= accept_update env vault_id file_id device_id user_id update_id update decoded)
              w
            ≡ (err (thrown e), w)
      refused none found r =
          bind_missing env device_id w found _ ∙ ap (λ x. (err (thrown x), w)) (some_inj.0 r)
      refused (some p) found r = elim (Bool-cases (can_write p.role)) [
        | inl t ↦ absurd (none-ne-some e (rw t at r))
        | inr t ↦
            bind_found env device_id p w found _
            ∙ accept_update-forbidden p w t
            ∙ ap (λ x. (err (thrown x), w)) (some_inj.0 (rw t at r))
      ]

  -- The room as `checkRateLimit` leaves it.
  abbrev pub counting : Participant → World Doc → World Doc
  counting p w = record w {
    room = record w.room { participants = set p.device_id (counted env p) w.room.participants };
  }

  abbrev ack_message : World Doc → ServerMessage
  ack_message w = ServerMessage.yjs_ack (record {
    file_id = file_id;
    room_epoch = w.room.persisted.epoch;
    update_id = update_id;
    seq = w.room.persisted.next_seq;
  })

  abbrev relay_message : World Doc → ServerMessage
  relay_message w = ServerMessage.yjs_relay_update (record {
    file_id = file_id;
    room_epoch = w.room.persisted.epoch;
    seq = w.room.persisted.next_seq;
    update = update;
  })

  -- What is sent for an update that is accepted.
  abbrev pub answers : Participant → World Doc → List (RoomSink × ServerMessage)
  answers p w =
      (p.sink, ack_message w)
      ∷ relayed env device_id (relay_message w) (values (counting p w).room.participants)

  answer_update_lem :
      (p : Participant) (seq : ℕ) (v : World Doc)
      → answer_update env file_id device_id update_id update p seq v ≡ (
        ok tt,
        record v {
          sent =
              v.sent
              ++ ((
                p.sink,
                ServerMessage.yjs_ack (record {
                  file_id = file_id;
                  room_epoch = v.room.persisted.epoch;
                  update_id = update_id;
                  seq = seq;
                }),
              )
                  ∷ relayed env device_id
                      (ServerMessage.yjs_relay_update (record {
                        file_id = file_id;
                        room_epoch = v.room.persisted.epoch;
                        seq = seq;
                        update = update;
                      }))
                      (values v.room.participants));
        },
      )
  unfolding answer_update ◌>>=◌ reads send relay
  answer_update_lem p seq v =
      let ack = ServerMessage.yjs_ack (record {
        file_id = file_id;
        room_epoch = v.room.persisted.epoch;
        update_id = update_id;
        seq = seq;
      }) in
      let message = ServerMessage.yjs_relay_update (record {
        file_id = file_id;
        room_epoch = v.room.persisted.epoch;
        seq = seq;
        update = update;
      }) in
      relay_to_lem env device_id message (values v.room.participants)
        (record v { sent = v.sent ++ ((p.sink, ack) ∷ []) })
      ∙ one_more env (p.sink, ack) (relayed env device_id message (values v.room.participants)) v

  accept_update-persist :
      (p : Participant) (w : World Doc)
      → can_write p.role ≡ true
      → ltb env.options.max_updates (counted env p).updates_in_window ≡ false
      → accept_update env vault_id file_id device_id user_id update_id update decoded p w
        ≡ (persist_update env vault_id file_id device_id user_id decoded
              >> answer_update env file_id device_id update_id update p w.room.persisted.next_seq)
            (counting p w)
  unfolding accept_update ◌>>=◌ throw_if check_rate_limit reads
  accept_update-persist p w c l = rw (c, l) refl

  -- What an accepted update leaves.
  pub record Accepted (p : Participant) (w : World Doc)
      (r : Result RoomThrown (Unit {0}) × World Doc) : Type 0 where
    pub returned : r.0 ≡ ok tt
    pub document : r.1.room.doc ≡ (env.yjs.apply_update w.room.doc decoded).1
    pub numbers : r.1.room.persisted.next_seq ≡ suc w.room.persisted.next_seq
    pub sent : r.1.sent ≡ w.sent ++ answers p w
    pub durable : DurableWorld env.yjs vault_id file_id r.1

  abbrev answer_with :
      Participant → World Doc → ℕ → JsMap Participant → List (RoomSink × ServerMessage)
  answer_with p w epoch participants =
      (
        p.sink,
        ServerMessage.yjs_ack (record {
          file_id = file_id;
          room_epoch = epoch;
          update_id = update_id;
          seq = w.room.persisted.next_seq;
        }),
      )
      ∷ relayed env device_id
          (ServerMessage.yjs_relay_update (record {
            file_id = file_id;
            room_epoch = epoch;
            seq = w.room.persisted.next_seq;
            update = update;
          }))
          (values participants)

  answered-Accepted :
      (p : Participant) (w : World Doc) (q : Result RoomThrown (Unit {0}) × World Doc)
      → Edited env vault_id file_id device_id user_id decoded (counting p w) q
      → Accepted p w
          (answer_update env file_id device_id update_id update p w.room.persisted.next_seq q.1)
  answered-Accepted p w q e =
      subst⁻¹ (Accepted p w) (answer_update_lem p w.room.persisted.next_seq q.1) (record {
        returned = refl;
        document = e.document;
        numbers = e.numbers;
        sent =
            ap (λ sent. sent ++ answer_with p w q.1.room.persisted.epoch q.1.room.participants)
              e.sent
            ∙ ap (λ epoch. w.sent ++ answer_with p w epoch q.1.room.participants) e.epoch
            ∙ ap (λ ps. w.sent ++ answer_with p w w.room.persisted.epoch ps) e.participants;
        durable = e.durable;
      })

  -- An update for an open room that the store has all of, by a participant who may write and has not
  -- sent too many, and that Yjs takes, when an encoded document can be read back: the call returns;
  -- the document has the update, and its number is used up; the participant gets the acknowledgement
  -- with that number, and then every other participant whose sink is not full gets the update; and
  -- the store has all of the room.
  pub update_locked-Accepted :
      EncodesAll env.yjs
      → (p : Participant) (w : World Doc) → IsOpenAt env room_epoch w
      → get device_id w.room.participants ≡ some p
      → can_write p.role ≡ true
      → ltb env.options.max_updates (counted env p).updates_in_window ≡ false
      → (env.yjs.apply_update w.room.doc decoded).0 ≡ true
      → DurableWorld env.yjs vault_id file_id w
      → Accepted p w (
          update_locked env vault_id file_id device_id user_id room_epoch update_id update decoded
            w)
  unfolding update_locked
  update_locked-Accepted encodes p w o found c l a d =
      let q = persist_update env vault_id file_id device_id user_id decoded (counting p w) in
      let edited =
        persist_update-Edited env vault_id file_id device_id user_id decoded encodes (counting p w)
          a d.replayable in
      subst⁻¹ (Accepted p w)
        (unless_stale_open env room_epoch device_id _ w o
          ∙ bind_found env device_id p w found _
          ∙ accept_update-persist p w c l
          ∙ then_ok _ _ (counting p w) edited.returned)
        (answered-Accepted p w q edited)
