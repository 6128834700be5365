-- ===== src/Engine/Rooms/Calls.antt =====
-- The calls on one room of packages/server/src/engine/room-manager.ts in the order in which they take
-- its lock.
use obsidian_baritone.Prelude.{
  ℕ, ◌≡◌, refl, Bool, true, ◌&&◌, none, Option, List, [], ◌∷◌, JsString, if◌then◌else◌, ◌==◌,
  Result, ok, err, length,
}
use obsidian_baritone.Protocol.ServerMessage.{RoomClosedReason}
use obsidian_baritone.Engine.Rooms.{
  Env, RoomSink, is_active, is_closed, RuntimeRoom, World, RoomThrown, Act, pure, sets, ◌>>=◌,
}
use obsidian_baritone.Engine.Rooms.Actions.{error_to_room_message}
use obsidian_baritone.Engine.Rooms.Handlers.{
  update_locked, awareness_locked, sync_locked, heartbeat_locked, leave_locked, disconnect_locked,
}
use obsidian_baritone.Engine.Rooms.Demotion.{demote_locked, close_deleted_locked, compact_locked}
use obsidian_baritone.Engine.Rooms.Promoting.{CanPromote, promotes-DurableWorld}
use obsidian_baritone.Engine.Rooms.Restoring.{restore_locked-DurableWorld}
use obsidian_baritone.Engine.Rooms.Compaction.{IsLast, compact_locked-DurableWorld}
use obsidian_baritone.Engine.Rooms.Lifecycle.{
  promote_locked, restore_locked, replacing_update, report, demote_or_report, closing_timer_fires,
  close_all_locked, sweep_locked, is_expired,
}
use obsidian_baritone.Engine.Rooms.Durable.{EncodesAll, load_runtime-IsDurable}
use obsidian_baritone.Engine.Rooms.Loading.{load_runtime}
use obsidian_baritone.Engine.Rooms.Persist.{DurableWorld}
use obsidian_baritone.Engine.Rooms.Quiet.{
  Quiet, Quiet-pure, Quiet-bind, Quiet-reads, Quiet-broadcast_room,
}
use obsidian_baritone.Engine.Rooms.Keeps.{Keeps, Keeps-Quiet, Keeps-bind, Keeps-when}
use obsidian_baritone.Engine.Rooms.Closing.{
  if-DurableWorld, demote_locked-Keeps, close_deleted_locked-Keeps,
}
use obsidian_baritone.Engine.Rooms.Sections.{
  update_locked-Keeps, awareness_locked-Keeps, sync_locked-Keeps, heartbeat_locked-Keeps,
  leave_locked-Keeps, disconnect_locked-Keeps,
}

-- A call with what it is given; `updates` carries the decoded update too.
pub data RoomCall : Type 0 where
  updates : JsString → JsString → ℕ → ℕ → JsString → List ℕ → RoomCall
  shows_awareness : JsString → ℕ → JsString → RoomCall
  syncs : JsString → ℕ → List ℕ → RoomCall
  beats : JsString → ℕ → RoomCall
  leaves : JsString → ℕ → RoomCall
  disconnects : JsString → RoomCall
  demotes : RoomClosedReason → RoomCall
  promotes : JsString → JsString → RoomSink → RoomCall
  restores : JsString → JsString → JsString → RoomCall
  deletes : RoomCall
  compacts : Option ℕ → RoomCall
  timer_fires : RoomCall
  sweeps : RoomCall
  closes_all : RoomClosedReason → RoomCall

module _ {Doc : Type 0} (vault_id file_id : JsString) where
  abbrev pub perform : Env Doc → RoomCall → World Doc → World Doc
  perform env (updates device_id user_id room_epoch update_id update decoded) w =
      (update_locked env vault_id file_id device_id user_id room_epoch update_id update decoded w).1
  perform env (shows_awareness device_id room_epoch state) w =
      (awareness_locked env file_id device_id room_epoch state w).1
  perform env (syncs device_id room_epoch vector) w =
      (sync_locked env file_id device_id room_epoch vector w).1
  perform env (beats device_id room_epoch) w = (heartbeat_locked env device_id room_epoch w).1
  perform env (leaves device_id room_epoch) w = (leave_locked env device_id room_epoch w).1
  perform env (disconnects device_id) w = (disconnect_locked env device_id w).1
  perform env (demotes reason) w = (demote_locked env reason w).1
  perform env deletes w = (close_deleted_locked env w).1
  perform env (promotes device_id user_id sink) w =
      (promote_locked env vault_id file_id device_id user_id sink w).1
  perform env (restores device_id user_id text) w =
      (restore_locked env vault_id file_id device_id user_id text w).1
  perform env (compacts through_seq) w = (compact_locked env vault_id file_id through_seq w).1
  perform env timer_fires w = (closing_timer_fires env w).1
  perform env sweeps w = (sweep_locked env w).1
  perform env (closes_all reason) w = (close_all_locked env reason w).1

module _ {Doc : Type 0} (env : Env Doc) (vault_id file_id : JsString) where
  report-Keeps :
      (recover : Act Doc (Unit {0})) (r : Result RoomThrown JsString)
      → Quiet recover
      → Keeps env vault_id file_id (report env recover r)
  unfolding report
  report-Keeps recover (ok hash) q = Keeps-Quiet env vault_id file_id _ (Quiet-pure tt)
  report-Keeps recover (err e) q =
      Keeps-Quiet env vault_id file_id _
        (Quiet-bind _ _ q λ _. Quiet-broadcast_room env (error_to_room_message env e) true)

  demote_or_report-Keeps :
      EncodesAll env.yjs
      → (reason : RoomClosedReason) (recover : Act Doc (Unit {0})) → Quiet recover
      → Keeps env vault_id file_id (demote_or_report env reason recover)
  unfolding demote_or_report
  demote_or_report-Keeps encodes reason recover q = record {
    at = λ w d.
        (report-Keeps recover (demote_locked env reason w).0 q).at (demote_locked env reason w).1
          ((demote_locked-Keeps env vault_id file_id encodes reason).at w d);
  }

  closing_timer_fires-Keeps :
      EncodesAll env.yjs → Keeps env vault_id file_id (closing_timer_fires env)
  unfolding closing_timer_fires
  closing_timer_fires-Keeps encodes = record {
    at = λ w d.
        if-DurableWorld env vault_id file_id
          (length w.room.participants == 0 && w.room.persisted.active) _ _
          ((demote_or_report-Keeps encodes RoomClosedReason.demoted _ reopened).at w d) d;
  }
    where
      reopened : Quiet {Doc = Doc} (sets λ room. record room { state = is_active })
      reopened = record { at = λ w. record { room_store = refl; persisted = refl; doc = refl } }

  sweep_locked-Keeps : EncodesAll env.yjs → Keeps env vault_id file_id (sweep_locked env)
  unfolding sweep_locked
  sweep_locked-Keeps encodes = record {
    at = λ w d.
        if-DurableWorld env vault_id file_id
          (w.room.persisted.active
            && length w.room.participants == 0
            && is_expired env w.room.persisted.lease_until)
          _ _ (swept.at w d) d;
  }
    where
      swept :
          Keeps env vault_id file_id
            (demote_locked env RoomClosedReason.lease_expired >>= λ hash. pure tt)
      swept =
          Keeps-bind env vault_id file_id _ _
            (demote_locked-Keeps env vault_id file_id encodes RoomClosedReason.lease_expired)
            λ hash. Keeps-Quiet env vault_id file_id _ (Quiet-pure tt)

  close_all_locked-Keeps :
      EncodesAll env.yjs
      → (reason : RoomClosedReason) → Keeps env vault_id file_id (close_all_locked env reason)
  unfolding close_all_locked
  close_all_locked-Keeps encodes reason =
      Keeps-bind env vault_id file_id _ _ (Keeps-Quiet env vault_id file_id _ untimed) λ _.
        Keeps-bind env vault_id file_id _ _ (Keeps-Quiet env vault_id file_id _ (Quiet-reads _))
          λ active.
            Keeps-when env vault_id file_id active _
              (demote_or_report-Keeps encodes reason (pure tt) (Quiet-pure tt))
    where
      untimed : Quiet {Doc = Doc} (sets λ room. record room { closing_timer = none })
      untimed = record { at = λ w. record { room_store = refl; persisted = refl; doc = refl } }

  -- Bytes that Yjs takes as an update.
  abbrev pub IsUpdate : List ℕ → Type 0
  IsUpdate bytes = (doc : Doc) → (env.yjs.apply_update doc bytes).0 ≡ true

  -- What a call needs: an update is one that Yjs takes, also the one that a restore makes; `promote`
  -- finds the room open, or can open it; and a compaction goes through the last update.
  abbrev pub IsSound : RoomCall → World Doc → Type 0
  IsSound (updates device_id user_id room_epoch update_id update decoded) w = IsUpdate decoded
  IsSound (promotes device_id user_id sink) w = CanPromote env vault_id file_id w
  IsSound (restores device_id user_id text) w =
      (env.yjs.apply_update w.room.doc (replacing_update env w.room.doc text)).0 ≡ true
  IsSound (compacts through_seq) w = IsLast env vault_id file_id through_seq w
  IsSound _ w = Unit

  pub perform-DurableWorld :
      EncodesAll env.yjs
      → (call : RoomCall) (w : World Doc) → IsSound call w
      → DurableWorld env.yjs vault_id file_id w
      → DurableWorld env.yjs vault_id file_id (perform vault_id file_id env call w)
  perform-DurableWorld encodes (updates device_id user_id room_epoch update_id update decoded) w h
        d =
      (update_locked-Keeps env vault_id file_id encodes device_id user_id room_epoch update_id
          update decoded h).at
        w d
  perform-DurableWorld encodes (shows_awareness device_id room_epoch state) w h d =
      (awareness_locked-Keeps env vault_id file_id device_id room_epoch state).at w d
  perform-DurableWorld encodes (syncs device_id room_epoch vector) w h d =
      (sync_locked-Keeps env vault_id file_id device_id room_epoch vector).at w d
  perform-DurableWorld encodes (beats device_id room_epoch) w h d =
      (heartbeat_locked-Keeps env vault_id file_id device_id room_epoch).at w d
  perform-DurableWorld encodes (leaves device_id room_epoch) w h d =
      (leave_locked-Keeps env vault_id file_id device_id room_epoch).at w d
  perform-DurableWorld encodes (disconnects device_id) w h d =
      (disconnect_locked-Keeps env vault_id file_id device_id).at w d
  perform-DurableWorld encodes (demotes reason) w h d =
      (demote_locked-Keeps env vault_id file_id encodes reason).at w d
  perform-DurableWorld encodes deletes w h d =
      (close_deleted_locked-Keeps env vault_id file_id).at w d
  perform-DurableWorld encodes (promotes device_id user_id sink) w h d =
      promotes-DurableWorld env vault_id file_id encodes device_id user_id sink w h d
  perform-DurableWorld encodes (restores device_id user_id text) w h d =
      restore_locked-DurableWorld env vault_id file_id device_id user_id encodes text w h d
  perform-DurableWorld encodes (compacts through_seq) w h d =
      compact_locked-DurableWorld env vault_id file_id encodes through_seq w h d
  perform-DurableWorld encodes timer_fires w h d = (closing_timer_fires-Keeps encodes).at w d
  perform-DurableWorld encodes sweeps w h d = (sweep_locked-Keeps encodes).at w d
  perform-DurableWorld encodes (closes_all reason) w h d =
      (close_all_locked-Keeps encodes reason).at w d

-- When a call is made: its time, its random ids, and the sinks that are full.
pub record Moment : Type 0 where
  pub now : ℕ
  pub uuid : JsString → JsString
  pub is_backpressured : RoomSink → Bool

module _ {Doc : Type 0} (env : Env Doc) (vault_id file_id : JsString) where
  abbrev pub at_moment : Moment → Env Doc
  at_moment m = record env { now = m.now; uuid = m.uuid; is_backpressured = m.is_backpressured }

  unfoldable pub perform_all : List (Moment × RoomCall) → World Doc → World Doc
  perform_all [] w = w
  perform_all ((m, call) ∷ calls) w =
      perform_all calls (perform vault_id file_id (at_moment m) call w)

  -- Each call is made in a world where it has what it needs.
  abbrev pub AreSound : List (Moment × RoomCall) → World Doc → Type 0
  AreSound [] w = Unit
  AreSound ((m, call) ∷ calls) w =
      IsSound (at_moment m) vault_id file_id call w
      × AreSound calls (perform vault_id file_id (at_moment m) call w)

  perform_all-DurableWorld :
      EncodesAll env.yjs
      → (calls : List (Moment × RoomCall)) (w : World Doc) → AreSound calls w
      → DurableWorld env.yjs vault_id file_id w
      → DurableWorld env.yjs vault_id file_id (perform_all calls w)
  unfolding perform_all
  perform_all-DurableWorld encodes [] w h d = d
  perform_all-DurableWorld encodes ((m, call) ∷ calls) w h d =
      perform_all-DurableWorld encodes calls (perform vault_id file_id (at_moment m) call w) h.1
        (perform-DurableWorld (at_moment m) vault_id file_id encodes call w h.0 d)

  abbrev pub reloaded : World Doc → RuntimeRoom Doc
  reloaded w = record {
    persisted = w.room.persisted;
    doc = w.room.doc;
    participants = [];
    closing_sinks = [];
    state = if w.room.persisted.active then is_active else is_closed;
    closing_timer = none;
  }

  -- A server that loads a room from the store gets what is persisted of the room in memory and its
  -- document, after any calls on it: updates, awareness, sync, heartbeats, `promote`, leaving,
  -- disconnecting, demotion, closing, the timer, the sweep, compaction, and what
  -- `restoreHistoryVersion` does to the room. Before the calls the store has all of the room, and an
  -- encoded document can be read back. Every update, also the one that a restore makes, is one that
  -- Yjs takes; a compaction that is given a number is given that of the last update; and when
  -- `promote` finds a live file and the room not open, the file is under its own ids, the snapshot
  -- that the room may have can be read back, and no updates of the new epoch are stored.
  pub perform_all-load_runtime :
      EncodesAll env.yjs
      → (calls : List (Moment × RoomCall)) (w : World Doc) → AreSound calls w
      → DurableWorld env.yjs vault_id file_id w
      → load_runtime env.yjs (perform_all calls w).room_store vault_id file_id
        ≡ ok (reloaded (perform_all calls w))
  perform_all-load_runtime encodes calls w h d =
      let after = perform_all calls w in
      load_runtime-IsDurable env.yjs vault_id file_id after.room_store after.room.persisted
        after.room.doc (perform_all-DurableWorld encodes calls w h d)
