-- ===== src/Plugin/Engine/Forced.antt =====
-- apps/plugin/src/sync/engine.ts: forced operations. A forced operation is two calls here: its sending,
-- and its settlement when the server has answered or the time is over.
use obsidian_baritone.Prelude.{
  ℕ, Bool, true, false, not, ◌&&◌, Option, none, some, [], ◌∷◌, JsString, lit, if◌then◌else◌,
  ◌otherwise◌, or_else, truthy,
}
use obsidian_baritone.Clock.VersionVector.{empty_vv}
use obsidian_baritone.Protocol.{FileOp, OpKind}
use obsidian_baritone.Plugin.Outbox
use obsidian_baritone.Plugin.Outbox.{
  OutboxManager, OutboxEntry, FileOpDraft, is_inflight, is_queued, retryable, mark_inflight,
}
use obsidian_baritone.Plugin.LocalIndex.{FileIndexEntry, by_file_id, mark_deleted, upsert_file}
use obsidian_baritone.Plugin.Engine.{
  Surroundings, SyncEngine, ForcePushOpResult, persist_outbox, is_write_ready,
}
use obsidian_baritone.Plugin.Engine.Queue.{send_op}

abbrev is_delete : OpKind → Bool
is_delete OpKind.delete = true
is_delete _ = false

-- The path and the hash of a forced operation, where it has both.
abbrev forced_target : FileOp → Option FileIndexEntry → Option (JsString × JsString)
forced_target op entry =
    let path = or_else op.new_path (elim entry [ none ↦ none | some known ↦ some known.path ]) in
    if truthy path && truthy op.content_hash
    then some (path otherwise [], op.content_hash otherwise [])
    else none

abbrev forced_entry : ℕ → FileOp → JsString → JsString → Option FileIndexEntry → FileIndexEntry
forced_entry now op path hash entry = record {
  file_id = op.file_id;
  path = path;
  path_normalized = path;
  type = op.type;
  content_hash = some hash;
  size = op.size otherwise 0;
  applied_content_vv = op.new_content_vv otherwise empty_vv;
  path_clock = elim entry [ none ↦ none | some known ↦ known.path_clock ];
  is_dir = false;
  mtime = now;
  deleted = false;
}

-- `rollbackLast`, or else `reject` for good.
abbrev rolled_back : ℕ → FileOp → ForcePushOpResult → OutboxManager → OutboxManager
rolled_back now op result outbox =
    let (done, outbox') = Outbox.rollback_last op.op_id outbox in
    if done
    then outbox'
    else Outbox.reject now op.op_id (result.message otherwise lit "rejected") true outbox

module _ {V : Type 0} (around : Surroundings V) where
  -- `applyForcedToIndex`
  unfoldable pub apply_forced_to_index : FileOp → SyncEngine V → SyncEngine V
  apply_forced_to_index op e =
      let entry = by_file_id op.file_id e.index in
      if is_delete op.kind
      then record e { index = mark_deleted op.file_id e.index }
      else elim (forced_target op entry) [
        | none ↦ e
        | some (path, hash) ↦ record e {
          index = upsert_file around.os (forced_entry around.now op path hash entry) none e.index;
        }
      ]

  -- The first part of `pushForced`: whether it was sent.
  unfoldable pub push_forced :
      JsString → FileOpDraft → SyncEngine V → (Bool × FileOp) × SyncEngine V
  push_forced uuid draft e =
      let (op, outbox) = Outbox.enqueue around.now uuid draft e.outbox in
      let queued = persist_outbox (record e { outbox = outbox }) in
      if not (is_write_ready queued) then ((false, op), queued) else (
        (true, op),
        send_op op (record queued {
          waiters = op.op_id ∷ queued.waiters;
          outbox = mark_inflight around.now op.op_id queued.outbox;
        }),
      )

  -- The last part of `pushForced`, for the result.
  unfoldable pub settle_forced : FileOp → ForcePushOpResult → SyncEngine V → SyncEngine V
  settle_forced op result e = persist_outbox (
      if result.is_ok
      then apply_forced_to_index op e
      else if not result.consumed
      then record e { outbox = rolled_back around.now op result e.outbox }
      else e)
