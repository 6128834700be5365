-- ===== src/Plugin/Engine/Messages.antt =====
-- apps/plugin/src/sync/engine.ts: how `SyncEngine` applies the operations of the server and answers to
-- its messages.
use obsidian_baritone.Prelude.{
  ℕ, ◌+◌, Bool, true, false, not, ◌&&◌, Option, none, some, List, [], ◌∷◌, ◌++◌, JsString, lit,
  String, if◌then◌else◌, ltb, leb, ◌==◌, sort, Result, ok, err, truthy,
}
use obsidian_baritone.Protocol.{AppliedOp, ErrorCode, room_epoch_stale, is_resolved}
use obsidian_baritone.Protocol.ServerMessage.{ServerMessage}
use obsidian_baritone.Plugin.LocalIndex.{set_applied_seq, add_conflict, remove_conflict}
use obsidian_baritone.Plugin.Engine.{Surroundings, SyncEngine, failed, save}
use obsidian_baritone.Plugin.Engine.Step.{Step, ◌>>=◌, ◌>>◌, pure, asks, changes}
use obsidian_baritone.Plugin.Engine.ApplyOp.{apply_op}
use obsidian_baritone.Plugin.Engine.Queue.{
  request_resync, handle_ack, handle_reject, finish_handshake,
}

abbrev pub earlier : AppliedOp → AppliedOp → Bool
earlier a b = ltb a.vault_seq b.vault_seq

module _ {V : Type 0} (around : Surroundings V) where
  -- `applyOp` and `setAppliedSeq` for one operation
  unfoldable pub apply_next : AppliedOp → Step V (Unit {0})
  apply_next item = do
    apply_op around item.op item.resulting_clocks.content_vv item.resulting_clocks.path_clock
    changes λ e. record e { index = set_applied_seq item.vault_seq e.index }

  -- The loop of `applyOps` over sorted operations, and the `save` after it.
  unfoldable pub apply_sorted : List AppliedOp → Step V Bool
  apply_sorted [] e = (ok true, save e)
  apply_sorted (item ∷ items) e =
      if leb item.vault_seq e.index.device.applied_seq
      then apply_sorted items e
      else if not (item.vault_seq == e.index.device.applied_seq + 1)
      then (ok false, request_resync e)
      else (apply_next item >>= λ _. apply_sorted items) e

  -- `applyOps`
  unfoldable pub apply_ops : List AppliedOp → Step V Bool
  apply_ops ops = apply_sorted (sort earlier ops)

  -- What follows `applyOps` in `handleMessage`.
  unfoldable pub after_ops : Bool → Bool → SyncEngine V → SyncEngine V
  after_ops applied more e =
      if not applied
      then e
      else if more
      then request_resync e
      else if e.awaiting_catchup
      then finish_handshake around.now e
      else e

  abbrev pub greeted : ℕ → SyncEngine V → SyncEngine V
  greeted current_seq e =
      if ltb e.index.device.applied_seq current_seq
      then request_resync (record e { awaiting_catchup = true })
      else finish_handshake around.now e

  -- The handler of `catch`.
  unfoldable pub fail : JsString → SyncEngine V → SyncEngine V
  fail message e = record e { state = failed; errors = e.errors ++ (message ∷ []) }

  abbrev pub caught : Result JsString (Unit {0}) × SyncEngine V → SyncEngine V
  caught (ok _, e) = e
  caught (err message, e) = fail message e

  -- The messages with a text are given as strings of the program; `text_of` and `code_text` turn them
  -- into strings of JavaScript. `stale_file` is the file that the details of an error name.
  module _ (text_of : String → JsString) (code_text : ErrorCode → JsString)
      (stale_file : ServerMessage → Option JsString) where
    abbrev pub is_live_stale : ServerMessage → ErrorCode → Bool
    is_live_stale message room_epoch_stale = elim (stale_file message) [
      | none ↦ false
      | some file_id ↦ truthy (some file_id) && around.has_session file_id
    ]
    is_live_stale message _ = false

    abbrev pub coded : ErrorCode → String → JsString
    coded code message = code_text code ++ lit ": " ++ text_of message

    -- `handleReject`
    unfoldable pub rejected : Option JsString → ErrorCode → String → SyncEngine V → SyncEngine V
    rejected none code message e = e
    rejected (some op_id) code message e =
        if truthy (some op_id)
        then handle_reject around.now op_id code (text_of message) (coded code message) e
        else e

    -- The `switch` of `handleMessage`
    unfoldable pub dispatch : ServerMessage → Step V (Unit {0})
    dispatch (ServerMessage.welcome m) = changes (greeted m.current_seq)
    dispatch (ServerMessage.ops m) =
        apply_ops m.ops >>= λ applied. changes (after_ops applied m.more)
    dispatch (ServerMessage.op_ack m) = changes (handle_ack around.now m)
    dispatch (ServerMessage.reject_message m) = changes (rejected m.op_id m.code m.message)
    dispatch (ServerMessage.conflict_message m) =
        changes λ e. save (record e { index = add_conflict m.conflict.conflict_id e.index })
    dispatch (ServerMessage.conflict_state m) = changes λ e.
        if is_resolved m.status
        then save (record e { index = remove_conflict m.conflict_id e.index })
        else e
    dispatch (ServerMessage.error_message m) =
        if is_live_stale (ServerMessage.error_message m) m.code
        then pure tt
        else asks λ v. err (coded m.code m.message)
    dispatch _ = changes λ e. e

    -- `handleMessage`
    unfoldable pub handle_message : ServerMessage → SyncEngine V → SyncEngine V
    handle_message message e = if around.takes message then e else caught (dispatch message e)
