-- ===== src/Engine/OpProcessor.antt =====
-- packages/server/src/engine/op-processor.ts: admission of an operation by device, role and
-- sequence number, and the commit of what it does. What it does to its file is in
-- `OpProcessor/Apply`, the validation of its payload in `OpProcessor/Payload`.
pub mod Payload
pub mod Apply
pub mod Frame
pub mod Steps
pub mod Commit
pub mod Retry
pub mod Log
pub mod Devices
pub mod CatchUp
pub mod Names
pub mod Tests
use obsidian_baritone.Prelude.{
  ℕ, suc, ◌+◌, Bool, true, false, not, ◌&&◌, ◌||◌, Option, none, some, List, [], ◌∷◌, ◌++◌,
  JsString, lit, ltb, leb, if◌then◌else◌, str_eq, truthy, nonempty, Result, ok, err, String,
}
use obsidian_baritone.Unicode.{Platform}
use obsidian_baritone.Protocol.{
  FileOp, OpKind, AppliedOp, ResultingClocks, ErrorCode, unauthenticated, device_revoked, forbidden,
  stale, seq_gap, file_active, conflict_pending, Details, expected, hint,
}
use obsidian_baritone.Engine.Store.{
  InMemoryDataStore, Role, owner, editor, viewer, StoredDevice, StoredFile, StoredOp, OpAckResult,
  OpApplyResult, ack, reject, get_op_by_id, get_op_by_device_seq, get_device, get_role, get_file,
}
use obsidian_baritone.Engine.Store.Tx.{
  Thrown, sync_error, path_error, sync, throw_if, Tx, pure, reads, ◌>>=◌, ◌>>◌, when_some,
  save_file, save_device, next_vault_seq, append_op, append_outbox,
}
use obsidian_baritone.Engine.OpProcessor.Apply.{Outcome, apply_kind}
use obsidian_baritone.Engine.OpProcessor.Payload.{is_content_kind, validate_payload}

-- `reject`
unfoldable pub reject_with : JsString → ErrorCode → String → Option Details → OpApplyResult
reject_with op_id code message details =
    reject (record { op_id = op_id; code = code; message = message; details = details })

-- `op.deviceId === \`collab:${op.fileId}\``
unfoldable pub is_synthetic : FileOp → Bool
is_synthetic op = str_eq op.device_id (lit "collab:" ++ op.file_id)

-- What the handler of the `try` statement makes of an exception.
abbrev caught : FileOp → Result Thrown OpApplyResult → Result Thrown OpApplyResult
caught op (ok r) = ok r
caught op (err (sync_error e)) = ok (reject_with op.op_id e.code e.message e.details)
caught op (err (path_error e)) = err (path_error e)

-- `prior?.result ?? reject(…)`
abbrev prior_result : FileOp → ℕ → Option StoredOp → OpApplyResult
prior_result op next none =
    reject_with op.op_id stale "Device sequence already processed" (some (expected next))
prior_result op next (some prior) = prior.result

abbrev pub is_writer : Option Role → Bool
is_writer (some owner) = true
is_writer (some editor) = true
is_writer _ = false

-- The role test; it is left out when no user is given.
unfoldable pub has_write_role : InMemoryDataStore → JsString → Option JsString → Bool
has_write_role s vault_id none = true
has_write_role s vault_id (some user_id) =
    if nonempty user_id then is_writer (get_role s vault_id user_id) else true

-- `activeUntil > new Date()`
abbrev is_after : Option ℕ → ℕ → Bool
is_after none now = false
is_after (some until) now = ltb now until

-- `clocks`
unfoldable pub clocks : StoredFile → ResultingClocks
clocks file = record {
  content_vv = some file.content_vv;
  path_clock = some file.path_clock;
  delete_vv = file.delete_vv;
  epoch = file.epoch;
}

-- The two tests of `process` on a file that is in use elsewhere.
unfoldable pub check_frozen : ℕ → FileOp → Option StoredFile → Tx (Unit {0})
check_frozen now op none = pure tt
check_frozen now op (some file) = do
  throw_if (not (is_synthetic op) && is_after file.active_until now && is_content_kind op.kind) (
      sync_error (record {
        code = file_active;
        message = "File is active in Layer 2";
        details = some (hint "promote");
      }))
  throw_if (truthy file.conflict_id && is_content_kind op.kind)
      (sync conflict_pending "Content operations are frozen until conflict resolution")

abbrev result_of : FileOp → ℕ → Outcome → OpAckResult
result_of op seq (file, conflict_id) = record {
  op_id = op.op_id;
  vault_seq = seq;
  resulting_clocks = clocks file;
  conflict_id = if truthy conflict_id then conflict_id else none;
}

abbrev stored_op : ℕ → FileOp → ℕ → OpAckResult → StoredOp
stored_op now op seq result = record {
  vault_id = op.vault_id;
  seq = seq;
  op_id = op.op_id;
  device_id = op.device_id;
  device_seq = op.device_seq;
  file_id = op.file_id;
  kind = op.kind;
  payload = op;
  result = ack result;
  created_at = now;
}

module _ (os : Platform) (now : ℕ) (uuid : JsString) where
  -- From `nextVaultSeq` to the end of the `try` block.
  unfoldable pub commit : FileOp → Option StoredDevice → Outcome → Tx OpApplyResult
  commit op device outcome = do
    seq ← next_vault_seq op.vault_id
    let result = result_of op seq outcome
    save_file outcome.0
    append_op (stored_op now op seq result)
    append_outbox op.vault_id seq
        (record { vault_seq = seq; op = op; resulting_clocks = result.resulting_clocks })
    when_some device λ d.
        save_device
          (record d { last_device_seq = op.device_seq; last_seq = seq; last_seen = some now })
    pure (ack result)

  -- The `try` block up to the result's file and conflict.
  unfoldable pub prepare : FileOp → Tx Outcome
  prepare op = do
    validate_payload os op
    file ← reads (λ s. get_file s op.vault_id op.file_id)
    check_frozen now op file
    apply_kind os now uuid op op.kind file

  -- The `try` block.
  unfoldable pub attempt : FileOp → Option StoredDevice → Tx OpApplyResult
  attempt op device = do outcome ← prepare op; commit op device outcome

  -- The `try` statement: a `SyncError` becomes a rejection, any other exception goes on.
  unfoldable pub try_apply : FileOp → Option StoredDevice → Tx OpApplyResult
  try_apply op device s = let (r, s') = attempt op device s in (caught op r, s')

  unfoldable pub check_sequence : FileOp → StoredDevice → Tx OpApplyResult
  check_sequence op device =
      let next = device.last_device_seq + 1 in
      if ltb op.device_seq next
      then (do
        prior ← reads (λ s. get_op_by_device_seq s op.device_id op.device_seq)
        pure (prior_result op next prior))
      else if ltb next op.device_seq
      then pure (reject_with op.op_id seq_gap "Device sequence gap" (some (expected next)))
      else try_apply op (some device)

  -- The tests on the device and the role.
  unfoldable pub admit : FileOp → Option JsString → Option StoredDevice → Tx OpApplyResult
  admit op user_id none =
      pure (reject_with op.op_id unauthenticated "Unknown device for vault" none)
  admit op user_id (some device) =
      if not (str_eq device.vault_id op.vault_id)
      then pure (reject_with op.op_id unauthenticated "Unknown device for vault" none)
      else if device.revoked
      then pure (reject_with op.op_id device_revoked "Device is revoked" none)
      else do
        may_write ← reads (λ s. has_write_role s op.vault_id user_id)
        if not may_write
            then pure (reject_with op.op_id forbidden "Write permission required" none)
            else check_sequence op device

  unfoldable pub process_new : FileOp → Option JsString → Tx OpApplyResult
  process_new op user_id =
      if is_synthetic op
      then try_apply op none
      else do device ← reads (λ s. get_device s op.device_id); admit op user_id device

  -- `OpProcessor.process`
  unfoldable pub process : FileOp → Option JsString → Tx OpApplyResult
  process op user_id = do
    existing ← reads (λ s. get_op_by_id s op.op_id)
    elim existing [ some stored ↦ pure stored.result | none ↦ process_new op user_id ]

-- Opens the file's functions, for tests that run them.
unfoldable pub code : Unit {0}
unfolding reject_with is_synthetic has_write_role clocks check_frozen commit prepare attempt
    try_apply check_sequence admit process_new process
code = tt
