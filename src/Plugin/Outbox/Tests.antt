-- ===== src/Plugin/Outbox/Tests.antt =====
-- Tests of the outbox: an op enqueued, and what a call leaves.
use obsidian_baritone.Prelude.{none, some, [], lit}
use obsidian_baritone.Protocol.{FileType, OpKind}
use obsidian_baritone.Plugin.Outbox.{OutboxManager, FileOpDraft, new_outbox}
use obsidian_baritone.Plugin.Outbox.WellFormed.{IsWellFormed}
use obsidian_baritone.Plugin.Outbox.Calls.{
  enqueued, discarded_unsent, call, call-IsWellFormed, empty_outbox-IsWellFormed,
}

abbrev draft : FileOpDraft
draft = record {
  op_id = some (lit "op1");
  file_id = lit "f1";
  vault_id = lit "v1";
  kind = OpKind.delete;
  type = FileType.note;
  base_content_vv = none;
  new_content_vv = none;
  content_hash = none;
  size = none;
  content_encoding = none;
  inline_text = none;
  blob_ref = none;
  new_path = none;
  path_clock = none;
  delete_clock = none;
}

abbrev start : OutboxManager
start = new_outbox (lit "d1") 1 []

call-IsWellFormed_example :
    IsWellFormed (call discarded_unsent (call (enqueued 5 (lit "u1") draft) start))
call-IsWellFormed_example =
    call-IsWellFormed discarded_unsent (call (enqueued 5 (lit "u1") draft) start) (
      call-IsWellFormed (enqueued 5 (lit "u1") draft) start
        (empty_outbox-IsWellFormed (lit "d1") 1))
