-- ===== src/Engine/OpProcessor/Tests.antt =====
-- Tests of `process`: an operation of the collaboration room creates a file in an empty store.
use mathlib.Core.Path.{subst}
use mathlib.Core.Option.{some_inj, none-ne-some}
use obsidian_baritone.Prelude.{
  ok, [], ◌∷◌, ◌++◌, map, Bool-cases, inl, inr, str_eq_iff, false, ◌≡◌, refl, sym, ◌∙◌, ap, ◌+◌,
  min, max, none, some, Result, lit, str_eq, arith, ◌otherwise◌,
}
use obsidian_baritone.Unicode.Samples.{plain_platform}
use obsidian_baritone.Prelude.Maps.{get, set}
use obsidian_baritone.Clock.Lamport.{path_clock_wins}
use obsidian_baritone.Unicode.{code as text_code}
use obsidian_baritone.Path.{code as path_code}
use obsidian_baritone.Path.Parts.{code as parts_code}
use obsidian_baritone.Protocol.{FileOp, FileType, OpKind}
use obsidian_baritone.Engine.Store.{
  InMemoryDataStore, StoredDevice, get_device, vault_ops, OpApplyResult, empty_store, next_seq,
  list_ops, code as store_code,
}
use obsidian_baritone.Engine.Store.Tx.{Thrown, code as tx_code}
use obsidian_baritone.Engine.Store.Frame.{SameRecords}
use obsidian_baritone.Engine.OpProcessor.Payload.{code as payload_code}
use obsidian_baritone.Engine.OpProcessor.Apply.{unique_path, code as apply_code}
use obsidian_baritone.Engine.OpProcessor.{is_synthetic, process, code}
use obsidian_baritone.Engine.OpProcessor.Steps.{Step, process-Step}
use obsidian_baritone.Engine.OpProcessor.Retry.{Call, run_call, process_all, process-retry}
use obsidian_baritone.Engine.OpProcessor.Log.{
  CountsUp, IsNumbered, process-IsNumbered, IsNumbered-empty,
}
use obsidian_baritone.Engine.OpProcessor.Names.{Allocation, unique_path-Allocation}
use obsidian_baritone.Engine.OpProcessor.Devices.{InSequence, IsSequenced, process-IsSequenced}
use obsidian_baritone.Engine.OpProcessor.CatchUp.{numbers_of, list_ops-CountsUp}

abbrev creation : FileOp
creation = record {
  op_id = lit "o1";
  device_id = lit "collab:f1";
  device_seq = 1;
  file_id = lit "f1";
  vault_id = lit "v1";
  kind = OpKind.create;
  type = FileType.note;
  base_content_vv = none;
  new_content_vv = none;
  content_hash = none;
  size = none;
  content_encoding = none;
  inline_text = none;
  blob_ref = none;
  new_path = some (lit "a");
  path_clock = some (record { lamport = 1; device_id = lit "d1" });
  delete_clock = none;
  schema_version = none;
}

abbrev run : Result Thrown OpApplyResult × InMemoryDataStore
run = process plain_platform 5 (lit "u1") creation none empty_store

counted : next_seq run.1 (lit "v1") ≡ 2
unfolding code store_code tx_code payload_code apply_code path_code parts_code text_code get set
    str_eq path_clock_wins
counted = refl

process-IsNumbered_example : IsNumbered run.1
process-IsNumbered_example =
    process-IsNumbered plain_platform 5 (lit "u1") creation none empty_store IsNumbered-empty

run-IsNumbered : IsNumbered run.1
run-IsNumbered =
    process-IsNumbered plain_platform 5 (lit "u1") creation none empty_store IsNumbered-empty

list_ops-CountsUp_example :
    CountsUp
      (0 + 1)
      (min (max (next_seq run.1 (lit "v1")) (0 + 1)) (0 + 1 + 10))
      (numbers_of (list_ops run.1 (lit "v1") 0 10))
list_ops-CountsUp_example = list_ops-CountsUp run.1 (lit "v1") 0 10 run-IsNumbered

seqs_same : SameRecords empty_store run.1 → next_seq run.1 (lit "v1") ≡ 1
unfolding next_seq get
seqs_same same = ap (λ m. get (lit "v1") m otherwise 1) same.seqs

changed : ¬ SameRecords empty_store run.1
changed same = absurd (omega (arith, sym counted ∙ seqs_same same))

-- The same operation twice, and one for another file in between.
abbrev first_call : Call
first_call = record { now = 5; uuid = lit "u1"; op = creation; user_id = none }

abbrev other_call : Call
other_call = record {
  now = 7;
  uuid = lit "u2";
  op = record creation { op_id = lit "o2"; file_id = lit "f2"; device_id = lit "collab:f2" };
  user_id = none;
}

abbrev again_call : Call
again_call = record { now = 9; uuid = lit "u3"; op = creation; user_id = some (lit "alice") }

counted_other : next_seq (process_all plain_platform (other_call ∷ []) run.1) (lit "v1") ≡ 3
unfolding code store_code tx_code payload_code apply_code path_code parts_code text_code get set
    str_eq path_clock_wins
counted_other = refl

process-retry_example :
    run_call plain_platform again_call (process_all plain_platform (other_call ∷ []) run.1)
    ≡ (run.0, process_all plain_platform (other_call ∷ []) run.1)
process-retry_example =
    process-retry plain_platform first_call again_call (other_call ∷ []) empty_store refl changed

process-Step_example : Step plain_platform 5 (lit "u1") creation none empty_store run
process-Step_example = process-Step plain_platform 5 (lit "u1") creation none empty_store

abbrev laptop : StoredDevice
laptop = record {
  device_id = lit "d1";
  user_id = lit "u1";
  vault_id = lit "v1";
  last_device_seq = 0;
  last_seq = 0;
  revoked = false;
  last_seen = none;
}

abbrev registered : InMemoryDataStore
registered = record empty_store { devices = (lit "d1", laptop) ∷ [] }

-- The first operation of the device.
abbrev first : FileOp
first = record creation { device_id = lit "d1" }

registered-IsNumbered : IsNumbered registered
unfolding next_seq vault_ops get
registered-IsNumbered = record { log = λ v. refl; queue = λ v. refl }

starts_with_d : (op : FileOp) → op.device_id ≡ lit "d1" → is_synthetic op ≡ false
unfolding is_synthetic str_eq
starts_with_d op e = ap (λ id. str_eq id (lit "collab:" ++ op.file_id)) e

laptop-InSequence : InSequence registered (lit "d1") laptop
unfolding vault_ops get
laptop-InSequence = record { own_id = refl; is_real = starts_with_d; numbers = refl }

registered-IsSequenced : IsSequenced registered
unfolding get_device get
registered-IsSequenced id d e = elim (Bool-cases (str_eq (lit "d1") id)) [
  | inl own ↦
      subst (λ k. InSequence registered k d) ((str_eq_iff (lit "d1") id).0 own)
        (subst (InSequence registered (lit "d1")) (some_inj.0 (rw own at e)) laptop-InSequence)
  | inr other ↦ absurd (none-ne-some d (rw other at e))
]

counts_first :
    map
      (λ e. e.1.last_device_seq)
      (process plain_platform 5 (lit "u1") first none registered).1.devices
    ≡ 1 ∷ []
unfolding code store_code tx_code payload_code apply_code path_code parts_code text_code get set
    str_eq path_clock_wins
counts_first = refl

process-IsSequenced_example :
    IsSequenced (process plain_platform 5 (lit "u1") first none registered).1
process-IsSequenced_example =
    process-IsSequenced plain_platform 5 (lit "u1") first none registered registered-IsNumbered
      registered-IsSequenced

-- A second file that wants the path of the first gets the next name.
numbers_second :
    (unique_path plain_platform (lit "v1") (lit "a") (lit "f2") run.1).0 ≡ ok (lit "a (2)")
unfolding code store_code tx_code payload_code apply_code path_code parts_code text_code get set
    str_eq path_clock_wins
numbers_second = refl

unique_path-Allocation_example :
    Allocation plain_platform run.1
      (lit "v1")
      (lit "a")
      (lit "f2")
      (unique_path plain_platform (lit "v1") (lit "a") (lit "f2") run.1)
unique_path-Allocation_example =
    unique_path-Allocation plain_platform run.1 (lit "v1") (lit "a") (lit "f2")
