-- ===== src/Engine/OpProcessor/Commit.antt =====
-- What a commit writes, field by field, and that a commit is remembered.
use obsidian_baritone.Prelude.{
  ℕ, ◌+◌, ◌≡◌, refl, ◌∙◌, ap, false, Option, none, some, [], ◌∷◌, ◌++◌, JsString, Result, ok, sort,
}
use obsidian_baritone.Prelude.Maps.{JsMap, set, get-set_self}
use obsidian_baritone.Unicode.{Platform}
use obsidian_baritone.Protocol.{FileOp}
use obsidian_baritone.Engine.Store.{
  InMemoryDataStore, StoredDevice, StoredOp, OutboxRow, OpApplyResult, ack, get_op_by_id, next_seq,
  file_key, device_seq_key, vault_ops,
}
use obsidian_baritone.Engine.Store.Tx.{
  Thrown, pure, reads, ◌>>=◌, when_some, save_file, save_device, next_vault_seq, append_op,
  append_outbox, earlier,
}
use obsidian_baritone.Engine.Store.Frame.{SameRecords}
use obsidian_baritone.Engine.OpProcessor.Apply.{Outcome}
use obsidian_baritone.Engine.OpProcessor.{result_of, stored_op, commit, process, clocks}
use obsidian_baritone.Engine.OpProcessor.Steps.{Commits, commit-ok}

abbrev pub logged : ℕ → FileOp → Outcome → InMemoryDataStore → StoredOp
logged now op outcome s =
    let seq = next_seq s op.vault_id in stored_op now op seq (result_of op seq outcome)

abbrev pub row_of : FileOp → Outcome → InMemoryDataStore → OutboxRow
row_of op outcome s =
    let seq = next_seq s op.vault_id in
    record {
      vault_id = op.vault_id;
      vault_seq = seq;
      payload = record { vault_seq = seq; op = op; resulting_clocks = clocks outcome.0 };
      published = false;
    }

abbrev devices_after : ℕ → FileOp → Option StoredDevice → InMemoryDataStore → JsMap StoredDevice
devices_after now op none s = s.devices
devices_after now op (some d) s =
    set d.device_id
      (record d {
        last_device_seq = op.device_seq;
        last_seq = next_seq s op.vault_id;
        last_seen = some now;
      })
      s.devices

-- The tables after a commit on `s`.
pub record Written (now : ℕ) (op : FileOp) (device : Option StoredDevice) (outcome : Outcome)
    (s t : InMemoryDataStore) : Type 0 where
  pub devices : t.devices ≡ devices_after now op device s
  pub files : t.files ≡ set (file_key outcome.0.vault_id outcome.0.file_id) outcome.0 s.files
  pub ops_by_id : t.ops_by_id ≡ set op.op_id (logged now op outcome s) s.ops_by_id
  pub ops_by_device_seq :
      t.ops_by_device_seq
      ≡ set
          (device_seq_key op.device_id op.device_seq)
          (logged now op outcome s)
          s.ops_by_device_seq
  pub ops_by_vault :
      t.ops_by_vault
      ≡ set op.vault_id
          (sort earlier (vault_ops s op.vault_id ++ (logged now op outcome s ∷ [])))
          s.ops_by_vault
  pub outbox : t.outbox ≡ s.outbox ++ (row_of op outcome s ∷ [])
  pub seqs : t.seqs ≡ set op.vault_id (next_seq s op.vault_id + 1) s.seqs

module _ (os : Platform) (now : ℕ) (uuid : JsString) where
  pub commit-Written :
      (op : FileOp) (device : Option StoredDevice) (outcome : Outcome) (s : InMemoryDataStore)
      → Written now op device outcome s (commit os now uuid op device outcome s).1
  unfolding commit ◌>>=◌ next_vault_seq save_file append_op append_outbox when_some save_device pure
      vault_ops next_seq
  commit-Written op none outcome s = record {
    devices = refl;
    files = refl;
    ops_by_id = refl;
    ops_by_device_seq = refl;
    ops_by_vault = refl;
    outbox = refl;
    seqs = refl;
  }
  commit-Written op (some d) outcome s = record {
    devices = refl;
    files = refl;
    ops_by_id = refl;
    ops_by_device_seq = refl;
    ops_by_vault = refl;
    outbox = refl;
    seqs = refl;
  }

pub next_seq_same :
    (s t : InMemoryDataStore) (v : JsString) → SameRecords s t → next_seq t v ≡ next_seq s v
unfolding next_seq
next_seq_same s t v same = rw same.seqs refl

pub vault_ops_same :
    (s t : InMemoryDataStore) (v : JsString) → SameRecords s t → vault_ops t v ≡ vault_ops s v
unfolding vault_ops
vault_ops_same s t v same = rw same.ops_by_vault refl

devices_after_same :
    (now : ℕ) (op : FileOp) (device : Option StoredDevice) (s m : InMemoryDataStore)
    → SameRecords s m
    → devices_after now op device m ≡ devices_after now op device s
devices_after_same now op none s m same = same.devices
devices_after_same now op (some d) s m same =
    rw (next_seq_same s m op.vault_id same, same.devices) refl

Written-same :
    (now : ℕ) (op : FileOp) (device : Option StoredDevice) (outcome : Outcome)
    (s m t : InMemoryDataStore)
    → SameRecords s m
    → Written now op device outcome m t
    → Written now op device outcome s t
Written-same now op device outcome s m t same w =
    let n = next_seq_same s m op.vault_id same in
    let l = vault_ops_same s m op.vault_id same in
    record {
      devices = w.devices ∙ devices_after_same now op device s m same;
      files = w.files ∙ ap (set _ _) same.files;
      ops_by_id = rw (n, same.ops_by_id) at w.ops_by_id;
      ops_by_device_seq = rw (n, same.ops_by_device_seq) at w.ops_by_device_seq;
      ops_by_vault = rw (n, l, same.ops_by_vault) at w.ops_by_vault;
      outbox = rw (n, same.outbox) at w.outbox;
      seqs = rw (n, same.seqs) at w.seqs;
    }

module _ (os : Platform) (now : ℕ) (uuid : JsString) where
  -- The tables after a call that commits.
  pub Commits-Written :
      (op : FileOp) (device : Option StoredDevice) (s : InMemoryDataStore)
      (run : Result Thrown OpApplyResult × InMemoryDataStore)
      (c : Commits os now uuid op device s run)
      → Written now op device c.outcome s run.1
  Commits-Written op device s run c =
      Written-same now op device c.outcome s c.mid run.1 c.same
        (rw c.committed (commit-Written os now uuid op device c.outcome c.mid))

  pub Commits-result :
      (op : FileOp) (device : Option StoredDevice) (s : InMemoryDataStore)
      (run : Result Thrown OpApplyResult × InMemoryDataStore)
      (c : Commits os now uuid op device s run)
      → run.0 ≡ ok (ack (result_of op (next_seq s op.vault_id) c.outcome))
  Commits-result op device s run c =
      rw (c.committed, commit-ok os now uuid op device c.outcome c.mid)
        (rw (next_seq_same s c.mid op.vault_id c.same) refl)

  pub Commits-remembered :
      (op : FileOp) (device : Option StoredDevice) (s : InMemoryDataStore)
      (run : Result Thrown OpApplyResult × InMemoryDataStore)
      (c : Commits os now uuid op device s run)
      → get_op_by_id run.1 op.op_id ≡ some (logged now op c.outcome s)
  unfolding get_op_by_id
  Commits-remembered op device s run c =
      rw ((Commits-Written op device s run c).ops_by_id) (get-set_self op.op_id _ s.ops_by_id)

  pub known_again :
      (again : FileOp) (user_id : Option JsString) (t : InMemoryDataStore) (stored : StoredOp)
      → get_op_by_id t again.op_id ≡ some stored
      → process os now uuid again user_id t ≡ (ok stored.result, t)
  unfolding process reads pure ◌>>=◌
  known_again again user_id t stored e = rw (e, process) refl
