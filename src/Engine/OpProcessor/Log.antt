-- ===== src/Engine/OpProcessor/Log.antt =====
-- The log of a vault and its outbox: the sequence numbers are 1, 2, 3, … with no gap, in order,
-- one for each accepted operation.
use obsidian_baritone.Prelude.{
  ℕ, ◌+◌, ◌≡◌, refl, sym, ap, inl, inr, Option, List, [], ◌∷◌, ◌++◌, JsString, arith, Bool-cases,
  str_eq, str_eq_iff, if◌then◌else◌, map, sort,
}
use obsidian_baritone.Prelude.Maps.{get, get-set}
use obsidian_baritone.Unicode.{Platform}
use obsidian_baritone.Protocol.{FileOp}
use obsidian_baritone.Engine.Store.{
  InMemoryDataStore, StoredDevice, StoredOp, OutboxRow, empty_store, next_seq, vault_ops,
}
use obsidian_baritone.Engine.Store.Tx.{earlier}
use obsidian_baritone.Engine.Store.Frame.{SameRecords}
use obsidian_baritone.Engine.OpProcessor.Apply.{Outcome}
use obsidian_baritone.Engine.OpProcessor.{process}
use obsidian_baritone.Engine.OpProcessor.Steps.{Step, unchanged, committed, process-Step}
use obsidian_baritone.Engine.OpProcessor.Commit.{
  Written, Commits-Written, logged, next_seq_same, vault_ops_same,
}

-- The numbers `from`, `from + 1`, … in order, up to but not including `to`.
abbrev pub CountsUp : ℕ → ℕ → List ℕ → Type 0
CountsUp from to [] = from ≡ to
CountsUp from to (n ∷ ns) = (n ≡ from) × CountsUp (from + 1) to ns

pub CountsUp-snoc :
    (from to : ℕ) (ns : List ℕ) → CountsUp from to ns → CountsUp from (to + 1) (ns ++ (to ∷ []))
CountsUp-snoc from to [] h = (sym h, omega arith)
CountsUp-snoc from to (n ∷ ns) h = (h.0, CountsUp-snoc (from + 1) to ns h.1)

abbrev pub seqs_of : List StoredOp → List ℕ
seqs_of = map (λ op. op.seq)

-- A log in order is not changed by the sort that `appendOp` makes.
sort_in_order :
    (from to : ℕ) (ops : List StoredOp) → CountsUp from to (seqs_of ops) → sort earlier ops ≡ ops
sort_in_order from to [] h = refl
sort_in_order from to (a ∷ []) h = refl
sort_in_order from to (a ∷ b ∷ ops) h =
    rw (sort_in_order (from + 1) to (b ∷ ops) h.1) (ground arith)

seqs_of-snoc :
    (ops : List StoredOp) (op : StoredOp)
    → seqs_of (ops ++ (op ∷ [])) ≡ seqs_of ops ++ (op.seq ∷ [])
seqs_of-snoc [] op = refl
seqs_of-snoc (a ∷ ops) op = ap (◌∷◌ a.seq) (seqs_of-snoc ops op)

-- The outbox rows of a vault.
abbrev pub rows_of : JsString → List OutboxRow → List ℕ
rows_of vault_id [] = []
rows_of vault_id (row ∷ rows) =
    let rest = rows_of vault_id rows in
    if str_eq row.vault_id vault_id then row.vault_seq ∷ rest else rest

rows_of-snoc :
    (v : JsString) (rows : List OutboxRow) (row : OutboxRow)
    → rows_of v (rows ++ (row ∷ []))
      ≡ (if str_eq row.vault_id v then rows_of v rows ++ (row.vault_seq ∷ []) else rows_of v rows)
rows_of-snoc v [] row = refl
rows_of-snoc v (r ∷ rows) row = ground (arith, rows_of-snoc v rows row)

-- Log and outbox of every vault are numbered from 1 to the current number.
pub record IsNumbered (s : InMemoryDataStore) : Type 0 where
  pub log : (v : JsString) → CountsUp 1 (next_seq s v) (seqs_of (vault_ops s v))
  pub queue : (v : JsString) → CountsUp 1 (next_seq s v) (rows_of v s.outbox)

IsNumbered-same : (s t : InMemoryDataStore) → SameRecords s t → IsNumbered s → IsNumbered t
IsNumbered-same s t same h = record {
  log = λ v. rw (next_seq_same s t v same, vault_ops_same s t v same) (h.log v);
  queue = λ v. rw (next_seq_same s t v same, same.outbox) (h.queue v);
}

module _ {now : ℕ} {op : FileOp} {device : Option StoredDevice} {outcome : Outcome}
    {s t : InMemoryDataStore} where
  next_seq_after :
      Written now op device outcome s t
      → (v : JsString)
      → next_seq t v ≡ (if str_eq op.vault_id v then next_seq s op.vault_id + 1 else next_seq s v)
  unfolding next_seq
  next_seq_after w v =
      rw w.seqs (ground (arith, get-set op.vault_id v (next_seq s op.vault_id + 1) s.seqs))

  pub vault_ops_after :
      IsNumbered s
      → Written now op device outcome s t
      → (v : JsString)
      → vault_ops t v ≡ (
          if str_eq op.vault_id v
          then vault_ops s op.vault_id ++ (logged now op outcome s ∷ [])
          else vault_ops s v)
  unfolding vault_ops
  vault_ops_after h w v =
      let ops = vault_ops s op.vault_id in
      let entry = logged now op outcome s in
      let n = next_seq s op.vault_id in
      let sorted =
        sort_in_order 1 (n + 1) (ops ++ (entry ∷ []))
          (rw seqs_of-snoc (CountsUp-snoc 1 n (seqs_of ops) (h.log op.vault_id))) in
      rw (w.ops_by_vault, sorted)
        (ground (arith, get-set op.vault_id v (ops ++ (entry ∷ [])) s.ops_by_vault))

  log_after :
      Written now op device outcome s t
      → IsNumbered s
      → (v : JsString) → CountsUp 1 (next_seq t v) (seqs_of (vault_ops t v))
  log_after w h v = elim (Bool-cases (str_eq op.vault_id v)) [
    | inl e ↦
        rw (next_seq_after w v, vault_ops_after h w v, e, seqs_of-snoc)
          (CountsUp-snoc 1 _ _ (h.log op.vault_id))
    | inr e ↦ rw (next_seq_after w v, vault_ops_after h w v, e) (h.log v)
  ]

  queue_after :
      Written now op device outcome s t
      → IsNumbered s
      → (v : JsString) → CountsUp 1 (next_seq t v) (rows_of v t.outbox)
  queue_after w h v = elim (Bool-cases (str_eq op.vault_id v)) [
    | inl e ↦
        let same : op.vault_id ≡ v = (str_eq_iff op.vault_id v).0 e in
        rw (next_seq_after w v, w.outbox, rows_of-snoc, e)
          (CountsUp-snoc 1 _ _ (rw same (h.queue v)))
    | inr e ↦ rw (next_seq_after w v, w.outbox, rows_of-snoc, e) (h.queue v)
  ]

  IsNumbered-Written : Written now op device outcome s t → IsNumbered s → IsNumbered t
  IsNumbered-Written w h = record { log = log_after w h; queue = queue_after w h }

-- Processing any operation keeps the log and the outbox of every vault numbered 1, 2, 3, … up to
-- the current sequence number, with no gap and no number used twice.
pub process-IsNumbered :
    (os : Platform) (now : ℕ) (uuid : JsString) (op : FileOp) (user_id : Option JsString)
    (s : InMemoryDataStore)
    → IsNumbered s
    → IsNumbered (process os now uuid op user_id s).1
process-IsNumbered os now uuid op user_id s h = after (process-Step os now uuid op user_id s)
  where
    after :
        Step os now uuid op user_id s (process os now uuid op user_id s)
        → IsNumbered (process os now uuid op user_id s).1
    after (unchanged same) = IsNumbered-same s _ same h
    after (committed device fresh admitted c) =
        IsNumbered-Written (Commits-Written os now uuid op device s _ c) h

pub IsNumbered-empty : IsNumbered empty_store
unfolding next_seq vault_ops get
IsNumbered-empty = record { log = λ v. refl; queue = λ v. refl }
