-- ===== src/Engine/OpProcessor/Retry.antt =====
-- packages/server/src/engine/op-processor.ts: the result of an operation is remembered, whatever other
-- operations are processed in between.
use obsidian_baritone.Prelude.{
  ℕ, ◌≡◌, sym, ◌∙◌, ap, Option, none, some, List, [], ◌∷◌, JsString, Result, str_eq, str_eq_iff,
  Bool-cases, inl, inr,
}
use mathlib.Core.Path.{subst}
use mathlib.Core.Option.{none-ne-some}
use obsidian_baritone.Prelude.Maps.{get, get-set}
use obsidian_baritone.Unicode.{Platform}
use obsidian_baritone.Protocol.{FileOp}
use obsidian_baritone.Engine.Store.{InMemoryDataStore, StoredOp, get_op_by_id, OpApplyResult}
use obsidian_baritone.Engine.Store.Tx.{Thrown}
use obsidian_baritone.Engine.Store.Frame.{SameRecords}
use obsidian_baritone.Engine.OpProcessor.{process}
use obsidian_baritone.Engine.OpProcessor.Steps.{Step, unchanged, committed, process-Step}
use obsidian_baritone.Engine.OpProcessor.Commit.{
  logged, Commits-Written, Commits-result, Commits-remembered, known_again,
}

-- A call of `process`: its time, the random id, the operation and the user.
pub record Call : Type 0 where
  pub now : ℕ
  pub uuid : JsString
  pub op : FileOp
  pub user_id : Option JsString

module _ (os : Platform) where
  abbrev pub run_call : Call → InMemoryDataStore → Result Thrown OpApplyResult × InMemoryDataStore
  run_call c s = process os c.now c.uuid c.op c.user_id s

  -- The store after calls, one after the other.
  abbrev pub process_all : List Call → InMemoryDataStore → InMemoryDataStore
  process_all [] s = s
  process_all (c ∷ calls) s = process_all calls (run_call c s).1

  -- An operation that is in the log by its id stays there.
  process-remembers :
      (c : Call) (s : InMemoryDataStore) (id : JsString) (stored : StoredOp)
      → get_op_by_id s id ≡ some stored
      → get_op_by_id (run_call c s).1 id ≡ some stored
  unfolding get_op_by_id
  process-remembers c s id stored e = after (process-Step os c.now c.uuid c.op c.user_id s)
    where
      after :
          Step os c.now c.uuid c.op c.user_id s (run_call c s)
          → get id (run_call c s).1.ops_by_id ≡ some stored
      after (unchanged same) = rw same.ops_by_id e
      after (committed device fresh admitted w) = elim (Bool-cases (str_eq c.op.op_id id)) [
        | inl t ↦
            let same : c.op.op_id ≡ id = (str_eq_iff c.op.op_id id).0 t in
            let missing = subst (λ k. get k s.ops_by_id ≡ none) same fresh in
            absurd (none-ne-some stored (sym missing ∙ e))
        | inr t ↦
            rw ((Commits-Written os c.now c.uuid c.op device s (run_call c s) w).ops_by_id)
              (get-set c.op.op_id id _ s.ops_by_id ∙ rw t e)
      ]

  process_all-remembers :
      (calls : List Call) (s : InMemoryDataStore) (id : JsString) (stored : StoredOp)
      → get_op_by_id s id ≡ some stored
      → get_op_by_id (process_all calls s) id ≡ some stored
  process_all-remembers [] s id stored e = e
  process_all-remembers (c ∷ calls) s id stored e =
      process_all-remembers calls (run_call c s).1 id stored (process-remembers c s id stored e)

  -- A call that changed files, log, counters or devices is remembered: an operation with the same id
  -- that is processed after any other operations, at any time, from any user and whatever else it
  -- holds, gets the same result and changes nothing.
  pub process-retry :
      (first again : Call) (between : List Call) (s : InMemoryDataStore)
      → again.op.op_id ≡ first.op.op_id
      → ¬ SameRecords s (run_call first s).1
      → run_call again (process_all between (run_call first s).1)
        ≡ ((run_call first s).0, process_all between (run_call first s).1)
  process-retry first again between s same_id changed =
      retry_of (process-Step os first.now first.uuid first.op first.user_id s)
    where
      later : InMemoryDataStore
      later = process_all between (run_call first s).1

      retry_of :
          Step os first.now first.uuid first.op first.user_id s (run_call first s)
          → run_call again later ≡ ((run_call first s).0, later)
      retry_of (unchanged same) = absurd (changed same)
      retry_of (committed device fresh admitted w) =
          let found =
            Commits-remembered os first.now first.uuid first.op device s (run_call first s) w in
          let kept = process_all-remembers between (run_call first s).1 first.op.op_id _ found in
          let stored = logged first.now first.op w.outcome s in
          known_again os again.now again.uuid again.op again.user_id later stored
            (subst (λ k. get_op_by_id later k ≡ some stored) (sym same_id) kept)
          ∙ ap (λ r. (r, later))
              (sym (Commits-result os first.now first.uuid first.op device s (run_call first s) w))
