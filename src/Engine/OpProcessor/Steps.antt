-- ===== src/Engine/OpProcessor/Steps.antt =====
-- Every call of `process` either changes no file, log, counter or device, or commits one
-- operation that was admitted.
use obsidian_baritone.Prelude.{
  ℕ, ◌+◌, ◌≡◌, refl, ◌⊎◌, inl, inr, true, false, Option, none, some, JsString, arith, ltb, str_eq,
  str_eq_iff, Option-cases, Bool-cases, Result, ok, err, Result-cases,
}
use obsidian_baritone.Unicode.{Platform}
use obsidian_baritone.Protocol.{FileOp}
use obsidian_baritone.Engine.Store.{
  InMemoryDataStore, StoredDevice, OpApplyResult, ack, get_device, get_op_by_id, next_seq,
}
use obsidian_baritone.Engine.Store.Tx.{
  Thrown, pure, reads, ◌>>=◌, >>=-ok, >>=-err, run_of, when_some, save_file, save_device,
  next_vault_seq, append_op, append_outbox,
}
use obsidian_baritone.Engine.Store.Frame.{SameRecords, SameRecords-refl}
use obsidian_baritone.Engine.OpProcessor.Apply.{Outcome}
use obsidian_baritone.Engine.OpProcessor.Frame.{Frame-prepare}
use obsidian_baritone.Engine.OpProcessor.{
  is_synthetic, has_write_role, result_of, commit, prepare, attempt, try_apply, check_sequence,
  admit, process_new, process, caught,
}

module _ (os : Platform) (now : ℕ) (uuid : JsString) where
  -- The device, if the operation comes from one: it belongs to the vault, is not revoked, its
  -- user may write, and the operation is the next one of its sequence.
  pub data Admitted (op : FileOp) (user_id : Option JsString) (s : InMemoryDataStore)
      (device : Option StoredDevice) : Type 0 where
    from_room : device ≡ none → is_synthetic op ≡ true → Admitted op user_id s device
    from_device :
        (d : StoredDevice)
        → device ≡ some d
        → get_device s op.device_id ≡ some d
        → d.vault_id ≡ op.vault_id
        → d.revoked ≡ false
        → has_write_role s op.vault_id user_id ≡ true
        → op.device_seq ≡ d.last_device_seq + 1
        → Admitted op user_id s device

  -- A call that commits: what it was admitted by, what was prepared, and the commit.
  pub record Commits (op : FileOp) (device : Option StoredDevice) (s : InMemoryDataStore)
      (run : Result Thrown OpApplyResult × InMemoryDataStore) : Type 0 where
    pub outcome : Outcome
    pub mid : InMemoryDataStore
    pub prepared : prepare os now uuid op s ≡ (ok outcome, mid)
    pub same : SameRecords s mid
    pub committed : run ≡ commit os now uuid op device outcome mid

  pub commit-ok :
      (op : FileOp) (device : Option StoredDevice) (outcome : Outcome) (s : InMemoryDataStore)
      → (commit os now uuid op device outcome s).0
        ≡ ok (ack (result_of op (next_seq s op.vault_id) outcome))
  unfolding commit ◌>>=◌ next_vault_seq save_file append_op append_outbox when_some save_device pure
  commit-ok op none outcome s = refl
  commit-ok op (some d) outcome s = refl

  caught_ok :
      (op : FileOp) (r : Result Thrown OpApplyResult) (a : OpApplyResult)
      → r ≡ ok a
      → caught op r ≡ r
  caught_ok op r a e = rw e refl

  try_apply-ok :
      (op : FileOp) (device : Option StoredDevice) (s mid : InMemoryDataStore) (outcome : Outcome)
      → prepare os now uuid op s ≡ (ok outcome, mid)
      → try_apply os now uuid op device s ≡ commit os now uuid op device outcome mid
  unfolding try_apply attempt
  try_apply-ok op device s mid outcome e =
      rw (>>=-ok (prepare os now uuid op) (commit os now uuid op device) s mid outcome e) (λ i. (
        caught_ok op _ _ (commit-ok op device outcome mid) i,
        (commit os now uuid op device outcome mid).1,
      ))

  try_apply-err :
      (op : FileOp) (device : Option StoredDevice) (s mid : InMemoryDataStore) (x : Thrown)
      → prepare os now uuid op s ≡ (err x, mid)
      → (try_apply os now uuid op device s).1 ≡ mid
  unfolding try_apply attempt
  try_apply-err op device s mid x e =
      rw (>>=-err (prepare os now uuid op) (commit os now uuid op device) s mid x e) refl

  try_apply-cases :
      (op : FileOp) (device : Option StoredDevice) (s : InMemoryDataStore)
      → SameRecords s (try_apply os now uuid op device s).1
        ⊎ Commits op device s (try_apply os now uuid op device s)
  try_apply-cases op device s =
      let same = (Frame-prepare os now uuid op).at s in
      elim (Result-cases (prepare os now uuid op s).0) [
        | inr (e, failed) ↦ inl (rw (try_apply-err op device s _ e (run_of _ _ failed)) same)
        | inl (outcome, done) ↦ inr (record {
          outcome = outcome;
          mid = (prepare os now uuid op s).1;
          prepared = run_of _ _ done;
          same = same;
          committed = try_apply-ok op device s _ outcome (run_of _ _ done);
        })
      ]

  -- What a call of `process` does to the store.
  pub data Step (op : FileOp) (user_id : Option JsString) (s : InMemoryDataStore)
      (run : Result Thrown OpApplyResult × InMemoryDataStore) : Type 0 where
    unchanged : SameRecords s run.1 → Step op user_id s run
    committed :
        (device : Option StoredDevice)
        → get_op_by_id s op.op_id ≡ none
        → Admitted op user_id s device
        → Commits op device s run
        → Step op user_id s run

  stays :
      (op : FileOp) (user_id : Option JsString) (s : InMemoryDataStore) (r : OpApplyResult)
      → Step op user_id s (pure r s)
  unfolding pure
  stays op user_id s r = unchanged (SameRecords-refl s)

  module _ (op : FileOp) (user_id : Option JsString) (s : InMemoryDataStore)
      (fresh : get_op_by_id s op.op_id ≡ none) where
    try_apply-Step :
        (device : Option StoredDevice)
        → Admitted op user_id s device
        → Step op user_id s (try_apply os now uuid op device s)
    try_apply-Step device admitted = elim (try_apply-cases op device s) [
      | inl same ↦ unchanged same
      | inr run ↦ committed device fresh admitted run
    ]

    check_sequence-Step :
        (d : StoredDevice)
        → (op.device_seq ≡ d.last_device_seq + 1 → Admitted op user_id s (some d))
        → Step op user_id s (check_sequence os now uuid op d s)
    unfolding check_sequence reads ◌>>=◌
    check_sequence-Step d next = elim (Bool-cases (ltb op.device_seq (d.last_device_seq + 1))) [
      | inl e ↦ rw (e, check_sequence) (stays op user_id s _)
      | inr e ↦ elim (Bool-cases (ltb (d.last_device_seq + 1) op.device_seq)) [
        | inl f ↦ rw (e, f, check_sequence) (stays op user_id s _)
        | inr f ↦ rw (e, f, check_sequence) (try_apply-Step (some d) (next (ground arith)))
      ]
    ]

    admit-Step :
        (d : Option StoredDevice)
        → get_device s op.device_id ≡ d
        → Step op user_id s (admit os now uuid op user_id d s)
    unfolding admit reads ◌>>=◌
    admit-Step none known = stays op user_id s _
    admit-Step (some d) known = elim (Bool-cases (str_eq d.vault_id op.vault_id)) [
      | inr e ↦ rw (e, admit) (stays op user_id s _)
      | inl e ↦ elim (Bool-cases d.revoked) [
        | inl r ↦ simp (e, r) (stays op user_id s _)
        | inr r ↦ elim (Bool-cases (has_write_role s op.vault_id user_id)) [
          | inr w ↦ simp (e, r, w) (stays op user_id s _)
          | inl w ↦
              simp (e, r, w)
                (check_sequence-Step d (λ n. from_device d refl known ((str_eq_iff _ _).0 e) r w n))
        ]
      ]
    ]

    process_new-Step : Step op user_id s (process_new os now uuid op user_id s)
    unfolding process_new reads ◌>>=◌
    process_new-Step = elim (Bool-cases (is_synthetic op)) [
      | inl e ↦ rw (e, process_new) (try_apply-Step none (from_room refl e))
      | inr e ↦ rw (e, process_new) (admit-Step (get_device s op.device_id) refl)
    ]

  -- A call of `process` either changes no file, log, outbox, sequence counter or device, or its
  -- operation is not in the log yet, is admitted, and is committed: the run is the commit of the
  -- file and the conflict that were prepared, on a store with the same records.
  pub process-Step :
      (op : FileOp) (user_id : Option JsString) (s : InMemoryDataStore)
      → Step op user_id s (process os now uuid op user_id s)
  unfolding process reads ◌>>=◌
  process-Step op user_id s = elim (Option-cases (get_op_by_id s op.op_id)) [
    | inl fresh ↦ rw (fresh, process) (process_new-Step op user_id s fresh)
    | inr (stored, found) ↦ rw (found, process) (stays op user_id s _)
  ]
