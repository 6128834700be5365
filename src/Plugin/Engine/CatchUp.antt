-- ===== src/Plugin/Engine/CatchUp.antt =====
-- `applyOps` of apps/plugin/src/sync/engine.ts: which operations of a batch are applied, and in which
-- order.
use mathlib.Core.Path.{subst⁻¹}
use mathlib.Core.List.{Memᴰ}
use obsidian_baritone.Prelude.{
  ℕ, suc, ◌+◌, ◌≡◌, ◌≢◌, ◌≤◌, ◌<◌, refl, Bool, true, false, List, [], ◌∷◌, JsString, leb, ◌==◌,
  arith, leb→le, Result, ok, err, Bool-cases, Result-cases, inl, inr, All, All-map, sort, sort-All,
  insert_sorted, insert_sorted-All,
}
use obsidian_baritone.Protocol.{AppliedOp}
use obsidian_baritone.Plugin.LocalIndex.{set_applied_seq}
use obsidian_baritone.Plugin.Engine.{Surroundings, SyncEngine, save}
use obsidian_baritone.Plugin.Engine.Step.{Step, ◌>>=◌}
use obsidian_baritone.Plugin.Engine.ApplyOp.{apply_op}
use obsidian_baritone.Plugin.Engine.Messages.{apply_next, apply_sorted, apply_ops, earlier}
use obsidian_baritone.Plugin.Engine.Queue.{request_resync}

module _ {ℓ κ} {A : Type ℓ} (P : A → Type κ) (before : A → A → Bool) where
  All-uninsert : (x : A) (ys : List A) → All P (insert_sorted before x ys) → P x × All P ys
  All-uninsert x [] h = h
  All-uninsert x (y ∷ ys) h = elim (Bool-cases (before y x)) [
    | inl e ↦
        let (hy, rest) = rw e at h in let (hx, hys) = All-uninsert x ys rest in (hx, (hy, hys))
    | inr e ↦ rw e at h
  ]

  pub All-unsort : (xs : List A) → All P (sort before xs) → All P xs
  All-unsort [] h = tt
  All-unsort (x ∷ xs) h =
      let (hx, rest) = All-uninsert x (sort before xs) h in (hx, All-unsort xs rest)

-- Each operation is numbered no higher than those that follow it.
abbrev IsAscending : List AppliedOp → Type 0
IsAscending [] = Unit
IsAscending (item ∷ items) = All (λ next. item.vault_seq ≤ next.vault_seq) items × IsAscending items

insert_sorted-IsAscending :
    (item : AppliedOp) (items : List AppliedOp)
    → IsAscending items
    → IsAscending (insert_sorted earlier item items)
insert_sorted-IsAscending item [] h = (tt, tt)
insert_sorted-IsAscending item (first ∷ items) h = elim (Bool-cases (earlier first item)) [
  | inl e ↦ rw e (
    insert_sorted-All (λ next. first.vault_seq ≤ next.vault_seq) earlier item items
        (ground (arith, e)) h.0,
    insert_sorted-IsAscending item items h.1,
  )
  | inr e ↦
      let before : item.vault_seq ≤ first.vault_seq = ground (arith, e) in
      rw e ((before, All-map (λ next l. omega (arith, before, l)) items h.0), h)
]

sort-IsAscending : (items : List AppliedOp) → IsAscending (sort earlier items)
sort-IsAscending [] = tt
sort-IsAscending (item ∷ items) =
    insert_sorted-IsAscending item (sort earlier items) (sort-IsAscending items)

members-All : {A : Type 0} (xs : List A) → All (λ x. Memᴰ x xs) xs
members-All [] = tt
members-All (x ∷ xs) = (Memᴰ.head refl, All-map (λ y m. Memᴰ.tail m) xs (members-All xs))

module _ {V : Type 0} (around : Surroundings V) where
  abbrev pub applied : SyncEngine V → ℕ
  applied e = e.index.device.applied_seq

  abbrev pub run_op : AppliedOp → Step V (Unit {0})
  run_op item =
      apply_op around item.op item.resulting_clocks.content_vv item.resulting_clocks.path_clock

  abbrev pub counted : AppliedOp → SyncEngine V → SyncEngine V
  counted item e = record e { index = set_applied_seq item.vault_seq e.index }

  -- From the first engine to the second by applying operations of the batch, each numbered one higher
  -- than the applied number.
  pub data Follows (batch : List AppliedOp) : SyncEngine V → SyncEngine V → Type 0 where
    done : (e : SyncEngine V) → Follows batch e e
    next :
        (e : SyncEngine V) (item : AppliedOp) (f : SyncEngine V)
        → Memᴰ item batch
        → item.vault_seq ≡ suc (applied e)
        → (run_op item e).0 ≡ ok tt
        → Follows batch (counted item (run_op item e).1) f
        → Follows batch e f

  -- What `applyOps` returns for the `rest` of a batch, and the engine that it leaves.
  pub data Outcome (batch rest : List AppliedOp) (e : SyncEngine V)
      : Result JsString Bool × SyncEngine V → Type 0 where
    caught_up :
        (f : SyncEngine V)
        → Follows batch e f
        → All (λ item. item.vault_seq ≤ applied f) rest
        → Outcome batch rest e (ok true, save f)
    has_gap :
        (f : SyncEngine V) (item : AppliedOp)
        → Follows batch e f
        → Memᴰ item batch
        → suc (applied f) < item.vault_seq
        → All (λ other. other.vault_seq ≢ suc (applied f)) rest
        → Outcome batch rest e (ok false, request_resync f)
    stopped :
        (f g : SyncEngine V) (item : AppliedOp) (message : JsString)
        → Follows batch e f
        → Memᴰ item batch
        → item.vault_seq ≡ suc (applied f)
        → run_op item f ≡ (err message, g)
        → Outcome batch rest e (err message, g)

  step_le : (e : SyncEngine V) (item : AppliedOp) → item.vault_seq ≤ applied (counted item e)
  unfolding set_applied_seq
  step_le e item = omega arith

  module _ (batch : List AppliedOp) where
    Follows-le : (e f : SyncEngine V) → Follows batch e f → applied e ≤ applied f
    Follows-le e _ (done _) = omega arith
    Follows-le e f (next _ item _ m n r rest) = omega (
      arith,
      n,
      step_le (run_op item e).1 item,
      Follows-le (counted item (run_op item e).1) f rest,
    )

    not_next : (n m : ℕ) → n ≤ m → n ≢ suc m
    not_next n m l e = absurd (omega (arith, l, e))

    skip :
        (item : AppliedOp) (items : List AppliedOp) (e : SyncEngine V)
        (r : Result JsString Bool × SyncEngine V)
        → item.vault_seq ≤ applied e
        → Outcome batch items e r
        → Outcome batch (item ∷ items) e r
    skip item items e _ l (caught_up f s all) =
        caught_up f s (omega (arith, l, Follows-le e f s), all)
    skip item items e _ l (has_gap f i s m far none_next) =
        has_gap f i s m far
          (not_next item.vault_seq (applied f) (omega (arith, l, Follows-le e f s)), none_next)
    skip item items e _ l (stopped f g i m s k n x) = stopped f g i m s k n x

    reached :
        (item : AppliedOp) (e f : SyncEngine V)
        → Follows batch (counted item (run_op item e).1) f
        → item.vault_seq ≤ applied f
    reached item e f s =
        omega
          (arith, step_le (run_op item e).1 item, Follows-le (counted item (run_op item e).1) f s)

    step :
        (item : AppliedOp) (items : List AppliedOp) (e : SyncEngine V)
        (r : Result JsString Bool × SyncEngine V)
        → Memᴰ item batch
        → item.vault_seq ≡ suc (applied e)
        → (run_op item e).0 ≡ ok tt
        → Outcome batch items (counted item (run_op item e).1) r
        → Outcome batch (item ∷ items) e r
    step item items e _ k n x (caught_up f s all) =
        caught_up f (next e item f k n x s) (reached item e f s, all)
    step item items e _ k n x (has_gap f i s m far none_next) =
        has_gap f i (next e item f k n x s) m far
          (not_next item.vault_seq (applied f) (reached item e f s), none_next)
    step item items e _ k n x (stopped f g i m s j p y) =
        stopped f g i m (next e item f k n x s) j p y

  apply_next_ok :
      (item : AppliedOp) (items : List AppliedOp) (e : SyncEngine V)
      → (run_op item e).0 ≡ ok tt
      → (apply_next around item >>= λ _. apply_sorted around items) e
        ≡ apply_sorted around items (counted item (run_op item e).1)
  unfolding apply_next ◌>>=◌
  apply_next_ok item items e x = rw x refl

  apply_next_err :
      (item : AppliedOp) (items : List AppliedOp) (e : SyncEngine V) (message : JsString)
      → (run_op item e).0 ≡ err message
      → (apply_next around item >>= λ _. apply_sorted around items) e
        ≡ (err message, (run_op item e).1)
  unfolding apply_next ◌>>=◌
  apply_next_err item items e message x = rw x refl

  module _ (batch : List AppliedOp) where
    next_item :
        (item : AppliedOp) (items : List AppliedOp) (e : SyncEngine V)
        → Memᴰ item batch
        → item.vault_seq ≡ suc (applied e)
        → Outcome batch items
            (counted item (run_op item e).1)
            (apply_sorted around items (counted item (run_op item e).1))
        → Outcome batch
            (item ∷ items)
            e
            ((apply_next around item >>= λ _. apply_sorted around items) e)
    next_item item items e k n rest = elim (Result-cases (run_op item e).0) [
      | inl (_, x) ↦
          subst⁻¹ (Outcome batch (item ∷ items) e) (apply_next_ok item items e x)
            (step batch item items e _ k n x rest)
      | inr (message, x) ↦
          subst⁻¹ (Outcome batch (item ∷ items) e) (apply_next_err item items e message x)
            (stopped e (run_op item e).1 item message (done e) k n (λ i. (x i, (run_op item e).1)))
    ]

    apply_sorted-Outcome :
        (items : List AppliedOp) (e : SyncEngine V)
        → IsAscending items
        → All (λ item. Memᴰ item batch) items
        → Outcome batch items e (apply_sorted around items e)
    unfolding apply_sorted
    apply_sorted-Outcome [] e h k = caught_up e (done e) tt
    apply_sorted-Outcome (item ∷ items) e h k = elim (Bool-cases (leb item.vault_seq (applied e))) [
      | inl old ↦ rw old (
          skip batch item items e _ (leb→le item.vault_seq (applied e) old)
            (apply_sorted-Outcome items e h.1 k.1))
      | inr new ↦ elim (Bool-cases (item.vault_seq == applied e + 1)) [
        | inr far ↦
            let beyond : suc (applied e) < item.vault_seq = ground (arith, new, far) in
            rw (new, far)
              (has_gap e item (done e) k.0 beyond (
                later item.vault_seq (applied e) beyond (omega arith),
                All-map (λ other l. later other.vault_seq (applied e) beyond l) items h.0,
              ))
        | inl near ↦
            rw (new, near)
              (next_item item items e k.0 (ground (arith, near))
                (apply_sorted-Outcome items (counted item (run_op item e).1) h.1 k.1))
      ]
    ]
      where
        later : (n m : ℕ) → suc m < item.vault_seq → item.vault_seq ≤ n → n ≢ suc m
        later n m beyond l same = absurd (omega (arith, beyond, l, same))

    unsorted :
        (items : List AppliedOp) (e : SyncEngine V) (r : Result JsString Bool × SyncEngine V)
        → Outcome batch (sort earlier items) e r
        → Outcome batch items e r
    unsorted items e _ (caught_up f s all) =
        caught_up f s (All-unsort (λ item. item.vault_seq ≤ applied f) earlier items all)
    unsorted items e _ (has_gap f i s m far none_next) =
        has_gap f i s m far
          (All-unsort (λ other. other.vault_seq ≢ suc (applied f)) earlier items none_next)
    unsorted items e _ (stopped f g i m s k n x) = stopped f g i m s k n x

  -- `applyOps` applies, one after the other, operations of the batch that are each numbered one higher
  -- than the applied number is at that moment, in whatever order the batch has them. It returns true,
  -- after it saved the index, when no operation of the batch is numbered higher than the applied
  -- number that results. It returns false, after it asked for what follows the applied number, when
  -- the batch has an operation beyond the next number and none with the next number. And it throws
  -- what applying an operation of the batch with the next number threw.
  pub apply_ops-Outcome :
      (items : List AppliedOp) (e : SyncEngine V) → Outcome items items e (apply_ops around items e)
  unfolding apply_ops
  apply_ops-Outcome items e = unsorted items items e _ (
      apply_sorted-Outcome items (sort earlier items) e (sort-IsAscending items)
        (sort-All (λ item. Memᴰ item items) earlier items (members-All items)))
