-- ===== src/Plugin/Outbox/Calls.antt =====
-- apps/plugin/src/sync/outbox.ts: every method of `OutboxManager` keeps the outbox well formed.
use Prim.Native.Nat.{◌<◌}
use obsidian_baritone.Prelude.{
  ℕ, ◌≡◌, ◌≢◌, refl, sym, ap, ◌∙◌, ◌+◌, Bool, true, false, not, ◌&&◌, none, some, List, [], ◌∷◌,
  All, All-filter, JsString, ltb, ◌==◌, filter, any, Bool-cases, Option-cases, inl, inr, arith,
}
use obsidian_baritone.Prelude.Maps.{JsMap, get, delete, values, set-HasDistinctKeys, All-get}
use obsidian_baritone.Plugin.Outbox.{
  OutboxEntry, OutboxManager, new_outbox, FileOpDraft, seq_of, earlier, entries, is_queued,
  is_inflight, op_of_draft, enqueue, alter, mark_inflight, reject, conflict, ack, rollback_last,
  reindexed, remove_and_reindex, lowest, delete_all, discard_queued, discard_unsent,
}
use obsidian_baritone.Plugin.Outbox.Kept.{
  All-sort, All-of_sort, any-All, filter-All, All-of_filter, All-both, values-All, lowest-attained,
  delete_all-some, delete_all-All,
}
use obsidian_baritone.Plugin.Outbox.WellFormed.{
  IsWellFormed, IsNumbered-delete, IsNumbered-alter, IsNumbered-enqueue, IsNumbered-reindex,
  IsNumbered-tighten, delete-HasDistinctKeys, delete_all-HasDistinctKeys, map-HasDistinctKeys,
}

-- The calls that change an outbox.
pub data Call : Type 0 where
  enqueued : ℕ → JsString → FileOpDraft → Call
  marked_inflight : ℕ → JsString → Call
  rejected_op : ℕ → JsString → JsString → Bool → Call
  conflicted_op : ℕ → JsString → JsString → Call
  acked : JsString → Call
  rolled_back : JsString → Call
  removed : JsString → Call
  discarded_unsent : Call

unfoldable pub call : Call → OutboxManager → OutboxManager
call (enqueued now uuid draft) m = (enqueue now uuid draft m).1
call (marked_inflight now op_id) m = mark_inflight now op_id m
call (rejected_op now op_id message terminal) m = reject now op_id message terminal m
call (conflicted_op now op_id conflict_id) m = conflict now op_id conflict_id m
call (acked op_id) m = ack op_id m
call (rolled_back op_id) m = (rollback_last op_id m).1
call (removed op_id) m = (remove_and_reindex op_id m).1
call discarded_unsent m = (discard_unsent m).1

enqueue-IsWellFormed :
    (now : ℕ) (uuid : JsString) (draft : FileOpDraft) (m : OutboxManager)
    → IsWellFormed m
    → IsWellFormed (enqueue now uuid draft m).1
unfolding enqueue op_of_draft
enqueue-IsWellFormed now uuid draft m h = record {
  keys = set-HasDistinctKeys _ _ m.map_of h.keys;
  numbers = IsNumbered-enqueue _ _ m.map_of m.next_device_seq h.numbers refl refl;
}

alter-IsWellFormed :
    (op_id : JsString) (f : OutboxEntry → OutboxEntry) (m : OutboxManager)
    → ((e : OutboxEntry) → e.op ≡ (f e).op)
    → IsWellFormed m
    → IsWellFormed (alter op_id f m)
unfolding alter
alter-IsWellFormed op_id f m same h = elim (Option-cases (get op_id m.map_of)) [
  | inl e ↦ rw (e, alter) h
  | inr (w, e) ↦
      rw (e, alter)
        (record {
          keys = set-HasDistinctKeys op_id (f w) m.map_of h.keys;
          numbers =
              IsNumbered-alter op_id (f w) w m.map_of m.next_device_seq h.numbers e
                (ap (λ o. o.op_id) (same w)) (ap (λ o. o.device_seq) (same w));
        })
]

ack-IsWellFormed :
    (op_id : JsString) (m : OutboxManager) → IsWellFormed m → IsWellFormed (ack op_id m)
unfolding ack
ack-IsWellFormed op_id m h = record {
  keys = delete-HasDistinctKeys op_id m.map_of h.keys;
  numbers = IsNumbered-delete op_id m.map_of m.next_device_seq h.numbers;
}

rollback_last-IsWellFormed :
    (op_id : JsString) (m : OutboxManager) → IsWellFormed m → IsWellFormed (rollback_last op_id m).1
unfolding rollback_last
rollback_last-IsWellFormed op_id m h = elim (Option-cases (get op_id m.map_of)) [
  | inl e ↦ rw (e, rollback_last) h
  | inr (w, e) ↦ elim (Bool-cases (seq_of w + 1 == m.next_device_seq)) [
    | inl last ↦
        rw (e, rollback_last, last)
          (record {
            keys = delete-HasDistinctKeys op_id m.map_of h.keys;
            numbers =
                IsNumbered-tighten op_id m.map_of m.next_device_seq w h.numbers e
                  (ground (arith, last));
          })
    | inr other ↦ rw (e, rollback_last, other) h
  ]
]

remove_and_reindex-IsWellFormed :
    (op_id : JsString) (m : OutboxManager)
    → IsWellFormed m
    → IsWellFormed (remove_and_reindex op_id m).1
unfolding remove_and_reindex
remove_and_reindex-IsWellFormed op_id m h = elim (Option-cases (get op_id m.map_of)) [
  | inl e ↦ rw (e, remove_and_reindex) h
  | inr (w, e) ↦
      rw (e, remove_and_reindex)
        (record {
          keys =
              map-HasDistinctKeys (reindexed (seq_of w)) (delete op_id m.map_of)
                (delete-HasDistinctKeys op_id m.map_of h.keys);
          numbers = IsNumbered-reindex op_id m.map_of m.next_device_seq w h.numbers e;
        })
]

-- What `discardUnsent` knows of each entry when it goes ahead with a first queued entry and others.
record Discards (m : OutboxManager) (first : OutboxEntry) (rest : List OutboxEntry) : Type 0 where
  low : OutboxEntry
  low_key : JsString
  low_found : get low_key m.map_of ≡ some low
  low_queued : is_queued low.status ≡ true
  low_seq : seq_of low ≡ lowest first rest

discards :
    (m : OutboxManager) (first : OutboxEntry) (rest : List OutboxEntry)
    → IsWellFormed m
    → filter (λ e. is_queued e.status) (entries m) ≡ first ∷ rest
    → Discards m first rest
unfolding entries
discards m first rest h are =
    let held = All-sort _ earlier (values m.map_of) (values-All m.map_of h.keys) in
    let both =
      All-both _ _ (filter (λ e. is_queued e.status) (entries m))
        (All-filter _ (λ e. is_queued e.status) (entries m) held)
        (filter-All (λ e. is_queued e.status) (entries m)) in
    let (low, (found, is), least) = lowest-attained first rest (rw are at both) in
    record { low = low; low_key = found.0; low_found = found.1; low_queued = is; low_seq = least }

-- An entry that is left after the queued ones are deleted was not queued.
left-not_queued :
    (m : OutboxManager) (es : List OutboxEntry) (k : JsString) (a : OutboxEntry)
    → IsWellFormed m
    → filter (λ e. is_queued e.status) (entries m) ≡ es
    → get k (delete_all es m.map_of) ≡ some a
    → is_queued a.status ≡ false
unfolding entries
left-not_queued m es k a h are left =
    let P : OutboxEntry → Type 0 = λ e. get e.op.op_id (delete_all es m.map_of) ≡ none in
    let gone : All P (filter (λ e. is_queued e.status) (entries m)) =
      rw are (delete_all-All es m.map_of) in
    let all =
      All-of_sort _ earlier (values m.map_of)
        (All-of_filter P (λ e. is_queued e.status) (entries m) gone) in
    let before = delete_all-some es m.map_of k a left in
    let at = All-get _ k a m.map_of all before in
    elim (Bool-cases (is_queued a.status)) [
      | inr e ↦ e
      | inl e ↦ absurd (clash (at e) (h.numbers.by_id k a before))
    ]
  where
    clash : get a.op.op_id (delete_all es m.map_of) ≡ none → a.op.op_id ≡ k → ⊥
    clash p q = let r : get k (delete_all es m.map_of) ≡ none = rw q at p in ground (arith, r, left)

not_both :
    (m : JsMap OutboxEntry) (k j : JsString) (a b : OutboxEntry)
    → k ≡ j
    → get k m ≡ some a
    → get j m ≡ some b
    → is_queued a.status ≡ false
    → is_queued b.status ≡ true
    → ⊥
not_both m k j a b p e f idle waits = ground (arith, same (sym e ∙ (λ i. get (p i) m) ∙ f))
  where
    same : some a ≡ some b → is_queued a.status ≡ is_queued b.status
    same q = cc

discard-below :
    (m : OutboxManager) (first : OutboxEntry) (rest : List OutboxEntry) (k : JsString)
    (a : OutboxEntry)
    → IsWellFormed m
    → filter (λ e. is_queued e.status) (entries m) ≡ first ∷ rest
    → any (λ e. not (is_queued e.status) && ltb (lowest first rest) (seq_of e)) (entries m) ≡ false
    → get k (delete_all (first ∷ rest) m.map_of) ≡ some a
    → seq_of a < lowest first rest
unfolding entries
discard-below m first rest k a h are quiet left =
    let d = discards m first rest h are in
    let idle = left-not_queued m (first ∷ rest) k a h are left in
    let before = delete_all-some (first ∷ rest) m.map_of k a left in
    let low =
      All-get _ k a m.map_of (All-of_sort _ earlier (values m.map_of) (any-All _ (entries m) quiet))
        before in
    ground (arith, low, idle, d.low_seq, other d.low_key d.low idle d.low_found d.low_queued before)
  where
    other :
        (j : JsString) (b : OutboxEntry)
        → is_queued a.status ≡ false
        → get j m.map_of ≡ some b
        → is_queued b.status ≡ true
        → get k m.map_of ≡ some a
        → seq_of a ≢ seq_of b
    other j b idle found waits before same =
        not_both m.map_of k j a b (h.numbers.distinct k j a b before found same) before found idle
          waits

discard_queued-IsWellFormed :
    (es : List OutboxEntry) (m : OutboxManager)
    → IsWellFormed m
    → filter (λ e. is_queued e.status) (entries m) ≡ es
    → IsWellFormed (discard_queued es m).1
unfolding discard_queued entries
discard_queued-IsWellFormed [] m h are = h
discard_queued-IsWellFormed (first ∷ rest) m h are =
    elim (Bool-cases
      (any (λ e. not (is_queued e.status) && ltb (lowest first rest) (seq_of e)) (entries m))) [
        | inl e ↦ rw e h
        | inr e ↦ rw e (record {
          keys = delete_all-HasDistinctKeys (first ∷ rest) m.map_of h.keys;
          numbers = record {
            by_id = λ k a f. h.numbers.by_id k a (delete_all-some (first ∷ rest) m.map_of k a f);
            below = λ k a f. discard-below m first rest k a h are e f;
            distinct = λ j k a b f g.
                h.numbers.distinct j k a b (delete_all-some (first ∷ rest) m.map_of j a f)
                  (delete_all-some (first ∷ rest) m.map_of k b g);
          };
        })
      ]

discard_unsent-IsWellFormed :
    (m : OutboxManager) → IsWellFormed m → IsWellFormed (discard_unsent m).1
unfolding discard_unsent
discard_unsent-IsWellFormed m h = elim (Bool-cases (any (λ e. is_inflight e.status) (entries m))) [
  | inl e ↦ rw e h
  | inr e ↦ rw e (discard_queued-IsWellFormed _ m h refl)
]

-- No call breaks the outbox: its keys stay distinct, every entry stays under the id of its op with a
-- number below the next one, and no two entries come to have the same number.
pub call-IsWellFormed : (c : Call) (m : OutboxManager) → IsWellFormed m → IsWellFormed (call c m)
unfolding call mark_inflight reject conflict
call-IsWellFormed (enqueued now uuid draft) m h = enqueue-IsWellFormed now uuid draft m h
call-IsWellFormed (marked_inflight now op_id) m h = alter-IsWellFormed op_id _ m (λ e. refl) h
call-IsWellFormed (rejected_op now op_id message terminal) m h =
    alter-IsWellFormed op_id _ m (λ e. refl) h
call-IsWellFormed (conflicted_op now op_id conflict_id) m h =
    alter-IsWellFormed op_id _ m (λ e. refl) h
call-IsWellFormed (acked op_id) m h = ack-IsWellFormed op_id m h
call-IsWellFormed (rolled_back op_id) m h = rollback_last-IsWellFormed op_id m h
call-IsWellFormed (removed op_id) m h = remove_and_reindex-IsWellFormed op_id m h
call-IsWellFormed discarded_unsent m h = discard_unsent-IsWellFormed m h

-- An outbox that starts empty.
pub empty_outbox-IsWellFormed :
    (device_id : JsString) (next : ℕ) → IsWellFormed (new_outbox device_id next [])
unfolding new_outbox get
empty_outbox-IsWellFormed device_id next = record {
  keys = tt;
  numbers = record {
    by_id = λ k a e. absurd (let q : none ≡ some a = e in cc);
    below = λ k a e. absurd (let q : none ≡ some a = e in cc);
    distinct = λ j k a b e f g. absurd (let q : none ≡ some a = e in cc);
  };
}
