-- ===== src/Engine/OpProcessor/CatchUp.antt =====
-- What `listOps` sends to a client that has seen the log up to a number.
use obsidian_baritone.Prelude.{
  ℕ, zero, suc, ◌+◌, ◌≤◌, ◌<◌, max, min, ◌≡◌, refl, ap, inl, inr, Bool, List, [], ◌∷◌, JsString,
  arith, ltb, Bool-cases, filter, take, map,
}
use obsidian_baritone.Protocol.{AppliedOp}
use obsidian_baritone.Engine.Store.{
  InMemoryDataStore, StoredOp, next_seq, vault_ops, list_ops, applied_of,
}
use obsidian_baritone.Engine.OpProcessor.Log.{CountsUp, seqs_of, IsNumbered}

abbrev pub numbers_of : List AppliedOp → List ℕ
numbers_of = map (λ a. a.vault_seq)

abbrev newer : ℕ → StoredOp → Bool
newer since op = ltb since op.seq

numbers_of-applied : (ops : List StoredOp) → numbers_of (map applied_of ops) ≡ seqs_of ops
numbers_of-applied [] = refl
numbers_of-applied (op ∷ ops) = ap (◌∷◌ op.seq) (numbers_of-applied ops)

all_newer :
    (since from to : ℕ) (ops : List StoredOp)
    → CountsUp from to (seqs_of ops)
    → since < from
    → filter (newer since) ops ≡ ops
all_newer since from to [] h lt = refl
all_newer since from to (op ∷ ops) h lt =
    let ih = all_newer since (from + 1) to ops h.1 (omega arith) in ground arith

CountsUp-le : (from to : ℕ) (ns : List ℕ) → CountsUp from to ns → from ≤ to
CountsUp-le from to [] h = omega arith
CountsUp-le from to (n ∷ ns) h = omega (arith, CountsUp-le (from + 1) to ns h.1)

filter-CountsUp :
    (since from to : ℕ) (ops : List StoredOp)
    → CountsUp from to (seqs_of ops)
    → from ≤ since + 1
    → CountsUp (since + 1) (max to (since + 1)) (seqs_of (filter (newer since) ops))
filter-CountsUp since from to [] h le = omega arith
filter-CountsUp since from to (op ∷ ops) h le = elim (Bool-cases (ltb since op.seq)) [
  | inl e ↦
      let first : from ≡ since + 1 = ground (arith, h.0) in
      let top : max to (since + 1) ≡ to =
        omega (arith, CountsUp-le (from + 1) to (seqs_of ops) h.1) in
      rw (e, all_newer since (from + 1) to ops h.1 (omega arith), top)
        (ground (arith, h.0), rw (← first) h.1)
  | inr e ↦ rw e (filter-CountsUp since (from + 1) to ops h.1 (ground arith))
]

take-CountsUp :
    (limit from to : ℕ) (ops : List StoredOp)
    → CountsUp from to (seqs_of ops)
    → CountsUp from (min to (from + limit)) (seqs_of (take limit ops))
take-CountsUp zero from to ops h = omega (arith, CountsUp-le from to (seqs_of ops) h)
take-CountsUp (suc limit) from to [] h = omega arith
take-CountsUp (suc limit) from to (op ∷ ops) h =
    let top : min to (from + suc limit) ≡ min to (from + 1 + limit) = omega arith in
    (h.0, rw top (take-CountsUp limit (from + 1) to ops h.1))

-- When the log is numbered, `listOps` sends the operations `since + 1`, `since + 2`, … in order
-- and with no gap, as many as the limit allows and the log has: none if the client has seen all.
pub list_ops-CountsUp :
    (s : InMemoryDataStore) (v : JsString) (since limit : ℕ)
    → IsNumbered s
    → CountsUp
        (since + 1)
        (min (max (next_seq s v) (since + 1)) (since + 1 + limit))
        (numbers_of (list_ops s v since limit))
unfolding list_ops
list_ops-CountsUp s v since limit h = rw numbers_of-applied (
    take-CountsUp limit (since + 1) _ _
      (filter-CountsUp since 1 (next_seq s v) (vault_ops s v) (h.log v) (omega arith)))
