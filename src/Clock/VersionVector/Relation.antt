-- ===== src/Clock/VersionVector/Relation.antt =====
-- How two vectors relate: the classification of `compareVV`, and the strict order.
use obsidian_baritone.Prelude.{
  ◌≤◌, ◌<◌, ◌≡◌, refl, inl, inr, Bool, true, false, arith, JsString, Bool-cases, str_eq_refl,
  str_eq_iff,
}
use obsidian_baritone.Prelude.Maps.{HasDistinctKeys}
use obsidian_baritone.Clock.VersionVector.{
  VersionVector, counter_for, bump, dominates, strictly_dominates, VvRelation, equal, dominating,
  dominated, concurrent, compare_vv,
}
use obsidian_baritone.Clock.VersionVector.Order.{
  dominates-le, ahead, dominates_iff, counter_for-bump,
}

-- `a` has seen all that `b` has seen.
abbrev pub Covers : VersionVector → VersionVector → Type 0
Covers a b = (d : JsString) → counter_for b d ≤ counter_for a d

-- Some device is ahead in `b`.
abbrev pub Misses : VersionVector → VersionVector → Type 0
Misses a b = (d : JsString) × (counter_for a d < counter_for b d)

abbrev pub Meaning : VvRelation → VersionVector → VersionVector → Type 0
Meaning equal a b = Covers a b × Covers b a
Meaning dominating a b = Covers a b × Misses b a
Meaning dominated a b = Misses a b × Covers b a
Meaning concurrent a b = Misses a b × Misses b a

Meaning-of_tests :
    (a b : VersionVector)
    → HasDistinctKeys a
    → HasDistinctKeys b
    → (p q : Bool) → dominates a b ≡ p
    → dominates b a ≡ q
    → Meaning (compare_vv a b) a b
unfolding compare_vv
Meaning-of_tests a b ra rb true true e f =
    rw (e, f) ((λ d. dominates-le a b d e), (λ d. dominates-le b a d f))
Meaning-of_tests a b ra rb true false e f = rw (e, f) ((λ d. dominates-le a b d e), ahead b a ra f)
Meaning-of_tests a b ra rb false true e f = rw (e, f) (ahead a b rb e, (λ d. dominates-le b a d f))
Meaning-of_tests a b ra rb false false e f = rw (e, f) (ahead a b rb e, ahead b a ra f)

-- The classification of two vectors means what its name says, counter by counter: equal when each
-- covers the other, dominating or dominated when only one does, and concurrent when each of the
-- two has a device ahead of the other.
pub compare_vv-Meaning :
    (a b : VersionVector) → HasDistinctKeys a → HasDistinctKeys b → Meaning (compare_vv a b) a b
compare_vv-Meaning a b ra rb = Meaning-of_tests a b ra rb _ _ refl refl

abbrev pub flip : VvRelation → VvRelation
flip equal = equal
flip dominating = dominated
flip dominated = dominating
flip concurrent = concurrent

pub compare_vv-flip : (a b : VersionVector) → compare_vv b a ≡ flip (compare_vv a b)
unfolding compare_vv
compare_vv-flip a b = ground arith

-- A bumped vector strictly dominates the vector that it was made from.
pub bump-strictly_dominates :
    (a : VersionVector) (k : JsString) → HasDistinctKeys a → strictly_dominates (bump a k) a ≡ true
bump-strictly_dominates a k r =
    let up =
      (dominates_iff (bump a k) a r).1
        (λ d. ground (arith, counter_for-bump a k d, str_eq_iff k d)) in
    elim (Bool-cases (dominates a (bump a k))) [
      | inl down ↦
          absurd (
            ground (arith, dominates-le a (bump a k) k down, counter_for-bump a k k, str_eq_refl k))
      | inr fresh ↦ unfold strictly_dominates in rw (up, fresh)
    ]
