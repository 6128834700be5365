-- ===== src/Clock/VersionVector/Lattice.antt =====
-- Version vectors up to `equals` are a join semilattice: the quotient forgets the order of the
-- keys and the devices with counter 0.
use mathlib.Core.Quot
use mathlib.Core.Quot.{Quot, Quot-set}
use mathlib.Core.HLevel.{Π_prop, Π_set}
use mathlib.Core.Path.{fun_ext}
use obsidian_baritone.Prelude.{◌≡◌, refl, ◌↔◌, true, arith, JsString}
use obsidian_baritone.Prelude.Maps.{HasDistinctKeys}
use obsidian_baritone.Clock.VersionVector.{VersionVector, counter_for, join, dominates, equals}
use obsidian_baritone.Clock.VersionVector.Order.{
  dominates-le, dominates_iff, counter_for-join, join-HasDistinctKeys,
}

-- `join a b` is the least vector that dominates both `a` and `b`: it dominates each of them, and
-- every vector that dominates both dominates it.
pub join-IsLeast :
    (a b c : VersionVector)
    → HasDistinctKeys a
    → HasDistinctKeys b
    → (dominates (join a b) a ≡ true)
      × (dominates (join a b) b ≡ true)
      × (dominates c a ≡ true → dominates c b ≡ true → dominates c (join a b) ≡ true)
join-IsLeast a b c ra rb = (
  (dominates_iff (join a b) a ra).1 (λ d. omega (arith, counter_for-join a b d rb)),
  (dominates_iff (join a b) b rb).1 (λ d. omega (arith, counter_for-join a b d rb)),
  λ p q.
      (dominates_iff c (join a b) (join-HasDistinctKeys a b ra)).1
        (λ d. omega (arith, counter_for-join a b d rb, dominates-le c a d p, dominates-le c b d q)),
)

-- `equals` holds exactly when all counters agree.
pub equals_iff :
    (a b : VersionVector)
    → HasDistinctKeys a
    → HasDistinctKeys b
    → (equals a b ≡ true) ↔ ((d : JsString) → counter_for a d ≡ counter_for b d)
unfolding equals
equals_iff a b ra rb = (
  λ h d. ground (arith, dominates-le a b d, dominates-le b a d),
  λ all. ground (
    arith,
    (dominates_iff a b rb).1 (λ d. omega (arith, all d)),
    (dominates_iff b a ra).1 (λ d. omega (arith, all d)),
  ),
)

-- A vector together with the fact that it is an object: each key once.
abbrev pub Vector : Type 0
Vector = (a : VersionVector) × HasDistinctKeys a

abbrev pub SameCounters : Vector → Vector → Type 0
SameCounters a b = (d : JsString) → counter_for a.0 d ≡ counter_for b.0 d

abbrev pub Knowledge : Type 0
Knowledge = Quot SameCounters

abbrev join_vectors : Vector → Vector → Vector
join_vectors a b = (join a.0 b.0, join-HasDistinctKeys a.0 b.0 a.1)

join-SameCounters_right :
    (a b c : Vector) → SameCounters b c → SameCounters (join_vectors a b) (join_vectors a c)
join-SameCounters_right a b c h d =
    omega (arith, counter_for-join a.0 b.0 d b.1, counter_for-join a.0 c.0 d c.1, h d)

join-SameCounters_left :
    (a b c : Vector) → SameCounters a b → SameCounters (join_vectors a c) (join_vectors b c)
join-SameCounters_left a b c h d =
    omega (arith, counter_for-join a.0 c.0 d c.1, counter_for-join b.0 c.0 d c.1, h d)

-- What two devices know together.
join_from : Vector → Knowledge → Knowledge
join_from a =
    Quot.lift Quot-set (λ b. Quot.mk (join_vectors a b))
      (λ b c h. Quot.sound (join-SameCounters_right a b c h))

join_from-mk : (a b : Vector) → join_from a (Quot.mk b) ≡ Quot.mk (join_vectors a b)
unfolding join_from
join_from-mk a b = refl

join_from-SameCounters : (a b : Vector) → SameCounters a b → join_from a ≡ join_from b
unfolding join_from
join_from-SameCounters a b h =
    fun_ext (Quot.ind (λ q. Quot-set _ _) (λ c. Quot.sound (join-SameCounters_left a b c h)))

join-assoc_counters :
    (a b c : Vector)
    → SameCounters (join_vectors (join_vectors a b) c) (join_vectors a (join_vectors b c))
join-assoc_counters a b c d =
    let bc = join_vectors b c in
    omega (
      arith,
      counter_for-join (join a.0 b.0) c.0 d c.1,
      counter_for-join a.0 b.0 d b.1,
      counter_for-join a.0 bc.0 d bc.1,
      counter_for-join b.0 c.0 d c.1,
    )

pub merge : Knowledge → Knowledge → Knowledge
unfolding join_from
merge = Quot.lift (Π_set (λ q. Quot-set)) join_from join_from-SameCounters

merge_comm : (p q : Knowledge) → merge p q ≡ merge q p
unfolding merge
merge_comm =
    Quot.ind (λ p. Π_prop λ q. Quot-set _ _)
      λ a.
        Quot.ind (λ q. Quot-set _ _)
          λ b.
            Quot.sound
              (λ d. omega (arith, counter_for-join a.0 b.0 d b.1, counter_for-join b.0 a.0 d a.1))

merge_assoc : (p q r : Knowledge) → merge (merge p q) r ≡ merge p (merge q r)
unfolding merge
merge_assoc =
    Quot.ind (λ p. Π_prop λ q. Π_prop λ r. Quot-set _ _)
      λ a.
        Quot.ind (λ q. Π_prop λ r. Quot-set _ _)
          λ b. Quot.ind (λ r. Quot-set _ _) λ c. Quot.sound (join-assoc_counters a b c)

merge_idem : (p : Knowledge) → merge p p ≡ p
unfolding merge
merge_idem =
    Quot.ind (λ p. Quot-set _ _)
      λ a. Quot.sound (λ d. omega (arith, counter_for-join a.0 a.0 d a.1))

-- Merging what devices know is commutative, associative and idempotent: the order in which
-- vectors are joined does not matter, nor how often.
pub merge-semilattice :
    (p q r : Knowledge)
    → (merge p q ≡ merge q p) × (merge (merge p q) r ≡ merge p (merge q r)) × (merge p p ≡ p)
merge-semilattice p q r = (merge_comm p q, merge_assoc p q r, merge_idem p)
