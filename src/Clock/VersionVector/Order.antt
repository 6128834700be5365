-- ===== src/Clock/VersionVector/Order.antt =====
-- `dominates`, `join` and `bump` read counter by counter.
use obsidian_baritone.Prelude.{
  ℕ, ◌+◌, ◌≤◌, ◌<◌, max, ◌≡◌, ◌↔◌, inl, inr, true, false, none, [], ◌∷◌, arith, JsString, ltb,
  if◌then◌else◌, str_eq, str_eq_iff, Bool-cases, str_eq_refl,
}
use obsidian_baritone.Prelude.Maps.{get, set, get-set, HasDistinctKeys, set-HasDistinctKeys}
use obsidian_baritone.Clock.VersionVector.{VersionVector, counter_for, bump, raise, join, dominates}

pub counter_for-cons :
    (k : JsString) (c : ℕ) (b : VersionVector) (d : JsString)
    → counter_for ((k, c) ∷ b) d ≡ (if str_eq k d then c else counter_for b d)
unfolding counter_for get
counter_for-cons k c b d = ground arith

counter_for-set :
    (k : JsString) (c : ℕ) (a : VersionVector) (d : JsString)
    → counter_for (set k c a) d ≡ (if str_eq k d then c else counter_for a d)
counter_for-set k c a d = unfold counter_for in ground (arith, get-set k d c a)

counter_for_absent : (k : JsString) (b : VersionVector) → get k b ≡ none → counter_for b k ≡ 0
counter_for_absent k b h = unfold counter_for in rw h

-- What `a` dominates it has seen, device by device.
pub dominates-le :
    (a b : VersionVector) (d : JsString) → dominates a b ≡ true → counter_for b d ≤ counter_for a d
unfolding dominates
dominates-le a [] d h = unfold counter_for get in omega arith
dominates-le a ((k, c) ∷ b) d h =
    ground (arith, counter_for-cons k c b d, dominates-le a b d, str_eq_iff k d)

ahead-cons :
    (k : JsString) (c : ℕ) (b : VersionVector) (d : JsString) (n : ℕ)
    → get k b ≡ none
    → n < counter_for b d
    → n < counter_for ((k, c) ∷ b) d
ahead-cons k c b d n h p =
    ground (arith, counter_for-cons k c b d, str_eq_iff k d, counter_for_absent k b h)

-- A device of which `b` has seen more than `a`, when `a` does not dominate `b`.
pub ahead :
    (a b : VersionVector)
    → HasDistinctKeys b
    → dominates a b ≡ false
    → (d : JsString) × (counter_for a d < counter_for b d)
unfolding dominates
ahead a [] r h = absurd (cc)
ahead a ((k, c) ∷ b) r h = elim (Bool-cases (ltb (counter_for a k) c)) [
  | inl less ↦ (k, ground (arith, counter_for-cons k c b k, str_eq_refl k))
  | inr more ↦
      let (d, p) = ahead a b r.1 (rw more at h) in (d, ahead-cons k c b d (counter_for a d) r.0 p)
]

-- `dominates` is the pointwise order.
pub dominates_iff :
    (a b : VersionVector)
    → HasDistinctKeys b
    → (dominates a b ≡ true) ↔ ((d : JsString) → counter_for b d ≤ counter_for a d)
dominates_iff a b r = (
  λ h d. dominates-le a b d h,
  λ all. elim (Bool-cases (dominates a b)) [
    | inl e ↦ e
    | inr e ↦ let (d, p) = ahead a b r e in absurd (omega (arith, all d))
  ],
)

counter_for-raise :
    (a : VersionVector) (k : JsString) (c : ℕ) (d : JsString)
    → counter_for (raise a k c) d
      ≡ (if str_eq k d then max (counter_for a d) c else counter_for a d)
unfolding raise
counter_for-raise a k c d = ground (arith, counter_for-set k c a d, str_eq_iff k d)

raise-HasDistinctKeys :
    (a : VersionVector) (k : JsString) (c : ℕ) → HasDistinctKeys a → HasDistinctKeys (raise a k c)
unfolding raise
raise-HasDistinctKeys a k c h = elim (Bool-cases (ltb (counter_for a k) c)) [
  | inl e ↦ rw e (set-HasDistinctKeys k c a h)
  | inr e ↦ rw e h
]

pub join-HasDistinctKeys : (a b : VersionVector) → HasDistinctKeys a → HasDistinctKeys (join a b)
unfolding join
join-HasDistinctKeys a [] h = h
join-HasDistinctKeys a ((k, c) ∷ b) h =
    join-HasDistinctKeys (raise a k c) b (raise-HasDistinctKeys a k c h)

pub bump-HasDistinctKeys :
    (a : VersionVector) (k : JsString) → HasDistinctKeys a → HasDistinctKeys (bump a k)
unfolding bump
bump-HasDistinctKeys a k h = set-HasDistinctKeys k _ a h

-- `join` is the pointwise maximum.
pub counter_for-join :
    (a b : VersionVector) (d : JsString)
    → HasDistinctKeys b
    → counter_for (join a b) d ≡ max (counter_for a d) (counter_for b d)
unfolding join
counter_for-join a [] d r = unfold counter_for get in omega arith
counter_for-join a ((k, c) ∷ b) d r = ground (
  arith,
  counter_for-join (raise a k c) b d r.1,
  counter_for-raise a k c d,
  counter_for-cons k c b d,
  counter_for_absent k b r.0,
  str_eq_iff k d,
)

-- `bump` adds one to the counter of its device and leaves the others.
pub counter_for-bump :
    (a : VersionVector) (k d : JsString)
    → counter_for (bump a k) d ≡ (if str_eq k d then counter_for a k + 1 else counter_for a d)
unfolding bump
counter_for-bump a k d = counter_for-set k _ a d
