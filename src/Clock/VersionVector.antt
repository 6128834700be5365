-- ===== src/Clock/VersionVector.antt =====
-- packages/shared/src/clock/version-vector.ts. A vector is an object from device ids to counters;
-- counters are natural numbers, as ws/validation.ts demands of every vector that arrives.
pub mod Order
pub mod Relation
pub mod Lattice
pub mod Tests
use obsidian_baritone.Prelude.{
  ℕ, suc, ◌+◌, Bool, true, false, not, ◌&&◌, List, [], ◌∷◌, JsString, ltb, if◌then◌else◌,
  ◌otherwise◌, str_eq,
}
use obsidian_baritone.Prelude.Maps.{JsMap, get, set}

abbrev pub VersionVector : Type 0
VersionVector = JsMap ℕ

-- `EMPTY_VV`
abbrev pub empty_vv : VersionVector
empty_vv = []

-- `counterFor`
unfoldable pub counter_for : VersionVector → JsString → ℕ
counter_for vv device = get device vv otherwise 0

unfoldable pub bump : VersionVector → JsString → VersionVector
bump vv device = set device (counter_for vv device + 1) vv

-- One round of the loop of `join`.
unfoldable pub raise : VersionVector → JsString → ℕ → VersionVector
raise result device counter =
    if ltb (counter_for result device) counter then set device counter result else result

unfoldable pub join : VersionVector → VersionVector → VersionVector
join a [] = a
join a ((device, counter) ∷ b) = join (raise a device counter) b

unfoldable pub dominates : VersionVector → VersionVector → Bool
dominates a [] = true
dominates a ((device, counter) ∷ b) =
    if ltb (counter_for a device) counter then false else dominates a b

unfoldable pub equals : VersionVector → VersionVector → Bool
equals a b = dominates a b && dominates b a

unfoldable pub strictly_dominates : VersionVector → VersionVector → Bool
strictly_dominates a b = dominates a b && not (dominates b a)

unfoldable pub is_concurrent : VersionVector → VersionVector → Bool
is_concurrent a b = not (dominates a b) && not (dominates b a)

-- `VVRelation`
pub data VvRelation : Type 0 where
  equal : VvRelation
  dominating : VvRelation
  dominated : VvRelation
  concurrent : VvRelation

-- `compareVV`
unfoldable pub compare_vv : VersionVector → VersionVector → VvRelation
compare_vv a b =
    if dominates a b && dominates b a
    then equal
    else if dominates a b
    then dominating
    else if dominates b a
    then dominated
    else concurrent

-- Opens the file's functions, for tests that run them.
unfoldable pub code : Unit {0}
unfolding counter_for get set str_eq bump raise join dominates equals strictly_dominates
    is_concurrent compare_vv
code = tt
