-- ===== src/Clock/VersionVector/Tests.antt =====
-- Tests of the version vectors on two devices.
use obsidian_baritone.Prelude.{◌≡◌, refl, ◌↔◌, true, [], ◌∷◌, JsString, lit}
use obsidian_baritone.Prelude.Maps.{HasDistinctKeys}
use obsidian_baritone.Clock.VersionVector.{
  VersionVector, VvRelation, compare_vv, bump, join, dominates, equals, strictly_dominates,
  counter_for, code,
}
use obsidian_baritone.Clock.VersionVector.Relation.{
  Meaning, compare_vv-Meaning, bump-strictly_dominates,
}
use obsidian_baritone.Clock.VersionVector.Lattice.{join-IsLeast, equals_iff}

abbrev ours : VersionVector
ours = (lit "a", 2) ∷ (lit "b", 1) ∷ []

abbrev theirs : VersionVector
theirs = (lit "b", 3) ∷ []

ours-distinct : HasDistinctKeys ours
unfolding code
ours-distinct = (refl, (refl, tt))

theirs-distinct : HasDistinctKeys theirs
unfolding code
theirs-distinct = (refl, tt)

compare_ours : compare_vv ours theirs ≡ VvRelation.concurrent
unfolding code
compare_ours = refl

both_joined : join ours theirs ≡ (lit "a", 2) ∷ (lit "b", 3) ∷ []
unfolding code
both_joined = refl

compare_vv-Meaning_example : Meaning (compare_vv ours theirs) ours theirs
compare_vv-Meaning_example = compare_vv-Meaning ours theirs ours-distinct theirs-distinct

bump-strictly_dominates_example : strictly_dominates (bump ours (lit "b")) ours ≡ true
bump-strictly_dominates_example = bump-strictly_dominates ours (lit "b") ours-distinct

join-IsLeast_example :
    (dominates (join ours theirs) ours ≡ true)
    × (dominates (join ours theirs) theirs ≡ true)
    × (dominates (bump ours (lit "b")) ours ≡ true
        → dominates (bump ours (lit "b")) theirs ≡ true
        → dominates (bump ours (lit "b")) (join ours theirs) ≡ true)
join-IsLeast_example = join-IsLeast ours theirs (bump ours (lit "b")) ours-distinct theirs-distinct

equals_iff_example :
    (equals ours theirs ≡ true) ↔ ((d : JsString) → counter_for ours d ≡ counter_for theirs d)
equals_iff_example = equals_iff ours theirs ours-distinct theirs-distinct
