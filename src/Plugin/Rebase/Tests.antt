-- ===== src/Plugin/Rebase/Tests.antt =====
-- Tests of rebasing: a draft made from an older vector of the same device.
use obsidian_baritone.Prelude.{◌≡◌, refl, ◌≤◌, ◌+◌, [], ◌∷◌, JsString, lit}
use obsidian_baritone.Clock.VersionVector.{VersionVector, counter_for, code}
use obsidian_baritone.Plugin.Rebase.{rebased, rebase_content_draft}
use obsidian_baritone.Plugin.Rebase.Laws.{rebased_covers}

abbrev base : VersionVector
base = (lit "a", 1) ∷ []

abbrev remote : VersionVector
remote = (lit "a", 1) ∷ (lit "b", 2) ∷ []

abbrev next : VersionVector
next = (lit "a", 2) ∷ (lit "b", 2) ∷ []

rebase_runs : rebase_content_draft base remote (lit "a") ≡ rebased remote next
unfolding rebase_content_draft code
rebase_runs = refl

rebased_covers_example :
    (remote ≡ remote)
    × ((d : JsString) → counter_for remote d ≤ counter_for next d)
    × ((d : JsString) → counter_for base d ≤ counter_for next d)
    × (counter_for next (lit "a") ≡ counter_for remote (lit "a") + 1)
rebased_covers_example = rebased_covers base remote remote next (lit "a") rebase_runs
