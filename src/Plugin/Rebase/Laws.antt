-- ===== src/Plugin/Rebase/Laws.antt =====
-- apps/plugin/src/sync/rebase.ts: when a draft is rebased, and what its vector then covers.
use obsidian_baritone.Prelude.{
  ◌≡◌, ◌∙◌, ◌+◌, ◌≤◌, Bool, true, false, JsString, str_eq_iff, str_eq_refl, sym, ap, arith,
}
use obsidian_baritone.Clock.VersionVector.{VersionVector, counter_for, bump, compare_vv, dominates}
use obsidian_baritone.Clock.VersionVector.Order.{dominates-le, counter_for-bump}
use obsidian_baritone.Plugin.Rebase.{RebaseResult, rebased, refused, rebase_content_draft}

abbrev is_rebased : RebaseResult → Bool
is_rebased (rebased base next) = true
is_rebased (refused reason) = false

-- A draft is rebased exactly when the remote vector dominates the one that it was made from.
pub is_rebased_iff :
    (local_base remote : VersionVector) (device_id : JsString)
    → is_rebased (rebase_content_draft local_base remote device_id) ≡ dominates remote local_base
unfolding rebase_content_draft compare_vv
is_rebased_iff local_base remote device_id = ground arith

rebase-value :
    (local_base remote : VersionVector) (device_id : JsString)
    → dominates remote local_base ≡ true
    → rebase_content_draft local_base remote device_id ≡ rebased remote (bump remote device_id)
unfolding rebase_content_draft compare_vv
rebase-value local_base remote device_id h = ground (arith, h)

bump-le : (a : VersionVector) (k d : JsString) → counter_for a d ≤ counter_for (bump a k) d
bump-le a k d = ground (arith, counter_for-bump a k d, str_eq_iff k d)

bump_self : (a : VersionVector) (k : JsString) → counter_for (bump a k) k ≡ counter_for a k + 1
bump_self a k = simp (counter_for-bump, str_eq_refl)

rebased-same : {a b c d : VersionVector} → rebased a b ≡ rebased c d → (c ≡ a) × (d ≡ b)
rebased-same e = (cc, cc)

-- When a draft is rebased, its base is the remote vector, and its new vector counts, for every
-- device, no less than the remote vector and than the vector that the draft was made from; for the
-- device itself it counts one more than the remote vector.
pub rebased_covers :
    (local_base remote base next : VersionVector) (device_id : JsString)
    → rebase_content_draft local_base remote device_id ≡ rebased base next
    → (base ≡ remote)
      × ((d : JsString) → counter_for remote d ≤ counter_for next d)
      × ((d : JsString) → counter_for local_base d ≤ counter_for next d)
      × (counter_for next device_id ≡ counter_for remote device_id + 1)
rebased_covers local_base remote base next device_id e =
    let ahead : dominates remote local_base ≡ true =
      sym (is_rebased_iff local_base remote device_id) ∙ ap is_rebased e in
    let (at_base, at_next) =
      rebased-same (sym (rebase-value local_base remote device_id ahead) ∙ e) in
    rw at_next (
      at_base,
      λ d. bump-le remote device_id d,
      λ d. omega (arith, dominates-le remote local_base d ahead, bump-le remote device_id d),
      bump_self remote device_id,
    )
