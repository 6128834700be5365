-- ===== src/Plugin/Rebase.antt =====
-- apps/plugin/src/sync/rebase.ts: the vectors for a local draft after the remote file has moved on.
pub mod Laws
pub mod Tests
use obsidian_baritone.Prelude.{JsString}
use obsidian_baritone.Clock.VersionVector.{VersionVector, VvRelation, bump, compare_vv}

pub data RebaseReason : Type 0 where
  concurrent : RebaseReason
  already_applied : RebaseReason

pub data RebaseResult : Type 0 where
  rebased : VersionVector → VersionVector → RebaseResult
  refused : RebaseReason → RebaseResult

unfoldable pub rebase_content_draft : VersionVector → VersionVector → JsString → RebaseResult
rebase_content_draft local_base remote_current device_id =
    elim (compare_vv remote_current local_base) [
      | VvRelation.concurrent ↦ refused RebaseReason.concurrent
      | VvRelation.equal ↦ rebased remote_current (bump remote_current device_id)
      | VvRelation.dominating ↦ rebased remote_current (bump remote_current device_id)
      | VvRelation.dominated ↦ refused already_applied
    ]
