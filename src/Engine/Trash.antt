-- ===== src/Engine/Trash.antt =====
-- packages/server/src/engine/trash.ts: `TrashService`.
use obsidian_baritone.Prelude.{
  ℕ, ◌+◌, ◌*◌, Bool, false, Option, none, some, List, JsString, ltb, filter, map, ◌otherwise◌,
}
use obsidian_baritone.Unicode.{Platform}
use obsidian_baritone.Protocol.{FileOp, OpKind, bad_request}
use obsidian_baritone.Engine.Store.{InMemoryDataStore, StoredFile, OpApplyResult, list_trash}
use obsidian_baritone.Engine.Store.Tx.{sync, Tx, throw}
use obsidian_baritone.Engine.OpProcessor.{process}

pub record TrashItem : Type 0 where
  pub file_id : JsString
  pub path : JsString
  pub deleted_at : ℕ
  pub size : Option ℕ

unfoldable pub list_items : JsString → InMemoryDataStore → List TrashItem
list_items vault_id s =
    map
      (λ f. record {
        file_id = f.file_id;
        path = f.path;
        deleted_at = f.deleted_at otherwise 0;
        size = f.size;
      })
      (list_trash s vault_id)

-- `restore`
unfoldable pub restore_op : Platform → ℕ → JsString → FileOp → Option JsString → Tx OpApplyResult
restore_op os now uuid op user_id = elim op.kind [
  | OpKind.restore ↦ process os now uuid op user_id
  | _ ↦ throw (sync bad_request "restore op required")
]

-- `f.deletedAt && f.deletedAt.getTime() < cutoff`, with the days moved to the other side.
unfoldable pub is_eligible : ℕ → ℕ → StoredFile → Bool
is_eligible retention_days now file = elim file.deleted_at [
  | none ↦ false
  | some at ↦ ltb (at + retention_days * 86400000) now
]

unfoldable pub gc_eligible : ℕ → ℕ → JsString → InMemoryDataStore → List JsString
gc_eligible retention_days now vault_id s =
    map (λ f. f.file_id) (filter (is_eligible retention_days now) (list_trash s vault_id))
