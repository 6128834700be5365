-- ===== src/Engine/OpProcessor/Frame.antt =====
-- Preparing the result of an operation changes no file, no log and no counter: only the commit
-- does.
use obsidian_baritone.Prelude.{ℕ, Option, none, some, JsString, Option-cases, inl, inr}
use obsidian_baritone.Unicode.{Platform}
use obsidian_baritone.Clock.VersionVector.{VersionVector}
use obsidian_baritone.Protocol.{FileOp, OpKind, create, update, rename, delete, restore}
use obsidian_baritone.Engine.Store.{InMemoryDataStore, StoredFile}
use obsidian_baritone.Engine.Store.Frame.{SameRecords, SameRecords-refl, Frame, frame_rules}
use obsidian_baritone.Engine.OpProcessor.Payload.{
  check_inline_text, check_blob, check_content, check_new_path, validate_payload,
}
use obsidian_baritone.Engine.OpProcessor.Apply.{
  free_path, unique_path, drop_blob_ref, update_blob_refs, add_conflict_refs, record_conflict,
  apply_update, create_file, apply_create, apply_rename, apply_delete, apply_restore, apply_kind,
}
use obsidian_baritone.Engine.OpProcessor.{check_frozen, prepare}

module _ (os : Platform) where
  Frame-check_inline_text :
      (hash : JsString) (text : Option JsString) → Frame (check_inline_text os hash text)
  unfolding check_inline_text
  Frame-check_inline_text hash text = search frame_rules

  Frame-check_blob : (op : FileOp) (blob_ref : Option JsString) → Frame (check_blob op blob_ref)
  unfolding check_blob
  Frame-check_blob op blob_ref = search frame_rules depth 8

  Frame-check_content : (op : FileOp) (hash : JsString) → Frame (check_content os op hash)
  unfolding check_content
  Frame-check_content op hash =
      search (frame_rules, Frame-check_inline_text, Frame-check_blob) depth 12

  Frame-check_new_path : (new_path : Option JsString) → Frame (check_new_path os new_path)
  unfolding check_new_path
  Frame-check_new_path new_path = search frame_rules depth 8

  Frame-validate_payload : (op : FileOp) → Frame (validate_payload os op)
  unfolding validate_payload
  Frame-validate_payload op =
      search (frame_rules, Frame-check_new_path, Frame-check_content) depth 12

  unique_path-SameRecords :
      (vault_id desired file_id : JsString) (s : InMemoryDataStore)
      → SameRecords s (unique_path os vault_id desired file_id s).1
  unfolding unique_path
  unique_path-SameRecords vault_id desired file_id s =
      elim (Option-cases (free_path os s vault_id desired file_id 9998 2 desired)) [
        | inl e ↦ rw (e, unique_path) (SameRecords-refl s)
        | inr (p, e) ↦ rw (e, unique_path) (SameRecords-refl s)
      ]

  Frame-unique_path :
      (vault_id desired file_id : JsString) → Frame (unique_path os vault_id desired file_id)
  Frame-unique_path v d f = record { at = unique_path-SameRecords v d f }

Frame-drop_blob_ref : (old : Option StoredFile) (new : StoredFile) → Frame (drop_blob_ref old new)
unfolding drop_blob_ref
Frame-drop_blob_ref old new = search frame_rules depth 8

Frame-update_blob_refs :
    (old : Option StoredFile) (new : StoredFile) → Frame (update_blob_refs old new)
unfolding update_blob_refs
Frame-update_blob_refs old new = search (frame_rules, Frame-drop_blob_ref) depth 8

Frame-add_conflict_refs :
    (conflict_id : JsString) (ours theirs : Option JsString)
    → Frame (add_conflict_refs conflict_id ours theirs)
unfolding add_conflict_refs
Frame-add_conflict_refs conflict_id ours theirs = search frame_rules depth 8

ruleset blob_rules =
    (frame_rules, Frame-update_blob_refs, Frame-add_conflict_refs, Frame-unique_path)

module _ (os : Platform) (now : ℕ) (uuid : JsString) where
  Frame-record_conflict :
      (op : FileOp) (file : StoredFile) (vv : VersionVector)
      → Frame (record_conflict os now uuid op file vv)
  unfolding record_conflict
  Frame-record_conflict op file vv = search blob_rules depth 8

  Frame-apply_update : (op : FileOp) (file : StoredFile) → Frame (apply_update os now uuid op file)
  unfolding apply_update
  Frame-apply_update op file = search (blob_rules, Frame-record_conflict) depth 8

  Frame-create_file : (op : FileOp) → Frame (create_file os now uuid op)
  unfolding create_file
  Frame-create_file op = search blob_rules depth 10

  Frame-apply_create :
      (op : FileOp) (file : Option StoredFile) → Frame (apply_create os now uuid op file)
  unfolding apply_create
  Frame-apply_create op none = Frame-create_file op
  Frame-apply_create op (some file) = search (frame_rules, Frame-create_file, Frame-apply_update)

  Frame-apply_rename : (op : FileOp) (file : StoredFile) → Frame (apply_rename os now uuid op file)
  unfolding apply_rename
  Frame-apply_rename op file = search blob_rules depth 12

  Frame-apply_delete : (op : FileOp) (file : StoredFile) → Frame (apply_delete os now uuid op file)
  unfolding apply_delete
  Frame-apply_delete op file = search frame_rules

  Frame-apply_restore :
      (op : FileOp) (file : StoredFile) → Frame (apply_restore os now uuid op file)
  unfolding apply_restore
  Frame-apply_restore op file = search blob_rules depth 12

  Frame-apply_kind :
      (op : FileOp) (kind : OpKind) (file : Option StoredFile)
      → Frame (apply_kind os now uuid op kind file)
  unfolding apply_kind
  Frame-apply_kind op create file = Frame-apply_create op file
  Frame-apply_kind op update file = search (frame_rules, Frame-apply_update)
  Frame-apply_kind op rename file = search (frame_rules, Frame-apply_rename)
  Frame-apply_kind op delete file = search (frame_rules, Frame-apply_delete)
  Frame-apply_kind op restore file = search (frame_rules, Frame-apply_restore)

  Frame-check_frozen : (op : FileOp) (file : Option StoredFile) → Frame (check_frozen now op file)
  unfolding check_frozen
  Frame-check_frozen op none = search frame_rules
  Frame-check_frozen op (some file) = search frame_rules

  pub Frame-prepare : (op : FileOp) → Frame (prepare os now uuid op)
  unfolding prepare
  Frame-prepare op =
      search (frame_rules, Frame-validate_payload, Frame-check_frozen, Frame-apply_kind) depth 10
