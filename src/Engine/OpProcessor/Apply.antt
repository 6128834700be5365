-- ===== src/Engine/OpProcessor/Apply.antt =====
-- packages/server/src/engine/op-processor.ts: what each kind of operation does to its file. `now` is the
-- time of the call, `uuid` the random id that `createConflict` takes if it makes a new conflict.
use obsidian_baritone.Prelude.{
  ℕ, zero, suc, ◌+◌, Bool, true, false, not, ◌&&◌, Option, none, some, [], JsString, lit, leb,
  if◌then◌else◌, str_eq, nonempty, ◌otherwise◌, or_else, Result, ok, err, opt_eq, String,
}
use obsidian_baritone.Clock.VersionVector.{VersionVector, join, dominates, is_concurrent}
use obsidian_baritone.Clock.Lamport.{PathClock, path_clock_wins}
use obsidian_baritone.Unicode.{Platform}
use obsidian_baritone.Path.{case_fold_path}
use obsidian_baritone.Path.Parts.{suffix_path}
use obsidian_baritone.Protocol.{
  FileType, attachment, OpKind, create, update, rename, delete, restore, FileOp, ConflictKind,
  bad_request, illegal_path, not_found, stale,
}
use obsidian_baritone.Engine.Store.{
  InMemoryDataStore, StoredFile, BlobRef, key_of, find_live_file_by_path,
}
use obsidian_baritone.Engine.Store.Tx.{
  Thrown, sync, Tx, pure, throw, lift, when_some, when, ◌>>=◌, ◌>>◌, ConflictInput, add_blob_ref,
  remove_blob_ref, create_conflict,
}
use obsidian_baritone.Engine.OpProcessor.Payload.{max_safe_integer, normalized}

-- `newStoredFile` of store.ts
module _ (os : Platform) (now : ℕ) where
  unfoldable pub new_stored_file : FileOp → JsString → PathClock → StoredFile
  new_stored_file op path path_clock = record {
    file_id = op.file_id;
    vault_id = op.vault_id;
    type = op.type;
    path = path;
    path_normalized = case_fold_path os path;
    path_clock = path_clock;
    content_vv = op.new_content_vv otherwise [];
    content_hash = or_else op.content_hash op.blob_ref;
    size = op.size;
    blob_ref = op.blob_ref;
    content_encoding = op.content_encoding;
    delete_vv = none;
    deleted = false;
    deleted_at = none;
    epoch = 0;
    conflict_id = none;
    active_until = none;
    updated_at = now;
  }

-- The loop of `uniquePath`; `rounds` is the number of candidates left.
unfoldable pub free_path :
    Platform
    → InMemoryDataStore
    → JsString
    → JsString
    → JsString
    → ℕ
    → ℕ
    → JsString
    → Option JsString
free_path os s vault_id desired file_id zero n candidate = none
free_path os s vault_id desired file_id (suc rounds) n candidate =
    let next = free_path os s vault_id desired file_id rounds (n + 1) (suffix_path desired n) in
    elim (find_live_file_by_path s vault_id (os.lower candidate)) [
      | none ↦ some candidate
      | some collision ↦ if str_eq collision.file_id file_id then some candidate else next
    ]

-- `for (let n = 2; n < 10_000; n += 1)`
abbrev path_rounds : ℕ
path_rounds = 9998

-- `uniquePath`
unfoldable pub unique_path : Platform → JsString → JsString → JsString → Tx JsString
unique_path os vault_id desired file_id s =
    elim (free_path os s vault_id desired file_id path_rounds 2 desired) [
      | some path ↦ (ok path, s)
      | none ↦ (err (sync illegal_path "Unable to allocate a collision-free path"), s)
    ]

-- The references that a live file and the sides of a conflict hold.
abbrev live_ref : JsString → JsString → BlobRef
live_ref hash file_id = record { hash = hash; ref_type = lit "file_live"; ref_id = file_id }

abbrev side_ref : JsString → JsString → String → BlobRef
side_ref hash conflict_id side = record {
  hash = hash;
  ref_type = lit "conflict_side";
  ref_id = key_of conflict_id (lit side);
}

-- The first line of `updateBlobRefs`: what the old file referred to and the new one does not.
unfoldable pub drop_blob_ref : Option StoredFile → StoredFile → Tx (Unit {0})
drop_blob_ref old_file new_file = when_some old_file λ old. when_some old.blob_ref λ hash.
    when (nonempty hash && not (opt_eq old.blob_ref new_file.blob_ref))
      (remove_blob_ref (live_ref hash old.file_id))

-- `updateBlobRefs`
unfoldable pub update_blob_refs : Option StoredFile → StoredFile → Tx (Unit {0})
update_blob_refs old_file new_file = do
  drop_blob_ref old_file new_file
  when_some new_file.blob_ref
      λ hash. when (nonempty hash) (add_blob_ref (live_ref hash new_file.file_id))

-- `addConflictRefs`
unfoldable pub add_conflict_refs : JsString → Option JsString → Option JsString → Tx (Unit {0})
add_conflict_refs conflict_id ours theirs = do
  when_some ours λ hash. when (nonempty hash) (add_blob_ref (side_ref hash conflict_id "ours"))
  when_some theirs λ hash. when (nonempty hash) (add_blob_ref (side_ref hash conflict_id "theirs"))

abbrev conflict_kind : FileType → ConflictKind
conflict_kind attachment = ConflictKind.attachment
conflict_kind _ = ConflictKind.content

-- The result of an operation: its file, and the conflict that it ran into.
abbrev pub Outcome : Type 0
Outcome = StoredFile × Option JsString

abbrev concurrent_input : FileOp → StoredFile → VersionVector → ConflictInput
concurrent_input op file new_vv = record {
  vault_id = op.vault_id;
  file_id = op.file_id;
  kind = conflict_kind op.type;
  base_hash = op.content_hash;
  ours_hash = file.content_hash;
  theirs_hash = or_else op.content_hash op.blob_ref;
  ours_vv = some file.content_vv;
  theirs_vv = some new_vv;
}

-- The file that a dominating update leaves.
unfoldable pub updated_file : ℕ → FileOp → StoredFile → VersionVector → StoredFile
updated_file now op file new_vv = record file {
  content_vv = new_vv;
  content_hash = or_else op.content_hash (or_else op.blob_ref file.content_hash);
  size = or_else op.size file.size;
  blob_ref = op.blob_ref;
  content_encoding = op.content_encoding;
  deleted = false;
  deleted_at = none;
  conflict_id = none;
  updated_at = now;
}

-- `clock` as `requiredPathClock` wants it
unfoldable pub is_sound_clock : PathClock → Bool
is_sound_clock clock = leb clock.lamport max_safe_integer && nonempty clock.device_id

-- `requiredPathClock`
unfoldable pub required_path_clock : Option PathClock → Result Thrown PathClock
required_path_clock none = err (sync bad_request "Invalid path clock")
required_path_clock (some clock) =
    if is_sound_clock clock then ok clock else err (sync bad_request "Invalid path clock")

-- `requiredFile`
unfoldable pub required_file : Option StoredFile → Result Thrown StoredFile
required_file none = err (sync not_found "File not found")
required_file (some file) = ok file

module _ (os : Platform) (now : ℕ) (uuid : JsString) where
  -- The branch of `applyUpdate` for concurrent versions.
  unfoldable pub record_conflict : FileOp → StoredFile → VersionVector → Tx Outcome
  record_conflict op file new_vv = do
    conflict ← create_conflict uuid (concurrent_input op file new_vv)
    add_conflict_refs conflict.conflict_id file.blob_ref op.blob_ref
    pure (
      record file { conflict_id = some conflict.conflict_id; updated_at = now },
      some conflict.conflict_id,
    )

  -- `applyUpdate`
  unfoldable pub apply_update : FileOp → StoredFile → Tx Outcome
  apply_update op file =
      let new_vv : VersionVector = op.new_content_vv otherwise [] in
      if dominates new_vv file.content_vv
      then (do
        update_blob_refs (some file) (updated_file now op file new_vv)
        pure (updated_file now op file new_vv, none))
      else if is_concurrent new_vv file.content_vv
      then record_conflict op file new_vv
      else throw (sync stale "Content version does not dominate stored version")

  -- The rest of `applyCreate`, for a file that is new or was deleted.
  unfoldable pub create_file : FileOp → Tx Outcome
  create_file op = do
    desired ← lift (normalized os (op.new_path otherwise op.file_id))
    path ← unique_path os op.vault_id desired op.file_id
    let clock = op.path_clock otherwise (record { lamport = 1; device_id = op.device_id })
    let file = new_stored_file os now op path clock
    update_blob_refs none file
    pure (file, none)

  -- `applyCreate`
  unfoldable pub apply_create : FileOp → Option StoredFile → Tx Outcome
  apply_create op none = create_file op
  apply_create op (some existing) =
      if existing.deleted then create_file op else apply_update op existing

  -- `applyRename`
  unfoldable pub apply_rename : FileOp → StoredFile → Tx Outcome
  apply_rename op file = do
    incoming ← lift (required_path_clock op.path_clock)
    if not (path_clock_wins incoming file.path_clock) then pure (file, none) else do
      desired ← lift (normalized os (op.new_path otherwise file.path))
      path ← unique_path os op.vault_id desired op.file_id
      pure (
        record file {
          path = path;
          path_normalized = os.lower path;
          path_clock = incoming;
          updated_at = now;
        },
        none,
      )

  -- `applyDelete`
  unfoldable pub apply_delete : FileOp → StoredFile → Tx Outcome
  apply_delete op file = pure (
    record file {
      delete_vv = some (op.new_content_vv otherwise (op.base_content_vv otherwise file.content_vv));
      deleted = true;
      deleted_at = some now;
      updated_at = now;
    },
    none,
  )

  unfoldable pub restored_file : FileOp → StoredFile → JsString → StoredFile
  restored_file op file path = record file {
    path = path;
    path_normalized = os.lower path;
    content_vv = join (file.delete_vv otherwise []) (op.new_content_vv otherwise file.content_vv);
    content_hash = or_else op.content_hash file.content_hash;
    size = or_else op.size file.size;
    blob_ref = or_else op.blob_ref file.blob_ref;
    content_encoding = or_else op.content_encoding file.content_encoding;
    delete_vv = none;
    deleted = false;
    deleted_at = none;
    epoch = file.epoch + 1;
    conflict_id = none;
    updated_at = now;
  }

  -- `applyRestore`
  unfoldable pub apply_restore : FileOp → StoredFile → Tx Outcome
  apply_restore op file = do
    desired ← lift (normalized os (op.new_path otherwise file.path))
    path ← unique_path os op.vault_id desired op.file_id
    update_blob_refs (some file) (restored_file op file path)
    pure (restored_file op file path, none)

  -- An operation on a file that must be there.
  abbrev on_file : Option StoredFile → (StoredFile → Tx Outcome) → Tx Outcome
  on_file file f = do required ← lift (required_file file); f required

  -- The `if`/`else` chain of `process` over the kinds.
  unfoldable pub apply_kind : FileOp → OpKind → Option StoredFile → Tx Outcome
  apply_kind op create file = apply_create op file
  apply_kind op update file = on_file file (apply_update op)
  apply_kind op rename file = on_file file (apply_rename op)
  apply_kind op delete file = on_file file (apply_delete op)
  apply_kind op restore file = on_file file (apply_restore op)

-- Opens the file's functions, for tests that run them.
unfoldable pub code : Unit {0}
unfolding new_stored_file free_path unique_path drop_blob_ref update_blob_refs add_conflict_refs
    updated_file is_sound_clock required_path_clock required_file record_conflict apply_update
    create_file apply_create apply_rename apply_delete restored_file apply_restore apply_kind
code = tt
