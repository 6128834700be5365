-- ===== src/Plugin/Engine/ApplyOp.antt =====
-- apps/plugin/src/sync/engine.ts: what `applyOp` does to the vault and to the index.
use obsidian_baritone.Prelude.{
  ℕ, max, Bool, false, not, ◌&&◌, Option, none, some, JsString, if◌then◌else◌, str_eq, ◌otherwise◌,
  or_else, ok, truthy, is_some,
}
use obsidian_baritone.Clock.VersionVector.{VersionVector, empty_vv}
use obsidian_baritone.Clock.Lamport.{PathClock}
use obsidian_baritone.Protocol.{FileOp, OpKind}
use obsidian_baritone.Plugin.LocalIndex.{FileIndexEntry, by_file_id, mark_deleted, upsert_file}
use obsidian_baritone.Plugin.Engine.{Surroundings, SyncEngine, is_text_path}
use obsidian_baritone.Plugin.Engine.Step.{Step, ◌>>=◌, ◌>>◌, pure, asks, changes, writes, when}
use obsidian_baritone.Plugin.Engine.Content.{fetch_content_bytes, fetch_and_write_blob}

module _ {V : Type 0} (around : Surroundings V) where
  abbrev observe : Option PathClock → ℕ → ℕ
  observe none lamport = lamport
  observe (some clock) lamport = max lamport clock.lamport

  -- The counter after the clocks of an operation.
  unfoldable pub observe_op : FileOp → SyncEngine V → SyncEngine V
  observe_op op e = record e { lamport = observe op.delete_clock (observe op.path_clock e.lamport) }

  abbrev path_of : Option FileIndexEntry → Option JsString
  path_of none = none
  path_of (some entry) = some entry.path

  -- The branch of `applyOp` for deletions.
  unfoldable pub apply_delete : FileOp → Option FileIndexEntry → Step V (Unit {0})
  apply_delete op none e = (ok tt, record e { index = mark_deleted op.file_id e.index })
  apply_delete op (some entry) e =
      (do
        when (around.exists entry.path e.vault)
            (writes (around.trash entry.path e.settings.trashes_in_system))
        changes λ e'. record e' { index = mark_deleted op.file_id e'.index })
        e

  -- The branch for renames of a file that the index has.
  unfoldable pub apply_rename :
      FileOp → FileIndexEntry → JsString → Option PathClock → Step V (Unit {0})
  apply_rename op entry new_path path_clock e =
      (do
        when (not (str_eq entry.path new_path) && around.exists entry.path e.vault)
            (writes (around.rename entry.path new_path))
        changes λ e'. record e' {
          index =
              upsert_file around.os
                (record entry { path = new_path; path_clock = or_else path_clock op.path_clock })
                (some entry.path_normalized) e'.index;
        })
        e

  unfoldable pub live_text : Option JsString → JsString → Step V JsString
  live_text (some text) hash = pure text
  live_text none hash = do
    bytes ← fetch_content_bytes around hash none
    pure (around.decode_utf8 bytes)

  -- Content for a file that is edited live, and then for any other.
  unfoldable pub write_live : FileOp → JsString → JsString → Step V (Unit {0})
  write_live op target hash = do
    text ← live_text op.inline_text hash
    active ← asks λ v. around.reconcile op.file_id text hash
    when (not active) (writes (around.write_text target text))

  unfoldable pub write_given : FileOp → Option JsString → JsString → JsString → Step V (Unit {0})
  write_given op (some text) target hash = writes (around.write_text target text)
  write_given op none target hash = fetch_and_write_blob around target hash op.content_encoding

  unfoldable pub write_plain : FileOp → JsString → JsString → Step V (Unit {0})
  write_plain op target hash = write_given op op.inline_text target hash

  abbrev pub is_live : FileOp → JsString → Bool
  is_live op target =
      not (is_some op.content_encoding) && around.has_session op.file_id && is_text_path target

  abbrev pub entry_after :
      FileOp
      → JsString
      → JsString
      → Option FileIndexEntry
      → Option VersionVector
      → Option PathClock
      → FileIndexEntry
  entry_after op target hash entry content_vv path_clock = record {
    file_id = op.file_id;
    path = target;
    path_normalized = target;
    type = op.type;
    content_hash = some hash;
    size = op.size otherwise 0;
    applied_content_vv = content_vv otherwise (op.new_content_vv otherwise empty_vv);
    path_clock = elim path_clock [
      | some clock ↦ some clock
      | none ↦ elim entry [ some known ↦ known.path_clock | none ↦ none ]
    ];
    is_dir = false;
    mtime = around.now;
    deleted = false;
  }

  -- The branch for content; `content_vv` and `path_clock` are those that the server answered with.
  unfoldable pub apply_content :
      FileOp
      → JsString
      → JsString
      → Option FileIndexEntry
      → Option VersionVector
      → Option PathClock
      → Step V (Unit {0})
  apply_content op target hash entry content_vv path_clock = do
    if is_live op target then write_live op target hash else write_plain op target hash
    changes λ e. record e {
      index =
          upsert_file around.os (entry_after op target hash entry content_vv path_clock) none
            e.index;
    }

  abbrev pub content_target : FileOp → Option FileIndexEntry → Option JsString
  content_target op entry = elim (or_else op.new_path (path_of entry)) [
    | none ↦ none
    | some target ↦
        if truthy (some target) && not (around.refuses_config target) then some target else none
  ]

  unfoldable pub apply_to :
      FileOp
      → Option JsString
      → Option JsString
      → Option FileIndexEntry
      → Option VersionVector
      → Option PathClock
      → Step V (Unit {0})
  apply_to op (some hash) (some target) entry content_vv path_clock =
      if truthy (some hash)
      then apply_content op target hash entry content_vv path_clock
      else pure tt
  apply_to op _ _ entry content_vv path_clock = pure tt

  unfoldable pub apply_write :
      FileOp → Option FileIndexEntry → Option VersionVector → Option PathClock → Step V (Unit {0})
  apply_write op entry content_vv path_clock =
      apply_to op op.content_hash (content_target op entry) entry content_vv path_clock

  unfoldable pub apply_named_rename :
      FileOp → Option FileIndexEntry → Option JsString → Option PathClock → Step V (Unit {0})
  apply_named_rename op (some entry) (some new_path) path_clock =
      if truthy (some new_path) then apply_rename op entry new_path path_clock else pure tt
  apply_named_rename op _ _ path_clock = pure tt

  unfoldable pub apply_kind :
      OpKind
      → FileOp
      → Option FileIndexEntry
      → Option VersionVector
      → Option PathClock
      → Step V (Unit {0})
  apply_kind OpKind.delete op entry content_vv path_clock = apply_delete op entry
  apply_kind OpKind.rename op entry content_vv path_clock =
      apply_named_rename op entry op.new_path path_clock
  apply_kind OpKind.create op entry content_vv path_clock =
      apply_write op entry content_vv path_clock
  apply_kind OpKind.update op entry content_vv path_clock =
      apply_write op entry content_vv path_clock
  apply_kind OpKind.restore op entry content_vv path_clock =
      apply_write op entry content_vv path_clock

  -- `applyOp`
  unfoldable pub apply_op : FileOp → Option VersionVector → Option PathClock → Step V (Unit {0})
  apply_op op content_vv path_clock e =
      apply_kind op.kind op (by_file_id op.file_id e.index) content_vv path_clock (observe_op op e)
