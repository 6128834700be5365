-- ===== src/Plugin/Engine/Gate.antt =====
-- apps/plugin/src/sync/engine.ts: applying an operation sends none.
use obsidian_baritone.Prelude.{
  refl, false, not, ◌&&◌, Option, none, some, List, JsString, ok, any, str_eq,
}
use obsidian_baritone.Clock.VersionVector.{VersionVector}
use obsidian_baritone.Clock.Lamport.{PathClock}
use obsidian_baritone.Protocol.{FileOp, OpKind, ContentEncryptionEncoding}
use obsidian_baritone.Protocol.ClientMessage.{ClientMessage}
use obsidian_baritone.Plugin.LocalIndex.{FileIndexEntry, by_file_id, upsert_file, mark_deleted}
use obsidian_baritone.Plugin.Engine.{Surroundings, SyncEngine}
use obsidian_baritone.Plugin.Engine.Step.{changes, writes, when}
use obsidian_baritone.Plugin.Engine.Content.{
  plain_hash, encrypted_hash, encrypted_bytes, hash_path, present_hash, has_hash, remember_hash,
  fetch_content_bytes, has_downloaded, download, fetch_and_write_blob,
}
use obsidian_baritone.Plugin.Engine.ApplyOp.{
  live_text, write_given, is_live, apply_to, apply_named_rename, observe_op, apply_delete,
  apply_rename, write_live, write_plain, apply_content, apply_write, apply_kind, apply_op,
}
use obsidian_baritone.Plugin.Engine.Progress.{
  SameProgress, Quiet, SameProgress-refl, SameProgress-trans, Quiet-asks, Quiet-if, Quiet-bind,
  Quiet-writes, Quiet-when, send-SameProgress, if-SameProgress, quiet_rules,
}

module _ {V : Type 0} (around : Surroundings V) where
  Quiet-plain_hash : (path : JsString) → Quiet (plain_hash around path)
  unfolding plain_hash
  Quiet-plain_hash path = search quiet_rules

  Quiet-encrypted_hash : (path : JsString) → Quiet (encrypted_hash around path)
  unfolding encrypted_hash encrypted_bytes
  Quiet-encrypted_hash path = search quiet_rules

  Quiet-hash_path : (path : JsString) → Quiet (hash_path around path)
  unfolding hash_path
  Quiet-hash_path path = record {
    at = λ e.
        if-SameProgress (not e.settings.encrypts) e (plain_hash around path e)
          (encrypted_hash around path e) ((Quiet-plain_hash path).at e)
          ((Quiet-encrypted_hash path).at e);
  }

  Quiet-fetch :
      (hash : JsString) (encoding : Option ContentEncryptionEncoding)
      → Quiet (fetch_content_bytes around hash encoding)
  unfolding fetch_content_bytes
  Quiet-fetch hash encoding =
      Quiet-bind _ _
        (record {
          at = λ e. send-SameProgress (ClientMessage.get_content (record { hash = hash })) e refl;
        })
        λ _. Quiet-asks _

  Quiet-has_hash :
      (target hash : JsString) (encoding : Option ContentEncryptionEncoding)
      → Quiet (has_hash around target hash encoding)
  unfolding has_hash present_hash
  Quiet-has_hash target hash none = search quiet_rules
  Quiet-has_hash target hash (some encoding) = search (quiet_rules, Quiet-hash_path)

  Quiet-has_downloaded :
      (target hash : JsString) (encoding : Option ContentEncryptionEncoding)
      → Quiet (has_downloaded around target hash encoding)
  unfolding has_downloaded
  Quiet-has_downloaded target hash encoding = record {
    at = λ e.
        if-SameProgress
          (any (λ h. str_eq h hash) e.index.device.downloaded_hashes
            && around.exists target e.vault)
          e (has_hash around target hash encoding e) (ok false, e)
          ((Quiet-has_hash target hash encoding).at e) (SameProgress-refl e);
  }

  Quiet-remember_hash : (hash : JsString) → Quiet (changes (remember_hash around hash))
  unfolding remember_hash
  Quiet-remember_hash hash = record {
    at = λ e. record { handshake = refl; applied = refl; ops = refl };
  }

  Quiet-download :
      (target hash : JsString) (encoding : Option ContentEncryptionEncoding)
      → Quiet (download around target hash encoding)
  unfolding download
  Quiet-download target hash encoding =
      Quiet-bind _ _ (Quiet-fetch hash encoding)
        λ bytes. Quiet-bind _ _ (Quiet-writes _) λ _. Quiet-remember_hash hash

  Quiet-fetch_and_write_blob :
      (target hash : JsString) (encoding : Option ContentEncryptionEncoding)
      → Quiet (fetch_and_write_blob around target hash encoding)
  unfolding fetch_and_write_blob
  Quiet-fetch_and_write_blob target hash encoding =
      search (quiet_rules, Quiet-has_downloaded, Quiet-download)

  Quiet-live_text : (text : Option JsString) (hash : JsString) → Quiet (live_text around text hash)
  unfolding live_text
  Quiet-live_text (some text) hash = search quiet_rules
  Quiet-live_text none hash = search (quiet_rules, Quiet-fetch)

  Quiet-write_live :
      (op : FileOp) (target hash : JsString) → Quiet (write_live around op target hash)
  unfolding write_live
  Quiet-write_live op target hash = search (quiet_rules, Quiet-live_text)

  Quiet-write_given :
      (op : FileOp) (text : Option JsString) (target hash : JsString)
      → Quiet (write_given around op text target hash)
  unfolding write_given
  Quiet-write_given op (some text) target hash = Quiet-writes _
  Quiet-write_given op none target hash = Quiet-fetch_and_write_blob target hash op.content_encoding

  -- A write to the files of the index.
  Quiet-files :
      (f : SyncEngine V → List FileIndexEntry)
      → Quiet (changes λ e. record e { index = record e.index { files = f e } })
  Quiet-files f = record { at = λ e. record { handshake = refl; applied = refl; ops = refl } }

  Quiet-apply_content :
      (op : FileOp) (target hash : JsString) (entry : Option FileIndexEntry)
      (content_vv : Option VersionVector) (path_clock : Option PathClock)
      → Quiet (apply_content around op target hash entry content_vv path_clock)
  unfolding apply_content upsert_file write_plain
  Quiet-apply_content op target hash entry content_vv path_clock =
      Quiet-bind _ _
        (Quiet-if (is_live around op target) _ _ (Quiet-write_live op target hash)
          (Quiet-write_given op op.inline_text target hash))
        λ _. Quiet-files _

  Quiet-apply_to :
      (op : FileOp) (hash target : Option JsString) (entry : Option FileIndexEntry)
      (content_vv : Option VersionVector) (path_clock : Option PathClock)
      → Quiet (apply_to around op hash target entry content_vv path_clock)
  unfolding apply_to
  Quiet-apply_to op (some hash) (some target) entry content_vv path_clock =
      search (quiet_rules, Quiet-apply_content)
  Quiet-apply_to op (some hash) none entry content_vv path_clock = search quiet_rules
  Quiet-apply_to op none target entry content_vv path_clock = search quiet_rules

  Quiet-apply_delete :
      (op : FileOp) (entry : Option FileIndexEntry) → Quiet (apply_delete around op entry)
  unfolding apply_delete mark_deleted
  Quiet-apply_delete op none = record {
    at = λ e. record { handshake = refl; applied = refl; ops = refl };
  }
  Quiet-apply_delete op (some entry) = record {
    at = λ e.
        (Quiet-bind
            (when (around.exists entry.path e.vault)
              (writes (around.trash entry.path e.settings.trashes_in_system)))
            (λ _. changes λ e'. record e' { index = mark_deleted op.file_id e'.index })
            (Quiet-when _ _ (Quiet-writes _)) (λ _. Quiet-files _)).at
          e;
  }

  Quiet-apply_rename :
      (op : FileOp) (entry : FileIndexEntry) (new_path : JsString) (path_clock : Option PathClock)
      → Quiet (apply_rename around op entry new_path path_clock)
  unfolding apply_rename upsert_file
  Quiet-apply_rename op entry new_path path_clock = record {
    at = λ e. (Quiet-bind _ _ (Quiet-when _ _ (Quiet-writes _)) (λ _. Quiet-files _)).at e;
  }

  Quiet-apply_named_rename :
      (op : FileOp) (entry : Option FileIndexEntry) (new_path : Option JsString)
      (path_clock : Option PathClock)
      → Quiet (apply_named_rename around op entry new_path path_clock)
  unfolding apply_named_rename
  Quiet-apply_named_rename op (some entry) (some new_path) path_clock =
      search (quiet_rules, Quiet-apply_rename)
  Quiet-apply_named_rename op (some entry) none path_clock = search quiet_rules
  Quiet-apply_named_rename op none new_path path_clock = search quiet_rules

  Quiet-apply_kind :
      (kind : OpKind) (op : FileOp) (entry : Option FileIndexEntry)
      (content_vv : Option VersionVector) (path_clock : Option PathClock)
      → Quiet (apply_kind around kind op entry content_vv path_clock)
  unfolding apply_kind apply_write
  Quiet-apply_kind OpKind.delete op entry content_vv path_clock = Quiet-apply_delete op entry
  Quiet-apply_kind OpKind.rename op entry content_vv path_clock =
      Quiet-apply_named_rename op entry op.new_path path_clock
  Quiet-apply_kind OpKind.create op entry content_vv path_clock = Quiet-apply_to op _ _ _ _ _
  Quiet-apply_kind OpKind.update op entry content_vv path_clock = Quiet-apply_to op _ _ _ _ _
  Quiet-apply_kind OpKind.restore op entry content_vv path_clock = Quiet-apply_to op _ _ _ _ _

  -- Applying an operation of another device sends no operation, does not end the handshake, and
  -- leaves the applied number to `applyOps`.
  pub apply_op-SameProgress :
      (op : FileOp) (content_vv : Option VersionVector) (path_clock : Option PathClock)
      (e : SyncEngine V)
      → SameProgress e (apply_op around op content_vv path_clock e).1
  unfolding apply_op observe_op
  apply_op-SameProgress op content_vv path_clock e =
      SameProgress-trans (record { handshake = refl; applied = refl; ops = refl })
        ((Quiet-apply_kind op.kind op (by_file_id op.file_id e.index) content_vv path_clock).at
          (observe_op around op e))
