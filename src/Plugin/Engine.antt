-- ===== src/Plugin/Engine.antt =====
-- apps/plugin/src/sync/engine.ts: the state of `SyncEngine`, its parts as parameters (the vault, the
-- transport's answers, live editing, the rules of config sync), and the drafts that it makes.
pub mod Step
pub mod Content
pub mod ApplyOp
pub mod Queue
pub mod Messages
pub mod Forced
pub mod CatchUp
pub mod Progress
pub mod Gate
pub mod Handshake
pub mod Tests
use obsidian_baritone.Prelude.{
  ℕ, ◌+◌, ◌-◌, max, Bool, true, false, not, ◌&&◌, ◌||◌, Option, none, some, List, [], ◌∷◌, ◌++◌,
  JsString, lit, if◌then◌else◌, str_eq, ◌otherwise◌, any, filter, length, drop, map, leb, Result,
  ok, err, is_some,
}
use obsidian_baritone.Clock.VersionVector.{VersionVector, empty_vv, bump, join}
use obsidian_baritone.Clock.Lamport.{PathClock, make_path_clock, next_lamport}
use obsidian_baritone.Hash
use obsidian_baritone.Unicode.{Platform, utf8}
use obsidian_baritone.Protocol.{FileOp, FileType, OpKind, ContentEncryptionEncoding}
use obsidian_baritone.Protocol.ClientMessage.{ClientMessage}
use obsidian_baritone.Protocol.ServerMessage.{ServerMessage}
use obsidian_baritone.Plugin.Outbox
use obsidian_baritone.Plugin.Outbox.{OutboxManager, FileOpDraft, OutboxEntry}
use obsidian_baritone.Plugin.LocalIndex.{
  LocalIndexSnapshot, FileIndexEntry, by_file_id, mark_deleted, upsert_file, set_outbox,
}

pub data EngineState : Type 0 where
  idle : EngineState
  is_paused : EngineState
  is_connecting : EngineState
  syncing : EngineState
  failed : EngineState

pub data TransportState : Type 0 where
  connecting : TransportState
  opened : TransportState
  ready : TransportState
  closed : TransportState

pub record ForcePushOpResult : Type 0 where
  pub is_ok : Bool
  pub consumed : Bool
  pub message : Option JsString

-- The settings that the engine reads.
pub record Settings : Type 0 where
  pub device_id : JsString
  pub vault_id : JsString
  pub access_token : JsString
  pub encrypts : Bool
  pub trashes_in_system : Bool

-- What stands around the engine, over a vault `V`. The calls that may throw give the message of the
-- error. `content_answer` is the content that the server sends for a hash; `decrypt` and `encrypt`
-- and `is_envelope` are those of
-- content-encryption.ts with the key of the session; `upload` is `BlobUploader.upload`;
-- `refuses_config` is whether `shouldApplyConfigPath` names a category and does not apply;
-- `takes`, `has_session` and `reconcile` are of live editing.
pub record Surroundings (V : Type 0) : Type 0 where
  pub os : Platform
  pub exists : JsString → V → Bool
  pub read_text : JsString → V → Result JsString JsString
  pub read_bytes : JsString → V → Result JsString (List ℕ)
  pub write_text : JsString → JsString → V → Result JsString V
  pub write_bytes : JsString → List ℕ → V → Result JsString V
  pub rename : JsString → JsString → V → Result JsString V
  pub trash : JsString → Bool → V → Result JsString V
  pub decode_utf8 : List ℕ → JsString
  pub content_answer : JsString → Option (List ℕ)
  pub encrypt : List ℕ → Result JsString (List ℕ)
  pub decrypt : List ℕ → Result JsString (List ℕ)
  pub is_envelope : List ℕ → Bool
  pub upload : JsString → List ℕ → Result JsString JsString
  pub refuses_config : JsString → Bool
  pub takes : ServerMessage → Bool
  pub has_session : JsString → Bool
  pub reconcile : JsString → JsString → JsString → Result JsString Bool
  pub now : ℕ

-- `ready` is whether the transport's `readyState` is 'ready'; `waiters` has the keys of `forceWaiters`,
-- and `answers` what they were called with; `saved` is the index as it was last saved.
pub record SyncEngine (V : Type 0) : Type 0 where
  pub settings : Settings
  pub is_paused_by_user : Bool
  pub outbox : OutboxManager
  pub index : LocalIndexSnapshot
  pub saved : LocalIndexSnapshot
  pub lamport : ℕ
  pub state : EngineState
  pub handshake_complete : Bool
  pub awaiting_catchup : Bool
  pub waiters : List JsString
  pub answers : List (JsString × ForcePushOpResult)
  pub ready : Bool
  pub sent : List ClientMessage
  pub errors : List JsString
  pub vault : V

abbrev pub lower_ascii : ℕ → ℕ
lower_ascii c = if leb b'A' c && leb c b'Z' then c + 32 else c

abbrev ends_with : JsString → JsString → Bool
ends_with s t = leb (length t) (length s) && str_eq (drop (length s - length t) s) t

-- `isTextPath` of apps/plugin/src/pathing.ts
unfoldable pub is_text_path : JsString → Bool
is_text_path path =
    any (λ e. ends_with (map lower_ascii path) (b'.' ∷ e))
      (lit "md"
        ∷ lit "txt"
        ∷ lit "json"
        ∷ lit "css"
        ∷ lit "csv"
        ∷ lit "yaml"
        ∷ lit "yml"
        ∷ lit "xml"
        ∷ lit "html"
        ∷ lit "js"
        ∷ lit "ts"
        ∷ lit "canvas"
        ∷ [])

unfoldable pub conflict_resolution_vv : VersionVector → VersionVector → JsString → VersionVector
conflict_resolution_vv ours theirs device_id = bump (join ours theirs) device_id

-- The fields of a draft that carry its content.
pub record ContentPayload : Type 0 where
  pub content_hash : JsString
  pub size : ℕ
  pub inline_text : Option JsString
  pub blob_ref : Option JsString
  pub content_encoding : Option ContentEncryptionEncoding

-- `textOrBytes`
pub data Given : Type 0 where
  nothing : Given
  given_text : JsString → Given
  given_bytes : List ℕ → Given

abbrev pub content_encryption_encoding : ContentEncryptionEncoding
content_encryption_encoding = record {
  algorithm = lit "aes-256-gcm-pbkdf2-sha256-convergent-v1";
  version = 1;
}

module _ {V : Type 0} where
  unfoldable pub send : ClientMessage → SyncEngine V → SyncEngine V
  send message e = record e { sent = e.sent ++ (message ∷ []) }

  -- `await this.index.save()`
  abbrev pub save : SyncEngine V → SyncEngine V
  save e = record e { saved = e.index }

  unfoldable pub persist_outbox : SyncEngine V → SyncEngine V
  persist_outbox e =
      save
        (record e { index = set_outbox (Outbox.entries e.outbox) e.outbox.next_device_seq e.index })

  unfoldable pub is_write_ready : SyncEngine V → Bool
  is_write_ready e = e.ready && e.handshake_complete

  abbrev pub draft_for : SyncEngine V → JsString → OpKind → FileType → FileOpDraft
  draft_for e file_id kind type = record {
    op_id = none;
    file_id = file_id;
    vault_id = e.settings.vault_id;
    kind = kind;
    type = type;
    base_content_vv = none;
    new_content_vv = none;
    content_hash = none;
    size = none;
    content_encoding = none;
    inline_text = none;
    blob_ref = none;
    new_path = none;
    path_clock = none;
    delete_clock = none;
  }

  unfoldable pub make_rename_op :
      JsString → JsString → FileType → SyncEngine V → FileOpDraft × SyncEngine V
  make_rename_op file_id new_path type e =
      let lamport = next_lamport e.lamport in
      (
        record (draft_for e file_id OpKind.rename type) {
          new_path = some new_path;
          path_clock = some (make_path_clock lamport e.settings.device_id);
        },
        record e { lamport = lamport },
      )

  unfoldable pub make_delete_op : JsString → FileType → SyncEngine V → FileOpDraft × SyncEngine V
  make_delete_op file_id type e =
      let lamport = next_lamport e.lamport in
      (
        record (draft_for e file_id OpKind.delete type) {
          delete_clock = some (make_path_clock lamport e.settings.device_id);
        },
        record e { lamport = lamport },
      )
