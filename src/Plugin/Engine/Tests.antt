-- ===== src/Plugin/Engine/Tests.antt =====
-- Tests of the engine, with a vault that is a map from paths to texts.
use obsidian_baritone.Prelude.{
  ℕ, true, false, none, some, List, [], ◌∷◌, JsString, lit, ok, is_some, ◌otherwise◌,
}
use obsidian_baritone.Prelude.Maps.{JsMap, get, set, delete}
use obsidian_baritone.Unicode.Samples.{plain_platform}
use obsidian_baritone.Protocol.{FileType, OpKind, AppliedOp}
use obsidian_baritone.Protocol.ServerMessage.{ServerMessage}
use obsidian_baritone.Plugin.Outbox.{new_outbox}
use obsidian_baritone.Plugin.LocalIndex.{default_snapshot}
use obsidian_baritone.Plugin.Engine.{Surroundings, SyncEngine, idle}
use obsidian_baritone.Plugin.Engine.Messages.{apply_ops, handle_message}
use obsidian_baritone.Plugin.Engine.CatchUp.{Outcome, apply_ops-Outcome}
use obsidian_baritone.Plugin.Engine.Handshake.{IsGated, handle_message-IsGated}

abbrev Vault : Type 0
Vault = JsMap JsString

abbrev around : Surroundings Vault
around = record {
  os = plain_platform;
  exists = λ path v. is_some (get path v);
  read_text = λ path v. ok (get path v otherwise []);
  read_bytes = λ path v. ok (get path v otherwise []);
  write_text = λ path text v. ok (set path text v);
  write_bytes = λ path bytes v. ok (set path bytes v);
  rename =
      λ old_path new_path v. ok (set new_path (get old_path v otherwise []) (delete old_path v));
  trash = λ path system v. ok (delete path v);
  decode_utf8 = λ bytes. bytes;
  content_answer = λ hash. none;
  encrypt = λ bytes. ok bytes;
  decrypt = λ bytes. ok bytes;
  is_envelope = λ bytes. true;
  upload = λ file_id bytes. ok (lit "h");
  refuses_config = λ path. false;
  takes = λ message. false;
  has_session = λ file_id. false;
  reconcile = λ file_id text hash. ok true;
  now = 5;
}

abbrev engine : SyncEngine Vault
engine = record {
  settings = record {
    device_id = lit "d1";
    vault_id = lit "v1";
    access_token = lit "t";
    encrypts = false;
    trashes_in_system = false;
  };
  is_paused_by_user = false;
  outbox = new_outbox (lit "d1") 1 [];
  index = default_snapshot (lit "d1") (some (lit "v1"));
  saved = default_snapshot (lit "d1") (some (lit "v1"));
  lamport = 0;
  state = idle;
  handshake_complete = false;
  awaiting_catchup = true;
  waiters = [];
  answers = [];
  ready = true;
  sent = [];
  errors = [];
  vault = [];
}

abbrev note_op : JsString → ℕ → AppliedOp
note_op file_id seq = record {
  vault_seq = seq;
  op = record {
    op_id = file_id;
    device_id = lit "d2";
    device_seq = seq;
    file_id = file_id;
    vault_id = lit "v1";
    kind = OpKind.create;
    type = FileType.note;
    base_content_vv = none;
    new_content_vv = none;
    content_hash = some (lit "h");
    size = none;
    content_encoding = none;
    inline_text = some (lit "text");
    blob_ref = none;
    new_path = some file_id;
    path_clock = none;
    delete_clock = none;
    schema_version = none;
  };
  resulting_clocks = record { content_vv = none; path_clock = none; delete_vv = none; epoch = 1 };
}

abbrev batch : List AppliedOp
batch = note_op (lit "b") 2 ∷ note_op (lit "a") 1 ∷ note_op (lit "d") 4 ∷ []

apply_ops-Outcome_example : Outcome around batch batch engine (apply_ops around batch engine)
apply_ops-Outcome_example = apply_ops-Outcome around batch engine

handle_message-IsGated_example : IsGated engine (
    handle_message around
      (λ s. lit "m")
      (λ code. lit "c")
      (λ message. none)
      (ServerMessage.ops (record { ops = batch; more = false }))
      engine)
handle_message-IsGated_example =
    handle_message-IsGated around (λ s. lit "m") (λ code. lit "c") (λ message. none)
      (ServerMessage.ops (record { ops = batch; more = false })) engine
