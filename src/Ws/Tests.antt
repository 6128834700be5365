-- ===== src/Ws/Tests.antt =====
-- Tests of the WebSocket server, with one token, for the device that the vault has.
use mathlib.Core.List.Memᴰ.{not-nil}
use obsidian_baritone.Prelude.{
  Option, ℕ, ◌≡◌, refl, false, none, some, List, [], ◌∷◌, JsString, lit, str_eq, if◌then◌else◌,
  Result, ok, err, map, ◌⊎◌,
}
use obsidian_baritone.Prelude.Maps.{get}
use obsidian_baritone.Protocol.{SyncError, FileOp, FileType, OpKind, unauthenticated}
use obsidian_baritone.Protocol.ClientMessage.{ClientMessage, FileOpMessage, HelloMessage}
use obsidian_baritone.Engine.Store.{editor, empty_store, vault_ops, code as store_code}
use obsidian_baritone.Engine.Rooms.{RoomSink}
use obsidian_baritone.Engine.Rooms.RoomStore.{empty_room_store}
use obsidian_baritone.Engine.Rooms.Tests.{env}
use obsidian_baritone.RateLimit.{new_fixed_window}
use obsidian_baritone.Roles.{verify_device}
use obsidian_baritone.Roles.Tokens.{AccessClaims}
use obsidian_baritone.Ws.{
  Session, ConnectionState, SyncWebSocketServer, Services, ◌>>=◌, reads, lift, send, when, fail_if,
}
use obsidian_baritone.Ws.Hello.{hello, admit, admit_claims, set_session, greet}
use obsidian_baritone.Ws.Content.{assert_op_content_access}
use obsidian_baritone.Ws.Dispatch.{dispatch, handle_valid, code}
use obsidian_baritone.Ws.Access.{Refuses, Opens, handle_valid-Opens}
use obsidian_baritone.Ws.Held.{IsHeld}
use obsidian_baritone.Ws.Guards.{IsForbidden, dispatch-Refuses}

abbrev claims : AccessClaims
claims = record { user_id = lit "u1"; device_id = lit "d1"; vault_id = lit "v1"; role = editor }

abbrev verify : JsString → Result SyncError AccessClaims
verify token =
    if str_eq token (lit "t1")
    then ok claims
    else err (record { code = unauthenticated; message = "Invalid token"; details = none })

abbrev services : Services (List ℕ)
services = record {
  env = env;
  storage = record { size_of = λ key. none; hash_of = λ key. none; sign = λ key size. key };
  auth = record {
    get_member = λ vault_id user_id. some editor;
    get_device = λ device_id. some (record {
      device_id = device_id;
      user_id = lit "u1";
      vault_id = lit "v1";
      revoked = false;
    });
  };
  verify_access = verify;
  get_bytes = λ hash. none;
  encode = λ cursor. cursor.file_id;
  decode = λ text. none;
}

abbrev fresh : ConnectionState
fresh = record { socket = 1; session = none; message_limiter = new_fixed_window 120 10000 }

abbrev session : Session
session = record { claims = claims; device_id = lit "d1"; vault_id = lit "v1" }

abbrev server : SyncWebSocketServer (List ℕ)
server = record {
  manager = record {
    data_store = empty_store;
    room_store = empty_room_store;
    rooms = [];
    sent = [];
    broadcasts = [];
  };
  clients = fresh ∷ [];
  pending_blob_owners = [];
}

abbrev greeting : HelloMessage
greeting = record {
  token = lit "t1";
  device_id = lit "d1";
  vault_id = lit "v1";
  last_seq = 0;
  protocol_version = 1;
  client_build = [];
  capabilities = [];
}

opens_session :
    map
      (λ c. c.session)
      (handle_valid services fresh (ClientMessage.hello greeting) server).1.clients
    ≡ some session ∷ []
unfolding code hello admit admit_claims set_session greet ◌>>=◌ reads lift send when verify_device
    store_code str_eq get
opens_session = refl

handle_valid-Opens_example :
    Refuses services (handle_valid services fresh (ClientMessage.hello greeting)) server
    ⊎ Opens services fresh
        (ClientMessage.hello greeting)
        server
        (handle_valid services fresh (ClientMessage.hello greeting) server).1
handle_valid-Opens_example =
    handle_valid-Opens services fresh (ClientMessage.hello greeting) server refl

-- An operation that refers to a blob which no vault has.
abbrev naming : Option JsString → FileOp
naming content_hash = record {
  op_id = lit "o1";
  device_id = lit "d1";
  device_seq = 1;
  file_id = lit "f1";
  vault_id = lit "v1";
  kind = OpKind.update;
  type = FileType.attachment;
  base_content_vv = none;
  new_content_vv = none;
  content_hash = content_hash;
  size = some 3;
  content_encoding = none;
  inline_text = none;
  blob_ref = some (lit "sha256:0");
  new_path = none;
  path_clock = none;
  delete_clock = none;
  schema_version = none;
}

abbrev asks : FileOpMessage
asks = record { op = naming (some (lit "sha256:0")) }

abbrev sink : RoomSink
sink = record { connection = 1; device_id = lit "d1" }

empty_store-holds : IsHeld (lit "v1") (lit "sha256:0") empty_store → ⊥
unfolding vault_ops get
empty_store-holds (IsHeld.in_file f m v c) = not-nil m
empty_store-holds (IsHeld.in_conflict c m v h) = not-nil m
empty_store-holds (IsHeld.in_log op m h) = not-nil m

dispatch-Refuses_example :
    Refuses services (dispatch services sink session (ClientMessage.file_op asks)) server
dispatch-Refuses_example =
    dispatch-Refuses services sink session (ClientMessage.file_op asks) server (
      IsForbidden.unknown_blob asks (lit "sha256:0") (lit "sha256:0") refl refl (λ e. absurd (cc))
        refl empty_store-holds not-nil)

-- Without a content hash the reference to the blob is not looked at.
passes_unchecked : assert_op_content_access (lit "v1") (naming none) server ≡ (ok tt, server)
unfolding assert_op_content_access fail_if
passes_unchecked = refl
