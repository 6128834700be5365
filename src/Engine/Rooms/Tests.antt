-- ===== src/Engine/Rooms/Tests.antt =====
-- Tests of the rooms, with a document that is a list of bytes and an update that is appended to it.
use obsidian_baritone.Prelude.{
  ℕ, ◌≡◌, refl, not, ◌||◌, true, false, none, List, [], ◌∷◌, ◌++◌, JsString, lit, Result, ok, err,
  str_eq, str_lt,
}
use obsidian_baritone.Prelude.Maps.{get, set, delete}
use obsidian_baritone.Unicode.Samples.{plain_platform}
use obsidian_baritone.Path.Parts.{code as parts_code}
use obsidian_baritone.Clock.VersionVector.{empty_vv}
use obsidian_baritone.Protocol.{FileType, not_participant}
use obsidian_baritone.Engine.Store.{StoredDevice, StoredFile, Role, empty_store, code as store_code}
use obsidian_baritone.Engine.Store.Tx.{sync, code as tx_code}
use obsidian_baritone.Engine.Rooms.{
  Env, Yjs, RoomSink, Participant, RoomThrown, World, thrown, default_options, is_closed,
  is_phase_closed, code,
}
use obsidian_baritone.Engine.Rooms.RoomStore.{empty_room_store, code as room_store_code}
use obsidian_baritone.Engine.Rooms.Helpers.{empty_room}
use obsidian_baritone.Engine.Rooms.Helpers.{code as helpers_code}
use obsidian_baritone.Engine.Rooms.Actions.{code as actions_code}
use obsidian_baritone.Engine.Rooms.Handlers.{update_locked}
use obsidian_baritone.Engine.Rooms.Loading.{load_runtime, code as loading_code}
use obsidian_baritone.Engine.Rooms.Lifecycle.{promote_locked, code as lifecycle_code}
use obsidian_baritone.Engine.Rooms.Durable.{EncodesAll}
use obsidian_baritone.Engine.Rooms.Persist.{DurableWorld}
use obsidian_baritone.Engine.Rooms.Calls.{
  Moment, RoomCall, updates, promotes, restores, compacts, beats, perform_all, reloaded,
  perform_all-load_runtime,
}
use obsidian_baritone.Engine.Rooms.Promoting.{CanPromote}
use obsidian_baritone.Engine.Rooms.Opening.{promote_locked-DurableWorld}
use obsidian_baritone.Engine.Rooms.Answers.{Accepted, update_locked-refusal, update_locked-Accepted}

abbrev pub bytes : Yjs (List ℕ)
bytes = record {
  new_doc = [];
  apply_update = λ doc update. (true, doc ++ update);
  encode_state = λ doc. doc;
  encode_diff = λ doc vector. [];
  encode_state_vector = λ doc. [];
  text = λ doc. doc;
  insert_text = λ text doc. text ++ doc;
  delete_text = λ doc. [];
}

abbrev pub env : Env (List ℕ)
env = record {
  os = plain_platform;
  yjs = bytes;
  from_base64 = λ text. text;
  to_base64 = λ data_bytes. data_bytes;
  decode_utf8 = λ data_bytes. data_bytes;
  locale_lt = str_lt;
  message_of = λ e. "error";
  options = default_options;
  now = 5;
  uuid = λ key. key;
  is_backpressured = λ sink. false;
}

bytes-EncodesAll : EncodesAll bytes
bytes-EncodesAll doc = refl

abbrev note : StoredFile
note = record {
  file_id = lit "f1";
  vault_id = lit "v1";
  type = FileType.note;
  path = lit "a";
  path_normalized = lit "a";
  path_clock = record { lamport = 1; device_id = lit "d1" };
  content_vv = empty_vv;
  content_hash = none;
  size = none;
  blob_ref = none;
  content_encoding = none;
  delete_vv = none;
  deleted = false;
  deleted_at = none;
  epoch = 1;
  conflict_id = none;
  active_until = none;
  updated_at = 1;
}

abbrev laptop : StoredDevice
laptop = record {
  device_id = lit "d1";
  user_id = lit "u1";
  vault_id = lit "v1";
  last_device_seq = 0;
  last_seq = 0;
  revoked = false;
  last_seen = none;
}

abbrev sink : RoomSink
sink = record { connection = 1; device_id = lit "d1" }

abbrev closed_world : World (List ℕ)
closed_world = record {
  data_store = record empty_store {
    files = (lit "v1:f1", note) ∷ [];
    devices = (lit "d1", laptop) ∷ [];
    roles = (lit "v1:u1", Role.owner) ∷ [];
  };
  room_store = empty_room_store;
  room = record {
    persisted = empty_room (lit "v1") (lit "f1");
    doc = [];
    participants = [];
    closing_sinks = [];
    state = is_closed;
    closing_timer = none;
  };
  sent = [];
  broadcasts = [];
}

abbrev open_world : World (List ℕ)
open_world = (promote_locked env (lit "v1") (lit "f1") (lit "d1") (lit "u1") sink closed_world).1

promote_locked-DurableWorld_example : DurableWorld bytes (lit "v1") (lit "f1") open_world
unfolding code room_store_code helpers_code actions_code loading_code lifecycle_code store_code
    tx_code parts_code get set delete str_eq
promote_locked-DurableWorld_example =
    promote_locked-DurableWorld env (lit "v1") (lit "f1") bytes-EncodesAll (lit "d1") (lit "u1")
      sink note closed_world refl refl refl refl refl refl refl

open_world-DurableWorld : DurableWorld bytes (lit "v1") (lit "f1") open_world
unfolding code room_store_code helpers_code actions_code loading_code lifecycle_code store_code
    tx_code parts_code get set delete str_eq
open_world-DurableWorld =
    promote_locked-DurableWorld env (lit "v1") (lit "f1") bytes-EncodesAll (lit "d1") (lit "u1")
      sink note closed_world refl refl refl refl refl refl refl

abbrev seat : Participant
seat = record {
  device_id = lit "d1";
  user_id = lit "u1";
  role = Role.owner;
  sink = sink;
  joined_vv = empty_vv;
  rate_window_started = 5;
  updates_in_window = 0;
}

abbrev moment : ℕ → Moment
moment now = record { now = now; uuid = λ key. key; is_backpressured = λ s. false }

open_world-is_open :
    (not open_world.room.persisted.active || is_phase_closed open_world.room.state) ≡ false
unfolding code room_store_code helpers_code actions_code loading_code lifecycle_code store_code
    tx_code parts_code get set delete str_eq
open_world-is_open = refl

abbrev calls : List (Moment × RoomCall)
calls =
    (moment 6, promotes (lit "d2") (lit "u1") sink)
    ∷ (moment 6, updates (lit "d1") (lit "u1") 1 7 (lit "x") (lit "x"))
    ∷ (moment 7, restores (lit "d1") (lit "u1") (lit "y"))
    ∷ (moment 7, compacts none)
    ∷ (moment 8, beats (lit "d1") 1)
    ∷ []

perform_all-load_runtime_example :
    load_runtime bytes
      (perform_all env (lit "v1") (lit "f1") calls open_world).room_store
      (lit "v1")
      (lit "f1")
    ≡ ok (
        reloaded env (lit "v1") (lit "f1") (perform_all env (lit "v1") (lit "f1") calls open_world))
perform_all-load_runtime_example =
    perform_all-load_runtime env (lit "v1") (lit "f1") bytes-EncodesAll calls open_world
      (CanPromote.is_open open_world-is_open, (λ doc. refl, (refl, (tt, (tt, tt)))))
      open_world-DurableWorld

abbrev edited : JsString → Result RoomThrown (Unit {0}) × World (List ℕ)
edited device_id =
    update_locked env (lit "v1") (lit "f1") device_id (lit "u1") 1 7 (lit "x") (lit "x") open_world

update_locked-Accepted_example :
    Accepted env
      (lit "v1")
      (lit "f1")
      (lit "d1")
      (lit "u1")
      1
      7
      (lit "x")
      (lit "x")
      seat
      open_world
      (edited (lit "d1"))
unfolding code room_store_code helpers_code actions_code loading_code lifecycle_code store_code
    tx_code parts_code get set delete str_eq
update_locked-Accepted_example =
    update_locked-Accepted env (lit "v1") (lit "f1") (lit "d1") (lit "u1") 1 7 (lit "x") (lit "x")
      bytes-EncodesAll seat open_world (refl, refl) refl refl refl refl open_world-DurableWorld

update_locked-refusal_example :
    edited (lit "d2")
    ≡ (err (thrown (sync not_participant "Device is not a room participant")), open_world)
unfolding code room_store_code helpers_code actions_code loading_code lifecycle_code store_code
    tx_code parts_code get set delete str_eq
update_locked-refusal_example =
    update_locked-refusal env (lit "v1") (lit "f1") (lit "d2") (lit "u1") 1 7 (lit "x") (lit "x")
      open_world (sync not_participant "Device is not a room participant") (refl, refl) refl
