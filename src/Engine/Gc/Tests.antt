-- ===== src/Engine/Gc/Tests.antt =====
-- Tests of the collection of old versions: a room with three versions, of which one is kept besides
-- the current one.
use obsidian_baritone.Prelude.{
  ℕ, ◌≡◌, refl, true, false, none, some, [], ◌∷◌, JsString, lit, str_eq, str_lt,
}
use obsidian_baritone.Prelude.Maps.{get, set, delete}
use obsidian_baritone.Path.Parts.{code as parts_code}
use obsidian_baritone.Clock.VersionVector.{empty_vv}
use obsidian_baritone.Protocol.ServerMessage.{SnapshotHistoryReason}
use obsidian_baritone.Engine.Rooms.RoomStore.{
  PersistedYjsRoom, InMemoryYjsRoomStore, YjsSnapshotVersion, code as room_store_code,
}
use obsidian_baritone.Engine.Gc.{YjsGcJob, run_once, code}
use obsidian_baritone.Engine.Gc.History.{IsKeyed, IsCurrentVersion, run_once-IsCurrentVersion}

abbrev version : JsString → ℕ → YjsSnapshotVersion
version id n = record {
  metadata = record {
    version_id = id;
    file_id = lit "f1";
    room_epoch = 1;
    seq = n;
    created_at = n;
    reason = SnapshotHistoryReason.cadence;
    device_id = none;
    user_id = none;
  };
  vault_id = lit "v1";
  snapshot = [];
  state_vector = [];
}

abbrev room : PersistedYjsRoom
room = record {
  vault_id = lit "v1";
  file_id = lit "f1";
  epoch = 1;
  active = true;
  seeded = true;
  lease_owner = none;
  lease_until = none;
  activation_base_vv = empty_vv;
  activation_base_hash = none;
  next_seq = 4;
  snapshot = none;
  state_vector = none;
  compacted_through_seq = 1;
}

abbrev store : InMemoryYjsRoomStore
store = record {
  rooms = (lit "v1:f1", room) ∷ [];
  updates = [];
  snapshots = [];
  history =
      (lit "a", version (lit "a") 1)
      ∷ (lit "b", version (lit "b") 2)
      ∷ (lit "c", version (lit "c") 3)
      ∷ [];
}

abbrev job : YjsGcJob
job = record { running = false; store = store }

prunes_oldest : get (lit "b") (run_once str_lt 1 job).1.store.history ≡ none
unfolding code room_store_code get set delete str_eq parts_code
prunes_oldest = refl

keeps_newest : get (lit "c") (run_once str_lt 1 job).1.store.history ≡ some (version (lit "c") 3)
unfolding code room_store_code get set delete str_eq parts_code
keeps_newest = refl

store-IsKeyed : IsKeyed store.history
store-IsKeyed = (refl, (refl, (refl, tt)))

run_once-IsCurrentVersion_example :
    (get (lit "a") (run_once str_lt 1 job).1.store.history ≡ some (version (lit "a") 1))
    × IsCurrentVersion (run_once str_lt 1 job).1.store (version (lit "a") 1)
unfolding get str_eq
run_once-IsCurrentVersion_example =
    run_once-IsCurrentVersion str_lt 1 job (lit "a") (version (lit "a") 1) store-IsKeyed
      (refl, (refl, (refl, tt))) refl refl
