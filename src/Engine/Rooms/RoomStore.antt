-- ===== src/Engine/Rooms/RoomStore.antt =====
-- packages/server/src/engine/yjs.ts: the rooms, updates and snapshots that outlive the server, and
-- `InMemoryYjsRoomStore`, as a record of `Map`s. The clones are left out: values here are never
-- shared.
use obsidian_baritone.Prelude.{
  ℕ, ◌+◌, Bool, false, ◌&&◌, ◌||◌, Option, none, some, List, [], ◌∷◌, ◌++◌, JsString, ltb, ◌==◌,
  if◌then◌else◌, str_eq, ◌otherwise◌, is_some, truthy, filter, find, take, map, sort, length,
}
use obsidian_baritone.Prelude.Maps.{JsMap, get, set, delete, values}
use obsidian_baritone.Clock.VersionVector.{VersionVector}
use obsidian_baritone.Path.Parts.{decimal}
use obsidian_baritone.Protocol.ServerMessage.{SnapshotHistoryReason, SnapshotVersionMetadata}
use obsidian_baritone.Engine.Store.{key_of}

pub record PersistedYjsRoom : Type 0 where
  pub vault_id : JsString
  pub file_id : JsString
  pub epoch : ℕ
  pub active : Bool
  pub seeded : Bool
  pub lease_owner : Option JsString
  pub lease_until : Option ℕ
  pub activation_base_vv : VersionVector
  pub activation_base_hash : Option JsString
  pub next_seq : ℕ
  pub snapshot : Option (List ℕ)
  pub state_vector : Option (List ℕ)
  pub compacted_through_seq : ℕ

pub record StoredYjsUpdate : Type 0 where
  pub vault_id : JsString
  pub file_id : JsString
  pub room_epoch : ℕ
  pub seq : ℕ
  pub device_id : JsString
  pub update : List ℕ
  pub created_at : ℕ

-- `reason` is always given by the callers.
pub record YjsSnapshot : Type 0 where
  pub vault_id : JsString
  pub file_id : JsString
  pub room_epoch : ℕ
  pub snapshot : List ℕ
  pub state_vector : List ℕ
  pub compacted_through_seq : ℕ
  pub created_at : ℕ
  pub reason : SnapshotHistoryReason
  pub device_id : Option JsString
  pub user_id : Option JsString

-- What it extends, `SnapshotVersionMetadata`, is a field.
pub record YjsSnapshotVersion : Type 0 where
  pub metadata : SnapshotVersionMetadata
  pub vault_id : JsString
  pub snapshot : List ℕ
  pub state_vector : List ℕ

pub record YjsHistoryPage : Type 0 where
  pub versions : List SnapshotVersionMetadata
  pub more : Bool

pub record InMemoryYjsRoomStore : Type 0 where
  pub rooms : JsMap PersistedYjsRoom
  pub updates : JsMap (List StoredYjsUpdate)
  pub snapshots : JsMap YjsSnapshot
  pub history : JsMap YjsSnapshotVersion

abbrev pub empty_room_store : InMemoryYjsRoomStore
empty_room_store = record { rooms = []; updates = []; snapshots = []; history = [] }

abbrev pub room_key : JsString → JsString → JsString
room_key vault_id file_id = key_of vault_id file_id

abbrev pub update_key : JsString → JsString → ℕ → JsString
update_key vault_id file_id epoch = key_of vault_id (key_of file_id (decimal epoch))

abbrev pub sooner : StoredYjsUpdate → StoredYjsUpdate → Bool
sooner a b = ltb a.seq b.seq

-- `[...].find` of a version by its id, and the rows for the collection of old versions.
pub record GcSnapshotRow : Type 0 where
  pub metadata : SnapshotVersionMetadata
  pub vault_id : JsString
  pub is_current : Bool

-- `Boolean(room && room.epoch === version.roomEpoch && room.compactedThroughSeq === version.seq)`
abbrev pub is_current_in : Option PersistedYjsRoom → SnapshotVersionMetadata → Bool
is_current_in none version = false
is_current_in (some room) version =
    room.epoch == version.room_epoch && room.compacted_through_seq == version.seq

module _ (s : InMemoryYjsRoomStore) where
  unfoldable pub get_room : JsString → JsString → Option PersistedYjsRoom
  get_room vault_id file_id = get (room_key vault_id file_id) s.rooms

  unfoldable pub save_room : PersistedYjsRoom → InMemoryYjsRoomStore
  save_room room = record s { rooms = set (room_key room.vault_id room.file_id) room s.rooms }

  -- `this.updates.get(updateKey(…)) ?? []`
  unfoldable pub stored_updates : JsString → JsString → ℕ → List StoredYjsUpdate
  stored_updates vault_id file_id epoch =
      get (update_key vault_id file_id epoch) s.updates otherwise []

  unfoldable pub append_update : StoredYjsUpdate → InMemoryYjsRoomStore
  append_update u = record s {
    updates =
        set (update_key u.vault_id u.file_id u.room_epoch)
          (sort sooner (stored_updates u.vault_id u.file_id u.room_epoch ++ (u ∷ []))) s.updates;
  }

  unfoldable pub list_updates : JsString → JsString → ℕ → ℕ → List StoredYjsUpdate
  list_updates vault_id file_id epoch after_seq =
      sort sooner (filter (λ u. ltb after_seq u.seq) (stored_updates vault_id file_id epoch))

  unfoldable pub delete_updates_through : JsString → JsString → ℕ → ℕ → InMemoryYjsRoomStore
  delete_updates_through vault_id file_id epoch seq = record s {
    updates =
        set (update_key vault_id file_id epoch)
          (filter (λ u. ltb seq u.seq) (stored_updates vault_id file_id epoch)) s.updates;
  }

  unfoldable pub get_snapshot_version : JsString → JsString → JsString → Option YjsSnapshotVersion
  get_snapshot_version vault_id file_id version_id = elim (get version_id s.history) [
    | none ↦ none
    | some version ↦
        if str_eq version.vault_id vault_id && str_eq version.metadata.file_id file_id
        then some version
        else none
  ]

  unfoldable pub list_snapshot_history_for_gc : List GcSnapshotRow
  list_snapshot_history_for_gc =
      map
        (λ version. record {
          metadata = version.metadata;
          vault_id = version.vault_id;
          is_current =
              is_current_in (get (room_key version.vault_id version.metadata.file_id) s.rooms)
                version.metadata;
        })
        (values s.history)

-- The room that `saveSnapshot` saves when the snapshot is of the epoch that the room is in.
abbrev pub with_snapshot : PersistedYjsRoom → YjsSnapshot → PersistedYjsRoom
with_snapshot room snapshot = record room {
  snapshot = some snapshot.snapshot;
  state_vector = some snapshot.state_vector;
  compacted_through_seq = snapshot.compacted_through_seq;
}

abbrev pub save_current :
    YjsSnapshot → Option PersistedYjsRoom → InMemoryYjsRoomStore → InMemoryYjsRoomStore
save_current snapshot none s = s
save_current snapshot (some room) s =
    if room.epoch == snapshot.room_epoch then save_room s (with_snapshot room snapshot) else s

abbrev pub version_of : JsString → YjsSnapshot → YjsSnapshotVersion
version_of version_id snapshot = record {
  metadata = record {
    version_id = version_id;
    file_id = snapshot.file_id;
    room_epoch = snapshot.room_epoch;
    seq = snapshot.compacted_through_seq;
    created_at = snapshot.created_at;
    reason = snapshot.reason;
    device_id = snapshot.device_id;
    user_id = snapshot.user_id;
  };
  vault_id = snapshot.vault_id;
  snapshot = snapshot.snapshot;
  state_vector = snapshot.state_vector;
}

-- `version_id` is the `randomUUID()`.
unfoldable pub save_snapshot : JsString → YjsSnapshot → InMemoryYjsRoomStore → InMemoryYjsRoomStore
save_snapshot version_id snapshot s =
    let key = update_key snapshot.vault_id snapshot.file_id snapshot.room_epoch in
    let kept = record s { snapshots = set key snapshot s.snapshots } in
    let saved = save_current snapshot (get_room kept snapshot.vault_id snapshot.file_id) kept in
    record saved { history = set version_id (version_of version_id snapshot) saved.history }

-- `this.history.delete(versionId)` with its answer added up.
unfoldable pub prune_snapshot_history :
    List JsString → InMemoryYjsRoomStore → ℕ × InMemoryYjsRoomStore
prune_snapshot_history [] s = (0, s)
prune_snapshot_history (version_id ∷ version_ids) s =
    let (deleted, s') =
      prune_snapshot_history version_ids (record s { history = delete version_id s.history }) in
    let one = if is_some (get version_id s.history) then 1 else 0 in (one + deleted, s')

-- `compareVersionsDesc(a, b) < 0`; `locale_lt` is `localeCompare` with a negative answer.
module _ (locale_lt : JsString → JsString → Bool) where
  unfoldable pub is_newer : SnapshotVersionMetadata → SnapshotVersionMetadata → Bool
  is_newer a b =
      ltb b.created_at a.created_at
      || a.created_at == b.created_at
        && (ltb b.seq a.seq || a.seq == b.seq && locale_lt b.version_id a.version_id)

  -- The versions after `before`, where it is one of them.
  unfoldable pub older_than :
      Option SnapshotVersionMetadata → List SnapshotVersionMetadata → List SnapshotVersionMetadata
  older_than none sorted = sorted
  older_than (some before) sorted = filter (λ v. is_newer before v) sorted

  unfoldable pub list_snapshot_history :
      InMemoryYjsRoomStore → JsString → JsString → ℕ → Option JsString → YjsHistoryPage
  list_snapshot_history s vault_id file_id limit before_version_id =
      let own =
        filter (λ v. str_eq v.vault_id vault_id && str_eq v.metadata.file_id file_id)
          (values s.history) in
      let sorted = sort is_newer (map (λ v. v.metadata) own) in
      let before =
        if truthy before_version_id
        then find (λ v. str_eq v.version_id (before_version_id otherwise [])) sorted
        else none in
      let page = take (limit + 1) (older_than before sorted) in
      record { versions = take limit page; more = ltb limit (length page) }

-- Opens the file's functions, for tests that run them.
unfoldable pub code : Unit {0}
unfolding get_room save_room stored_updates append_update list_updates delete_updates_through
    get_snapshot_version list_snapshot_history_for_gc save_snapshot prune_snapshot_history is_newer
    older_than list_snapshot_history
code = tt
