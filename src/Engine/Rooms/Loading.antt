-- ===== src/Engine/Rooms/Loading.antt =====
-- packages/server/src/engine/room-manager.ts: how a room that is not in memory is made from the store
-- of rooms.
use obsidian_baritone.Prelude.{
  ℕ, Bool, true, false, Option, none, some, List, [], ◌∷◌, JsString, if◌then◌else◌, ◌otherwise◌,
  Result, ok, err,
}
use obsidian_baritone.Engine.Rooms.{
  Yjs, is_active, is_closed, RuntimeRoom, RoomThrown, malformed_update,
}
use obsidian_baritone.Engine.Rooms.RoomStore.{
  PersistedYjsRoom, StoredYjsUpdate, InMemoryYjsRoomStore, get_room, list_updates,
}
use obsidian_baritone.Engine.Rooms.Helpers.{empty_room}

module _ {Doc : Type 0} (yjs : Yjs Doc) where
  -- The loop over the stored updates: it ends with the first that throws.
  unfoldable pub replay : Doc → List StoredYjsUpdate → Bool × Doc
  replay doc [] = (true, doc)
  replay doc (u ∷ us) =
      let (returned, next) = yjs.apply_update doc u.update in
      let rest = replay next us in if returned then rest else (false, next)

  abbrev pub snapshot_doc : Option (List ℕ) → Bool × Doc
  snapshot_doc none = (true, yjs.new_doc)
  snapshot_doc (some snapshot) = yjs.apply_update yjs.new_doc snapshot

  -- The updates that `loadRuntime` applies.
  abbrev pub pending_updates : InMemoryYjsRoomStore → PersistedYjsRoom → List StoredYjsUpdate
  pending_updates s persisted =
      if persisted.seeded
      then list_updates s persisted.vault_id persisted.file_id persisted.epoch
          persisted.compacted_through_seq
      else []

  -- The document that the store has of a room.
  unfoldable pub stored_doc : InMemoryYjsRoomStore → PersistedYjsRoom → Bool × Doc
  stored_doc s persisted =
      let (returned, doc) = snapshot_doc persisted.snapshot in
      let rest = replay doc (pending_updates s persisted) in if returned then rest else (false, doc)

  abbrev pub room_in : InMemoryYjsRoomStore → JsString → JsString → PersistedYjsRoom
  room_in s vault_id file_id = get_room s vault_id file_id otherwise empty_room vault_id file_id

  -- `loadRuntime` of a room that is not in memory
  unfoldable pub load_runtime :
      InMemoryYjsRoomStore → JsString → JsString → Result RoomThrown (RuntimeRoom Doc)
  load_runtime s vault_id file_id =
      let persisted = room_in s vault_id file_id in
      let (returned, doc) = stored_doc s persisted in
      if returned
      then ok (record {
        persisted = persisted;
        doc = doc;
        participants = [];
        closing_sinks = [];
        state = if persisted.active then is_active else is_closed;
        closing_timer = none;
      })
      else err malformed_update

-- Opens the file's functions, for tests that run them.
unfoldable pub code : Unit {0}
unfolding replay stored_doc load_runtime
code = tt
