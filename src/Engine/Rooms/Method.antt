-- ===== src/Engine/Rooms/Method.antt =====
-- packages/server/src/engine/room-manager.ts: the state of the manager, and what its methods are composed
-- of.
use obsidian_baritone.Prelude.{ℕ, Option, none, some, List, [], ◌∷◌, JsString, map, Result, ok, err}
use obsidian_baritone.Prelude.Maps.{JsMap, get, set}
use obsidian_baritone.Protocol.{not_found, ResultingClocks}
use obsidian_baritone.Protocol.ServerMessage.{ServerMessage}
use obsidian_baritone.Engine.Store.{InMemoryDataStore}
use obsidian_baritone.Engine.Store.Tx.{Tx, Thrown, sync}
use obsidian_baritone.Engine.Rooms.{
  RoomSink, RuntimeRoom, World, VaultBroadcast, RoomThrown, Act, as_thrown,
}
use obsidian_baritone.Engine.Rooms.RoomStore.{InMemoryYjsRoomStore, YjsSnapshotVersion}

pub record RoomManager (Doc : Type 0) : Type 0 where
  pub data_store : InMemoryDataStore
  pub room_store : InMemoryYjsRoomStore
  pub rooms : JsMap (RuntimeRoom Doc)
  pub sent : List (RoomSink × ServerMessage)
  pub broadcasts : List VaultBroadcast

abbrev pub Method {ℓ} : Type 0 → Type ℓ → Type ℓ
Method Doc A = RoomManager Doc → Result RoomThrown A × RoomManager Doc

module _ {Doc : Type 0} where
  abbrev opened : RuntimeRoom Doc → RoomManager Doc → World Doc
  opened room s = record {
    data_store = s.data_store;
    room_store = s.room_store;
    room = room;
    sent = s.sent;
    broadcasts = s.broadcasts;
  }

module _ {ℓ κ} {Doc : Type 0} {A : Type ℓ} {B : Type κ} where
  abbrev resume : Result RoomThrown A → (A → Method Doc B) → Method Doc B
  resume (ok a) f s = f a s
  resume (err e) f s = (err e, s)

  infixl 5 ◌>>=◌
  unfoldable pub ◌>>=◌ : Method Doc A → (A → Method Doc B) → Method Doc B
  ◌>>=◌ m f s = let (r, s') = m s in resume r f s'

module _ {ℓ} {Doc : Type 0} {A : Type ℓ} where
  abbrev pub pure : A → Method Doc A
  pure a s = (ok a, s)

  unfoldable pub lift : Result RoomThrown A → Method Doc A
  lift r s = (r, s)

  -- Reads of the store of rooms.
  unfoldable pub reads : (InMemoryYjsRoomStore → A) → Method Doc A
  reads f s = (ok (f s.room_store), s)

  unfoldable pub lookups : (InMemoryYjsRoomStore → Result Thrown A) → Method Doc A
  lookups f s = (as_thrown (f s.room_store), s)

  -- A test that only reads the data store.
  unfoldable pub checks : (InMemoryDataStore → Result Thrown A) → Method Doc A
  checks f s = (as_thrown (f s.data_store), s)

  unfoldable pub on_data : Tx A → Method Doc A
  on_data m s =
      let (r, data_store) = m s.data_store in (as_thrown r, record s { data_store = data_store })

  -- `room.lock.run(…)` on the room in memory under a key.
  unfoldable pub locked : JsString → Act Doc A → RuntimeRoom Doc → Method Doc A
  locked key m room s =
      let (r, w) = m (opened room s) in
      (
        r,
        record {
          data_store = w.data_store;
          room_store = w.room_store;
          rooms = set key w.room s.rooms;
          sent = w.sent;
          broadcasts = w.broadcasts;
        },
      )

-- A locked section of every room in memory; the exception of the first that throws is the result,
-- after all of them.
unfoldable pub each_room :
    {Doc : Type 0} → Act Doc (Unit {0}) → List JsString → Method Doc (Unit {0})
each_room m [] s = (ok tt, s)
each_room m (key ∷ keys) s = elim (get key s.rooms) [
  | none ↦ each_room m keys s
  | some room ↦
      let (r, s') = locked key m room s in
      let (rest, s'') = each_room m keys s' in (elim r [ err e ↦ err e | ok _ ↦ rest ], s'')
]

abbrev pub keys_of {ℓ} : {V : Type ℓ} → JsMap V → List JsString
keys_of = map (λ e. e.0)

abbrev pub or_no_version : Option YjsSnapshotVersion → Result Thrown YjsSnapshotVersion
or_no_version none = err (sync not_found "History version not found")
or_no_version (some version) = ok version

-- What `restoreHistoryVersion` returns.
pub record Restored : Type 0 where
  pub text : JsString
  pub vault_seq : ℕ
  pub resulting_clocks : ResultingClocks
