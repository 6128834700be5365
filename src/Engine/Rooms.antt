-- ===== src/Engine/Rooms.antt =====
-- packages/server/src/engine/room-manager.ts: rooms in which several devices edit one file as a
-- Yjs document. This file has the state of a room, the actions on it and on the two stores, and what
-- the code uses of Yjs and of its surroundings. Yjs documents and the encodings of text are
-- parameters.
pub mod RoomStore
pub mod Helpers
pub mod Actions
pub mod Handlers
pub mod Demotion
pub mod Loading
pub mod Lifecycle
pub mod Method
pub mod Manager
pub mod Updates
pub mod Durable
pub mod Persist
pub mod Edits
pub mod Quiet
pub mod Keeps
pub mod Sections
pub mod Closing
pub mod Restoring
pub mod Compaction
pub mod Calls
pub mod Opening
pub mod Promoting
pub mod Sending
pub mod Answers
pub mod Tests
use mathlib.Core.Path.{◌≡◌, refl}
use obsidian_baritone.Prelude.{
  ℕ, Bool, true, false, Option, none, some, List, [], ◌∷◌, ◌++◌, JsString, if◌then◌else◌, Result,
  ok, err, String,
}
use obsidian_baritone.Prelude.Maps.{JsMap}
use obsidian_baritone.Clock.VersionVector.{VersionVector}
use obsidian_baritone.Unicode.{Platform}
use obsidian_baritone.Protocol.{AppliedOp}
use obsidian_baritone.Protocol.ServerMessage.{ServerMessage}
use obsidian_baritone.Engine.Store.{InMemoryDataStore, Role}
use obsidian_baritone.Engine.Store.Tx.{Thrown, Tx}
use RoomStore.{PersistedYjsRoom, InMemoryYjsRoomStore}

-- The part of Yjs that the code calls, on documents whose text is named 'obsidian'.
-- `apply_update` tells whether the call returned, and the document that it left: it throws for
-- bytes that are no update. `insert_text` and `delete_text` are `insert(0, text)` and
-- `delete(0, length)`; `encode_diff` is `encodeStateAsUpdate` with a state vector.
pub record Yjs (Doc : Type 0) : Type 0 where
  pub new_doc : Doc
  pub apply_update : Doc → List ℕ → Bool × Doc
  pub encode_state : Doc → List ℕ
  pub encode_diff : Doc → List ℕ → List ℕ
  pub encode_state_vector : Doc → List ℕ
  pub text : Doc → JsString
  pub insert_text : JsString → Doc → Doc
  pub delete_text : Doc → Doc

-- `connection` stands for the identity of the object.
pub record RoomSink : Type 0 where
  pub connection : ℕ
  pub device_id : JsString

pub record RoomManagerOptions : Type 0 where
  pub lease_ms : ℕ
  pub closing_grace_ms : ℕ
  pub max_updates : ℕ
  pub window_ms : ℕ
  pub snapshot_every_updates : ℕ

-- What the constructor takes where an option is missing.
abbrev pub default_options : RoomManagerOptions
default_options = record {
  lease_ms = 60000;
  closing_grace_ms = 3000;
  max_updates = 120;
  window_ms = 10000;
  snapshot_every_updates = 20;
}

-- What is thrown: what the engine throws, or the error of Yjs for bytes that are no update.
pub data RoomThrown : Type 0 where
  thrown : Thrown → RoomThrown
  malformed_update : RoomThrown

-- What one call sees: its time, the random id that it draws for a room, and which sinks are
-- full. `message_of` is the `message` of an exception that is no `SyncError`.
pub record Env (Doc : Type 0) : Type 0 where
  pub os : Platform
  pub yjs : Yjs Doc
  pub from_base64 : JsString → List ℕ
  pub to_base64 : List ℕ → JsString
  pub decode_utf8 : List ℕ → JsString
  pub locale_lt : JsString → JsString → Bool
  pub message_of : RoomThrown → String
  pub options : RoomManagerOptions
  pub now : ℕ
  pub uuid : JsString → JsString
  pub is_backpressured : RoomSink → Bool

pub record Participant : Type 0 where
  pub device_id : JsString
  pub user_id : JsString
  pub role : Role
  pub sink : RoomSink
  pub joined_vv : VersionVector
  pub rate_window_started : ℕ
  pub updates_in_window : ℕ

pub data Phase : Type 0 where
  is_active : Phase
  is_closing : Phase
  is_closed : Phase

-- `closing_timer` is the time at which the timer runs out. The lock is left out: a locked section
-- is one action.
pub record RuntimeRoom (Doc : Type 0) : Type 0 where
  pub persisted : PersistedYjsRoom
  pub doc : Doc
  pub participants : JsMap Participant
  pub closing_sinks : JsMap RoomSink
  pub state : Phase
  pub closing_timer : Option ℕ

abbrev pub is_phase_closed : Phase → Bool
is_phase_closed is_closed = true
is_phase_closed _ = false

-- An element of what `broadcastVault` was called with.
pub record VaultBroadcast : Type 0 where
  pub vault_id : JsString
  pub source_device_id : Option JsString
  pub ops : List AppliedOp

-- What a locked section of a room works on. `sent` has what sinks were given, in order.
pub record World (Doc : Type 0) : Type 0 where
  pub data_store : InMemoryDataStore
  pub room_store : InMemoryYjsRoomStore
  pub room : RuntimeRoom Doc
  pub sent : List (RoomSink × ServerMessage)
  pub broadcasts : List VaultBroadcast

abbrev pub as_thrown {ℓ} : {A : Type ℓ} → Result Thrown A → Result RoomThrown A
as_thrown (ok a) = ok a
as_thrown (err e) = err (thrown e)

abbrev pub Act {ℓ} : Type 0 → Type ℓ → Type ℓ
Act Doc A = World Doc → Result RoomThrown A × World Doc

module _ {ℓ} {Doc : Type 0} {A : Type ℓ} where
  unfoldable pub pure : A → Act Doc A
  pure a w = (ok a, w)

  unfoldable pub throw : Thrown → Act Doc A
  throw e w = (err (thrown e), w)

  unfoldable pub reads : (World Doc → A) → Act Doc A
  reads f w = (ok (f w), w)

  -- A call on the data store.
  unfoldable pub on_data : Tx A → Act Doc A
  on_data m w = let (r, s) = m w.data_store in (as_thrown r, record w { data_store = s })

module _ {Doc : Type 0} where
  abbrev pub on_rooms : (InMemoryYjsRoomStore → InMemoryYjsRoomStore) → Act Doc (Unit {0})
  on_rooms f w = (ok tt, record w { room_store = f w.room_store })

  -- An assignment to fields of the room.
  abbrev pub sets : (RuntimeRoom Doc → RuntimeRoom Doc) → Act Doc (Unit {0})
  sets f w = (ok tt, record w { room = f w.room })

  -- `sink.send(message)`
  unfoldable pub send : RoomSink → ServerMessage → Act Doc (Unit {0})
  send sink message w = (ok tt, record w { sent = w.sent ++ ((sink, message) ∷ []) })

  unfoldable pub broadcast_vault : VaultBroadcast → Act Doc (Unit {0})
  broadcast_vault b w = (ok tt, record w { broadcasts = w.broadcasts ++ (b ∷ []) })

  -- `if (test) throw e`
  unfoldable pub throw_if : Bool → Thrown → Act Doc (Unit {0})
  throw_if test e w = if test then (err (thrown e), w) else (ok tt, w)

  unfoldable pub when : Bool → Act Doc (Unit {0}) → Act Doc (Unit {0})
  when test m w = if test then m w else (ok tt, w)

module _ {ℓ κ} {Doc : Type 0} {A : Type ℓ} {B : Type κ} where
  abbrev pub resume : Result RoomThrown A → (A → Act Doc B) → Act Doc B
  resume (ok a) f w = f a w
  resume (err e) f w = (err e, w)

  infixl 5 ◌>>=◌
  unfoldable pub ◌>>=◌ : Act Doc A → (A → Act Doc B) → Act Doc B
  ◌>>=◌ m f w = let (r, w') = m w in resume r f w'

module _ {ℓ} {Doc : Type 0} {B : Type ℓ} where
  infixl 5 ◌>>◌
  abbrev pub ◌>>◌ : Act Doc (Unit {0}) → Act Doc B → Act Doc B
  m >> n = m >>= λ _. n

-- How a chain goes on.
module _ {Doc A : Type 0} where
  pub then_ok :
      (m : Act Doc (Unit {0})) (n : Act Doc A) (w : World Doc)
      → (m w).0 ≡ ok tt
      → (m >> n) w ≡ n (m w).1
  unfolding ◌>>=◌
  then_ok m n w e = rw e refl

-- Opens the file's functions, for tests that run them.
unfoldable pub code : Unit {0}
unfolding pure throw reads on_data send broadcast_vault throw_if when ◌>>=◌
code = tt
