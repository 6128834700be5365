-- ===== src/Engine/Rooms/Helpers.antt =====
-- packages/server/src/engine/room-manager.ts: the functions at the end of the file, and what the private
-- methods read of the stores.
use obsidian_baritone.Prelude.{
  ℕ, ◌+◌, ◌-◌, ◌*◌, Bool, true, false, not, ◌&&◌, ◌||◌, Option, none, some, List, [], ◌∷◌, ◌++◌,
  JsString, lit, leb, ◌==◌, if◌then◌else◌, str_eq, max, take, drop, filter, any, length, Result, ok,
  err,
}
use obsidian_baritone.Clock.VersionVector.{empty_vv}
use obsidian_baritone.Hash
use obsidian_baritone.Path.Parts.{decimal}
use obsidian_baritone.Unicode.{Platform}
use obsidian_baritone.Protocol.{unauthenticated, forbidden, not_found}
use obsidian_baritone.Engine.Store.{
  InMemoryDataStore, Role, owner, editor, viewer, StoredFile, get_device, get_role, get_file,
}
use obsidian_baritone.Engine.Store.Tx.{Thrown, sync}
use obsidian_baritone.Engine.Rooms.{RoomSink}
use obsidian_baritone.Engine.Rooms.RoomStore.{PersistedYjsRoom}

abbrev pub max_update_bytes : ℕ
max_update_bytes = 2000000

abbrev pub max_sync_bytes : ℕ
max_sync_bytes = 200000

abbrev pub empty_room : JsString → JsString → PersistedYjsRoom
empty_room vault_id file_id = record {
  vault_id = vault_id;
  file_id = file_id;
  epoch = 0;
  active = false;
  seeded = false;
  lease_owner = none;
  lease_until = none;
  activation_base_vv = empty_vv;
  activation_base_hash = none;
  next_seq = 1;
  snapshot = none;
  state_vector = none;
  compacted_through_seq = 0;
}

abbrev pub collab_device : JsString → JsString
collab_device file_id = lit "collab:" ++ file_id

-- `stableOpId`
unfoldable pub stable_op_id : Platform → JsString → JsString → ℕ → JsString
stable_op_id os vault_id file_id epoch =
    lit "00000000-0000-4000-8000-"
    ++ take 12 (Hash.hash_text os (vault_id ++ (b':' ∷ (file_id ++ (b':' ∷ decimal epoch)))))

-- The value of a hexadecimal digit of either case.
abbrev hex_value : ℕ → Option ℕ
hex_value c =
    if leb b'0' c && leb c b'9'
    then some (c - 48)
    else if leb b'a' c && leb c b'f'
    then some (c - 87)
    else if leb b'A' c && leb c b'F'
    then some (c - 55)
    else none

-- `Number.parseInt(hex, 16)` of digits, the ones before the first other character; 0 for none, where
-- the source has NaN. The text is the end of a UUID, as the validation of messages demands.
unfoldable pub parse_hex : ℕ → JsString → ℕ
parse_hex n [] = n
parse_hex n (c ∷ s) = elim (hex_value c) [ none ↦ n | some d ↦ parse_hex (n * 16 + d) s ]

-- `deviceSeqFromUuid`
unfoldable pub device_seq_from_uuid : JsString → ℕ
device_seq_from_uuid value =
    let digits = filter (λ c. not (c == b'-')) value in
    max 1 (parse_hex 0 (drop (length digits - 12) digits))

abbrev pub can_write : Role → Bool
can_write owner = true
can_write editor = true
can_write viewer = false

-- The reads of `requireRole`, in their order.
unfoldable pub role_in :
    InMemoryDataStore → JsString → JsString → JsString → Bool → Result Thrown Role
role_in s vault_id device_id user_id as_editor = elim (get_device s device_id) [
  | none ↦ err (sync unauthenticated "Invalid device")
  | some device ↦
      if not (str_eq device.vault_id vault_id) || device.revoked
      then err (sync unauthenticated "Invalid device")
      else elim (get_role s vault_id user_id) [
        | none ↦ err (sync forbidden "No vault role")
        | some role ↦
            if as_editor && not (can_write role)
            then err (sync forbidden "Write permission required")
            else ok role
      ]
]

abbrev or_not_found : Option StoredFile → Result Thrown StoredFile
or_not_found none = err (sync not_found "File not found")
or_not_found (some file) = if file.deleted then err (sync not_found "File not found") else ok file

unfoldable pub live_file_in : InMemoryDataStore → JsString → JsString → Result Thrown StoredFile
live_file_in s vault_id file_id = or_not_found (get_file s vault_id file_id)

-- The sinks of a room without repetition: the participants', then the closing ones.
unfoldable pub add_sinks : List RoomSink → List RoomSink → List RoomSink
add_sinks sinks [] = sinks
add_sinks sinks (sink ∷ more) =
    if any (λ s. s.connection == sink.connection) sinks
    then add_sinks sinks more
    else add_sinks (sinks ++ (sink ∷ [])) more

-- Opens the file's functions, for tests that run them.
unfoldable pub code : Unit {0}
unfolding stable_op_id parse_hex device_seq_from_uuid role_in live_file_in add_sinks
code = tt
