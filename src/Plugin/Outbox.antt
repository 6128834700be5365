-- ===== src/Plugin/Outbox.antt =====
-- apps/plugin/src/sync/outbox.ts: `OutboxManager`. A call takes the time and the random id that it
-- asks for. The source shares the op of an entry with the caller of `enqueue`; here they are values.
pub mod Kept
pub mod WellFormed
pub mod Calls
pub mod Tests
use obsidian_baritone.Prelude.{
  ℕ, ◌+◌, ◌-◌, max, min, Bool, true, false, not, ◌&&◌, ◌||◌, Option, none, some, List, [], ◌∷◌, ltb,
  leb, ◌==◌, if◌then◌else◌, JsString, length, filter, any, sort, map, ◌otherwise◌,
}
use obsidian_baritone.Prelude.Maps.{JsMap, get, set, delete, values}
use obsidian_baritone.Clock.VersionVector.{VersionVector}
use obsidian_baritone.Clock.Lamport.{PathClock}
use obsidian_baritone.Protocol.{
  FileOp, FileType, OpKind, ContentEncryptionEncoding, protocol_version,
}

pub data OutboxStatus : Type 0 where
  queued : OutboxStatus
  inflight : OutboxStatus
  conflicted : OutboxStatus
  rejected : OutboxStatus

abbrev pub is_queued : OutboxStatus → Bool
is_queued queued = true
is_queued _ = false

abbrev pub is_inflight : OutboxStatus → Bool
is_inflight inflight = true
is_inflight _ = false

pub record OutboxEntry : Type 0 where
  pub op : FileOp
  pub status : OutboxStatus
  pub attempts : ℕ
  pub last_error : Option JsString
  pub queued_at : ℕ
  pub updated_at : ℕ

-- A `FileOp` without its device, its number and its schema version.
pub record FileOpDraft : Type 0 where
  pub op_id : Option JsString
  pub file_id : JsString
  pub vault_id : JsString
  pub kind : OpKind
  pub type : FileType
  pub base_content_vv : Option VersionVector
  pub new_content_vv : Option VersionVector
  pub content_hash : Option JsString
  pub size : Option ℕ
  pub content_encoding : Option ContentEncryptionEncoding
  pub inline_text : Option JsString
  pub blob_ref : Option JsString
  pub new_path : Option JsString
  pub path_clock : Option PathClock
  pub delete_clock : Option PathClock

-- `OutboxManager`
pub record OutboxManager : Type 0 where
  pub device_id : JsString
  pub map_of : JsMap OutboxEntry
  pub next_device_seq : ℕ

abbrev pub seq_of : OutboxEntry → ℕ
seq_of entry = entry.op.device_seq

abbrev pub add_entries : List OutboxEntry → JsMap OutboxEntry → JsMap OutboxEntry
add_entries [] m = m
add_entries (entry ∷ entries) m = add_entries entries (set entry.op.op_id entry m)

abbrev pub max_seq : List OutboxEntry → ℕ
max_seq [] = 0
max_seq (entry ∷ entries) = max (seq_of entry) (max_seq entries)

-- The constructor.
unfoldable pub new_outbox : JsString → ℕ → List OutboxEntry → OutboxManager
new_outbox device_id next_device_seq given = record {
  device_id = device_id;
  map_of = add_entries given [];
  next_device_seq =
      if leb next_device_seq (max_seq given) then max_seq given + 1 else next_device_seq;
}

abbrev pub earlier : OutboxEntry → OutboxEntry → Bool
earlier a b = ltb (seq_of a) (seq_of b)

unfoldable pub entries : OutboxManager → List OutboxEntry
entries m = sort earlier (values m.map_of)

unfoldable pub op_of_draft : FileOpDraft → JsString → JsString → ℕ → FileOp
op_of_draft draft uuid device_id device_seq = record {
  op_id = draft.op_id otherwise uuid;
  device_id = device_id;
  device_seq = device_seq;
  file_id = draft.file_id;
  vault_id = draft.vault_id;
  kind = draft.kind;
  type = draft.type;
  base_content_vv = draft.base_content_vv;
  new_content_vv = draft.new_content_vv;
  content_hash = draft.content_hash;
  size = draft.size;
  content_encoding = draft.content_encoding;
  inline_text = draft.inline_text;
  blob_ref = draft.blob_ref;
  new_path = draft.new_path;
  path_clock = draft.path_clock;
  delete_clock = draft.delete_clock;
  schema_version = some protocol_version;
}

unfoldable pub enqueue : ℕ → JsString → FileOpDraft → OutboxManager → FileOp × OutboxManager
enqueue now uuid draft m =
    let op = op_of_draft draft uuid m.device_id m.next_device_seq in
    let entry : OutboxEntry = record {
      op = op;
      status = queued;
      attempts = 0;
      last_error = none;
      queued_at = now;
      updated_at = now;
    } in
    (op, record m { map_of = set op.op_id entry m.map_of; next_device_seq = m.next_device_seq + 1 })

-- A write to the fields of the entry of an op, when there is one.
unfoldable pub alter : JsString → (OutboxEntry → OutboxEntry) → OutboxManager → OutboxManager
alter op_id f m = elim (get op_id m.map_of) [
  | none ↦ m
  | some entry ↦ record m { map_of = set op_id (f entry) m.map_of }
]

unfoldable pub mark_inflight : ℕ → JsString → OutboxManager → OutboxManager
mark_inflight now op_id =
    alter op_id
      λ entry. record entry { status = inflight; attempts = entry.attempts + 1; updated_at = now }

unfoldable pub reject : ℕ → JsString → JsString → Bool → OutboxManager → OutboxManager
reject now op_id message terminal = alter op_id λ entry. record entry {
  status = if terminal then rejected else queued;
  last_error = some message;
  updated_at = now;
}

unfoldable pub conflict : ℕ → JsString → JsString → OutboxManager → OutboxManager
conflict now op_id conflict_id =
    alter op_id
      λ entry. record entry { status = conflicted; last_error = some conflict_id; updated_at = now }

unfoldable pub ack : JsString → OutboxManager → OutboxManager
ack op_id m = record m { map_of = delete op_id m.map_of }

unfoldable pub rollback_last : JsString → OutboxManager → Bool × OutboxManager
rollback_last op_id m = elim (get op_id m.map_of) [
  | none ↦ (false, m)
  | some entry ↦ if not (seq_of entry + 1 == m.next_device_seq) then (false, m) else (
    true,
    record m { map_of = delete op_id m.map_of; next_device_seq = m.next_device_seq - 1 },
  )
]

-- The loop of `removeAndReindex`.
unfoldable pub reindexed : ℕ → OutboxEntry → OutboxEntry
reindexed removed item =
    if ltb removed (seq_of item)
    then record item { op = record item.op { device_seq = item.op.device_seq - 1 } }
    else item

unfoldable pub remove_and_reindex : JsString → OutboxManager → Bool × OutboxManager
remove_and_reindex op_id m = elim (get op_id m.map_of) [
  | none ↦ (false, m)
  | some entry ↦ (
    true,
    record m {
      map_of = map (λ e. (e.0, reindexed (seq_of entry) e.1)) (delete op_id m.map_of);
      next_device_seq = m.next_device_seq - 1;
    },
  )
]

-- `Math.min` of the numbers of the entries.
abbrev pub lowest : OutboxEntry → List OutboxEntry → ℕ
lowest entry [] = seq_of entry
lowest entry (next ∷ rest) = min (seq_of entry) (lowest next rest)

abbrev pub delete_all : List OutboxEntry → JsMap OutboxEntry → JsMap OutboxEntry
delete_all [] m = m
delete_all (entry ∷ rest) m = delete_all rest (delete entry.op.op_id m)

pub record Discarded : Type 0 where
  pub discarded : ℕ
  pub blocked_by_inflight : Bool

-- `discardUnsent` behind its test for ops in flight, for the queued entries that it finds.
unfoldable pub discard_queued : List OutboxEntry → OutboxManager → Discarded × OutboxManager
discard_queued [] m = (record { discarded = 0; blocked_by_inflight = false }, m)
discard_queued (first ∷ rest) m =
    if any (λ e. not (is_queued e.status) && ltb (lowest first rest) (seq_of e)) (entries m)
    then (record { discarded = 0; blocked_by_inflight = true }, m)
    else (
      record { discarded = length (first ∷ rest); blocked_by_inflight = false },
      record m { map_of = delete_all (first ∷ rest) m.map_of; next_device_seq = lowest first rest },
    )

unfoldable pub discard_unsent : OutboxManager → Discarded × OutboxManager
discard_unsent m =
    if any (λ e. is_inflight e.status) (entries m)
    then (record { discarded = 0; blocked_by_inflight = true }, m)
    else discard_queued (filter (λ e. is_queued e.status) (entries m)) m

unfoldable pub retryable : OutboxManager → List OutboxEntry
retryable m = filter (λ e. is_queued e.status || is_inflight e.status) (entries m)
