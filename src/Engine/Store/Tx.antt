-- ===== src/Engine/Store/Tx.antt =====
-- Actions on the store of packages/server/src/engine/store.ts: they read and write it, and return
-- or throw. What was written before an exception stays written.
use mathlib.Core.Path.{◌≡◌, refl}
use obsidian_baritone.Prelude.{
  ℕ, ◌+◌, Bool, true, false, not, ◌&&◌, ◌||◌, Option, none, some, List, [], ◌∷◌, ◌++◌, JsString,
  ltb, if◌then◌else◌, str_eq, opt_eq, find, sort, Result, ok, err, String,
}
use obsidian_baritone.Prelude.Maps.{set, delete, values}
use obsidian_baritone.Clock.VersionVector.{VersionVector}
use obsidian_baritone.Path.{PathValidationError}
use obsidian_baritone.Protocol.{
  AppliedOp, ConflictKind, ConflictRecord, ConflictStatus, opened, kind_eq, is_resolved, status_eq,
  ErrorCode, SyncError,
}
use obsidian_baritone.Engine.Store.{
  InMemoryDataStore, StoredDevice, StoredFile, StoredOp, BlobRecord, BlobRef, file_key,
  device_seq_key, blob_ref_key, vault_ops, next_seq, get_conflict,
}

-- What is thrown: a `SyncError`, or the `PathValidationError` of `normalizePath`, which is none.
pub data Thrown : Type 0 where
  sync_error : SyncError → Thrown
  path_error : PathValidationError → Thrown

abbrev pub Tx {ℓ} : Type ℓ → Type ℓ
Tx A = InMemoryDataStore → Result Thrown A × InMemoryDataStore

module _ {ℓ} {A : Type ℓ} where
  unfoldable pub pure : A → Tx A
  pure a s = (ok a, s)

  unfoldable pub throw : Thrown → Tx A
  throw e s = (err e, s)

  unfoldable pub reads : (InMemoryDataStore → A) → Tx A
  reads f s = (ok (f s), s)

  unfoldable pub lift : Result Thrown A → Tx A
  lift r s = (r, s)

abbrev pub writes : (InMemoryDataStore → InMemoryDataStore) → Tx (Unit {0})
writes f s = (ok tt, f s)

-- `throw new SyncError(code, message)`
abbrev pub sync : ErrorCode → String → Thrown
sync code message = sync_error (record { code = code; message = message; details = none })

module _ {ℓ κ} {A : Type ℓ} {B : Type κ} where
  abbrev pub resume : Result Thrown A → (A → Tx B) → Tx B
  resume (ok a) f s = f a s
  resume (err e) f s = (err e, s)

  infixl 5 ◌>>=◌
  unfoldable pub ◌>>=◌ : Tx A → (A → Tx B) → Tx B
  ◌>>=◌ m f s = let (r, s') = m s in resume r f s'

-- `if (test) throw e`
unfoldable pub throw_if : Bool → Thrown → Tx (Unit {0})
throw_if test e s = if test then (err e, s) else (ok tt, s)

-- An action that is done only if there is something to do it with.
unfoldable pub when_some {ℓ} : {A : Type ℓ} → Option A → (A → Tx (Unit {0})) → Tx (Unit {0})
when_some none f s = (ok tt, s)
when_some (some a) f s = f a s

unfoldable pub when : Bool → Tx (Unit {0}) → Tx (Unit {0})
when test m s = if test then m s else (ok tt, s)

module _ {ℓ} {B : Type ℓ} where
  infixl 5 ◌>>◌
  abbrev pub ◌>>◌ : Tx (Unit {0}) → Tx B → Tx B
  m >> n = m >>= λ _. n

-- The writing methods of `InMemoryDataStore`.
unfoldable pub save_device : StoredDevice → Tx (Unit {0})
save_device device = writes λ s. record s { devices = set device.device_id device s.devices }

unfoldable pub save_file : StoredFile → Tx (Unit {0})
save_file file =
    writes λ s. record s { files = set (file_key file.vault_id file.file_id) file s.files }

unfoldable pub next_vault_seq : JsString → Tx ℕ
next_vault_seq vault_id s =
    let next = next_seq s vault_id in (ok next, record s { seqs = set vault_id (next + 1) s.seqs })

abbrev pub earlier : StoredOp → StoredOp → Bool
earlier a b = ltb a.seq b.seq

unfoldable pub append_op : StoredOp → Tx (Unit {0})
append_op op = writes λ s. record s {
  ops_by_id = set op.op_id op s.ops_by_id;
  ops_by_device_seq = set (device_seq_key op.device_id op.device_seq) op s.ops_by_device_seq;
  ops_by_vault =
      set op.vault_id (sort earlier (vault_ops s op.vault_id ++ (op ∷ []))) s.ops_by_vault;
}

unfoldable pub append_outbox : JsString → ℕ → AppliedOp → Tx (Unit {0})
append_outbox vault_id vault_seq payload = writes λ s. record s {
  outbox =
      s.outbox
      ++ (record {
        vault_id = vault_id;
        vault_seq = vault_seq;
        payload = payload;
        published = false;
      }
          ∷ []);
}

unfoldable pub save_blob : BlobRecord → Tx (Unit {0})
save_blob blob = writes λ s. record s { blobs = set blob.hash blob s.blobs }

unfoldable pub add_blob_ref : BlobRef → Tx (Unit {0})
add_blob_ref ref = writes λ s. record s { blob_refs = set (blob_ref_key ref) ref s.blob_refs }

unfoldable pub remove_blob_ref : BlobRef → Tx (Unit {0})
remove_blob_ref ref = writes λ s. record s { blob_refs = delete (blob_ref_key ref) s.blob_refs }

-- `Omit<ConflictRecord, 'conflictId' | 'status'>`
pub record ConflictInput : Type 0 where
  pub vault_id : JsString
  pub file_id : JsString
  pub kind : ConflictKind
  pub base_hash : Option JsString
  pub ours_hash : Option JsString
  pub theirs_hash : Option JsString
  pub ours_vv : Option VersionVector
  pub theirs_vv : Option VersionVector

-- The record of a new conflict; `conflict_id` is the `randomUUID()`.
unfoldable pub new_conflict : JsString → ConflictInput → ConflictRecord
new_conflict conflict_id input = record {
  conflict_id = conflict_id;
  vault_id = input.vault_id;
  file_id = input.file_id;
  kind = input.kind;
  base_hash = input.base_hash;
  ours_hash = input.ours_hash;
  theirs_hash = input.theirs_hash;
  ours_vv = input.ours_vv;
  theirs_vv = input.theirs_vv;
  status = opened;
  claimed_by = none;
  resolved_by = none;
  resolved_hash = none;
  resolved_vv = none;
}

-- The test of the loop of `createConflict`.
unfoldable pub is_same_conflict : ConflictInput → ConflictRecord → Bool
is_same_conflict input existing =
    str_eq existing.file_id input.file_id
    && kind_eq existing.kind input.kind
    && opt_eq existing.ours_hash input.ours_hash
    && opt_eq existing.theirs_hash input.theirs_hash
    && not (is_resolved existing.status)

unfoldable pub create_conflict : JsString → ConflictInput → Tx ConflictRecord
create_conflict uuid input s = elim (find (is_same_conflict input) (values s.conflicts)) [
  | some existing ↦ (ok existing, s)
  | none ↦
      let conflict = new_conflict uuid input in
      (ok conflict, record s { conflicts = set conflict.conflict_id conflict s.conflicts })
]

unfoldable pub save_conflict : ConflictRecord → Tx (Unit {0})
save_conflict conflict =
    writes λ s. record s { conflicts = set conflict.conflict_id conflict s.conflicts }

unfoldable pub compare_and_set_conflict :
    ConflictRecord → ConflictStatus → Option JsString → Tx Bool
compare_and_set_conflict conflict status claimed_by s = elim (get_conflict s conflict.conflict_id) [
  | none ↦ (ok false, s)
  | some current ↦
      if not (status_eq current.status status) || not (opt_eq current.claimed_by claimed_by)
      then (ok false, s)
      else (ok true, record s { conflicts = set conflict.conflict_id conflict s.conflicts })
]

unfoldable pub put_content : JsString → List ℕ → Tx (Unit {0})
put_content hash bytes = writes λ s. record s { content = set hash bytes s.content }

-- How a chain goes on.
module _ {ℓ κ} {A : Type ℓ} {B : Type κ} where
  pub >>=-ok :
      (m : Tx A) (f : A → Tx B) (s t : InMemoryDataStore) (a : A)
      → m s ≡ (ok a, t)
      → (m >>= f) s ≡ f a t
  unfolding ◌>>=◌
  >>=-ok m f s t a e = rw e refl

  pub >>=-err :
      (m : Tx A) (f : A → Tx B) (s t : InMemoryDataStore) (x : Thrown)
      → m s ≡ (err x, t)
      → (m >>= f) s ≡ (err x, t)
  unfolding ◌>>=◌
  >>=-err m f s t x e = rw e refl

-- A run by its result.
module _ {ℓ κ} {A : Type ℓ} {B : Type κ} where
  pub run_of : (p : A × B) (a : A) → p.0 ≡ a → p ≡ (a, p.1)
  run_of p a e = λ i. (e i, p.1)

-- Opens the file's functions, for tests that run them.
unfoldable pub code : Unit {0}
unfolding pure throw reads lift ◌>>=◌ throw_if when_some when save_device save_file next_vault_seq
    append_op append_outbox save_blob add_blob_ref remove_blob_ref new_conflict is_same_conflict
    create_conflict save_conflict compare_and_set_conflict put_content
code = tt
