-- ===== src/Engine/Store/Frame.antt =====
-- Actions that touch only content, blob references and conflicts: the files, the log, the
-- sequence counters, the outbox and the devices stay as they were, whether the action returns or
-- throws.
use obsidian_baritone.Prelude.{
  ℕ, ◌≡◌, refl, ◌∙◌, Bool, true, false, Option, none, some, JsString, find, List, Result, ok, err,
  if◌then◌else◌, Option-cases, inl, inr,
}
use obsidian_baritone.Prelude.Maps.{JsMap, values}
use obsidian_baritone.Protocol.{ConflictRecord}
use obsidian_baritone.Engine.Store.{InMemoryDataStore, BlobRef}
use obsidian_baritone.Engine.Store.Tx.{
  Thrown, Tx, pure, throw, reads, lift, resume, ◌>>=◌, throw_if, when_some, when, ConflictInput,
  is_same_conflict, add_blob_ref, remove_blob_ref, create_conflict, put_content,
}

pub record SameRecords (s t : InMemoryDataStore) : Type 0 where
  pub devices : t.devices ≡ s.devices
  pub roles : t.roles ≡ s.roles
  pub files : t.files ≡ s.files
  pub ops_by_id : t.ops_by_id ≡ s.ops_by_id
  pub ops_by_device_seq : t.ops_by_device_seq ≡ s.ops_by_device_seq
  pub ops_by_vault : t.ops_by_vault ≡ s.ops_by_vault
  pub blobs : t.blobs ≡ s.blobs
  pub outbox : t.outbox ≡ s.outbox
  pub seqs : t.seqs ≡ s.seqs

SameRecords-side :
    (s : InMemoryDataStore) (refs : JsMap BlobRef) (conflicts : JsMap ConflictRecord)
    (content : JsMap (List ℕ))
    → SameRecords s (record s { blob_refs = refs; conflicts = conflicts; content = content })
SameRecords-side s refs conflicts content = record {
  devices = refl;
  roles = refl;
  files = refl;
  ops_by_id = refl;
  ops_by_device_seq = refl;
  ops_by_vault = refl;
  blobs = refl;
  outbox = refl;
  seqs = refl;
}

pub SameRecords-refl : (s : InMemoryDataStore) → SameRecords s s
SameRecords-refl s = SameRecords-side s s.blob_refs s.conflicts s.content

pub SameRecords-trans :
    {s t u : InMemoryDataStore} → SameRecords s t → SameRecords t u → SameRecords s u
SameRecords-trans h k = record {
  devices = k.devices ∙ h.devices;
  roles = k.roles ∙ h.roles;
  files = k.files ∙ h.files;
  ops_by_id = k.ops_by_id ∙ h.ops_by_id;
  ops_by_device_seq = k.ops_by_device_seq ∙ h.ops_by_device_seq;
  ops_by_vault = k.ops_by_vault ∙ h.ops_by_vault;
  blobs = k.blobs ∙ h.blobs;
  outbox = k.outbox ∙ h.outbox;
  seqs = k.seqs ∙ h.seqs;
}

pub record Frame {A : Type 0} (m : Tx A) : Type 0 where
  pub at : (s : InMemoryDataStore) → SameRecords s (m s).1

module _ {A : Type 0} where
  pub Frame-pure : (a : A) → Frame (pure a)
  unfolding pure
  Frame-pure a = record { at = SameRecords-refl }

  pub Frame-throw : (e : Thrown) → Frame (throw {A = A} e)
  unfolding throw
  Frame-throw e = record { at = SameRecords-refl }

  pub Frame-reads : (f : InMemoryDataStore → A) → Frame (reads f)
  unfolding reads
  Frame-reads f = record { at = SameRecords-refl }

  pub Frame-lift : (r : Result Thrown A) → Frame (lift r)
  unfolding lift
  Frame-lift r = record { at = SameRecords-refl }

  pub Frame-if : (b : Bool) (m n : Tx A) → Frame m → Frame n → Frame (if b then m else n)
  Frame-if true m n km kn = km
  Frame-if false m n km kn = kn

module _ {A B : Type 0} where
  Frame-resume :
      (r : Result Thrown A) (f : A → Tx B) (s : InMemoryDataStore)
      → ((a : A) → Frame (f a))
      → SameRecords s (resume r f s).1
  Frame-resume (ok a) f s k = (k a).at s
  Frame-resume (err e) f s k = SameRecords-refl s

  pub Frame-bind : (m : Tx A) (f : A → Tx B) → Frame m → ((a : A) → Frame (f a)) → Frame (m >>= f)
  unfolding ◌>>=◌
  Frame-bind m f km kf = record {
    at = λ s. SameRecords-trans (km.at s) (Frame-resume (m s).0 f (m s).1 kf);
  }

pub Frame-throw_if : (b : Bool) (e : Thrown) → Frame (throw_if b e)
unfolding throw_if
Frame-throw_if true e = record { at = SameRecords-refl }
Frame-throw_if false e = record { at = SameRecords-refl }

pub Frame-when : (b : Bool) (m : Tx (Unit {0})) → Frame m → Frame (when b m)
unfolding when
Frame-when true m k = record { at = λ s. k.at s }
Frame-when false m k = record { at = SameRecords-refl }

pub Frame-when_some :
    {A : Type 0} (o : Option A) (f : A → Tx (Unit {0}))
    → ((a : A) → Frame (f a))
    → Frame (when_some o f)
unfolding when_some
Frame-when_some none f k = record { at = SameRecords-refl }
Frame-when_some (some a) f k = record { at = λ s. (k a).at s }

pub Frame-add_blob_ref : (ref : BlobRef) → Frame (add_blob_ref ref)
unfolding add_blob_ref
Frame-add_blob_ref ref = record { at = λ s. SameRecords-side s _ _ _ }

pub Frame-remove_blob_ref : (ref : BlobRef) → Frame (remove_blob_ref ref)
unfolding remove_blob_ref
Frame-remove_blob_ref ref = record { at = λ s. SameRecords-side s _ _ _ }

pub Frame-put_content : (hash : JsString) (bytes : List ℕ) → Frame (put_content hash bytes)
unfolding put_content
Frame-put_content hash bytes = record { at = λ s. SameRecords-side s _ _ _ }

create_conflict-SameRecords :
    (uuid : JsString) (input : ConflictInput) (s : InMemoryDataStore)
    → SameRecords s (create_conflict uuid input s).1
unfolding create_conflict
create_conflict-SameRecords uuid input s =
    elim (Option-cases (find (is_same_conflict input) (values s.conflicts))) [
      | inl e ↦ rw (e, create_conflict) (SameRecords-side s _ _ _)
      | inr (c, e) ↦ rw (e, create_conflict) (SameRecords-refl s)
    ]

pub Frame-create_conflict :
    (uuid : JsString) (input : ConflictInput) → Frame (create_conflict uuid input)
Frame-create_conflict uuid input = record { at = create_conflict-SameRecords uuid input }

pub ruleset frame_rules = (
  Frame-pure, Frame-throw, Frame-reads, Frame-lift, Frame-if, Frame-bind, Frame-throw_if,
  Frame-when, Frame-when_some, Frame-add_blob_ref, Frame-remove_blob_ref, Frame-put_content,
  Frame-create_conflict,
)
