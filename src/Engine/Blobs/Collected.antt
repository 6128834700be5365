-- ===== src/Engine/Blobs/Collected.antt =====
-- packages/server/src/blob/store.ts: what `gcUnreferenced` removes, and what it leaves.
use mathlib.Core.Path.{subst}
use mathlib.Core.Option.{none-ne-some}
use mathlib.Core.Option
use obsidian_baritone.Prelude.{
  ℕ, ◌+◌, ◌≡◌, refl, sym, ◌∙◌, ap, Bool, true, false, not, ◌&&◌, Option, none, some, List, [], ◌∷◌,
  map, filter, leb, JsString, str_eq, is_some, str_eq_iff, All, if◌then◌else◌, Bool-cases, inl, inr,
}
use obsidian_baritone.Prelude.Maps.{JsMap, values, get, get-set, HasDistinctKeys}
use obsidian_baritone.Engine.Store.{
  InMemoryDataStore, BlobRecord, BlobRef, unreferenced, deleted, list_blob_refs, get_blob,
}
use obsidian_baritone.Engine.Store.Tx.{save_blob}
use obsidian_baritone.Engine.Blobs.{
  is_deleted, collect, write_collected, collect_all, gc_unreferenced,
}

abbrev pub is_unused : List BlobRef → Bool
is_unused [] = true
is_unused (ref ∷ refs) = false

-- The mark of a blob is at least so old.
abbrev pub is_aged : ℕ → ℕ → Option ℕ → Bool
is_aged min_age_ms now none = false
is_aged min_age_ms now (some mark) = leb (mark + min_age_ms) now

-- A blob without references that is not deleted yet and was marked long enough ago.
abbrev pub is_collectable : ℕ → ℕ → InMemoryDataStore → BlobRecord → Bool
is_collectable min_age_ms now s blob =
    is_unused (list_blob_refs s blob.hash)
    && (not (is_deleted blob.state) && is_aged min_age_ms now blob.unreferenced_at)

-- A blob without references that is not deleted yet and has no mark.
abbrev is_unmarked : InMemoryDataStore → BlobRecord → Bool
is_unmarked s blob =
    is_unused (list_blob_refs s blob.hash)
    && (not (is_deleted blob.state) && not (is_some blob.unreferenced_at))

-- The record of a blob after the collection.
abbrev pub swept : ℕ → ℕ → InMemoryDataStore → BlobRecord → BlobRecord
swept min_age_ms now s blob =
    if is_collectable min_age_ms now s blob
    then record blob { state = deleted; deleted_at = some now }
    else if is_unmarked s blob
    then record blob { state = unreferenced; unreferenced_at = some now }
    else blob

-- What a round writes is on the blob, which has no reference.
abbrev WritesOn : BlobRecord → List BlobRef → Option BlobRecord → Type 0
WritesOn blob refs none = Unit {0}
WritesOn blob refs (some written) = (written.hash ≡ blob.hash) × (is_unused refs ≡ true)

abbrev removed_if : Bool → BlobRecord → Option BlobRecord × Bool
removed_if b x = if b then (some x, true) else (none, false)

-- A round for a blob without references, by whether it is deleted and its mark.
abbrev round_of : ℕ → ℕ → BlobRecord → Bool → Option ℕ → Option BlobRecord × Bool
round_of min_age_ms now blob gone mark = if gone then (none, false) else elim mark [
  | none ↦ (some (record blob { state = unreferenced; unreferenced_at = some now }), false)
  | some m ↦
      removed_if (leb (m + min_age_ms) now) (record blob { state = deleted; deleted_at = some now })
]

removed_if-removes : (b : Bool) (x : BlobRecord) → (removed_if b x).1 ≡ b
removed_if-removes true x = refl
removed_if-removes false x = refl

removed_if-WritesOn :
    (b : Bool) (blob x : BlobRecord) → x.hash ≡ blob.hash → WritesOn blob [] (removed_if b x).0
removed_if-WritesOn true blob x e = (e, refl)
removed_if-WritesOn false blob x e = tt

module _ (min_age_ms now : ℕ) where
  round_of-removes :
      (blob : BlobRecord) (gone : Bool) (mark : Option ℕ)
      → (round_of min_age_ms now blob gone mark).1 ≡ (not gone && is_aged min_age_ms now mark)
  round_of-removes blob true mark = refl
  round_of-removes blob false none = refl
  round_of-removes blob false (some m) = removed_if-removes (leb (m + min_age_ms) now) _

  round_of-WritesOn :
      (blob : BlobRecord) (gone : Bool) (mark : Option ℕ)
      → WritesOn blob [] (round_of min_age_ms now blob gone mark).0
  round_of-WritesOn blob true mark = tt
  round_of-WritesOn blob false none = (refl, refl)
  round_of-WritesOn blob false (some m) = removed_if-WritesOn (leb (m + min_age_ms) now) blob _ refl

  collect-is_collectable :
      (refs : List BlobRef) (blob : BlobRecord)
      → (collect min_age_ms now refs blob).1 ≡ (
          is_unused refs
          && (not (is_deleted blob.state) && is_aged min_age_ms now blob.unreferenced_at))
  unfolding collect
  collect-is_collectable (ref ∷ refs) blob = refl
  collect-is_collectable [] blob =
      round_of-removes blob (is_deleted blob.state) blob.unreferenced_at

  collect-WritesOn :
      (refs : List BlobRef) (blob : BlobRecord)
      → WritesOn blob refs (collect min_age_ms now refs blob).0
  unfolding collect
  collect-WritesOn (ref ∷ refs) blob = tt
  collect-WritesOn [] blob = round_of-WritesOn blob (is_deleted blob.state) blob.unreferenced_at

write_collected-refs :
    (outcome : Option BlobRecord × Bool) (s : InMemoryDataStore) (hash : JsString)
    → list_blob_refs (write_collected outcome s) hash ≡ list_blob_refs s hash
unfolding write_collected list_blob_refs save_blob
write_collected-refs (none, removed) s hash = refl
write_collected-refs (some blob, removed) s hash = refl

abbrev written_or : BlobRecord → Option BlobRecord → BlobRecord
written_or blob none = blob
written_or blob (some written) = written

removed_if-written :
    (b : Bool) (blob x : BlobRecord) → written_or blob (removed_if b x).0 ≡ (if b then x else blob)
removed_if-written true blob x = refl
removed_if-written false blob x = refl

module _ (min_age_ms now : ℕ) where
  round_of-swept :
      (blob : BlobRecord) (gone : Bool) (mark : Option ℕ)
      → written_or blob (round_of min_age_ms now blob gone mark).0 ≡ (
          if not gone && is_aged min_age_ms now mark
          then record blob { state = deleted; deleted_at = some now }
          else if not gone && not (is_some mark)
          then record blob { state = unreferenced; unreferenced_at = some now }
          else blob)
  round_of-swept blob true mark = refl
  round_of-swept blob false none = refl
  round_of-swept blob false (some m) = removed_if-written (leb (m + min_age_ms) now) blob _

  collect-swept :
      (s : InMemoryDataStore) (refs : List BlobRef) (blob : BlobRecord)
      → refs ≡ list_blob_refs s blob.hash
      → written_or blob (collect min_age_ms now refs blob).0 ≡ swept min_age_ms now s blob
  unfolding collect
  collect-swept s (ref ∷ refs) blob e = rw (sym e) refl
  collect-swept s [] blob e =
      rw (sym e) (round_of-swept blob (is_deleted blob.state) blob.unreferenced_at)

write_collected-other :
    (outcome : Option BlobRecord × Bool) (blob : BlobRecord) (refs : List BlobRef)
    (s : InMemoryDataStore) (hash : JsString)
    → WritesOn blob refs outcome.0
    → str_eq blob.hash hash ≡ false
    → get hash (write_collected outcome s).blobs ≡ get hash s.blobs
unfolding write_collected save_blob
write_collected-other (none, removed) blob refs s hash w other = refl
write_collected-other (some written, removed) blob refs s hash w other =
    get-set written.hash hash written s.blobs ∙ rw (w.0, other) refl

write_collected-own :
    (outcome : Option BlobRecord × Bool) (blob : BlobRecord) (refs : List BlobRef)
    (s : InMemoryDataStore) (hash : JsString)
    → WritesOn blob refs outcome.0
    → str_eq blob.hash hash ≡ true
    → get hash s.blobs ≡ some blob
    → get hash (write_collected outcome s).blobs ≡ some (written_or blob outcome.0)
unfolding write_collected save_blob
write_collected-own (none, removed) blob refs s hash w own e = e
write_collected-own (some written, removed) blob refs s hash w own e =
    get-set written.hash hash written s.blobs ∙ rw (w.0, own) refl

filter-same :
    {A : Type 0} (p q : A → Bool)
    → ((x : A) → p x ≡ q x)
    → (xs : List A) → filter p xs ≡ filter q xs
filter-same p q e [] = refl
filter-same p q e (x ∷ xs) = rw (e x, filter-same p q e xs) refl

map-kept :
    (b c : Bool) (blob : BlobRecord) (hashes : List JsString) (blobs : List BlobRecord)
    → b ≡ c
    → hashes ≡ map (λ x. x.hash) blobs
    → (if b then blob.hash ∷ hashes else hashes)
      ≡ map (λ (x : BlobRecord). x.hash) (if c then blob ∷ blobs else blobs)
map-kept b true blob hashes blobs e f = rw (e, f) refl
map-kept b false blob hashes blobs e f = rw (e, f) refl

module _ (min_age_ms now : ℕ) where
  still_collectable :
      (outcome : Option BlobRecord × Bool) (s : InMemoryDataStore) (blob : BlobRecord)
      → is_collectable min_age_ms now (write_collected outcome s) blob
        ≡ is_collectable min_age_ms now s blob
  still_collectable outcome s blob = rw (write_collected-refs outcome s blob.hash) refl

  collect_all-removes :
      (blobs : List BlobRecord) (s : InMemoryDataStore)
      → (collect_all min_age_ms now blobs s).0
        ≡ map (λ b. b.hash) (filter (is_collectable min_age_ms now s) blobs)
  unfolding collect_all
  collect_all-removes [] s = refl
  collect_all-removes (blob ∷ blobs) s =
      let outcome = collect min_age_ms now (list_blob_refs s blob.hash) blob in
      map-kept outcome.1 (is_collectable min_age_ms now s blob) blob _ _
        (collect-is_collectable min_age_ms now (list_blob_refs s blob.hash) blob)
        (collect_all-removes blobs (write_collected outcome s)
          ∙ ap (map λ b. b.hash) (filter-same _ _ (still_collectable outcome s) blobs))

  swept-write_collected :
      (outcome : Option BlobRecord × Bool) (s : InMemoryDataStore) (blob : BlobRecord)
      → swept min_age_ms now (write_collected outcome s) blob ≡ swept min_age_ms now s blob
  swept-write_collected outcome s blob = rw (write_collected-refs outcome s blob.hash) refl

  -- The record of a hash after the rounds for `m`: the swept one if `m` has the hash.
  abbrev after_rounds :
      InMemoryDataStore → Option BlobRecord → Option BlobRecord → Option BlobRecord
  after_rounds s none kept = kept
  after_rounds s (some blob) kept = some (swept min_age_ms now s blob)

  after_rounds-same :
      (outcome : Option BlobRecord × Bool) (s : InMemoryDataStore)
      (found kept kept' : Option BlobRecord)
      → kept ≡ kept'
      → after_rounds (write_collected outcome s) found kept ≡ after_rounds s found kept'
  after_rounds-same outcome s none kept kept' e = e
  after_rounds-same outcome s (some blob) kept kept' e =
      ap some (swept-write_collected outcome s blob)

  collect_all-get :
      (m : JsMap BlobRecord) (s : InMemoryDataStore) (hash : JsString)
      → HasDistinctKeys m
      → All (λ e. e.0 ≡ e.1.hash) m
      → ((blob : BlobRecord) → get hash m ≡ some blob → get hash s.blobs ≡ some blob)
      → get hash (collect_all min_age_ms now (values m) s).1.blobs
        ≡ after_rounds s (get hash m) (get hash s.blobs)
  unfolding collect_all get
  collect_all-get [] s hash distinct keyed same = refl
  collect_all-get ((key, blob) ∷ m) s hash distinct keyed same =
      let refs = list_blob_refs s blob.hash in
      let outcome = collect min_age_ms now refs blob in
      let s' = write_collected outcome s in
      let on = collect-WritesOn min_age_ms now refs blob in
      elim (Bool-cases (str_eq key hash)) [
        | inl t ↦
            let gone : get hash m ≡ none =
              subst (λ k. get k m ≡ none) ((str_eq_iff key hash).0 t) distinct.0 in
            let own = subst (λ k. str_eq k hash ≡ true) keyed.0 t in
            let there : get hash s'.blobs ≡ some (swept min_age_ms now s blob) =
              write_collected-own outcome blob refs s hash on own (same blob (rw t refl))
              ∙ ap some (collect-swept min_age_ms now s refs blob refl) in
            let rest =
              collect_all-get m s' hash distinct.1 keyed.1
                (λ other e. absurd (none-ne-some other (sym gone ∙ e))) in
            rest ∙ ap (λ o. after_rounds s' o (get hash s'.blobs)) gone ∙ there ∙ rw t refl
        | inr t ↦
            let other = subst (λ k. str_eq k hash ≡ false) keyed.0 t in
            let kept = write_collected-other outcome blob refs s hash on other in
            let rest =
              collect_all-get m s' hash distinct.1 keyed.1
                (λ found e. kept ∙ same found (rw t e)) in
            rest ∙ after_rounds-same outcome s (get hash m) _ _ kept ∙ rw t refl
      ]

-- The collection of blobs, where each record is stored once and under its own hash. It returns the
-- hashes of exactly the blobs without a reference that are not yet deleted and were marked at least
-- the given age ago, in the order of the store; their records are then deleted at the time of the
-- call. A blob without a reference that is not deleted and has no mark gets one with the time of the
-- call. The record of every other blob stays as it is, and no record is added.
pub gc_unreferenced-collects :
    (min_age_ms now : ℕ) (s : InMemoryDataStore) (hash : JsString)
    → HasDistinctKeys s.blobs
    → All (λ e. e.0 ≡ e.1.hash) s.blobs
    → ((gc_unreferenced min_age_ms now s).0
        ≡ map (λ b. b.hash) (filter (is_collectable min_age_ms now s) (values s.blobs)))
      × (get_blob (gc_unreferenced min_age_ms now s).1 hash
          ≡ Option.map (swept min_age_ms now s) (get_blob s hash))
unfolding gc_unreferenced get_blob
gc_unreferenced-collects min_age_ms now s hash distinct keyed = (
  collect_all-removes min_age_ms now (values s.blobs) s,
  collect_all-get min_age_ms now s.blobs s hash distinct keyed (λ blob e. e)
      ∙ all_swept (get hash s.blobs),
)
  where
    all_swept :
        (found : Option BlobRecord)
        → after_rounds min_age_ms now s found found ≡ Option.map (swept min_age_ms now s) found
    all_swept none = refl
    all_swept (some blob) = refl
