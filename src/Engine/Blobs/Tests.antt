-- ===== src/Engine/Blobs/Tests.antt =====
-- Tests of the collection of blobs: a blob that was marked long ago and has no reference, and one that
-- a file refers to.
use mathlib.Core.Option.{map as map_option}
use obsidian_baritone.Prelude.{◌≡◌, refl, none, some, [], ◌∷◌, map, filter, lit, str_eq}
use obsidian_baritone.Prelude.Maps.{get, set, values, HasDistinctKeys}
use obsidian_baritone.Engine.Store.{
  InMemoryDataStore, BlobRecord, BlobState, BlobRef, empty_store, list_blob_refs, get_blob,
}
use obsidian_baritone.Engine.Store.Tx.{save_blob}
use obsidian_baritone.Engine.Blobs.{gc_unreferenced, collect_all, collect, write_collected}
use obsidian_baritone.Engine.Blobs.Collected.{is_collectable, swept, gc_unreferenced-collects}

abbrev old_blob : BlobRecord
old_blob = record {
  hash = lit "h1";
  size = 3;
  state = BlobState.unreferenced;
  object_key = lit "k1";
  created_at = 1;
  verified_at = some 2;
  unreferenced_at = some 10;
  deleted_at = none;
}

abbrev used_blob : BlobRecord
used_blob = record old_blob { hash = lit "h2" }

abbrev file_ref : BlobRef
file_ref = record { hash = lit "h2"; ref_type = lit "file_live"; ref_id = lit "f1" }

abbrev with_old : InMemoryDataStore
with_old = record empty_store {
  blobs = (lit "h1", old_blob) ∷ (lit "h2", used_blob) ∷ [];
  blob_refs = (lit "r1", file_ref) ∷ [];
}

removes_old : (gc_unreferenced 5 100 with_old).0 ≡ lit "h1" ∷ []
unfolding gc_unreferenced collect_all collect write_collected save_blob list_blob_refs set str_eq
removes_old = refl

deletes_old :
    get_blob (gc_unreferenced 5 100 with_old).1 (lit "h1")
    ≡ some (record old_blob { state = BlobState.deleted; deleted_at = some 100 })
unfolding gc_unreferenced collect_all collect write_collected save_blob list_blob_refs get_blob get
    set str_eq
deletes_old = refl

with_old-HasDistinctKeys : HasDistinctKeys with_old.blobs
unfolding get str_eq
with_old-HasDistinctKeys = (refl, (refl, tt))

gc_unreferenced-collects_example :
    ((gc_unreferenced 5 100 with_old).0
      ≡ map (λ b. b.hash) (filter (is_collectable 5 100 with_old) (values with_old.blobs)))
    × (get_blob (gc_unreferenced 5 100 with_old).1 (lit "h1")
        ≡ map_option (swept 5 100 with_old) (get_blob with_old (lit "h1")))
gc_unreferenced-collects_example =
    gc_unreferenced-collects 5 100 with_old (lit "h1") with_old-HasDistinctKeys (refl, (refl, tt))
