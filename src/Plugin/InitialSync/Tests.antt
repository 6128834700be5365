-- ===== src/Plugin/InitialSync/Tests.antt =====
-- Tests of the manifest that is fetched in pages of two files, with a cursor whose text begins with the
-- length of the path.
use mathlib.Core.Path.{subst}
use obsidian_baritone.Prelude.{
  Bool-cases, inl, inr, str_eq_iff, ◌≡◌, refl, ap, Bool, true, false, Option, none, some, [], ◌∷◌,
  ◌++◌, JsString, lit, map, take, drop, length, str_eq, str_lt, not, nonempty, if◌then◌else◌, ok,
  arith,
}
use obsidian_baritone.Prelude.Maps.{get}
use obsidian_baritone.Clock.VersionVector.{empty_vv}
use obsidian_baritone.Protocol.{FileType}
use obsidian_baritone.Engine.Store.{
  StoredFile, InMemoryDataStore, empty_store, current_seq, code as store_code,
}
use obsidian_baritone.Engine.Manifest.{ManifestCursor, to_manifest_entry, sorted_files, code}
use obsidian_baritone.Engine.Manifest.Order.{is_plain, OrdersPlain}
use obsidian_baritone.Plugin.InitialSync.{Manifest, fetch_pages, fetch_manifest}
use obsidian_baritone.Plugin.InitialSync.Fetch.{
  answer, fetch_manifest-returns, fetch_manifest_complete,
}

abbrev encode : ManifestCursor → JsString
encode c = length c.path_normalized ∷ c.path_normalized ++ c.file_id

abbrev decode : JsString → Option ManifestCursor
decode [] = none
decode (n ∷ text) = some (record { path_normalized = take n text; file_id = drop n text })

take-own : (p q : JsString) → take (length p) (p ++ q) ≡ p
take-own [] q = refl
take-own (u ∷ p) q = ap (λ r. u ∷ r) (take-own p q)

drop-own : (p q : JsString) → drop (length p) (p ++ q) ≡ q
drop-own [] q = refl
drop-own (u ∷ p) q = drop-own p q

reads_back : (c : ManifestCursor) → (decode (encode c) ≡ some c) × (nonempty (encode c) ≡ true)
reads_back c =
    (rw (take-own c.path_normalized c.file_id, drop-own c.path_normalized c.file_id) refl, refl)

abbrev note : JsString → JsString → StoredFile
note id path = record {
  file_id = id;
  vault_id = lit "v1";
  type = FileType.note;
  path = path;
  path_normalized = path;
  path_clock = record { lamport = 1; device_id = lit "d1" };
  content_vv = empty_vv;
  content_hash = none;
  size = none;
  blob_ref = none;
  content_encoding = none;
  delete_vv = none;
  deleted = false;
  deleted_at = none;
  epoch = 1;
  conflict_id = none;
  active_until = none;
  updated_at = 1;
}

abbrev store : InMemoryDataStore
store = record empty_store {
  files =
      (lit "v1:3", note (lit "3") (lit "z"))
      ∷ (lit "v1:1", note (lit "1") (233 ∷ []))
      ∷ (lit "v1:2", note (lit "2") (lit "f"))
      ∷ [];
}

-- An order that puts the letter with the accent before the others.
abbrev accents_first : JsString → JsString → Bool
accents_first s t =
    if str_eq s (233 ∷ [])
    then not (str_eq t (233 ∷ []))
    else if str_eq t (233 ∷ [])
    then false
    else str_lt s t

-- With that order the page after that of the accented letter lacks the other letters.
loses_files :
    fetch_manifest (answer accents_first encode decode 1 store (lit "v1")) 4
    ≡ some (
        ok (record {
          entries = to_manifest_entry (note (lit "1") (233 ∷ [])) ∷ [];
          watermark_seq = 0;
        }))
unfolding fetch_pages code store_code str_eq str_lt get
loses_files = refl

fetch_manifest-returns_example :
    (m : Manifest) × (fetch_manifest (answer accents_first encode decode 1 store (lit "v1")) 4
      ≡ some (ok m))
fetch_manifest-returns_example =
    fetch_manifest-returns accents_first encode decode 1 store (lit "v1") 4 reads_back (omega arith)

abbrev plain_store : InMemoryDataStore
plain_store = record empty_store {
  files =
      (lit "v1:3", note (lit "3") (lit "b.md"))
      ∷ (lit "v1:1", note (lit "1") (lit "a/my note-2.md"))
      ∷ (lit "v1:2", note (lit "2") (lit "a.md"))
      ∷ [];
}

not_accent : (s : JsString) → is_plain s ≡ true → str_eq s (233 ∷ []) ≡ false
not_accent s h = elim (Bool-cases (str_eq s (233 ∷ []))) [
  | inl e ↦
      let wrong : is_plain (233 ∷ []) ≡ true =
        subst (λ r. is_plain r ≡ true) ((str_eq_iff s (233 ∷ [])).0 e) h in
      absurd (ground (arith, wrong))
  | inr e ↦ e
]

accents_first-OrdersPlain : OrdersPlain accents_first
accents_first-OrdersPlain a b p q = rw (not_accent a p, not_accent b q) refl

fetch_manifest_complete_example :
    fetch_manifest (answer accents_first encode decode 2 plain_store (lit "v1")) 4
    ≡ some (
        ok (record {
          entries = map to_manifest_entry (sorted_files accents_first plain_store (lit "v1"));
          watermark_seq = current_seq plain_store (lit "v1");
        }))
unfolding str_eq
fetch_manifest_complete_example =
    fetch_manifest_complete accents_first encode decode 2 plain_store (lit "v1") 4 reads_back
      (omega arith) (omega arith) accents_first-OrdersPlain
      ((refl, refl), ((refl, refl), ((refl, refl), tt)))
      ((refl, (refl, tt)), ((refl, tt), (tt, tt)))

fetches_in_order :
    map (λ f. f.file_id) (sorted_files accents_first plain_store (lit "v1"))
    ≡ lit "2" ∷ lit "1" ∷ lit "3" ∷ []
unfolding code str_eq str_lt
fetches_in_order = refl
