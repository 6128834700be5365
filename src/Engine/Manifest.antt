-- ===== src/Engine/Manifest.antt =====
-- packages/server/src/engine/manifest.ts, and `listManifest` of packages/server/src/engine/store.ts:
-- the files of a vault, page by page.
use obsidian_baritone.Prelude.{
  ℕ, Bool, true, false, not, ◌&&◌, ◌||◌, Option, none, some, List, [], ◌∷◌, JsString, map, ltb,
  str_eq, str_lt, nonempty, filter, sort, take, length, if◌then◌else◌, Result, ok, err,
}
use obsidian_baritone.Prelude.Maps.{values}
use obsidian_baritone.Hash.{is_valid_content_hash}
use obsidian_baritone.Protocol.{SyncError, bad_request}
use obsidian_baritone.Protocol.ServerMessage.{ManifestEntry, ManifestPageMessage}
use obsidian_baritone.Engine.Store.{StoredFile, InMemoryDataStore, current_seq, get_content}
pub mod Paging
pub mod Order

pub record ManifestCursor : Type 0 where
  pub path_normalized : JsString
  pub file_id : JsString

abbrev pub cursor_of : StoredFile → ManifestCursor
cursor_of file = record { path_normalized = file.path_normalized; file_id = file.file_id }

unfoldable pub to_manifest_entry : StoredFile → ManifestEntry
to_manifest_entry file = record {
  file_id = file.file_id;
  type = file.type;
  path = file.path;
  content_hash = file.content_hash;
  size = file.size;
  blob_ref = file.blob_ref;
  content_encoding = file.content_encoding;
  content_vv = file.content_vv;
  path_clock = file.path_clock;
  epoch = file.epoch;
  deleted = file.deleted;
}

-- `page.at(-1)`
abbrev pub last {ℓ} : {A : Type ℓ} → List A → Option A
last [] = none
last (x ∷ []) = some x
last (x ∷ y ∷ xs) = last (y ∷ xs)

-- The file stands after the cursor, by code units.
unfoldable pub is_after : ManifestCursor → StoredFile → Bool
is_after cursor f =
    str_lt cursor.path_normalized f.path_normalized
    || str_eq f.path_normalized cursor.path_normalized && str_lt cursor.file_id f.file_id

abbrev pub remaining : Option ManifestCursor → List StoredFile → List StoredFile
remaining none files = files
remaining (some cursor) files = filter (is_after cursor) files

abbrev pub live_files : InMemoryDataStore → JsString → List StoredFile
live_files s vault_id = filter (λ f. str_eq f.vault_id vault_id && not f.deleted) (values s.files)

abbrev pub next_cursor : ℕ → List StoredFile → Option ManifestCursor
next_cursor limit filtered = elim (last (take limit filtered)) [
  | none ↦ none
  | some f ↦ if ltb limit (length filtered) then some (cursor_of f) else none
]

-- `locale_lt` is `localeCompare` with a negative answer.
module _ (locale_lt : JsString → JsString → Bool) where
  unfoldable pub is_before : StoredFile → StoredFile → Bool
  is_before a b =
      locale_lt a.path_normalized b.path_normalized
      || not (locale_lt b.path_normalized a.path_normalized) && locale_lt a.file_id b.file_id

  abbrev pub sorted_files : InMemoryDataStore → JsString → List StoredFile
  sorted_files s vault_id = sort is_before (live_files s vault_id)

  unfoldable pub list_manifest :
      InMemoryDataStore
      → JsString
      → Option ManifestCursor
      → ℕ
      → List ManifestEntry × Option ManifestCursor
  list_manifest s vault_id cursor limit =
      let filtered = remaining cursor (sorted_files s vault_id) in
      (map to_manifest_entry (take limit filtered), next_cursor limit filtered)

  -- The text of a cursor is base64url of JSON: `encode` and `decode`, which answers nothing where the
  -- text is none or a field is no string.
  module _ (encode : ManifestCursor → JsString) (decode : JsString → Option ManifestCursor) where
    abbrev pub encode_cursor : Option ManifestCursor → Option JsString
    encode_cursor none = none
    encode_cursor (some cursor) = some (encode cursor)

    abbrev pub checked_cursor : Option ManifestCursor → Result SyncError (Option ManifestCursor)
    checked_cursor none =
        err (record { code = bad_request; message = "Invalid manifest cursor"; details = none })
    checked_cursor (some cursor) = ok (some cursor)

    abbrev pub decode_cursor : Option JsString → Result SyncError (Option ManifestCursor)
    decode_cursor none = ok none
    decode_cursor (some text) =
        let checked = checked_cursor (decode text) in if nonempty text then checked else ok none

    -- The page from a cursor that is read, or the error of reading it.
    abbrev pub page_from :
        ℕ
        → InMemoryDataStore
        → JsString
        → Result SyncError (Option ManifestCursor)
        → Result SyncError ManifestPageMessage
    page_from page_size s vault_id (err e) = err e
    page_from page_size s vault_id (ok cursor) =
        let (items, next) = list_manifest s vault_id cursor page_size in
        ok (record {
          watermark_seq = current_seq s vault_id;
          items = items;
          next_cursor = encode_cursor next;
        })

    unfoldable pub page :
        ℕ → InMemoryDataStore → JsString → Option JsString → Result SyncError ManifestPageMessage
    page page_size s vault_id cursor = page_from page_size s vault_id (decode_cursor cursor)

-- `getContent`, named apart from that of the store.
unfoldable pub valid_content : InMemoryDataStore → JsString → Result SyncError (Option (List ℕ))
valid_content s hash =
    if is_valid_content_hash hash
    then ok (get_content s hash)
    else err (record { code = bad_request; message = "Invalid content hash"; details = none })

-- Opens the file's functions, for tests that run them.
unfoldable pub code : Unit {0}
unfolding to_manifest_entry is_after is_before list_manifest page valid_content
code = tt
