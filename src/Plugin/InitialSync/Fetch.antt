-- ===== src/Plugin/InitialSync/Fetch.antt =====
-- apps/plugin/src/sync/initial-sync.ts with packages/server/src/engine/manifest.ts: the pages that
-- `fetchManifest` gets from a server whose store stays as it is.
use obsidian_baritone.Prelude.{
  ℕ, zero, suc, Option-cases, inl, inr, ◌<◌, ◌≡◌, refl, sym, ap, ◌∙◌, Bool, true, not, ◌&&◌, str_eq,
  Option, none, some, List, [], ◌++◌, JsString, map, nonempty, take, drop, length, All,
  length-filter-le, Result, ok, arith,
}
use obsidian_baritone.Prelude.Maps.{values}
use mathlib.Core.List.{append_assoc, map-append}
use obsidian_baritone.Protocol.{SyncError}
use obsidian_baritone.Protocol.ServerMessage.{ManifestEntry, ManifestPageMessage}
use obsidian_baritone.Engine.Store.{StoredFile, InMemoryDataStore, current_seq}
use obsidian_baritone.Engine.Manifest.{
  ManifestCursor, to_manifest_entry, is_before, remaining, live_files, next_cursor, sorted_files,
  list_manifest, page, page_from as page_from_cursor, encode_cursor, decode_cursor,
}
use obsidian_baritone.Engine.Manifest.Paging.{remaining-shrinks}
use obsidian_baritone.Engine.Manifest.Order.{
  AllPairs, HasOtherId, HasPlainNames, OrdersPlain, Precedes, sort-AllPairs, length-sort,
  take-last_page, remaining-drop, drop-AllPairs, append-take-drop,
}
use obsidian_baritone.Plugin.InitialSync.{Manifest, round, next_round, fetch_pages, fetch_manifest}

pages-join :
    (n : ℕ) (entries : List ManifestEntry) (fs rest : List StoredFile)
    → rest ≡ drop n fs
    → (entries ++ map to_manifest_entry (take n fs)) ++ map to_manifest_entry rest
      ≡ entries ++ map to_manifest_entry fs
pages-join n entries fs rest e =
    append_assoc entries (map to_manifest_entry (take n fs)) (map to_manifest_entry rest)
    ∙ ap (λ es. entries ++ es)
        (sym (map-append to_manifest_entry (take n fs) rest)
          ∙ ap (λ gs. map to_manifest_entry (take n fs ++ gs)) e
          ∙ ap (map to_manifest_entry) (append-take-drop n fs))

module _ (locale_lt : JsString → JsString → Bool) (encode : ManifestCursor → JsString)
    (decode : JsString → Option ManifestCursor) (page_size : ℕ) (s : InMemoryDataStore)
    (vault_id : JsString) where
  -- What the server answers to `get_manifest`.
  abbrev pub answer : Option JsString → Result SyncError ManifestPageMessage
  answer cursor = page locale_lt encode decode page_size s vault_id cursor

  abbrev files : List StoredFile
  files = sorted_files locale_lt s vault_id

  -- A cursor that is encoded is read back, and its text is not empty.
  abbrev pub ReadsBack : Type 0
  ReadsBack = (c : ManifestCursor) → (decode (encode c) ≡ some c) × (nonempty (encode c) ≡ true)

  abbrev text_of : Option ManifestCursor → Option JsString
  text_of = encode_cursor locale_lt encode decode

  abbrev page_from : Option ManifestCursor → ManifestPageMessage
  page_from from = record {
    watermark_seq = current_seq s vault_id;
    items = map to_manifest_entry (take page_size (remaining from files));
    next_cursor = text_of (next_cursor page_size (remaining from files));
  }

  answer-page_from :
      ReadsBack → (from : Option ManifestCursor) → answer (text_of from) ≡ ok (page_from from)
  unfolding page list_manifest
  answer-page_from codec none = refl
  answer-page_from codec (some c) = ap (page_read s) (readable (encode c) c (codec c).0 (codec c).1)
    where
      page_read :
          InMemoryDataStore
          → Result SyncError (Option ManifestCursor)
          → Result SyncError ManifestPageMessage
      page_read t = page_from_cursor locale_lt encode decode page_size t vault_id

      readable :
          (text : JsString) (b : ManifestCursor)
          → decode text ≡ some b
          → nonempty text ≡ true
          → decode_cursor locale_lt encode decode (some text) ≡ ok (some b)
      readable text b d n = rw (d, n) refl

  module _ (codec : ReadsBack) (rounds : ℕ) (entries : List ManifestEntry)
      (from : Option ManifestCursor) where
    -- The round that gets the last page.
    fetch_pages-last :
        next_cursor page_size (remaining from files) ≡ none
        → fetch_pages answer (suc rounds) (text_of from) entries
          ≡ some (
              ok (record {
                entries = entries ++ (page_from from).items;
                watermark_seq = current_seq s vault_id;
              }))
    unfolding fetch_pages
    fetch_pages-last e =
        ap (round (fetch_pages answer rounds) entries) (answer-page_from codec from)
        ∙ ap
            (λ c.
              next_round (fetch_pages answer rounds) (current_seq s vault_id)
                (entries ++ (page_from from).items) (text_of c))
            e

    fetch_pages-more :
        (c : ManifestCursor)
        → next_cursor page_size (remaining from files) ≡ some c
        → fetch_pages answer (suc rounds) (text_of from) entries
          ≡ fetch_pages answer rounds (text_of (some c)) (entries ++ (page_from from).items)
    unfolding fetch_pages
    fetch_pages-more c e =
        let again = fetch_pages answer rounds in
        ap (round again entries) (answer-page_from codec from)
        ∙ ap
            (λ b.
              next_round again (current_seq s vault_id) (entries ++ (page_from from).items)
                (text_of b))
            e
        ∙ rw (codec c).1 refl

  -- Enough rounds for what remains bring the loop to an end.
  fetch_pages-returns :
      ReadsBack
      → (rounds : ℕ) (entries : List ManifestEntry) (from : Option ManifestCursor)
      → length (remaining from files) < rounds
      → (m : Manifest) × (fetch_pages answer rounds (text_of from) entries ≡ some (ok m))
  fetch_pages-returns codec zero entries from h = absurd (omega arith)
  fetch_pages-returns codec (suc rounds) entries from h =
      elim (Option-cases (next_cursor page_size (remaining from files))) [
        | inl e ↦ (_, fetch_pages-last codec rounds entries from e)
        | inr (c, e) ↦
            let (m, rest) =
              fetch_pages-returns codec rounds (entries ++ (page_from from).items) (some c)
                (omega (arith, remaining-shrinks page_size files c from e)) in
            (m, fetch_pages-more codec rounds entries from c e ∙ rest)
      ]

  live_bound : (rounds : ℕ) → length (values s.files) < rounds → length files < rounds
  live_bound rounds h = omega (
    arith,
    length-filter-le (λ f. str_eq f.vault_id vault_id && not f.deleted) (values s.files),
    length-sort (is_before locale_lt) (live_files s vault_id),
    h,
  )

  -- fetchManifest comes to an end and returns a manifest, given more rounds than the store has
  -- files, whatever the page size and whatever order localeCompare gives, when the store stays
  -- as it is and a cursor that is encoded can be read back from a text that is not empty.
  pub fetch_manifest-returns :
      (rounds : ℕ)
      → ReadsBack
      → length (values s.files) < rounds
      → (m : Manifest) × (fetch_manifest answer rounds ≡ some (ok m))
  fetch_manifest-returns rounds codec h =
      fetch_pages-returns codec rounds [] none (live_bound rounds h)

  -- The pages are those of the files that remain, in their order.
  fetch_pages-all :
      ReadsBack
      → 0 < page_size
      → (rounds : ℕ) (entries : List ManifestEntry) (from : Option ManifestCursor)
      → length (remaining from files) < rounds
      → AllPairs Precedes (remaining from files)
      → fetch_pages answer rounds (text_of from) entries
        ≡ some (
            ok (record {
              entries = entries ++ map to_manifest_entry (remaining from files);
              watermark_seq = current_seq s vault_id;
            }))
  fetch_pages-all codec p zero entries from h o = absurd (omega arith)
  fetch_pages-all codec p (suc rounds) entries from h o =
      elim (Option-cases (next_cursor page_size (remaining from files))) [
        | inl e ↦
            fetch_pages-last codec rounds entries from e
            ∙ ap
                (λ fs. some (
                  ok (record {
                    entries = entries ++ map to_manifest_entry fs;
                    watermark_seq = current_seq s vault_id;
                  })))
                (take-last_page page_size (remaining from files) p e)
        | inr (c, e) ↦
            let dropped = remaining-drop page_size files c from o e in
            fetch_pages-more codec rounds entries from c e
            ∙ fetch_pages-all codec p rounds (entries ++ (page_from from).items) (some c)
                (omega (arith, remaining-shrinks page_size files c from e))
                (let kept = drop-AllPairs Precedes page_size (remaining from files) o in
                  rw dropped kept)
            ∙ ap (λ es. some (ok (record { entries = es; watermark_seq = current_seq s vault_id })))
                (pages-join page_size entries (remaining from files) (remaining (some c) files)
                  dropped)
      ]

  -- fetchManifest returns exactly the live files of the vault, each once and in their order,
  -- with the current sequence number, when the store stays as it is, pages hold at least one
  -- file, a cursor that is encoded can be read back from a text that is not empty, the live
  -- files have different ids, their paths and ids consist of small letters, digits, spaces, and
  -- the characters - . /, localeCompare orders strings of these as code units do, and it has more
  -- rounds than the store has files.
  pub fetch_manifest_complete :
      (rounds : ℕ)
      → ReadsBack
      → 0 < page_size
      → length (values s.files) < rounds
      → OrdersPlain locale_lt
      → All HasPlainNames (live_files s vault_id)
      → AllPairs HasOtherId (live_files s vault_id)
      → fetch_manifest answer rounds
        ≡ some (
            ok (record {
              entries = map to_manifest_entry (sorted_files locale_lt s vault_id);
              watermark_seq = current_seq s vault_id;
            }))
  fetch_manifest_complete rounds codec p h agree plain distinct =
      fetch_pages-all codec p rounds [] none (live_bound rounds h)
        (sort-AllPairs locale_lt agree (live_files s vault_id) plain distinct)
