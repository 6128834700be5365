-- ===== src/Engine/Rooms/Durable.antt =====
-- When the store of packages/server/src/engine/yjs.ts has all of a room: whoever loads it gets the
-- document and the numbers that the room has in memory.
use obsidian_baritone.Prelude.{
  ℕ, suc, ◌≤◌, ◌<◌, ◌≡◌, refl, Bool, true, false, Option, none, some, List, [], ◌∷◌, ◌++◌, JsString,
  if◌then◌else◌, ltb, filter, arith, ap, Bool-cases, inl, inr, ok,
}
use obsidian_baritone.Engine.Rooms.{Yjs, is_active, is_closed}
use obsidian_baritone.Engine.Rooms.RoomStore.{
  PersistedYjsRoom, StoredYjsUpdate, InMemoryYjsRoomStore, get_room, stored_updates, list_updates,
}
use obsidian_baritone.Engine.Rooms.Loading.{replay, stored_doc, snapshot_doc, load_runtime}
use obsidian_baritone.Engine.Rooms.Updates.{
  Ascends, Ascends-filter, sort-Ascends, filter-none, filter-append, replay-append,
}

-- `encodeStateAsUpdate` gives all of a document: a new document that takes it is the same.
abbrev pub EncodesAll : {Doc : Type 0} → Yjs Doc → Type 0
EncodesAll {Doc = Doc} yjs =
    (d : Doc) → yjs.apply_update yjs.new_doc (yjs.encode_state d) ≡ (true, d)

module _ {Doc : Type 0} (yjs : Yjs Doc) where
  -- The document after a snapshot and the stored updates that it does not have.
  unfoldable pub rebuilt : Option (List ℕ) → ℕ → List StoredYjsUpdate → Bool × Doc
  rebuilt snapshot after_seq us =
      let (returned, doc) = snapshot_doc yjs snapshot in
      let rest = replay yjs doc (filter (λ u. ltb after_seq u.seq) us) in
      if returned then rest else (false, doc)

  -- The document `doc` of the room `p` of a file can be rebuilt from the stored updates `us`.
  pub record IsRebuildable (vault_id file_id : JsString) (us : List StoredYjsUpdate)
      (p : PersistedYjsRoom) (doc : Doc) : Type 0 where
    pub of_vault : p.vault_id ≡ vault_id
    pub of_file : p.file_id ≡ file_id
    pub is_seeded : p.seeded ≡ true
    pub numbered : Ascends 1 p.next_seq us
    pub compacted : p.compacted_through_seq < p.next_seq
    pub rebuilds : rebuilt p.snapshot p.compacted_through_seq us ≡ (true, doc)

  abbrev pub IsReplayable :
      JsString → JsString → InMemoryYjsRoomStore → PersistedYjsRoom → Doc → Type 0
  IsReplayable vault_id file_id s p doc =
      IsRebuildable vault_id file_id (stored_updates s vault_id file_id p.epoch) p doc

  -- And the room itself is in the store.
  pub record IsDurable (vault_id file_id : JsString) (s : InMemoryYjsRoomStore)
      (p : PersistedYjsRoom) (doc : Doc) : Type 0 where
    pub replayable : IsReplayable vault_id file_id s p doc
    pub saved : get_room s vault_id file_id ≡ some p

  -- What the store has of a room that it holds in order.
  pub stored_doc-rebuilt :
      (vault_id file_id : JsString) (s : InMemoryYjsRoomStore) (p : PersistedYjsRoom) (doc : Doc)
      → IsReplayable vault_id file_id s p doc
      → stored_doc yjs s p ≡ (true, doc)
  unfolding stored_doc rebuilt list_updates
  stored_doc-rebuilt vault_id file_id s p doc d =
      let us =
        filter (λ u. ltb p.compacted_through_seq u.seq)
          (stored_updates s vault_id file_id p.epoch) in
      rw
        (
          d.of_vault,
          d.of_file,
          d.is_seeded,
          sort-Ascends 1 p.next_seq us (
              Ascends-filter 1 p.next_seq (λ u. ltb p.compacted_through_seq u.seq)
                (stored_updates s vault_id file_id p.epoch) d.numbered),
        )
        d.rebuilds

  -- A snapshot of the document that covers all updates.
  pub rebuilt-snapshot :
      EncodesAll yjs
      → (doc : Doc) (low high seq : ℕ) (us : List StoredYjsUpdate) → high ≤ suc seq
      → Ascends low high us
      → rebuilt (some (yjs.encode_state doc)) seq us ≡ (true, doc)
  unfolding rebuilt replay
  rebuilt-snapshot encodes doc low high seq us l h =
      rw (encodes doc, filter-none low high seq us l h) refl

  pub rebuilt-append :
      (snapshot : Option (List ℕ)) (after_seq : ℕ) (doc : Doc) (us : List StoredYjsUpdate)
      (u : StoredYjsUpdate)
      → after_seq < u.seq
      → rebuilt snapshot after_seq us ≡ (true, doc)
      → (yjs.apply_update doc u.update).0 ≡ true
      → rebuilt snapshot after_seq (us ++ (u ∷ [])) ≡ (true, (yjs.apply_update doc u.update).1)
  unfolding rebuilt
  rebuilt-append snapshot after_seq doc us u l e a =
      elim (Bool-cases (snapshot_doc yjs snapshot).0) [
        | inl t ↦
            rw (t, filter-append (λ u. ltb after_seq u.seq) us u (ground arith))
              (replay-append yjs (snapshot_doc yjs snapshot).1 doc
                (filter (λ u. ltb after_seq u.seq) us) u (rw t at e) a)
        | inr t ↦ let wrong : false ≡ true = ap (λ r. r.0) (rw t at e) in absurd (cc)
      ]

  pub load_runtime-IsDurable :
      (vault_id file_id : JsString) (s : InMemoryYjsRoomStore) (p : PersistedYjsRoom) (doc : Doc)
      → IsDurable vault_id file_id s p doc
      → load_runtime yjs s vault_id file_id
        ≡ ok (record {
          persisted = p;
          doc = doc;
          participants = [];
          closing_sinks = [];
          state = if p.active then is_active else is_closed;
          closing_timer = none;
        })
  unfolding load_runtime
  load_runtime-IsDurable vault_id file_id s p doc d =
      rw (d.saved, stored_doc-rebuilt vault_id file_id s p doc d.replayable) refl
