-- ===== src/Engine/Gc/History.antt =====
-- packages/server/src/engine/yjs-gc.ts: a run of the collection over the in-memory store of rooms.
use obsidian_baritone.Prelude.{
  ℕ, ◌≡◌, refl, sym, ◌∙◌, Bool, true, false, none, some, List, [], ◌∷◌, JsString, str_eq,
  str_eq_iff, All, Bool-cases, inl, inr, map, ap,
}
use mathlib.Core.Option.{some_inj, none-ne-some}
use obsidian_baritone.Prelude.Maps.{JsMap, get, delete, values, get-delete, HasDistinctKeys}
use obsidian_baritone.Engine.Rooms.RoomStore.{
  GcSnapshotRow, InMemoryYjsRoomStore, YjsSnapshotVersion, is_current_in, room_key,
  list_snapshot_history_for_gc, prune_snapshot_history,
}
use obsidian_baritone.Engine.Gc.{YjsGcJob, id_of, select_yjs_history_retention, run_once}
use obsidian_baritone.Engine.Gc.Current.{select-All}

-- Each version of the history is stored under its own id.
abbrev pub IsKeyed : JsMap YjsSnapshotVersion → Type 0
IsKeyed [] = Unit
IsKeyed ((k, v) ∷ m) = (v.metadata.version_id ≡ k) × IsKeyed m

-- The version is that of the last snapshot of its room.
abbrev pub IsCurrentVersion : InMemoryYjsRoomStore → YjsSnapshotVersion → Type 0
IsCurrentVersion s v =
    is_current_in (get (room_key v.vault_id v.metadata.file_id) s.rooms) v.metadata ≡ true

module _ (s : InMemoryYjsRoomStore) (k : JsString) where
  abbrev IsOther : JsString → Type 0
  IsOther id = str_eq id k ≡ false

  abbrev row_of : YjsSnapshotVersion → GcSnapshotRow
  row_of v = record {
    metadata = v.metadata;
    vault_id = v.vault_id;
    is_current = is_current_in (get (room_key v.vault_id v.metadata.file_id) s.rooms) v.metadata;
  }

  abbrev OldIsOther : GcSnapshotRow → Type 0
  OldIsOther row = row.is_current ≡ false → IsOther (id_of row)

  absent-OldIsOther :
      (m : JsMap YjsSnapshotVersion)
      → IsKeyed m
      → get k m ≡ none
      → All OldIsOther (map row_of (values m))
  unfolding get
  absent-OldIsOther [] keyed e = tt
  absent-OldIsOther ((j, w) ∷ m) keyed e = elim (Bool-cases (str_eq j k)) [
    | inl t ↦ absurd (none-ne-some w (sym (rw t at e)))
    | inr t ↦ (λ _. rw keyed.0 t, absent-OldIsOther m keyed.1 (rw t at e))
  ]

  present-OldIsOther :
      (v : YjsSnapshotVersion) (m : JsMap YjsSnapshotVersion)
      → IsKeyed m
      → HasDistinctKeys m
      → IsCurrentVersion s v
      → get k m ≡ some v
      → All OldIsOther (map row_of (values m))
  unfolding get
  present-OldIsOther v [] keyed distinct c e = absurd (none-ne-some v e)
  present-OldIsOther v ((j, w) ∷ m) keyed distinct c e = elim (Bool-cases (str_eq j k)) [
    | inl t ↦
        let same : w ≡ v = some_inj.0 (rw t at e) in
        let current : IsCurrentVersion s w = rw same c in
        (
          λ old. let wrong : true ≡ false = sym current ∙ old in absurd (cc),
          absent-OldIsOther m keyed.1 (ap (λ i. get i m) (sym ((str_eq_iff j k).0 t)) ∙ distinct.0),
        )
    | inr t ↦ (λ _. rw keyed.0 t, present-OldIsOther v m keyed.1 distinct.1 c (rw t at e))
  ]

  prune_snapshot_history-others :
      (ids : List JsString) (t : InMemoryYjsRoomStore)
      → All IsOther ids
      → (get k (prune_snapshot_history ids t).1.history ≡ get k t.history)
        × ((prune_snapshot_history ids t).1.rooms ≡ t.rooms)
  unfolding prune_snapshot_history
  prune_snapshot_history-others [] t h = (refl, refl)
  prune_snapshot_history-others (id ∷ ids) t h =
      let rest =
        prune_snapshot_history-others ids (record t { history = delete id t.history }) h.1 in
      let deleted : get k (delete id t.history) ≡ get k t.history =
        get-delete id k t.history ∙ rw h.0 refl in
      (rest.0 ∙ deleted, rest.1)

kept_current :
    (v : YjsSnapshotVersion) (s t : InMemoryYjsRoomStore)
    → t.rooms ≡ s.rooms
    → IsCurrentVersion s v
    → IsCurrentVersion t v
kept_current v s t e c = rw e c

-- A run of the collection of old versions leaves a version that is the current one of its room
-- in the history, and it stays the current one, whatever the number of versions to retain, when
-- the history has distinct keys and stores each version under its own id.
pub run_once-IsCurrentVersion :
    (locale_lt : JsString → JsString → Bool) (retained_per_file : ℕ) (job : YjsGcJob) (k : JsString)
    (v : YjsSnapshotVersion)
    → IsKeyed job.store.history
    → HasDistinctKeys job.store.history
    → get k job.store.history ≡ some v
    → IsCurrentVersion job.store v
    → (get k (run_once locale_lt retained_per_file job).1.store.history ≡ some v)
      × IsCurrentVersion (run_once locale_lt retained_per_file job).1.store v
unfolding run_once list_snapshot_history_for_gc
run_once-IsCurrentVersion locale_lt n job k v keyed distinct e c = elim (Bool-cases job.running) [
  | inl r ↦ rw r (e, c)
  | inr r ↦
      let ids =
        (select_yjs_history_retention locale_lt (list_snapshot_history_for_gc job.store) n).prune in
      let pruned = prune_snapshot_history-others job.store k ids job.store (
        select-All (IsOther job.store k) locale_lt (list_snapshot_history_for_gc job.store) n
          (present-OldIsOther job.store k v job.store.history keyed distinct c e)) in
      rw r
        (pruned.0 ∙ e, kept_current v job.store (prune_snapshot_history ids job.store).1 pruned.1 c)
]
