-- ===== src/Engine/Gc/Current.antt =====
-- packages/server/src/engine/yjs-gc.ts: what a run of the collection leaves in the history.
use obsidian_baritone.Prelude.{
  sort-All, ℕ, ◌+◌, ◌≡◌, refl, sym, ◌∙◌, Bool, true, false, Option, none, some, List, [], ◌∷◌, ◌++◌,
  JsString, ltb, str_eq, str_eq_refl, ◌otherwise◌, any, filter, sort, All, All-append, All-map,
  Bool-cases, inl, inr, arith,
}
use obsidian_baritone.Prelude.Maps.{JsMap, get, set, values, All-get, All-set}
use obsidian_baritone.Engine.Rooms.RoomStore.{GcSnapshotRow}
use obsidian_baritone.Engine.Gc.{
  Retention, no_retention, id_of, has_id, add_id, group_key, grouped, keep_current, retain,
  newer_row, retain_group, retain_groups, select_yjs_history_retention,
}

any-append_left :
    (p : JsString → Bool) (xs ys : List JsString) → any p xs ≡ true → any p (xs ++ ys) ≡ true
any-append_left p [] ys h = absurd (cc)
any-append_left p (x ∷ xs) ys h = ground (arith, any-append_left p xs ys)

any-append_last :
    (p : JsString → Bool) (xs : List JsString) (y : JsString)
    → p y ≡ true
    → any p (xs ++ (y ∷ [])) ≡ true
any-append_last p [] y h = rw h refl
any-append_last p (x ∷ xs) y h = ground (arith, any-append_last p xs y h)

-- Adding an id keeps the ids that are there, and adds that one.
has_id-add_id :
    (id other : JsString) (keep : List JsString)
    → has_id keep id ≡ true
    → has_id (add_id other keep) id ≡ true
has_id-add_id id other keep h = elim (Bool-cases (has_id keep other)) [
  | inl e ↦ rw e h
  | inr e ↦ rw e (any-append_left (λ x. str_eq x id) keep (other ∷ []) h)
]

has_id-add_id_self : (id : JsString) (keep : List JsString) → has_id (add_id id keep) id ≡ true
has_id-add_id_self id keep = elim (Bool-cases (has_id keep id)) [
  | inl e ↦ rw e e
  | inr e ↦ rw e (any-append_last (λ x. str_eq x id) keep id (str_eq_refl id))
]

has_id-keep_current :
    (id : JsString) (rows : List GcSnapshotRow) (keep : List JsString)
    → has_id keep id ≡ true
    → has_id (keep_current rows keep) id ≡ true
unfolding keep_current
has_id-keep_current id [] keep h = h
has_id-keep_current id (row ∷ rows) keep h =
    has_id-keep_current id rows (add_id (id_of row) keep) (has_id-add_id id (id_of row) keep h)

-- The version is kept when it is current.
KeptWhenCurrent : List JsString → GcSnapshotRow → Type 0
KeptWhenCurrent keep row = row.is_current ≡ true → has_id keep (id_of row) ≡ true

unfoldable current_of : List GcSnapshotRow → List GcSnapshotRow
current_of rows = filter (λ row. row.is_current) rows

current_of-yes :
    (row : GcSnapshotRow) (rows : List GcSnapshotRow)
    → row.is_current ≡ true
    → current_of (row ∷ rows) ≡ row ∷ current_of rows
unfolding current_of
current_of-yes row rows e = rw e refl

current_of-no :
    (row : GcSnapshotRow) (rows : List GcSnapshotRow)
    → row.is_current ≡ false
    → current_of (row ∷ rows) ≡ current_of rows
unfolding current_of
current_of-no row rows e = rw e refl

KeptWhenCurrent-subst :
    (keep other : List JsString) (rows : List GcSnapshotRow)
    → keep ≡ other
    → All (KeptWhenCurrent other) rows
    → All (KeptWhenCurrent keep) rows
unfolding KeptWhenCurrent
KeptWhenCurrent-subst keep other rows e h =
    All-map {P = KeptWhenCurrent other} {Q = KeptWhenCurrent keep} (λ row f c. rw e (f c)) rows h

keep_current-KeptWhenCurrent :
    (rows : List GcSnapshotRow) (keep : List JsString)
    → All (KeptWhenCurrent (keep_current (current_of rows) keep)) rows
unfolding keep_current KeptWhenCurrent
keep_current-KeptWhenCurrent [] keep = tt
keep_current-KeptWhenCurrent (row ∷ rows) keep = elim (Bool-cases row.is_current) [
  | inl e ↦
      let same : keep_current (current_of (row ∷ rows)) keep
          ≡ keep_current (current_of rows) (add_id (id_of row) keep) =
        rw (current_of-yes row rows e) refl in
      KeptWhenCurrent-subst _ _ (row ∷ rows) same (
        λ _.
            has_id-keep_current (id_of row) (current_of rows) (add_id (id_of row) keep)
              (has_id-add_id_self (id_of row) keep),
        keep_current-KeptWhenCurrent rows (add_id (id_of row) keep),
      )
  | inr e ↦
      let same : keep_current (current_of (row ∷ rows)) keep ≡ keep_current (current_of rows) keep =
        rw (current_of-no row rows e) refl in
      KeptWhenCurrent-subst _ _ (row ∷ rows) same
        (λ c. let wrong : true ≡ false = cc in absurd (cc), keep_current-KeptWhenCurrent rows keep)
]

module _ (n k : ℕ) (row : GcSnapshotRow) (rows : List GcSnapshotRow) (r : Retention) where
  retain-skip : has_id r.keep (id_of row) ≡ true → retain n k (row ∷ rows) r ≡ retain n k rows r
  unfolding retain
  retain-skip e = rw e refl

  retain-keep :
      has_id r.keep (id_of row) ≡ false
      → ltb k n ≡ true
      → retain n k (row ∷ rows) r
        ≡ retain n (k + 1) rows (record r { keep = add_id (id_of row) r.keep })
  unfolding retain
  retain-keep e l = rw (e, l) refl

  retain-prune :
      has_id r.keep (id_of row) ≡ false
      → ltb k n ≡ false
      → retain n k (row ∷ rows) r
        ≡ retain n k rows (record r { prune = r.prune ++ (id_of row ∷ []) })
  unfolding retain
  retain-prune e l = rw (e, l) refl

module _ (Q : JsString → Type 0) where
  -- A version that is not current is one that may be pruned.
  abbrev PrunableWhenOld : GcSnapshotRow → Type 0
  PrunableWhenOld row = row.is_current ≡ false → Q (id_of row)

  old-Prunable :
      (keep : List JsString) (row : GcSnapshotRow)
      → PrunableWhenOld row
      → KeptWhenCurrent keep row
      → has_id keep (id_of row) ≡ false
      → Q (id_of row)
  unfolding KeptWhenCurrent
  old-Prunable keep row old kept e = elim (Bool-cases row.is_current) [
    | inl c ↦ let wrong : true ≡ false = sym (kept c) ∙ e in absurd (cc)
    | inr c ↦ old c
  ]

  retain-All :
      (n k : ℕ) (rows : List GcSnapshotRow) (r : Retention)
      → All PrunableWhenOld rows
      → All (KeptWhenCurrent r.keep) rows
      → All Q r.prune
      → All Q (retain n k rows r).prune
  unfolding KeptWhenCurrent
  retain-All n k [] r old kept h = unfold retain in h
  retain-All n k (row ∷ rows) r old kept h = elim (Bool-cases (has_id r.keep (id_of row))) [
    | inl e ↦ rw (retain-skip n k row rows r e) (retain-All n k rows r old.1 kept.1 h)
    | inr e ↦ elim (Bool-cases (ltb k n)) [
      | inl l ↦ rw (retain-keep n k row rows r e l) (
          retain-All n (k + 1) rows (record r { keep = add_id (id_of row) r.keep }) old.1
            (All-map {P = KeptWhenCurrent r.keep} {Q = KeptWhenCurrent (add_id (id_of row) r.keep)}
              (λ other f c. has_id-add_id (id_of other) (id_of row) r.keep (f c)) rows kept.1)
            h)
      | inr l ↦ rw (retain-prune n k row rows r e l) (
          retain-All n k rows (record r { prune = r.prune ++ (id_of row ∷ []) }) old.1 kept.1
            (All-append Q r.prune (id_of row ∷ []) h (old-Prunable r.keep row old.0 kept.0 e, tt)))
    ]
  ]

  module _ (locale_lt : JsString → JsString → Bool) where
    retain_groups-All :
        (n : ℕ) (groups : List (List GcSnapshotRow)) (r : Retention)
        → All (All PrunableWhenOld) groups
        → All Q r.prune
        → All Q (retain_groups locale_lt n groups r).prune
    unfolding retain_groups current_of
    retain_groups-All n [] r old h = h
    retain_groups-All n (group ∷ groups) r old h =
        let sorted = sort (newer_row locale_lt) group in
        let keep = keep_current (current_of sorted) r.keep in
        retain_groups-All n groups (retain_group locale_lt n group r) old.1 (
          retain-All n 0 sorted (record r { keep = keep })
            (sort-All PrunableWhenOld (newer_row locale_lt) group old.0)
            (keep_current-KeptWhenCurrent sorted r.keep) h)

  otherwise-All :
      (rows : Option (List GcSnapshotRow))
      → ((v : List GcSnapshotRow) → rows ≡ some v → All PrunableWhenOld v)
      → All PrunableWhenOld (rows otherwise [])
  otherwise-All none f = tt
  otherwise-All (some v) f = f v refl

  grouped-All :
      (rows : List GcSnapshotRow) (groups : JsMap (List GcSnapshotRow))
      → All (All PrunableWhenOld) (values groups)
      → All PrunableWhenOld rows
      → All (All PrunableWhenOld) (values (grouped groups rows))
  unfolding grouped
  grouped-All [] groups h old = h
  grouped-All (row ∷ rows) groups h old =
      let key = group_key row in
      let group = (get key groups otherwise []) ++ (row ∷ []) in
      let group_old : All PrunableWhenOld group =
        All-append PrunableWhenOld (get key groups otherwise []) (row ∷ [])
          (otherwise-All (get key groups) (λ v e. All-get (All PrunableWhenOld) key v groups h e))
          (old.0, tt) in
      grouped-All rows (set key group groups)
        (All-set (All PrunableWhenOld) key group groups h group_old) old.1

-- Every pruned version is one that may be pruned, when the versions that are not current are.
pub select-All :
    (Q : JsString → Type 0) (locale_lt : JsString → JsString → Bool) (rows : List GcSnapshotRow)
    (n : ℕ)
    → All (λ row. row.is_current ≡ false → Q (id_of row)) rows
    → All Q (select_yjs_history_retention locale_lt rows n).prune
unfolding select_yjs_history_retention
select-All Q locale_lt rows n old =
    retain_groups-All Q locale_lt n (values (grouped [] rows)) no_retention
      (grouped-All Q rows [] tt old) tt
