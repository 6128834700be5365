-- ===== src/Plugin/Outbox/WellFormed.antt =====
-- apps/plugin/src/sync/outbox.ts: the numbers of the ops in the outbox are distinct and below the
-- next one, whatever is called.
use Prim.Native.Nat.{◌<◌}
use obsidian_baritone.Prelude.{
  ℕ, ◌≡◌, ◌≢◌, refl, sym, ap, ◌∙◌, ◌+◌, ◌-◌, false, none, some, List, [], ◌∷◌, JsString, ltb,
  if◌then◌else◌, map, Bool-cases, ◌⊎◌, inl, inr, arith, str_eq, str_eq_iff,
}
use obsidian_baritone.Prelude.Maps.{JsMap, get, set, delete, HasDistinctKeys, get-set, get-delete}
use obsidian_baritone.Plugin.Outbox.{OutboxEntry, OutboxManager, seq_of, reindexed, delete_all}

-- Every op stands under its id, below the next number, and no two have the same number.
pub record IsNumbered (m : JsMap OutboxEntry) (next : ℕ) : Type 0 where
  pub by_id : (k : JsString) (a : OutboxEntry) → get k m ≡ some a → a.op.op_id ≡ k
  pub below : (k : JsString) (a : OutboxEntry) → get k m ≡ some a → seq_of a < next
  pub distinct :
      (j k : JsString) (a b : OutboxEntry)
      → get j m ≡ some a
      → get k m ≡ some b
      → seq_of a ≡ seq_of b
      → j ≡ k

pub record IsWellFormed (m : OutboxManager) : Type 0 where
  pub keys : HasDistinctKeys m.map_of
  pub numbers : IsNumbered m.map_of m.next_device_seq

pub delete-HasDistinctKeys :
    (k : JsString) (m : JsMap OutboxEntry) → HasDistinctKeys m → HasDistinctKeys (delete k m)
unfolding delete
delete-HasDistinctKeys k [] h = tt
delete-HasDistinctKeys k ((j, w) ∷ m) h = elim (Bool-cases (str_eq j k)) [
  | inl e ↦ rw e (delete-HasDistinctKeys k m h.1)
  | inr e ↦ rw e (ground (arith, get-delete k j m), delete-HasDistinctKeys k m h.1)
]

pub delete_all-HasDistinctKeys :
    (es : List OutboxEntry) (m : JsMap OutboxEntry)
    → HasDistinctKeys m
    → HasDistinctKeys (delete_all es m)
delete_all-HasDistinctKeys [] m h = h
delete_all-HasDistinctKeys (e ∷ es) m h =
    delete_all-HasDistinctKeys es (delete e.op.op_id m) (delete-HasDistinctKeys e.op.op_id m h)

-- A map that finds under each key what another one finds there, up to fields other than the id and
-- the number of the op.
record Found (m : JsMap OutboxEntry) (k : JsString) (a : OutboxEntry) : Type 0 where
  entry : OutboxEntry
  found : get k m ≡ some entry
  same_id : entry.op.op_id ≡ a.op.op_id
  same_seq : seq_of entry ≡ seq_of a

IsNumbered-part :
    (m n : JsMap OutboxEntry) (next : ℕ)
    → IsNumbered m next
    → ((k : JsString) (a : OutboxEntry) → get k n ≡ some a → Found m k a)
    → IsNumbered n next
IsNumbered-part m n next h part = record {
  by_id = λ k a e. let p = part k a e in sym p.same_id ∙ h.by_id k p.entry p.found;
  below = λ k a e. let p = part k a e in omega (arith, h.below k p.entry p.found, p.same_seq);
  distinct = λ j k a b e f g.
      let p = part j a e in
      let q = part k b f in
      h.distinct j k p.entry q.entry p.found q.found (p.same_seq ∙ g ∙ sym q.same_seq);
}

pub delete-some :
    (i k : JsString) (m : JsMap OutboxEntry) (a : OutboxEntry)
    → get k (delete i m) ≡ some a
    → (get k m ≡ some a) × (str_eq i k ≡ false)
delete-some i k m a e = ground (arith, get-delete i k m)

pub IsNumbered-delete :
    (i : JsString) (m : JsMap OutboxEntry) (next : ℕ)
    → IsNumbered m next
    → IsNumbered (delete i m) next
IsNumbered-delete i m next h = IsNumbered-part m (delete i m) next h λ k a e. record {
  entry = a;
  found = (delete-some i k m a e).0;
  same_id = refl;
  same_seq = refl;
}

-- What a write leaves to find.
set-some :
    (i k : JsString) (v a : OutboxEntry) (m : JsMap OutboxEntry)
    → get k (set i v m) ≡ some a
    → ((i ≡ k) × (v ≡ a)) ⊎ (get k m ≡ some a)
set-some i k v a m e = ground (arith, get-set i k v m, str_eq_iff i k)

-- A write to an entry that keeps the id and the number of its op.
pub IsNumbered-alter :
    (i : JsString) (v w : OutboxEntry) (m : JsMap OutboxEntry) (next : ℕ)
    → IsNumbered m next
    → get i m ≡ some w
    → w.op.op_id ≡ v.op.op_id
    → seq_of w ≡ seq_of v
    → IsNumbered (set i v m) next
IsNumbered-alter i v w m next h there same numbered = IsNumbered-part m (set i v m) next h λ k a e.
    elim (set-some i k v a m e) [
      | inl (at, is) ↦ record {
        entry = w;
        found = (λ x. get (sym at x) m) ∙ there;
        same_id = same ∙ ap (λ x. x.op.op_id) is;
        same_seq = numbered ∙ ap seq_of is;
      }
      | inr old ↦ record { entry = a; found = old; same_id = refl; same_seq = refl }
    ]

-- A new op under the next number.
pub IsNumbered-enqueue :
    (i : JsString) (v : OutboxEntry) (m : JsMap OutboxEntry) (next : ℕ)
    → IsNumbered m next
    → v.op.op_id ≡ i
    → seq_of v ≡ next
    → IsNumbered (set i v m) (next + 1)
IsNumbered-enqueue i v m next h same numbered = record {
  by_id = λ k a e. elim (set-some i k v a m e) [
    | inl (at, is) ↦ sym (ap (λ x. x.op.op_id) is) ∙ same ∙ at
    | inr old ↦ h.by_id k a old
  ];
  below = λ k a e. elim (set-some i k v a m e) [
    | inl (at, is) ↦ omega (arith, ap seq_of is, numbered)
    | inr old ↦ omega (arith, h.below k a old)
  ];
  distinct = λ j k a b e f g. elim (set-some i j v a m e) [
    | inl (at, is) ↦ elim (set-some i k v b m f) [
      | inl (at', _) ↦ sym at ∙ at'
      | inr old ↦ absurd (omega (arith, ap seq_of is, numbered, g, h.below k b old))
    ]
    | inr old ↦ elim (set-some i k v b m f) [
      | inl (_, is) ↦ absurd (omega (arith, ap seq_of is, numbered, g, h.below j a old))
      | inr old' ↦ h.distinct j k a b old old' g
    ]
  ];
}

value_of : {a b : OutboxEntry} → some a ≡ some b → b ≡ a
value_of e = cc

-- What the loop of `removeAndReindex` leaves to find.
map-some :
    (f : OutboxEntry → OutboxEntry) (k : JsString) (a : OutboxEntry) (m : JsMap OutboxEntry)
    → get k (map (λ e. (e.0, f e.1)) m) ≡ some a
    → (b : OutboxEntry) × (get k m ≡ some b) × (a ≡ f b)
unfolding get
map-some f k a [] e = absurd (cc)
map-some f k a ((j, w) ∷ m) e = elim (Bool-cases (str_eq j k)) [
  | inl t ↦ rw t (w, refl, value_of (rw t at e))
  | inr t ↦ rw t (map-some f k a m (rw t at e))
]

reindexed-seq :
    (removed : ℕ) (b : OutboxEntry)
    → seq_of (reindexed removed b) ≡ (if ltb removed (seq_of b) then seq_of b - 1 else seq_of b)
unfolding reindexed
reindexed-seq removed b = ground arith

reindexed-id : (removed : ℕ) (b : OutboxEntry) → (reindexed removed b).op.op_id ≡ b.op.op_id
unfolding reindexed
reindexed-id removed b = elim (Bool-cases (ltb removed (seq_of b))) [
  | inl e ↦ rw e refl
  | inr e ↦ rw e refl
]

-- What is left when an entry goes has another number.
rest-some :
    (i k : JsString) (m : JsMap OutboxEntry) (next : ℕ) (gone a : OutboxEntry)
    → IsNumbered m next
    → get i m ≡ some gone
    → get k (delete i m) ≡ some a
    → (get k m ≡ some a) × (seq_of a ≢ seq_of gone)
rest-some i k m next gone a h there e =
    let (old, other) = delete-some i k m a e in
    (old, λ same. differ (h.distinct k i a gone old there same) other)
  where
    differ : k ≡ i → str_eq i k ≡ false → ⊥
    differ p q = ground (arith, str_eq_iff i k)

pub IsNumbered-reindex :
    (i : JsString) (m : JsMap OutboxEntry) (next : ℕ) (gone : OutboxEntry)
    → IsNumbered m next
    → get i m ≡ some gone
    → IsNumbered (map (λ e. (e.0, reindexed (seq_of gone) e.1)) (delete i m)) (next - 1)
IsNumbered-reindex i m next gone h there = record {
  by_id = λ k a e.
      let (b, left, is) = map-some (reindexed (seq_of gone)) k a (delete i m) e in
      ap (λ x. x.op.op_id) is
      ∙ reindexed-id (seq_of gone) b
      ∙ h.by_id k b (rest-some i k m next gone b h there left).0;
  below = λ k a e.
      let (b, left, is) = map-some (reindexed (seq_of gone)) k a (delete i m) e in
      let (old, other) = rest-some i k m next gone b h there left in
      ground (
        arith,
        ap seq_of is,
        reindexed-seq (seq_of gone) b,
        other,
        h.below k b old,
        h.below i gone there,
      );
  distinct = λ j k a b e f g.
      let (a', left, is) = map-some (reindexed (seq_of gone)) j a (delete i m) e in
      let (b', left', is') = map-some (reindexed (seq_of gone)) k b (delete i m) f in
      let (old, other) = rest-some i j m next gone a' h there left in
      let (old', other') = rest-some i k m next gone b' h there left' in
      h.distinct j k a' b' old old' (
        ground (
          arith,
          ap seq_of is,
          ap seq_of is',
          reindexed-seq (seq_of gone) a',
          reindexed-seq (seq_of gone) b',
          other,
          other',
          g,
        ));
}

-- When the op with the highest number goes, the next number goes down by one.
pub IsNumbered-tighten :
    (i : JsString) (m : JsMap OutboxEntry) (next : ℕ) (gone : OutboxEntry)
    → IsNumbered m next
    → get i m ≡ some gone
    → seq_of gone + 1 ≡ next
    → IsNumbered (delete i m) (next - 1)
IsNumbered-tighten i m next gone h there last =
    let kept = IsNumbered-delete i m next h in
    record {
      by_id = kept.by_id;
      below = λ k a e.
          let (old, other) = rest-some i k m next gone a h there e in
          ground (arith, other, h.below k a old, last);
      distinct = kept.distinct;
    }

map-none :
    (f : OutboxEntry → OutboxEntry) (k : JsString) (m : JsMap OutboxEntry)
    → get k m ≡ none
    → get k (map (λ e. (e.0, f e.1)) m) ≡ none
unfolding get
map-none f k [] e = refl
map-none f k ((j, w) ∷ m) e = elim (Bool-cases (str_eq j k)) [
  | inl t ↦ absurd (let q = rw t at e in cc)
  | inr t ↦ rw t (map-none f k m (rw t at e))
]

pub map-HasDistinctKeys :
    (f : OutboxEntry → OutboxEntry) (m : JsMap OutboxEntry)
    → HasDistinctKeys m
    → HasDistinctKeys (map (λ e. (e.0, f e.1)) m)
map-HasDistinctKeys f [] h = tt
map-HasDistinctKeys f ((j, w) ∷ m) h = (map-none f j m h.0, map-HasDistinctKeys f m h.1)
