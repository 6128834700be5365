-- ===== src/Engine/Rooms/Updates.antt =====
-- The lists of stored updates of packages/server/src/engine/yjs.ts: lists in the order of their
-- numbers, on which the sorting of the store does nothing.
use obsidian_baritone.Prelude.{
  ℕ, suc, ◌≤◌, ◌≡◌, refl, Bool, true, false, List, [], ◌∷◌, ◌++◌, ltb, filter, sort, insert_sorted,
  arith, ap, Bool-cases, inl, inr,
}
use obsidian_baritone.Engine.Rooms.{Yjs}
use obsidian_baritone.Engine.Rooms.RoomStore.{StoredYjsUpdate, sooner}
use obsidian_baritone.Engine.Rooms.Loading.{replay}

-- The numbers rise strictly, from `low` on, and stay below `high`.
abbrev pub Ascends : ℕ → ℕ → List StoredYjsUpdate → Type 0
Ascends low high [] = low ≤ high
Ascends low high (u ∷ us) = (low ≤ u.seq) × Ascends (suc u.seq) high us

pub Ascends-le : (low high : ℕ) (us : List StoredYjsUpdate) → Ascends low high us → low ≤ high
Ascends-le low high [] h = h
Ascends-le low high (u ∷ us) h = omega (arith, h.0, Ascends-le (suc u.seq) high us h.1)

pub Ascends-lower :
    (low lower high : ℕ) (us : List StoredYjsUpdate)
    → lower ≤ low
    → Ascends low high us
    → Ascends lower high us
Ascends-lower low lower high [] l h = omega arith
Ascends-lower low lower high (u ∷ us) l h = (omega (arith, h.0), h.1)

pub Ascends-filter :
    (low high : ℕ) (p : StoredYjsUpdate → Bool) (us : List StoredYjsUpdate)
    → Ascends low high us
    → Ascends low high (filter p us)
Ascends-filter low high p [] h = h
Ascends-filter low high p (u ∷ us) h = elim (Bool-cases (p u)) [
  | inl e ↦ rw e (h.0, Ascends-filter (suc u.seq) high p us h.1)
  | inr e ↦ rw e (
      Ascends-lower (suc u.seq) low high (filter p us) (omega (arith, h.0))
        (Ascends-filter (suc u.seq) high p us h.1))
]

pub Ascends-append :
    (low high : ℕ) (us : List StoredYjsUpdate) (u : StoredYjsUpdate)
    → u.seq ≡ high
    → Ascends low high us
    → Ascends low (suc high) (us ++ (u ∷ []))
Ascends-append low high [] u e h = (omega (arith, e), omega (arith, e))
Ascends-append low high (v ∷ us) u e h = (h.0, Ascends-append (suc v.seq) high us u e h.1)

insert_first :
    (low high : ℕ) (u : StoredYjsUpdate) (us : List StoredYjsUpdate)
    → Ascends (suc u.seq) high us
    → insert_sorted sooner u us ≡ u ∷ us
insert_first low high u [] h = refl
insert_first low high u (v ∷ us) h = ground (arith, h.0)

pub sort-Ascends :
    (low high : ℕ) (us : List StoredYjsUpdate) → Ascends low high us → sort sooner us ≡ us
sort-Ascends low high [] h = refl
sort-Ascends low high (u ∷ us) h =
    rw (sort-Ascends (suc u.seq) high us h.1) (insert_first low high u us h.1)

-- All updates are among the compacted ones.
pub filter-none :
    (low high seq : ℕ) (us : List StoredYjsUpdate)
    → high ≤ suc seq
    → Ascends low high us
    → filter (λ u. ltb seq u.seq) us ≡ []
filter-none low high seq [] l h = refl
filter-none low high seq (u ∷ us) l h =
    ground (arith, filter-none (suc u.seq) high seq us l h.1, Ascends-le (suc u.seq) high us h.1)

pub filter-append :
    (p : StoredYjsUpdate → Bool) (us : List StoredYjsUpdate) (u : StoredYjsUpdate)
    → p u ≡ true
    → filter p (us ++ (u ∷ [])) ≡ filter p us ++ (u ∷ [])
filter-append p [] u e = rw e refl
filter-append p (v ∷ us) u e = ground (arith, filter-append p us u e)

module _ {Doc : Type 0} (yjs : Yjs Doc) where
  -- One update more after a replay that returned.
  pub replay-append :
      (doc end : Doc) (us : List StoredYjsUpdate) (u : StoredYjsUpdate)
      → replay yjs doc us ≡ (true, end)
      → (yjs.apply_update end u.update).0 ≡ true
      → replay yjs doc (us ++ (u ∷ [])) ≡ (true, (yjs.apply_update end u.update).1)
  unfolding replay
  replay-append doc end [] u e a = let same : doc ≡ end = ap (λ r. r.1) e in rw (same, a) refl
  replay-append doc end (v ∷ us) u e a = elim (Bool-cases (yjs.apply_update doc v.update).0) [
    | inl t ↦ rw t (replay-append (yjs.apply_update doc v.update).1 end us u (rw t at e) a)
    | inr t ↦ let wrong : false ≡ true = ap (λ r. r.0) (rw t at e) in absurd (cc)
  ]
