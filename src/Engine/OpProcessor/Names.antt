-- ===== src/Engine/OpProcessor/Names.antt =====
-- packages/server/src/engine/op-processor.ts: the path that `uniquePath` allocates.
use mathlib.Core.Path.{subst, subst⁻¹}
use obsidian_baritone.Prelude.{
  ltb, ltb→lt, ℕ, zero, suc, ◌+◌, ◌<◌, ◌≡◌, refl, Bool, true, false, Option, none, some, JsString,
  str_eq, if◌then◌else◌, Result, ok, err, Bool-cases, inl, inr, arith, ap,
}
use obsidian_baritone.Unicode.{Platform}
use obsidian_baritone.Path.Parts.{split_path, suffix_path}
use obsidian_baritone.Path.Parts.Laws.{split_path-suffix_path, suffix_path-injective}
use obsidian_baritone.Protocol.{illegal_path}
use obsidian_baritone.Engine.Store.{InMemoryDataStore, StoredFile, find_live_file_by_path}
use obsidian_baritone.Engine.Store.Tx.{Thrown, sync}
use obsidian_baritone.Engine.OpProcessor.Apply.{free_path, unique_path}

-- The names that are tried, in their order: the wanted one, then the numbered ones from 2 on.
abbrev pub candidate : JsString → ℕ → JsString
candidate desired zero = desired
candidate desired (suc k) = suffix_path desired (k + 2)

-- What is on a path leaves it to the file: nothing, or the file itself.
abbrev pub leaves_to : JsString → Option StoredFile → Bool
leaves_to file_id none = true
leaves_to file_id (some file) = str_eq file.file_id file_id

module _ (os : Platform) (s : InMemoryDataStore) (vault_id desired file_id : JsString) where
  abbrev pub is_free : ℕ → Bool
  is_free i = leaves_to file_id (find_live_file_by_path s vault_id (os.lower (candidate desired i)))

  abbrev pub AreTaken : ℕ → Type 0
  AreTaken n = (i : ℕ) → i < n → is_free i ≡ false

  -- A search among the first `n` names that finds the first free one, or that all are taken.
  pub data Search (n : ℕ) : Option JsString → Type 0 where
    finds : (i : ℕ) → i < n → is_free i ≡ true → AreTaken i → Search n (some (candidate desired i))
    fails : AreTaken n → Search n none

  next_taken : (i : ℕ) → AreTaken i → is_free i ≡ false → AreTaken (suc i)
  next_taken i h e j l = elim (Bool-cases (ltb j i)) [
    | inl t ↦ h j (ltb→lt j i t)
    | inr t ↦ subst (λ k. is_free k ≡ false) (equal t) e
  ]
    where
      equal : ltb j i ≡ false → i ≡ j
      equal t = ground arith

  found_lem :
      (o : Option StoredFile) (path : JsString) (next : Option JsString)
      → (elim o [
        | none ↦ some path
        | some collision ↦ if str_eq collision.file_id file_id then some path else next
      ])
        ≡ (if leaves_to file_id o then some path else next)
  found_lem none path next = refl
  found_lem (some file) path next = refl

  -- The rest of the search from a path on, where `n` is the number of the name after it.
  abbrev left_after : ℕ → ℕ → JsString → Option JsString
  left_after rounds n path = free_path os s vault_id desired file_id rounds n path

  next_name :
      (rounds i n : ℕ)
      → n ≡ i + 2
      → Search (suc i + rounds) (left_after rounds (n + 1) (candidate desired (suc i)))
      → Search (i + suc rounds) (left_after rounds (n + 1) (suffix_path desired n))
  next_name rounds i n e found =
      subst⁻¹ (λ k. Search (i + suc rounds) (left_after rounds (n + 1) (suffix_path desired k))) e
        (subst (λ m. Search m (left_after rounds (n + 1) (candidate desired (suc i)))) (omega arith)
          found)

  free_path-Search :
      (rounds i n : ℕ)
      → n ≡ i + 2
      → AreTaken i
      → Search (i + rounds) (left_after rounds n (candidate desired i))
  unfolding free_path
  free_path-Search zero i n e h = Search.fails (subst AreTaken (omega arith) h)
  free_path-Search (suc rounds) i n e h =
      subst⁻¹ (Search (i + suc rounds)) (found_lem _ (candidate desired i) _)
        (elim (Bool-cases (is_free i)) [
          | inl t ↦ rw t (Search.finds i (omega arith) t h)
          | inr t ↦ rw t (
              next_name rounds i n e
                (free_path-Search rounds (suc i) (n + 1) (omega (arith, e)) (next_taken i h t)))
        ])

  -- What `uniquePath` comes to: the first free name, which stands in the directory of the wanted one,
  -- or an exception when all of them are taken.
  pub data Allocation : Result Thrown JsString × InMemoryDataStore → Type 0 where
    allocates :
        (i : ℕ)
        → i < 9998
        → (split_path (candidate desired i)).0 ≡ (split_path desired).0
        → is_free i ≡ true
        → AreTaken i
        → Allocation (ok (candidate desired i), s)
    gives_up :
        AreTaken 9998
        → ((i j : ℕ) → candidate desired (suc i) ≡ candidate desired (suc j) → i ≡ j)
        → Allocation (err (sync illegal_path "Unable to allocate a collision-free path"), s)

  same_directory : (i : ℕ) → (split_path (candidate desired i)).0 ≡ (split_path desired).0
  same_directory zero = refl
  same_directory (suc k) = ap (λ parts. parts.0) (split_path-suffix_path desired (k + 2))

  numbered_apart : (i j : ℕ) → candidate desired (suc i) ≡ candidate desired (suc j) → i ≡ j
  numbered_apart i j e =
      let same = suffix_path-injective desired (i + 2) (j + 2) e in omega (arith, same)

  allocated_lem :
      (o : Option JsString)
      → Search 9998 o
      → Allocation (elim o [
        | some path ↦ (ok path, s)
        | none ↦ (err (sync illegal_path "Unable to allocate a collision-free path"), s)
      ])
  allocated_lem _ (Search.finds i l free taken) =
      Allocation.allocates i l (same_directory i) free taken
  allocated_lem _ (Search.fails taken) = Allocation.gives_up taken numbered_apart

  -- uniquePath changes nothing, and gives the first of 9998 names that is free: the wanted path, then
  -- the wanted path with the numbers from 2 on. A name is free if no live file of the vault is found
  -- on its lower-case form, or the file itself is found. The name stands in the directory of the
  -- wanted path. When all of these names are taken it throws ILLEGAL_PATH; the numbered ones among
  -- them are all different.
  pub unique_path-Allocation : Allocation (unique_path os vault_id desired file_id s)
  unfolding unique_path
  unique_path-Allocation =
      allocated_lem _ (free_path-Search 9998 0 2 refl λ i l. absurd (omega (arith, l)))
