-- ===== src/Plugin/SyncLog/Newest.antt =====
-- apps/plugin/src/logs/log-store.ts: the log holds the newest entries of all that were appended.
use mathlib.Core.List.{append_assoc, append-nil}
use obsidian_baritone.Prelude.{
  ℕ, zero, suc, ◌≡◌, ◌≤◌, refl, sym, ◌∙◌, ap, ◌+◌, ◌-◌, List, [], ◌∷◌, ◌++◌, length, drop,
  length-append, arith, ltb, ◌otherwise◌, Bool-cases, inl, inr, false,
}
use obsidian_baritone.Plugin.SyncLog.{
  SyncLogEntry, SyncLogEntryInput, SyncLogStore, trimmed, append, new_log,
}

-- An input, and the time when it is appended.
abbrev pub Call : Type 0
Call = ℕ × SyncLogEntryInput

abbrev pub append_all : List Call → SyncLogStore → SyncLogStore
append_all [] s = s
append_all ((now, input) ∷ calls) s = append_all calls (append now input s).1

abbrev pub entry_for : ℕ → Call → SyncLogEntry
entry_for id (now, input) = record {
  id = id;
  ts = input.ts otherwise now;
  level = input.level;
  source = input.source;
  message = input.message;
}

-- The entries of calls, numbered from `id` on.
abbrev pub entries_from : ℕ → List Call → List SyncLogEntry
entries_from id [] = []
entries_from id (call ∷ calls) = entry_for id call ∷ entries_from (id + 1) calls

module _ {A : Type 0} where
  -- The last `limit` of a list, or all of a shorter one.
  abbrev pub newest : ℕ → List A → List A
  newest limit xs = drop (length xs - limit) xs

  pub length-drop : (n : ℕ) (xs : List A) → length (drop n xs) ≡ length xs - n
  length-drop zero xs = omega arith
  length-drop (suc n) [] = omega arith
  length-drop (suc n) (x ∷ xs) = omega (arith, length-drop n xs)

  drop-append : (n : ℕ) (xs ys : List A) → n ≤ length xs → drop n (xs ++ ys) ≡ drop n xs ++ ys
  drop-append zero xs ys h = refl
  drop-append (suc n) [] ys h = absurd (omega (arith, h))
  drop-append (suc n) (x ∷ xs) ys h = drop-append n xs ys (omega (arith, h))

  drop-nil : (n : ℕ) → drop {A = A} n [] ≡ []
  drop-nil zero = refl
  drop-nil (suc n) = refl

  drop-drop : (n m : ℕ) (xs : List A) → drop n (drop m xs) ≡ drop (m + n) xs
  drop-drop n zero xs = ap (λ k. drop k xs) (omega arith)
  drop-drop n (suc m) [] = drop-nil n ∙ sym (drop-nil (suc m + n))
  drop-drop n (suc m) (x ∷ xs) = drop-drop n m xs ∙ ap (λ k. drop k (x ∷ xs)) (shift n m)
    where
      shift : (n m : ℕ) → suc (m + n) ≡ suc m + n
      shift n m = omega arith

  newest-newest :
      (limit : ℕ) (xs ys : List A) → newest limit (newest limit xs ++ ys) ≡ newest limit (xs ++ ys)
  newest-newest limit xs ys =
      let over = length xs - limit in
      ap (newest limit) (sym (drop-append over xs ys (omega arith)))
      ∙ drop-drop _ over (xs ++ ys)
      ∙ ap (λ k. drop k (xs ++ ys))
          (omega (arith, length-drop over (xs ++ ys), length-append xs ys))

trimmed-newest : (limit : ℕ) (xs : List SyncLogEntry) → trimmed limit xs ≡ newest limit xs
unfolding trimmed
trimmed-newest limit xs = elim (Bool-cases (ltb limit (length xs))) [
  | inl t ↦ rw t refl
  | inr t ↦ rw t (ap (λ k. drop k xs) (nothing_over limit (length xs) t))
]
  where
    nothing_over : (a b : ℕ) → ltb a b ≡ false → 0 ≡ b - a
    nothing_over a b t = ground arith

append_all-continues :
    (calls : List Call) (s : SyncLogStore) (before : List SyncLogEntry)
    → s.logged ≡ newest s.limit before
    → (append_all calls s).logged ≡ newest s.limit (before ++ entries_from s.next_id calls)
unfolding append
append_all-continues [] s before e = e ∙ ap (newest s.limit) (sym (append-nil before))
append_all-continues (call ∷ calls) s before e =
    let entry = entry_for s.next_id call in
    append_all-continues calls (append call.0 call.1 s).1 (before ++ (entry ∷ [])) (
      trimmed-newest s.limit (s.logged ++ (entry ∷ []))
      ∙ ap (λ xs. newest s.limit (xs ++ (entry ∷ []))) e
      ∙ newest-newest s.limit before (entry ∷ []))
    ∙ ap (newest s.limit) (append_assoc before (entry ∷ []) (entries_from (s.next_id + 1) calls))

-- After any appends to a new log the log is the last entries of all that were appended, as many as
-- its limit allows, in their order and with the numbers from 1 on, each with the time given or that
-- of its call.
pub append_all-newest :
    (limit : ℕ) (calls : List Call)
    → (append_all calls (new_log limit)).logged ≡ newest limit (entries_from 1 calls)
unfolding new_log
append_all-newest limit calls =
    append_all-continues calls (new_log limit) [] (sym (drop-nil (0 - limit)))
