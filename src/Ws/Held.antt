-- ===== src/Ws/Held.antt =====
-- packages/server/src/engine/store.ts: what `hasContentForVault` finds.
use mathlib.Core.List.{Memᴰ}
use obsidian_baritone.Prelude.{
  ◌≡◌, refl, ap, ◌⊎◌, Bool, true, false, ◌&&◌, ◌||◌, Option, none, some, List, [], ◌∷◌, JsString,
  str_eq, str_eq_iff, opt_eq, any, arith, Bool-cases, inl, inr,
}
use obsidian_baritone.Prelude.Maps.{values}
use obsidian_baritone.Protocol.{ConflictRecord}
use obsidian_baritone.Engine.Store.{
  InMemoryDataStore, StoredFile, StoredOp, vault_ops, has_content_for_vault,
}

-- The vault has content of the hash: that of a file, of a side of a conflict, or of an operation in the
-- log.
pub data IsHeld (vault_id hash : JsString) (s : InMemoryDataStore) : Type 0 where
  in_file :
      (f : StoredFile)
      → Memᴰ f (values s.files)
      → f.vault_id ≡ vault_id
      → f.content_hash ≡ some hash
      → IsHeld vault_id hash s
  in_conflict :
      (c : ConflictRecord)
      → Memᴰ c (values s.conflicts)
      → c.vault_id ≡ vault_id
      → (c.base_hash ≡ some hash) ⊎ (c.ours_hash ≡ some hash) ⊎ (c.theirs_hash ≡ some hash)
      → IsHeld vault_id hash s
  in_log :
      (op : StoredOp)
      → Memᴰ op (vault_ops s vault_id)
      → (op.payload.content_hash ≡ some hash) ⊎ (op.payload.blob_ref ≡ some hash)
      → IsHeld vault_id hash s

pub any_found :
    {A : Type 0} (p : A → Bool) (xs : List A)
    → any p xs ≡ true
    → (x : A) × (Memᴰ x xs × (p x ≡ true))
any_found p [] h = absurd (cc)
any_found p (x ∷ xs) h = elim (Bool-cases (p x)) [
  | inl e ↦ (x, (Memᴰ.head refl, e))
  | inr e ↦ let (y, (m, q)) = any_found p xs (rw e at h) in (y, (Memᴰ.tail m, q))
]

same_opt : (o : Option JsString) (x : JsString) → opt_eq o (some x) ≡ true → o ≡ some x
unfolding opt_eq
same_opt none x h = absurd (cc)
same_opt (some y) x h = ap some ((str_eq_iff y x).0 h)

both : (a b : Bool) → a && b ≡ true → (a ≡ true) × (b ≡ true)
both a b h = ground arith

one_of : (a b : Bool) → a || b ≡ true → (a ≡ true) ⊎ (b ≡ true)
one_of a b h = ground arith

module _ (vault_id hash : JsString) (s : InMemoryDataStore) where
  conflict_side :
      (base ours theirs : Option JsString)
      → opt_eq base (some hash) || opt_eq ours (some hash) || opt_eq theirs (some hash) ≡ true
      → (base ≡ some hash) ⊎ (ours ≡ some hash) ⊎ (theirs ≡ some hash)
  conflict_side base ours theirs h =
      elim (one_of (opt_eq base (some hash) || opt_eq ours (some hash)) (opt_eq theirs (some hash))
        h) [
          | inr t ↦ inr (inr (same_opt theirs hash t))
          | inl h' ↦ elim (one_of (opt_eq base (some hash)) (opt_eq ours (some hash)) h') [
            | inl b ↦ inl (same_opt base hash b)
            | inr o ↦ inr (inl (same_opt ours hash o))
          ]
        ]

  abbrev of_file : StoredFile → Bool
  of_file f = str_eq f.vault_id vault_id && opt_eq f.content_hash (some hash)

  abbrev of_side : ConflictRecord → Bool
  of_side c =
      opt_eq c.base_hash (some hash)
      || opt_eq c.ours_hash (some hash)
      || opt_eq c.theirs_hash (some hash)

  abbrev of_conflict : ConflictRecord → Bool
  of_conflict c = str_eq c.vault_id vault_id && of_side c

  abbrev of_op : StoredOp → Bool
  of_op op = opt_eq op.payload.content_hash (some hash) || opt_eq op.payload.blob_ref (some hash)

  files-IsHeld : any of_file (values s.files) ≡ true → IsHeld vault_id hash s
  files-IsHeld h =
      let (f, (m, e)) = any_found of_file (values s.files) h in
      let (v, c) = both (str_eq f.vault_id vault_id) (opt_eq f.content_hash (some hash)) e in
      in_file f m ((str_eq_iff f.vault_id vault_id).0 v) (same_opt f.content_hash hash c)

  conflicts-IsHeld : any of_conflict (values s.conflicts) ≡ true → IsHeld vault_id hash s
  conflicts-IsHeld h =
      let (c, (m, e)) = any_found of_conflict (values s.conflicts) h in
      let (v, side) = both (str_eq c.vault_id vault_id) (of_side c) e in
      in_conflict c m ((str_eq_iff c.vault_id vault_id).0 v)
        (conflict_side c.base_hash c.ours_hash c.theirs_hash side)

  log-IsHeld : any of_op (vault_ops s vault_id) ≡ true → IsHeld vault_id hash s
  log-IsHeld h =
      let (op, (m, e)) = any_found of_op (vault_ops s vault_id) h in
      elim (one_of (opt_eq op.payload.content_hash (some hash))
        (opt_eq op.payload.blob_ref (some hash)) e) [
          | inl c ↦ in_log op m (inl (same_opt op.payload.content_hash hash c))
          | inr r ↦ in_log op m (inr (same_opt op.payload.blob_ref hash r))
        ]

  has_content_for_vault-IsHeld :
      has_content_for_vault s vault_id hash ≡ true → IsHeld vault_id hash s
  unfolding has_content_for_vault
  has_content_for_vault-IsHeld h =
      let in_files = any of_file (values s.files) in
      let in_sides = any of_conflict (values s.conflicts) in
      elim (one_of (in_files || in_sides) (any of_op (vault_ops s vault_id)) h) [
        | inr in_ops ↦ log-IsHeld in_ops
        | inl elsewhere ↦ elim (one_of in_files in_sides elsewhere) [
          | inl f ↦ files-IsHeld f
          | inr c ↦ conflicts-IsHeld c
        ]
      ]

  pub not_held : ¬ IsHeld vault_id hash s → has_content_for_vault s vault_id hash ≡ false
  not_held absent = elim (Bool-cases (has_content_for_vault s vault_id hash)) [
    | inl h ↦ absurd (absent (has_content_for_vault-IsHeld h))
    | inr e ↦ e
  ]
