-- ===== src/Engine/OpProcessor/Devices.antt =====
-- The operations of a device in the log of its vault: each is there once, in the order of the device.
use obsidian_baritone.Prelude.{
  ℕ, ◌+◌, ◌≡◌, refl, sym, ap, ◌∙◌, inl, inr, true, false, Option, none, some, List, [], ◌∷◌, ◌++◌,
  JsString, arith, Bool-cases, str_eq, str_eq_iff, str_eq_refl, if◌then◌else◌,
}
use mathlib.Core.Path.{subst}
use mathlib.Core.Option.{some_inj}
use obsidian_baritone.Prelude.Maps.{get, get-set}
use obsidian_baritone.Unicode.{Platform}
use obsidian_baritone.Protocol.{FileOp}
use obsidian_baritone.Engine.Store.{
  InMemoryDataStore, StoredDevice, StoredOp, get_device, next_seq, vault_ops,
}
use obsidian_baritone.Engine.Store.Frame.{SameRecords}
use obsidian_baritone.Engine.OpProcessor.Apply.{Outcome}
use obsidian_baritone.Engine.OpProcessor.{process, is_synthetic}
use obsidian_baritone.Engine.OpProcessor.Steps.{
  Step, unchanged, committed, Admitted, from_room, from_device, process-Step,
}
use obsidian_baritone.Engine.OpProcessor.Commit.{Written, Commits-Written, vault_ops_same}
use obsidian_baritone.Engine.OpProcessor.Log.{CountsUp, CountsUp-snoc, IsNumbered, vault_ops_after}

-- The numbers that a device gave its operations, in the order of the log.
abbrev pub device_seqs : JsString → List StoredOp → List ℕ
device_seqs id [] = []
device_seqs id (op ∷ ops) =
    let rest = device_seqs id ops in if str_eq op.device_id id then op.device_seq ∷ rest else rest

device_seqs-snoc :
    (id : JsString) (ops : List StoredOp) (op : StoredOp)
    → device_seqs id (ops ++ (op ∷ [])) ≡ (
        if str_eq op.device_id id
        then device_seqs id ops ++ (op.device_seq ∷ [])
        else device_seqs id ops)
device_seqs-snoc id [] op = refl
device_seqs-snoc id (a ∷ ops) op = ground (arith, device_seqs-snoc id ops op)

-- What holds of a device that is stored under an id: the id is its own and none that the server gives
-- to the operations of a room, and the operations in the log of its vault have the numbers 1, 2, 3, and
-- so on up to the last one that the device is known for.
pub record InSequence (s : InMemoryDataStore) (id : JsString) (d : StoredDevice) : Type 0 where
  pub own_id : d.device_id ≡ id
  pub is_real : (op : FileOp) → op.device_id ≡ id → is_synthetic op ≡ false
  pub numbers : CountsUp 1 (d.last_device_seq + 1) (device_seqs id (vault_ops s d.vault_id))

abbrev pub IsSequenced : InMemoryDataStore → Type 0
IsSequenced s = (id : JsString) (d : StoredDevice) → get_device s id ≡ some d → InSequence s id d

IsSequenced-same : (s t : InMemoryDataStore) → SameRecords s t → IsSequenced s → IsSequenced t
unfolding get_device
IsSequenced-same s t same h id d e =
    let before = h id d (sym (ap (get id) same.devices) ∙ e) in
    record {
      own_id = before.own_id;
      is_real = before.is_real;
      numbers = rw (vault_ops_same s t d.vault_id same) before.numbers;
    }

module _ {now : ℕ} {op : FileOp} {device : Option StoredDevice} {outcome : Outcome}
    {s t : InMemoryDataStore} (log : IsNumbered s) (w : Written now op device outcome s t) where
  -- A device that did not make the operation keeps its numbers.
  others_keep :
      (id : JsString) (d : StoredDevice)
      → str_eq op.device_id id ≡ false
      → InSequence s id d
      → InSequence t id d
  others_keep id d other h = elim (Bool-cases (str_eq op.vault_id d.vault_id)) [
    | inl e ↦
        let same : op.vault_id ≡ d.vault_id = (str_eq_iff op.vault_id d.vault_id).0 e in
        record {
          own_id = h.own_id;
          is_real = h.is_real;
          numbers =
              rw (vault_ops_after log w d.vault_id, e, device_seqs-snoc, other) (rw same h.numbers);
        }
    | inr e ↦ record {
      own_id = h.own_id;
      is_real = h.is_real;
      numbers = rw (vault_ops_after log w d.vault_id, e) h.numbers;
    }
  ]

  device_seqs_after :
      (v : JsString)
      → v ≡ op.vault_id
      → device_seqs op.device_id (vault_ops t v)
        ≡ device_seqs op.device_id (vault_ops s op.vault_id) ++ (op.device_seq ∷ [])
  device_seqs_after v same =
      ap (λ u. device_seqs op.device_id (vault_ops t u)) same
      ∙ rw
          (
            vault_ops_after log w op.vault_id,
            str_eq_refl op.vault_id,
            device_seqs-snoc,
            str_eq_refl op.device_id,
          )
          refl

  -- The device that made the operation, as `e` after the commit.
  own_grows :
      (d e : StoredDevice)
      → InSequence s op.device_id d
      → d.vault_id ≡ op.vault_id
      → op.device_seq ≡ d.last_device_seq + 1
      → e.device_id ≡ d.device_id
      → e.vault_id ≡ d.vault_id
      → e.last_device_seq ≡ op.device_seq
      → InSequence t op.device_id e
  own_grows d e h vault next same_id same_vault last =
      let old = device_seqs op.device_id (vault_ops s op.vault_id) in
      let n = d.last_device_seq + 1 in
      let before : CountsUp 1 n old = rw vault at h.numbers in
      record {
        own_id = same_id ∙ h.own_id;
        is_real = h.is_real;
        numbers =
            counted_as (n + 1) (e.last_device_seq + 1) (old ++ (n ∷ [])) _
              (ap (λ k. k + 1) (sym (last ∙ next)))
              (ap (λ k. old ++ (k ∷ [])) (sym next)
                ∙ sym (device_seqs_after e.vault_id (same_vault ∙ vault)))
              (CountsUp-snoc 1 n old before);
      }
    where
      counted_as : (m k : ℕ) (xs ys : List ℕ) → m ≡ k → xs ≡ ys → CountsUp 1 m xs → CountsUp 1 k ys
      counted_as m k xs ys p q c = rw (← p, ← q) c

module _ {now : ℕ} {op : FileOp} {outcome : Outcome} {s t : InMemoryDataStore} (log : IsNumbered s)
    (h : IsSequenced s) where
  -- An operation of a room leaves every device as it is.
  from_room-IsSequenced : is_synthetic op ≡ true → Written now op none outcome s t → IsSequenced t
  unfolding get_device
  from_room-IsSequenced synthetic w id e stored =
      let before = h id e (sym (ap (get id) w.devices) ∙ stored) in
      elim (Bool-cases (str_eq op.device_id id)) [
        | inl own ↦
            let wrong : true ≡ false =
              sym synthetic ∙ before.is_real op ((str_eq_iff op.device_id id).0 own) in
            absurd (cc)
        | inr other ↦ others_keep log w id e other before
      ]

  from_device-IsSequenced :
      (d : StoredDevice)
      → get_device s op.device_id ≡ some d
      → d.vault_id ≡ op.vault_id
      → op.device_seq ≡ d.last_device_seq + 1
      → Written now op (some d) outcome s t
      → IsSequenced t
  unfolding get_device
  from_device-IsSequenced d known vault next w id e stored =
      let before = h op.device_id d known in
      let saved = record d {
        last_device_seq = op.device_seq;
        last_seq = next_seq s op.vault_id;
        last_seen = some now;
      } in
      let found : (if str_eq op.device_id id then some saved else get id s.devices) ≡ some e =
        ap (λ k. if str_eq k id then some saved else get id s.devices) (sym before.own_id)
        ∙ sym (ap (get id) w.devices ∙ get-set d.device_id id saved s.devices)
        ∙ stored in
      elim (Bool-cases (str_eq op.device_id id)) [
        | inl own ↦
            let grown = own_grows log w d saved before vault next refl refl refl in
            subst (λ k. InSequence t k e) ((str_eq_iff op.device_id id).0 own)
              (subst (InSequence t op.device_id) (some_inj.0 (rw own at found)) grown)
        | inr other ↦ others_keep log w id e other (h id e (rw other at found))
      ]

-- Processing any operation keeps every device in sequence: the operations of a stored device in
-- the log of its vault have, in the order of the log, the numbers 1, 2, 3, and so on up to the
-- last one that the device is known for, so that each is there once and none is left out. The
-- log is numbered before, devices are stored under their own ids, and none has an id that the
-- server gives to operations of a room.
pub process-IsSequenced :
    (os : Platform) (now : ℕ) (uuid : JsString) (op : FileOp) (user_id : Option JsString)
    (s : InMemoryDataStore)
    → IsNumbered s
    → IsSequenced s
    → IsSequenced (process os now uuid op user_id s).1
process-IsSequenced os now uuid op user_id s log h = after (process-Step os now uuid op user_id s)
  where
    admitted_after :
        (device : Option StoredDevice) (outcome : Outcome)
        → Admitted os now uuid op user_id s device
        → Written now op device outcome s (process os now uuid op user_id s).1
        → IsSequenced (process os now uuid op user_id s).1
    admitted_after none outcome (from_room e synthetic) w = from_room-IsSequenced log h synthetic w
    admitted_after (some d) outcome (from_room e synthetic) w = absurd (cc)
    admitted_after none outcome (from_device d e known vault r m next) w = absurd (cc)
    admitted_after (some b) outcome (from_device d e known vault r m next) w =
        from_device-IsSequenced log h d known vault next (rw (some_inj.0 e) at w)

    after :
        Step os now uuid op user_id s (process os now uuid op user_id s)
        → IsSequenced (process os now uuid op user_id s).1
    after (unchanged same) = IsSequenced-same s _ same h
    after (committed device fresh admitted c) =
        admitted_after device c.outcome admitted (Commits-Written os now uuid op device s _ c)
