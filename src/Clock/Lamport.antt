-- ===== src/Clock/Lamport.antt =====
-- packages/shared/src/clock/lamport.ts: the last-writer-wins register that decides renames.
pub mod Tests
use obsidian_baritone.Prelude.{
  ℕ, ◌+◌, ◌≤◌, ◌<◌, max, ◌≡◌, refl, ap, ◌⊎◌, inl, inr, Bool, true, false, not, arith, JsString, ltb,
  ◌==◌, if◌then◌else◌, str_eq, str_eq_iff, str_eq_refl, str_eq_comm, str_lt, str_lt_irrefl,
  str_lt_trans, str_lt_asymm, str_lt_total,
}

pub record PathClock : Type 0 where
  pub lamport : ℕ
  pub device_id : JsString

-- `nextLamport`
unfoldable pub next_lamport : ℕ → ℕ
next_lamport observed_max = observed_max + 1

-- `makePathClock`
pub make_path_clock : ℕ → JsString → PathClock
make_path_clock lamport device_id = record { lamport = lamport; device_id = device_id }

-- The sign of the number that `comparePathClock` returns, of which its callers use no more.
pub data Sign : Type 0 where
  positive : Sign
  null : Sign
  negative : Sign

-- `comparePathClock`
unfoldable pub compare_path_clock : PathClock → PathClock → Sign
compare_path_clock a b =
    if not (a.lamport == b.lamport)
    then (if ltb b.lamport a.lamport then positive else negative)
    else if str_eq a.device_id b.device_id
    then null
    else if str_lt b.device_id a.device_id
    then positive
    else negative

abbrev pub is_positive : Sign → Bool
is_positive positive = true
is_positive _ = false

-- `pathClockWins`
unfoldable pub path_clock_wins : PathClock → PathClock → Bool
unfolding compare_path_clock
path_clock_wins candidate current = is_positive (compare_path_clock candidate current)

-- `observeLamport`
unfoldable pub observe_lamport : ℕ → PathClock → ℕ
observe_lamport observed_max incoming = max observed_max incoming.lamport

clock-ext : (a b : PathClock) → a.lamport ≡ b.lamport → a.device_id ≡ b.device_id → a ≡ b
clock-ext a b p q = λ i. record { lamport = p i; device_id = q i }

pub path_clock_wins_irrefl : (a : PathClock) → path_clock_wins a a ≡ false
unfolding path_clock_wins
path_clock_wins_irrefl a = ground (arith, str_eq_refl a.device_id)

pub path_clock_wins_trans :
    (a b c : PathClock)
    → path_clock_wins a b ≡ true
    → path_clock_wins b c ≡ true
    → path_clock_wins a c ≡ true
unfolding path_clock_wins
path_clock_wins_trans a b c h k = ground (
  arith,
  str_eq_iff a.device_id b.device_id,
  str_eq_iff b.device_id c.device_id,
  str_eq_iff a.device_id c.device_id,
  str_lt_trans c.device_id b.device_id a.device_id,
  str_lt_asymm b.device_id a.device_id,
)

-- Of two path clocks exactly one wins over the other, unless they are the same, and then neither
-- does.
pub path_clock_wins_total :
    (a b : PathClock)
    → ((path_clock_wins a b ≡ true) × (path_clock_wins b a ≡ false))
      ⊎ ((path_clock_wins a b ≡ false) × (path_clock_wins b a ≡ true))
      ⊎ ((a ≡ b) × (path_clock_wins a b ≡ false) × (path_clock_wins b a ≡ false))
unfolding path_clock_wins
path_clock_wins_total a b = ground (
  arith,
  str_eq_iff a.device_id b.device_id,
  str_eq_comm a.device_id b.device_id,
  str_lt_total a.device_id b.device_id,
  str_lt_asymm a.device_id b.device_id,
  str_lt_asymm b.device_id a.device_id,
  clock-ext a b,
)

-- The clock of a rename made after a rename was observed wins over the observed one, whatever the
-- two devices and whatever else was observed before.
pub next_lamport-wins :
    (observed_max : ℕ) (incoming : PathClock) (device_id : JsString)
    → path_clock_wins
        (make_path_clock (next_lamport (observe_lamport observed_max incoming)) device_id)
        incoming
      ≡ true
unfolding path_clock_wins next_lamport observe_lamport make_path_clock
next_lamport-wins observed_max incoming device_id = ground arith
