-- ===== src/RateLimit/Lockout.antt =====
-- packages/server/src/ws/rate-limit.ts: `LoginRateLimiter` locks a key out.
use Prim.Native.Nat.{◌<◌}
use obsidian_baritone.Prelude.{
  ℕ, ◌≡◌, refl, sym, ◌+◌, ◌-◌, ◌≤◌, false, some, List, [], ◌∷◌, JsString, length, arith, lt→ltb,
}
use obsidian_baritone.Prelude.Maps.{get, get-set_self}
use obsidian_baritone.Unicode.{Platform}
use obsidian_baritone.RateLimit.{
  LoginRateLimiter, LoginState, failures_at, count_failure, fail_key, check_key, check,
  record_failure, login_key,
}
use obsidian_baritone.RateLimit.Window.{Within}

-- Failures of one user from one address, at the given times.
pub fail_all : Platform → JsString → JsString → List ℕ → LoginRateLimiter → LoginRateLimiter
fail_all os ip username [] limiter = limiter
fail_all os ip username (at ∷ times) limiter =
    fail_all os ip username times (record_failure os at ip username limiter)

pub last_of : ℕ → List ℕ → ℕ
last_of at [] = at
last_of at (next ∷ times) = last_of next times

failures_at-within :
    (window_ms at : ℕ) (state : LoginState)
    → at - state.window_started_at < window_ms
    → failures_at window_ms at (some state) ≡ state
unfolding failures_at
failures_at-within window_ms at state inside = ground arith

record_failure-within :
    (os : Platform) (at : ℕ) (ip username : JsString) (limiter : LoginRateLimiter)
    (state : LoginState)
    → get (login_key os ip username) limiter.records ≡ some state
    → at - state.window_started_at < limiter.window_ms
    → get (login_key os ip username) (record_failure os at ip username limiter).records
      ≡ some (count_failure limiter at state)
unfolding record_failure fail_key
record_failure-within os at ip username limiter state found inside =
    rw (found, failures_at-within limiter.window_ms at state inside)
      (get-set_self (login_key os ip username) _ limiter.records)

-- The record after failures within the window, the last of them the one that is too many or later.
fail_all-locked :
    (os : Platform) (ip username : JsString) (at : ℕ) (times : List ℕ) (limiter : LoginRateLimiter)
    (state : LoginState)
    → get (login_key os ip username) limiter.records ≡ some state
    → Within state.window_started_at limiter.window_ms (at ∷ times)
    → limiter.max_failures ≤ state.failures + length (at ∷ times)
    → (last : LoginState) × (get
          (login_key os ip username)
          (fail_all os ip username (at ∷ times) limiter).records
        ≡ some last)
      × (last.locked_until ≡ last_of at times + limiter.lockout_ms)
unfolding fail_all last_of record_failure fail_key count_failure
fail_all-locked os ip username at [] limiter state found inside enough = (
  count_failure limiter at state,
  record_failure-within os at ip username limiter state found inside.0,
  ground (arith, enough),
)
fail_all-locked os ip username at (next ∷ times) limiter state found inside enough =
    fail_all-locked os ip username next times (record_failure os at ip username limiter)
      (count_failure limiter at state)
      (record_failure-within os at ip username limiter state found inside.0) inside.1
      (omega (arith, enough))

check_key-locked :
    (key : JsString) (at : ℕ) (limiter : LoginRateLimiter) (state : LoginState)
    → get key limiter.records ≡ some state
    → at < state.locked_until
    → check_key at key limiter ≡ (
      record { allowed = false; remaining = 0; retry_after_ms = state.locked_until - at },
      limiter,
    )
unfolding check_key
check_key-locked key at limiter state found early =
    rw (found, check_key, lt→ltb at state.locked_until early) refl

-- As many failures of one user from one address as `maxFailures` allows, or more, all within the
-- window of their record: until the last failure is `lockoutMs` ago, a check of that user and
-- address is refused, with the time that is left, and changes nothing.
pub fail_all-locks_out :
    (os : Platform) (ip username : JsString) (at now : ℕ) (times : List ℕ)
    (limiter : LoginRateLimiter) (state : LoginState)
    → get (login_key os ip username) limiter.records ≡ some state
    → Within state.window_started_at limiter.window_ms (at ∷ times)
    → limiter.max_failures ≤ state.failures + length (at ∷ times)
    → now < last_of at times + limiter.lockout_ms
    → check os now ip username (fail_all os ip username (at ∷ times) limiter) ≡ (
      record {
        allowed = false;
        remaining = 0;
        retry_after_ms = (last_of at times + limiter.lockout_ms) - now;
      },
      fail_all os ip username (at ∷ times) limiter,
    )
unfolding check
fail_all-locks_out os ip username at now times limiter state found inside enough early =
    let (last, stored, until) =
      fail_all-locked os ip username at times limiter state found inside enough in
    rw (sym until) (check_key-locked (login_key os ip username) now _ last stored (rw until early))
