-- ===== src/RateLimit.antt =====
-- packages/server/src/ws/rate-limit.ts. Times are milliseconds since the epoch; each call takes the
-- time that `now()` gives. `trim` is that of JavaScript, and `toLocaleLowerCase` the platform's.
pub mod Window
pub mod Lockout
pub mod Tests
use obsidian_baritone.Prelude.{
  ℕ, ◌+◌, ◌-◌, max, Bool, true, false, not, ◌&&◌, ◌||◌, Option, none, some, List, [], ◌∷◌, ◌++◌,
  ltb, leb, ◌==◌, if◌then◌else◌, JsString, lit, nonempty, drop,
}
use obsidian_baritone.Prelude.Maps.{JsMap, get, set, delete}
use obsidian_baritone.Unicode.{Platform}

pub record RateLimitResult : Type 0 where
  pub allowed : Bool
  pub remaining : ℕ
  pub retry_after_ms : ℕ

-- `FixedWindowRateLimiter`
pub record WindowState : Type 0 where
  pub started_at : ℕ
  pub count : ℕ

pub record FixedWindowRateLimiter : Type 0 where
  pub buckets : JsMap WindowState
  pub max_calls : ℕ
  pub window_ms : ℕ

unfoldable pub new_fixed_window : ℕ → ℕ → FixedWindowRateLimiter
new_fixed_window max_calls window_ms = record {
  buckets = [];
  max_calls = max 1 max_calls;
  window_ms = max 1 window_ms;
}

-- The bucket that a call counts in: the stored one, or a new one when its window is over.
unfoldable pub window_at : ℕ → ℕ → Option WindowState → WindowState
window_at window_ms at none = record { started_at = at; count = 0 }
window_at window_ms at (some current) =
    if leb window_ms (at - current.started_at)
    then record { started_at = at; count = 0 }
    else current

unfoldable pub consume :
    ℕ → JsString → FixedWindowRateLimiter → RateLimitResult × FixedWindowRateLimiter
consume at key limiter =
    let state = window_at limiter.window_ms at (get key limiter.buckets) in
    let counted : WindowState = record { started_at = state.started_at; count = state.count + 1 } in
    (
      record {
        allowed = leb counted.count limiter.max_calls;
        remaining = limiter.max_calls - counted.count;
        retry_after_ms = (limiter.window_ms + counted.started_at) - at;
      },
      record limiter { buckets = set key counted limiter.buckets },
    )

unfoldable pub reset : JsString → FixedWindowRateLimiter → FixedWindowRateLimiter
reset key limiter = record limiter { buckets = delete key limiter.buckets }

-- `LoginRateLimiter`
pub record LoginState : Type 0 where
  pub window_started_at : ℕ
  pub failures : ℕ
  pub locked_until : ℕ

pub record LoginRateLimiter : Type 0 where
  pub records : JsMap LoginState
  pub max_failures : ℕ
  pub window_ms : ℕ
  pub lockout_ms : ℕ

unfoldable pub new_login_limiter : ℕ → ℕ → ℕ → LoginRateLimiter
new_login_limiter max_failures window_ms lockout_ms = record {
  records = [];
  max_failures = max 1 max_failures;
  window_ms = max 1 window_ms;
  lockout_ms = max 1 lockout_ms;
}

-- The white space that `trim` takes away.
abbrev is_space : ℕ → Bool
is_space c =
    leb 9 c && leb c 13
    || (c == 32)
    || (c == 160)
    || (c == 5760)
    || leb 8192 c && leb c 8202
    || (c == 8232)
    || (c == 8233)
    || (c == 8239)
    || (c == 8287)
    || (c == 12288)
    || (c == 65279)

abbrev trim_start : JsString → JsString
trim_start [] = []
trim_start (c ∷ s) = let rest = trim_start s in if is_space c then rest else c ∷ s

abbrev trim_end : JsString → JsString
trim_end [] = []
trim_end (c ∷ s) = elim (trim_end s) [ [] ↦ if is_space c then [] else c ∷ [] | d ∷ t ↦ c ∷ d ∷ t ]

unfoldable pub trim : JsString → JsString
trim s = trim_end (trim_start s)

unfoldable pub login_key : Platform → JsString → JsString → JsString
login_key os ip username =
    (if nonempty (trim ip) then trim ip else lit "unknown") ++ lit ":" ++ os.lower (trim username)

-- `check`, behind `loginKey`. The second component is the limiter afterwards.
unfoldable pub check_key : ℕ → JsString → LoginRateLimiter → RateLimitResult × LoginRateLimiter
check_key at key limiter = elim (get key limiter.records) [
  | none ↦
      (record { allowed = true; remaining = limiter.max_failures; retry_after_ms = 0 }, limiter)
  | some state ↦
      if ltb at state.locked_until
      then (
        record { allowed = false; remaining = 0; retry_after_ms = state.locked_until - at },
        limiter,
      )
      else if leb limiter.window_ms (at - state.window_started_at)
      then (
        record { allowed = true; remaining = limiter.max_failures; retry_after_ms = 0 },
        record limiter { records = delete key limiter.records },
      )
      else (
        record {
          allowed = true;
          remaining = limiter.max_failures - state.failures;
          retry_after_ms = 0;
        },
        limiter,
      )
]

unfoldable pub check :
    Platform → ℕ → JsString → JsString → LoginRateLimiter → RateLimitResult × LoginRateLimiter
check os at ip username = check_key at (login_key os ip username)

-- The record that a failure counts in.
unfoldable pub failures_at : ℕ → ℕ → Option LoginState → LoginState
failures_at window_ms at none = record { window_started_at = at; failures = 0; locked_until = 0 }
failures_at window_ms at (some current) =
    if leb window_ms (at - current.window_started_at)
    then record { window_started_at = at; failures = 0; locked_until = 0 }
    else current

-- One more failure, which locks the key when it is one too many.
unfoldable pub count_failure : LoginRateLimiter → ℕ → LoginState → LoginState
count_failure limiter at state = record {
  window_started_at = state.window_started_at;
  failures = state.failures + 1;
  locked_until =
      if leb limiter.max_failures (state.failures + 1)
      then at + limiter.lockout_ms
      else state.locked_until;
}

-- `recordFailure`, behind `loginKey`.
unfoldable pub fail_key : ℕ → JsString → LoginRateLimiter → LoginRateLimiter
fail_key at key limiter =
    let state = failures_at limiter.window_ms at (get key limiter.records) in
    record limiter { records = set key (count_failure limiter at state) limiter.records }

unfoldable pub record_failure :
    Platform → ℕ → JsString → JsString → LoginRateLimiter → LoginRateLimiter
record_failure os at ip username = fail_key at (login_key os ip username)

unfoldable pub record_success : Platform → JsString → JsString → LoginRateLimiter → LoginRateLimiter
record_success os ip username limiter = record limiter {
  records = delete (login_key os ip username) limiter.records;
}

-- Opens the file's functions, for tests that run them.
unfoldable pub code : Unit {0}
unfolding consume window_at get set delete reset new_fixed_window new_login_limiter check check_key
    record_failure fail_key failures_at count_failure record_success login_key trim
code = tt
