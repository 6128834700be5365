-- ===== src/RateLimit/Tests.antt =====
-- Tests of the rate limiters.
use obsidian_baritone.Prelude.{◌≡◌, refl, ◌+◌, ◌-◌, false, min, [], ◌∷◌, lit, str_eq, arith}
use obsidian_baritone.Unicode.Samples.{plain_platform}
use obsidian_baritone.RateLimit.{
  FixedWindowRateLimiter, WindowState, LoginRateLimiter, LoginState, code, login_key, check,
}
use obsidian_baritone.RateLimit.Window.{consume_all, consume_all-allowed}
use obsidian_baritone.RateLimit.Lockout.{fail_all, last_of, fail_all-locks_out}

abbrev bucket : WindowState
bucket = record { started_at = 100; count = 1 }

abbrev limiter : FixedWindowRateLimiter
limiter = record { buckets = (lit "k", bucket) ∷ []; max_calls = 2; window_ms = 50 }

consume_all-allowed_example :
    (consume_all (lit "k") (110 ∷ 120 ∷ 130 ∷ []) limiter).0 + min 1 2 ≡ min (1 + 3) 2
unfolding code str_eq
consume_all-allowed_example =
    consume_all-allowed (lit "k") (110 ∷ 120 ∷ 130 ∷ []) limiter bucket refl
      (omega arith, (omega arith, (omega arith, tt)))

abbrev failed_once : LoginState
failed_once = record { window_started_at = 100; failures = 1; locked_until = 0 }

abbrev logins : LoginRateLimiter
logins = record {
  records = (login_key plain_platform (lit "1.2.3.4") (lit "eve"), failed_once) ∷ [];
  max_failures = 3;
  window_ms = 50;
  lockout_ms = 1000;
}

fail_all-locks_out_example :
    check plain_platform 900
      (lit "1.2.3.4")
      (lit "eve")
      (fail_all plain_platform (lit "1.2.3.4") (lit "eve") (110 ∷ 120 ∷ []) logins)
    ≡ (
      record {
        allowed = false;
        remaining = 0;
        retry_after_ms = (last_of 110 (120 ∷ []) + 1000) - 900;
      },
      fail_all plain_platform (lit "1.2.3.4") (lit "eve") (110 ∷ 120 ∷ []) logins,
    )
unfolding code str_eq
fail_all-locks_out_example =
    fail_all-locks_out plain_platform (lit "1.2.3.4") (lit "eve") 110 900 (120 ∷ []) logins
      failed_once refl (omega arith, (omega arith, tt)) (omega arith) (omega arith)
