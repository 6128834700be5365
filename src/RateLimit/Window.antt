-- ===== src/RateLimit/Window.antt =====
-- packages/server/src/ws/rate-limit.ts: how many calls `FixedWindowRateLimiter` lets through.
use Prim.Native.Nat.{◌<◌}
use mathlib.Core.Path.{subst⁻¹}
use obsidian_baritone.Prelude.{
  ℕ, ◌≡◌, refl, ◌+◌, ◌-◌, min, some, List, [], ◌∷◌, All, JsString, length, leb, if◌then◌else◌,
  arith,
}
use obsidian_baritone.Prelude.Maps.{get, get-set_self}
use obsidian_baritone.RateLimit.{FixedWindowRateLimiter, WindowState, window_at, consume}

-- How many of the calls at the given times are allowed, and the limiter after them.
pub consume_all : JsString → List ℕ → FixedWindowRateLimiter → ℕ × FixedWindowRateLimiter
consume_all key [] limiter = (0, limiter)
consume_all key (at ∷ times) limiter =
    let (result, next) = consume at key limiter in
    let (allowed, last) = consume_all key times next in
    ((if result.allowed then 1 else 0) + allowed, last)

window_at-within :
    (window_ms at : ℕ) (state : WindowState)
    → at - state.started_at < window_ms
    → window_at window_ms at (some state) ≡ state
unfolding window_at
window_at-within window_ms at state inside = ground arith

-- A call within the window of a bucket.
consume-within :
    (key : JsString) (at : ℕ) (limiter : FixedWindowRateLimiter) (state : WindowState)
    → get key limiter.buckets ≡ some state
    → at - state.started_at < limiter.window_ms
    → ((consume at key limiter).0.allowed ≡ leb (state.count + 1) limiter.max_calls)
      × (get key (consume at key limiter).1.buckets
          ≡ some (record { started_at = state.started_at; count = state.count + 1 }))
unfolding consume
consume-within key at limiter state found inside =
    rw (found, window_at-within limiter.window_ms at state inside)
      (refl, get-set_self key _ limiter.buckets)

consume-limits :
    (key : JsString) (at : ℕ) (limiter : FixedWindowRateLimiter)
    → ((consume at key limiter).1.max_calls ≡ limiter.max_calls)
      × ((consume at key limiter).1.window_ms ≡ limiter.window_ms)
unfolding consume
consume-limits key at limiter = (refl, refl)

-- All the calls come within the window that a bucket started.
abbrev pub Within : ℕ → ℕ → List ℕ → Type 0
Within started_at window_ms = All (λ at. at - started_at < window_ms)

-- Calls under one key, all within the window that the key's bucket started: with those that the
-- bucket has counted before, exactly the first `max` are allowed. The number allowed, and the calls
-- before it up to `max`, come to the number of all calls up to `max`.
pub consume_all-allowed :
    (key : JsString) (times : List ℕ) (limiter : FixedWindowRateLimiter) (state : WindowState)
    → get key limiter.buckets ≡ some state
    → Within state.started_at limiter.window_ms times
    → (consume_all key times limiter).0 + min state.count limiter.max_calls
      ≡ min (state.count + length times) limiter.max_calls
unfolding consume_all
consume_all-allowed key [] limiter state found inside = omega arith
consume_all-allowed key (at ∷ times) limiter state found inside =
    let step = consume-within key at limiter state found inside.0 in
    let limits = consume-limits key at limiter in
    let rest =
      consume_all-allowed key times (consume at key limiter).1 _ step.1
        (subst⁻¹ (λ w. Within state.started_at w times) limits.1 inside.1) in
    ground (arith, step.0, limits.0, rest)
