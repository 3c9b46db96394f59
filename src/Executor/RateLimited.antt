-- ===== src/Executor/RateLimited.antt =====
-- ratelimit.go: RateLimitMiddleware, which a user may install. It takes the limiter, and the rest of
-- the chain as a function of the limiter; `expires` says that the wait for a slot outlasts the
-- timeout. `none` is a call that still waits.
pub mod Unrun
use durex.Prelude.{ℤ, pos, ltb_ℤ, Bool, true, false, ◌&&◌, Option, none, some, if◌then◌else◌}
use durex.Result.{retry}
use durex.Instance.{Instance}
use durex.RateLimiter.{RateLimiter, Attempt, acquired, waits, attempt, release, remove_waiter}
use durex.Executor.{Outcome, Verdict}

module _ {V : Type 0} where
  -- Retry(), nil
  abbrev pub retry_later : Instance V → Outcome V
  retry_later i = record { instance_after = i; verdict = Verdict.returned retry }

  -- the deferred release, also after a panic
  abbrev released : Instance V → Outcome V × RateLimiter → Outcome V × RateLimiter
  released i (o, r) = (o, release r i.name)

  limited :
      ℤ
      → Bool
      → Instance V
      → (RateLimiter → Outcome V × RateLimiter)
      → Attempt × RateLimiter
      → Option (Outcome V × RateLimiter)
  limited timeout expires i next (acquired, r) = some (released i (next r))
  limited timeout expires i next (waits key ch, r) =
      if ltb_ℤ (pos 0) timeout && expires
      then some (retry_later i, remove_waiter r key ch)
      else none

  unfoldable pub rate_limit_middleware :
      RateLimiter
      → ℤ
      → Bool
      → Instance V
      → (RateLimiter → Outcome V × RateLimiter)
      → Option (Outcome V × RateLimiter)
  unfolding limited
  rate_limit_middleware r timeout expires i next = limited timeout expires i next (attempt r i.name)
