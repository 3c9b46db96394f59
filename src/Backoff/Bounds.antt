-- ===== src/Backoff/Bounds.antt =====
-- Bounds on the delays of backoff.go.
use durex.Prelude.{
  ℤ, pos, ◌*ℤ◌, ◌≤ℤ◌, ◌<ℤ◌, ltb_ℤ, InInt64, int64_of_InInt64, ◌≡◌, ◌&&◌, arith, if◌then◌else◌,
}
use durex.Backoff.{Floats, linear, exponential, next_delay}

-- With a positive maximum, no delay of a linear or an exponential strategy passes it, whatever the
-- attempt, also where the product or the power has overflowed.
pub next_delay-le-max :
    (fl : Floats) (initial max_delay attempt : ℤ) (multiplier random : fl.Float)
    → pos 0 <ℤ max_delay
    → (next_delay fl (linear initial max_delay) attempt random ≤ℤ max_delay)
      × (next_delay fl (exponential initial max_delay multiplier) attempt random ≤ℤ max_delay)
unfolding next_delay
next_delay-le-max fl initial max_delay attempt multiplier random h = (ground arith, ground arith)

-- As long as the product fits an int64, the linear delay is the smaller of the product and the
-- maximum, if there is one.
pub next_delay-linear :
    (fl : Floats) (initial max_delay attempt : ℤ) (random : fl.Float)
    → InInt64 (initial *ℤ attempt)
    → next_delay fl (linear initial max_delay) attempt random ≡ (
        if ltb_ℤ (pos 0) max_delay && ltb_ℤ max_delay (initial *ℤ attempt)
        then max_delay
        else initial *ℤ attempt)
unfolding next_delay
next_delay-linear fl initial max_delay attempt random h = rw (int64_of_InInt64 _ h)
