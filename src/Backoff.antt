-- ===== src/Backoff.antt =====
-- backoff.go: the delay before a retry. Floating-point numbers are a parameter; the product of
-- LinearBackoff wraps as an int64 does.
pub mod Bounds
use durex.Prelude.{ℤ, pos, negsuc, ◌*ℤ◌, ◌-ℤ◌, ltb_ℤ, int64, Bool, true, false, ◌&&◌, if◌then◌else◌}

-- float64 and math.Pow
pub record Floats : Type 1 where
  pub Float : Type 0
  pub of_int64 : ℤ → Float
  pub to_int64 : Float → ℤ
  pub mul : Float → Float → Float
  pub add : Float → Float → Float
  pub sub : Float → Float → Float
  pub pow : Float → Float → Float
  pub is_zero : Float → Bool
  pub not_positive : Float → Bool

-- the types that implement BackoffStrategy
pub data Backoff (F : Type 0) : Type 0 where
  constant : ℤ → Backoff F
  linear : ℤ → ℤ → Backoff F
  exponential : ℤ → ℤ → F → Backoff F
  jittered : Backoff F → F → Backoff F

-- the cap of LinearBackoff and of ExponentialBackoff
unfoldable pub capped : ℤ → ℤ → ℤ
capped max_delay d = if ltb_ℤ (pos 0) max_delay && ltb_ℤ max_delay d then max_delay else d

module _ (fl : Floats) where
  open fl use {Float, of_int64, to_int64, mul, add, sub, pow, is_zero, not_positive}

  -- `random` is what rand.Float64 returns
  unfoldable pub next_delay : Backoff Float → ℤ → Float → ℤ
  unfolding capped
  next_delay (constant delay) attempt random = delay
  next_delay (linear initial max_delay) attempt random =
      capped max_delay (int64 (initial *ℤ attempt))
  next_delay (exponential initial max_delay multiplier) attempt random =
      let m = if is_zero multiplier then of_int64 (pos 2) else multiplier in
      capped max_delay
        (to_int64 (mul (of_int64 initial) (pow m (of_int64 (int64 (attempt -ℤ pos 1))))))
  next_delay (jittered strategy rate) attempt random =
      let base = next_delay strategy attempt random in
      if not_positive rate
      then base
      else to_int64 (
          add (of_int64 base) (
            mul (sub (mul random (of_int64 (pos 2))) (of_int64 (pos 1)))
              (mul (of_int64 base) rate)))

unfoldable pub no_backoff : {F : Type 0} → Backoff F
no_backoff = constant (pos 0)
