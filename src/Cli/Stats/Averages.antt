-- ===== src/Cli/Stats/Averages.antt =====
-- The numbers of `durex stats --command` against the commands that they are computed from.
use native.Mathlib.Nat.{mul-le-mul_left, le-div_iff_mul-le, div-le_of_le-mul}
use durex.Prelude.{
  ℕ, suc, ◌+◌, ◌*◌, ◌≤◌, ◌<◌, ◌/◌, ◌≡◌, refl, ℤ, pos, negsuc, pos_part, neg_part, ◌≤ℤ◌, ◌+ℤ◌, int64,
  ◌⊎◌, inl, inr, Bool, true, false, ◌||◌, some, List, [], ◌∷◌, All, arith, tally, length,
  if◌then◌else◌, Bool-cases,
}
use durex.Status.{Status, same}
use durex.Instance.{Instance}
use durex.Cli.Stats.{
  Durations, no_durations, add_duration, duration_of, measure, measure_each, quotient,
}

-- All bounds that the loop keeps of its variables; at most `room` successes are still to come.
record Bounded (d : Durations) (room : ℕ) : Type 0 where
  counted : d.success_count + room ≤ 9000000000
  total_signed : neg_part d.total_duration ≡ 0
  min_signed : neg_part d.min_duration ≡ 0
  max_signed : neg_part d.max_duration ≡ 0
  capped : pos_part d.total_duration ≤ d.success_count * 999999999
  low : d.success_count * pos_part d.min_duration ≤ pos_part d.total_duration
  high : pos_part d.total_duration ≤ d.success_count * pos_part d.max_duration

low_step : (n m m' total t : ℕ) → n * m ≤ total → m' ≤ m → m' ≤ t → suc n * m' ≤ total + t
low_step n m m' total t h p q = grind (arith, mul-le-mul_left n p)

high_step : (n m m' total t : ℕ) → total ≤ n * m → m ≤ m' → t ≤ m' → total + t ≤ suc n * m'
high_step n m m' total t h p q = grind (arith, mul-le-mul_left n p)

int64_total :
    (a : ℤ) (t : ℕ)
    → neg_part a ≡ 0
    → pos_part a + t < 0x8000000000000000
    → int64 (a +ℤ pos t) ≡ pos (pos_part a + t)
unfolding ◌+ℤ◌
int64_total (pos n) t s h = ground arith
int64_total (negsuc n) t s h = absurd (omega arith)

add_duration-Bounded :
    (d : Durations) (room t : ℕ)
    → t ≤ 999999999
    → Bounded d (suc room)
    → Bounded (add_duration (some (pos t)) (record d { success_count = suc d.success_count })) room
add_duration-Bounded d room t h b =
    let sum = int64_total d.total_duration t b.total_signed (omega arith) in
    record {
      counted = omega arith;
      total_signed = rw sum refl;
      min_signed = ground arith;
      max_signed = ground arith;
      capped = rw sum (omega arith);
      low = rw sum (
          low_step d.success_count (pos_part d.min_duration) _ (pos_part d.total_duration) t b.low
            (ground arith) (ground arith));
      high = rw sum (
          high_step d.success_count (pos_part d.max_duration) _ (pos_part d.total_duration) t b.high
            (ground arith) (ground arith));
    }

weaken : (d : Durations) (room : ℕ) → Bounded d (suc room) → Bounded d room
weaken d room b = record {
  counted = omega arith;
  total_signed = b.total_signed;
  min_signed = b.min_signed;
  max_signed = b.max_signed;
  capped = b.capped;
  low = b.low;
  high = b.high;
}

-- the attempts and the failures are not among the bounds
relabel :
    (d : Durations) (room failures : ℕ) (attempts : ℤ)
    → Bounded d room
    → Bounded (record d { total_attempts = attempts; failure_count = failures }) room
relabel d room failures attempts b = record {
  counted = b.counted;
  total_signed = b.total_signed;
  min_signed = b.min_signed;
  max_signed = b.max_signed;
  capped = b.capped;
  low = b.low;
  high = b.high;
}

exclusive :
    (s : Status)
    → same s Status.completed ≡ true
    → (same s Status.failed || same s Status.dead_letter) ≡ false
unfolding same
exclusive Status.completed h = refl
exclusive Status.pending h = refl
exclusive Status.started h = refl
exclusive Status.failed h = cc
exclusive Status.expired h = refl
exclusive Status.repeating h = refl
exclusive Status.cancelled h = refl
exclusive Status.dead_letter h = cc

start : (n : ℕ) → n ≤ 9000000000 → Bounded no_durations n
start n h = record {
  counted = omega arith;
  total_signed = refl;
  min_signed = refl;
  max_signed = refl;
  capped = omega arith;
  low = omega arith;
  high = omega arith;
}

quotient_parts :
    (a : ℤ) (k : ℕ)
    → neg_part a ≡ 0
    → (pos_part (quotient a k) ≡ pos_part a / k) × (neg_part (quotient a k) ≡ 0)
quotient_parts (pos n) k h = (refl, refl)
quotient_parts (negsuc n) k h = absurd (omega arith)

average_above :
    (d : Durations)
    → Bounded d 0
    → 0 < d.success_count
    → d.min_duration ≤ℤ quotient d.total_duration d.success_count
average_above d b h =
    let (value, sign) = quotient_parts d.total_duration d.success_count b.total_signed in
    let below =
      (le-div_iff_mul-le {x = pos_part d.min_duration} {y = pos_part d.total_duration} h).1
        (omega (arith, b.low)) in
    omega (arith, value, sign, below, b.min_signed)

average_below :
    (d : Durations)
    → Bounded d 0
    → 0 < d.success_count
    → quotient d.total_duration d.success_count ≤ℤ d.max_duration
average_below d b h =
    let (value, sign) = quotient_parts d.total_duration d.success_count b.total_signed in
    let above = div-le_of_le-mul d.success_count b.high in
    omega (arith, value, sign, above, b.max_signed)

module _ {V : Type 0} where
  abbrev pub is_completed : Instance V → Bool
  is_completed cmd = same cmd.status Status.completed

  abbrev pub has_failed : Instance V → Bool
  has_failed cmd = same cmd.status Status.failed || same cmd.status Status.dead_letter

  -- a command that is not completed, or ran for at most 999,999,999 milliseconds
  abbrev pub IsTimed : Instance V → Type 0
  IsTimed cmd =
      (is_completed cmd ≡ false) ⊎ ((t : ℕ) × (duration_of cmd ≡ some (pos t)) × (t ≤ 999999999))

  measure-Bounded :
      (d : Durations) (room : ℕ) (cmd : Instance V)
      → IsTimed cmd
      → Bounded d (suc room)
      → Bounded (measure d cmd) room
  unfolding measure
  measure-Bounded d room cmd timed b =
      let d' = record d { total_attempts = int64 (d.total_attempts +ℤ cmd.attempt) } in
      let b' = relabel d (suc room) d.failure_count (int64 (d.total_attempts +ℤ cmd.attempt)) b in
      elim (Bool-cases (is_completed cmd)) [
        | inl c ↦ elim timed [
          | inl e ↦ absurd (cc)
          | inr (t, e, h) ↦ rw c (rw e (add_duration-Bounded d' room t h b'))
        ]
        | inr c ↦ rw c (elim (Bool-cases (has_failed cmd)) [
          | inl f ↦
              rw f (relabel d' room (suc d.failure_count) d'.total_attempts (weaken d' room b'))
          | inr f ↦ rw f (weaken d' room b')
        ])
      ]

  measure_each-Bounded :
      (d : Durations) (cmds : List (Instance V))
      → All IsTimed cmds
      → Bounded d (length cmds)
      → Bounded (measure_each d cmds) 0
  unfolding measure_each
  measure_each-Bounded d [] h b = b
  measure_each-Bounded d (cmd ∷ cmds) h b =
      measure_each-Bounded (measure d cmd) cmds h.1 (measure-Bounded d (length cmds) cmd h.0 b)

  measure-counts :
      (d : Durations) (cmd : Instance V)
      → ((measure d cmd).success_count
          ≡ (if is_completed cmd then suc d.success_count else d.success_count))
        × ((measure d cmd).failure_count
            ≡ (if has_failed cmd then suc d.failure_count else d.failure_count))
  unfolding measure
  measure-counts d cmd = elim (Bool-cases (is_completed cmd)) [
    | inl c ↦ rw c (ground (arith, exclusive cmd.status c))
    | inr c ↦ rw c (ground arith)
  ]

  measure_each-counts :
      (d : Durations) (cmds : List (Instance V))
      → ((measure_each d cmds).success_count ≡ d.success_count + tally is_completed cmds)
        × ((measure_each d cmds).failure_count ≡ d.failure_count + tally has_failed cmds)
  unfolding measure_each tally
  measure_each-counts d [] = (omega arith, omega arith)
  measure_each-counts d (cmd ∷ cmds) =
      let (success, failure) = measure-counts d cmd in
      let (successes, failures) = measure_each-counts (measure d cmd) cmds in
      (ground (arith, success, successes), ground (arith, failure, failures))

  -- The numbers of `durex stats --command` for at most nine billion commands of which each that is
  -- COMPLETED ran for at most 999,999,999 milliseconds: the successful ones are those that are
  -- COMPLETED and the failed ones those that are FAILED or dead-lettered, and where some command is
  -- successful, the average duration is at least the minimum and at most the maximum.
  pub measure_each-averages :
      (cmds : List (Instance V))
      → length cmds ≤ 9000000000
      → All IsTimed cmds
      → 0 < tally is_completed cmds
      → let d = measure_each no_durations cmds in
        (d.success_count ≡ tally is_completed cmds)
        × (d.failure_count ≡ tally has_failed cmds)
        × (d.min_duration ≤ℤ quotient d.total_duration d.success_count)
        × (quotient d.total_duration d.success_count ≤ℤ d.max_duration)
  measure_each-averages cmds few timed some_completed =
      let d = measure_each no_durations cmds in
      let (successes, failures) = measure_each-counts no_durations cmds in
      let b = measure_each-Bounded no_durations cmds timed (start (length cmds) few) in
      (
        omega (arith, successes),
        omega (arith, failures),
        average_above d b (omega (arith, successes)),
        average_below d b (omega (arith, successes)),
      )
