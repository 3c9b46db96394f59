-- ===== src/RateLimiter/Bounds.antt =====
-- One call of the rate limiter: what a caller may rely on.
use durex.Prelude.{
  ℕ, suc, ◌-◌, ℤ, pos, ◌≤ℤ◌, ◌<ℤ◌, String, ◌≡◌, ◌≢◌, ◌⊎◌, inl, inr, refl, true, false, Bool-cases,
  some, lookup, insert, lookup-insert, arith, eq_iff, eq_refl,
}
use durex.RateLimiter.{
  RateLimiter, acquired, waits, running, attempt, try_acquire, release, take_slot, global_full,
  command_full, enqueue,
}

-- A slot is granted only within the limits: afterwards the total is at most a positive global
-- limit, and the command's count at most its limit.
pub try_acquire_within :
    (r : RateLimiter) (name : String) (limit : ℤ)
    → (try_acquire r name).0 ≡ true
    → (pos 0 <ℤ r.global → pos (try_acquire r name).1.global_ct ≤ℤ r.global)
      × (lookup name r.limits ≡ some limit → pos (running (try_acquire r name).1 name) ≤ℤ limit)
unfolding try_acquire
try_acquire_within r name limit h = (
  λ g. ground arith,
  λ l. ground (arith, lookup-insert name name (suc (running r name)) r.current, eq_refl name),
)

-- TryAcquire is Acquire without the wait: they grant a slot in the same states, with the same
-- effect, and where TryAcquire refuses it changes nothing.
pub try_acquire-attempt :
    (r : RateLimiter) (name : String)
    → ((try_acquire r name).0 ≡ true → attempt r name ≡ (acquired, (try_acquire r name).1))
      × ((try_acquire r name).0 ≡ false
          → ((try_acquire r name).1 ≡ r) × ((attempt r name).0 ≢ acquired))
unfolding try_acquire attempt
try_acquire-attempt r name = ground arith

-- Giving back a slot that was taken restores every count, whoever is notified of it.
pub running-release :
    (r : RateLimiter) (name m : String) → running (release (take_slot r name) name) m ≡ running r m
unfolding release take_slot
running-release r name m = ground (
  arith,
  eq_iff name m,
  eq_refl name,
  lookup-insert name m (suc (running r name)) r.current,
  lookup-insert name name (suc (running r name)) r.current,
  lookup-insert name m (suc (running r name) - 1) (insert name (suc (running r name)) r.current),
)

pub global_ct-release :
    (r : RateLimiter) (name : String) → (release (take_slot r name) name).global_ct ≡ r.global_ct
unfolding release take_slot
global_ct-release r name = ground arith

-- A round of Acquire takes a slot, or waits with the counts as they were.
pub attempt_cases :
    (r : RateLimiter) (name : String)
    → (attempt r name ≡ (acquired, take_slot r name))
      ⊎ ((key : String) × (ch : ℕ) × (r' : RateLimiter) × (attempt r name ≡ (waits key ch, r'))
          × (r'.current ≡ r.current)
          × (r'.global_ct ≡ r.global_ct))
unfolding attempt
attempt_cases r name = elim (Bool-cases (global_full r)) [
  | inl g ↦ inr ("", r.next_chan, enqueue r "", rw g, refl, refl)
  | inr g ↦ elim (Bool-cases (command_full r name)) [
    | inl c ↦ inr (name, r.next_chan, enqueue r name, ground arith, refl, refl)
    | inr c ↦ inl (ground arith)
  ]
]
