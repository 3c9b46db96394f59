-- ===== src/RateLimiter/Lost.antt =====
-- A signal that nobody receives: a waiter whose context ends while it is being notified.
use durex.Prelude.{
  ℕ, ◌-◌, ◌<◌, ℤ, pos, ◌≤ℤ◌, String, ◌≡◌, ◌≢◌, All, refl, some, List, [], ◌∷◌, lookup, insert,
  lookup-insert, arith, eq_iff, eq_refl,
}
use durex.RateLimiter.{
  RateLimiter, acquired, running, or_nil, attempt, release, give_back, remove_waiter, without,
}

without-absent : (ch : ℕ) (ws : List ℕ) → All (λ w. w ≢ ch) ws → without ch ws ≡ ws
unfolding without
without-absent ch [] h = refl
without-absent ch (w ∷ ws) h = ground (arith, h.0, without-absent ch ws h.1)

module _ (r : RateLimiter) (name : String) (b c : ℕ) (rest : List ℕ) (limit : ℤ) where
  signalled :
      lookup name r.waiters ≡ some (b ∷ c ∷ rest)
      → or_nil (lookup "" r.waiters) ≡ []
      → name ≢ ""
      → release r name ≡ record (give_back r name) {
        waiters = insert name (c ∷ rest) r.waiters;
        signals = b ∷ r.signals;
      }
  unfolding release give_back
  signalled w g n =
      ground (arith, w, g, n, eq_iff name "", lookup-insert name "" (c ∷ rest) r.waiters)

  -- Without a global limit and global waiters, while callers `b`, `c` and `rest` wait in that order
  -- for a slot of `name`, on channels other than `b`'s after the first and with no signal for `c`, and
  -- the running commands of `name` are within its limit: if one of these gives its slot back, which
  -- signals `b`, and the context of `b` ends before it takes up the signal, then `c` waits on and
  -- still has no signal, although another call would get the slot at once.
  pub release-waiting :
      lookup name r.waiters ≡ some (b ∷ c ∷ rest)
      → or_nil (lookup "" r.waiters) ≡ []
      → name ≢ ""
      → All (λ w. w ≢ b) (c ∷ rest)
      → All (λ signal. signal ≢ c) r.signals
      → r.global ≡ pos 0
      → lookup name r.limits ≡ some limit
      → pos (running r name) ≤ℤ limit
      → 0 < running r name
      → let r' = remove_waiter (release r name) name b in
        (lookup name r'.waiters ≡ some (c ∷ rest))
        × (r'.signals ≡ b ∷ r.signals)
        × All (λ signal. signal ≢ c) r'.signals
        × ((attempt r' name).0 ≡ acquired)
  unfolding remove_waiter attempt give_back
  release-waiting w g n a free z l u k = rw (signalled w g n) (
    ground (
      arith,
      eq_refl name,
      without-absent b (c ∷ rest) a,
      lookup-insert name name (c ∷ rest) r.waiters,
      lookup-insert name name (c ∷ rest) (insert name (c ∷ rest) r.waiters),
    ),
    refl,
    (ground (arith, a), free),
    ground
        (arith, eq_refl name, z, l, u, k, lookup-insert name name (running r name - 1) r.current),
  )
