-- ===== src/RateLimiter/Holders.antt =====
-- The rate limiter under any interleaving of its callers: the slots in use are exactly the callers
-- that hold one, and their numbers stay within limits that are not changed meanwhile.
use durex.Prelude.{
  ℕ, suc, ℤ, pos, ◌≤ℤ◌, ◌<ℤ◌, String, ◌≡◌, ◌≢◌, refl, some, List, [], ◌∷◌, ◌++◌, length, tally,
  Dict, lookup, lookup-insert, arith, ◌==◌, eq_iff, eq_refl, ◌-◌,
}
use durex.RateLimiter.{RateLimiter, acquired, running, attempt, release, remove_waiter}

-- The limiter, and the names for which a caller holds a slot.
pub record System : Type 0 where
  pub limiter : RateLimiter
  pub holders : List String

abbrev pub holding : String → List String → ℕ
holding name hs = tally (λ h. h == name) hs

-- A critical section of one of the callers: a round of Acquire that takes a slot or leaves a
-- waiter, the removal of a waiter whose context has ended, the release by a holder.
pub data Step : System → System → Type 0 where
  acquire :
      (s : System) (name : String)
      → (attempt s.limiter name).0 ≡ acquired
      → Step s (record { limiter = (attempt s.limiter name).1; holders = name ∷ s.holders })
  wait :
      (s : System) (name : String)
      → (attempt s.limiter name).0 ≢ acquired
      → Step s (record s { limiter = (attempt s.limiter name).1 })
  leave :
      (s : System) (key : String) (ch : ℕ)
      → Step s (record s { limiter = remove_waiter s.limiter key ch })
  give :
      (s : System) (name : String) (before after : List String)
      → s.holders ≡ before ++ name ∷ after
      → Step s (record { limiter = release s.limiter name; holders = before ++ after })

pub data Reach (s : System) : System → Type 0 where
  here : Reach s s
  next : {t u : System} → Reach s t → Step t u → Reach s u

pub record Within (limits : Dict ℤ) (global : ℤ) (s : System) : Type 0 where
  pub limits_kept : s.limiter.limits ≡ limits
  pub global_kept : s.limiter.global ≡ global
  pub each : (name : String) → running s.limiter name ≡ holding name s.holders
  pub all : s.limiter.global_ct ≡ length s.holders
  pub under :
      (name : String) (limit : ℤ)
      → lookup name limits ≡ some limit
      → pos 0 <ℤ limit
      → pos (holding name s.holders) ≤ℤ limit
  pub under_global : pos 0 <ℤ global → pos (length s.holders) ≤ℤ global

holding-middle :
    (m name : String) (before after : List String)
    → holding m (before ++ name ∷ after) ≡ holding m (name ∷ before ++ after)
unfolding tally
holding-middle m name [] after = refl
holding-middle m name (h ∷ before) after = ground (arith, holding-middle m name before after)

length-middle :
    (name : String) (before after : List String)
    → length (before ++ name ∷ after) ≡ suc (length (before ++ after))
length-middle name [] after = refl
length-middle name (h ∷ before) after = omega (arith, length-middle name before after)

acquire-Within :
    {limits : Dict ℤ} {global : ℤ} (s : System) (name : String)
    → (attempt s.limiter name).0 ≡ acquired
    → Within limits global s
    → Within limits global
        (record { limiter = (attempt s.limiter name).1; holders = name ∷ s.holders })
unfolding attempt tally
acquire-Within {limits} {global} s name h w = record {
  limits_kept = ground (arith);
  global_kept = ground arith;
  each = λ m. ground (
    arith,
    w.each m,
    w.each name,
    eq_iff name m,
    lookup-insert name m (suc (running s.limiter name)) s.limiter.current,
  );
  all = ground arith;
  under = λ m limit l p. ground (arith, w.each m, w.each name, w.under m limit l p, eq_iff name m);
  under_global = λ p. ground arith;
}

wait-Within :
    {limits : Dict ℤ} {global : ℤ} (s : System) (name : String)
    → (attempt s.limiter name).0 ≢ acquired
    → Within limits global s
    → Within limits global (record s { limiter = (attempt s.limiter name).1 })
unfolding attempt
wait-Within {limits} {global} s name h w = record {
  limits_kept = ground (arith);
  global_kept = ground (arith);
  each = λ m. ground (arith, w.each m);
  all = ground (arith);
  under = λ m limit l p. w.under m limit l p;
  under_global = λ p. w.under_global p;
}

leave-Within :
    {limits : Dict ℤ} {global : ℤ} (s : System) (key : String) (ch : ℕ)
    → Within limits global s
    → Within limits global (record s { limiter = remove_waiter s.limiter key ch })
unfolding remove_waiter
leave-Within s key ch w = record {
  limits_kept = w.limits_kept;
  global_kept = w.global_kept;
  each = w.each;
  all = w.all;
  under = w.under;
  under_global = w.under_global;
}

-- one holder less: its slot is counted by the limiter, so the tests of Release let it through
give-Within :
    {limits : Dict ℤ} {global : ℤ} (s : System) (name : String) (before after : List String)
    → s.holders ≡ before ++ name ∷ after
    → Within limits global s
    → Within limits global (record { limiter = release s.limiter name; holders = before ++ after })
unfolding release tally
give-Within {limits} {global} s name before after e w = record {
  limits_kept = ground (arith);
  global_kept = ground (arith);
  each = λ m. ground (
    arith,
    counted m,
    counted name,
    eq_iff name m,
    eq_refl name,
    lookup-insert name m (running s.limiter name - 1) s.limiter.current,
  );
  all = ground (arith, total);
  under = λ m limit l p. ground (arith, counted m, w.each m, w.under m limit l p);
  under_global = λ p. ground (arith, total, w.under_global p);
}
  where
    counted : (m : String) → running s.limiter m ≡ holding m (name ∷ before ++ after)
    counted m = ground (arith, w.each m, e, holding-middle m name before after)

    total : s.limiter.global_ct ≡ suc (length (before ++ after))
    total = ground (arith, w.all, e, length-middle name before after)

Step-Within :
    {limits : Dict ℤ} {global : ℤ} {s t : System}
    → Step s t
    → Within limits global s
    → Within limits global t
Step-Within (acquire s name h) w = acquire-Within s name h w
Step-Within (wait s name h) w = wait-Within s name h w
Step-Within (leave s key ch) w = leave-Within s key ch w
Step-Within (give s name before after e) w = give-Within s name before after e w

-- From any state in which the counts agree with the holders and are within the limits, every
-- interleaving of rounds of Acquire, cancelled waits and releases by holders keeps it so: each
-- command's count and the total are the numbers of slots held, at most its limit and the global one.
pub Reach-Within :
    {limits : Dict ℤ} {global : ℤ} {s t : System}
    → Reach s t
    → Within limits global s
    → Within limits global t
Reach-Within here w = w
Reach-Within (next r step) w = Step-Within step (Reach-Within r w)
