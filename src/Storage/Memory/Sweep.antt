-- ===== src/Storage/Memory/Sweep.antt =====
-- Cleanup of the in-memory storage, against the map that it starts from.
use durex.Prelude.{
  ltb_ℤ, Bool, ◌&&◌, ℕ, suc, ◌+◌, ℤ, ◌-ℤ◌, String, ◌≡◌, refl, false, Option, none, some, [], ◌∷◌,
  tally, Dict, lookup, remove, values, Distinct, lookup-remove, arith, eq_iff, if◌then◌else◌,
}
use durex.Instance.{Instance}
use durex.Env.{Env}
use durex.Storage.{ok}
use durex.Status.{is_terminal}
use durex.Storage.Memory.{Memory, is_stale, sweep, cleanup}

-- terminal, and completed before the cutoff
abbrev pub is_over : {V : Type 0} → ℤ → Instance V → Bool
is_over cutoff c =
    is_terminal c.status && elim c.completed_at [ none ↦ false | some t ↦ ltb_ℤ t cutoff ]

module _ {V : Type 0} (cutoff : ℤ) where
  abbrev pub dropped : Option (Instance V) → Option (Instance V)
  dropped none = none
  dropped (some c) = if is_over cutoff c then none else some c

  -- the loop drops from `m` what `rest` lists as stale
  lookup-sweep :
      (id : String) (rest m : Dict (Instance V)) (n : ℕ)
      → Distinct rest
      → lookup id (sweep cutoff rest m n).0 ≡ elim (lookup id rest) [
        | none ↦ lookup id m
        | some c ↦ (if is_over cutoff c then none else lookup id m)
      ]
  unfolding sweep is_stale is_terminal lookup
  lookup-sweep id [] m n d = refl
  lookup-sweep id ((j, c) ∷ rest) m n d = ground (
    arith,
    eq_iff j id,
    lookup-remove j id m,
    lookup-sweep id rest (if is_over cutoff c then remove j m else m)
        (if is_over cutoff c then suc n else n) d.1,
  )

  tally-sweep :
      (rest m : Dict (Instance V)) (n : ℕ)
      → (sweep cutoff rest m n).1 ≡ n + tally (is_over cutoff) (values rest)
  unfolding sweep is_stale is_terminal tally
  tally-sweep [] m n = omega arith
  tally-sweep ((j, c) ∷ rest) m n = ground (
    arith,
    tally-sweep rest (if is_over cutoff c then remove j m else m)
        (if is_over cutoff c then suc n else n),
  )

module _ (env : Env) (m : Memory env.Any) (now older_than : ℤ) (opened : m.closed ≡ false) where
  -- Cleanup of an open storage with distinct ids removes exactly the commands that are terminal and
  -- were completed before `now - older_than`, keeps every other command as it is, and returns how
  -- many it removed.
  pub lookup-cleanup :
      Distinct m.commands
      → ((id : String)
          → lookup id (cleanup env m now older_than).1.commands
            ≡ dropped (now -ℤ older_than) (lookup id m.commands))
        × ((cleanup env m now older_than).0
            ≡ ok (tally (is_over (now -ℤ older_than)) (values m.commands)))
  unfolding cleanup
  lookup-cleanup d = (
    λ id. ground (arith, lookup-sweep (now -ℤ older_than) id m.commands m.commands 0 d),
    ground (arith, tally-sweep (now -ℤ older_than) m.commands m.commands 0),
  )
