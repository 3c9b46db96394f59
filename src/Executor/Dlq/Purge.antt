-- ===== src/Executor/Dlq/Purge.antt =====
-- PurgeDLQ over the in-memory storage.
use durex.Prelude.{
  ltb, ltb_ℤ, ℕ, suc, ◌+◌, ℤ, ◌-ℤ◌, String, ◌≡◌, refl, Bool, false, ◌&&◌, Option, none, some, List,
  [], ◌∷◌, map, select, tally, values, Dict, lookup, lookup-remove, remove, Distinct, arith, eq_iff,
  ◌==◌, if◌then◌else◌,
}
use durex.Status.{dead_letter, same}
use durex.Instance.{Instance, clone}
use durex.Storage.Memory.{Memory, delete, find_by_status}
use durex.Storage.Memory.Map.{memory}
use durex.Env.{Env}
use durex.Executor.{Executor}
use durex.Executor.Api.{done}
use durex.Executor.Dlq.{is_purgeable, purge_each, purge_dlq}

-- every command stands under its own id
abbrev pub IsKeyed : {V : Type 0} → Dict (Instance V) → Type 0
IsKeyed [] = Unit
IsKeyed ((id, c) ∷ m) = (c.id ≡ id) × IsKeyed m

abbrev pub is_purged : {V : Type 0} → ℤ → Instance V → Bool
is_purged cutoff c =
    same c.status dead_letter && elim c.completed_at [ none ↦ false | some t ↦ ltb_ℤ t cutoff ]

-- what is left of an entry
abbrev pub unpurged : {V : Type 0} → ℤ → Option (Instance V) → Option (Instance V)
unpurged cutoff none = none
unpurged cutoff (some c) = if is_purged cutoff c then none else some c

module _ (env : Env) where
  open env use {Any}

  -- the commands of the loop with an id, of those that it deletes
  abbrev deletions : ℤ → String → List (Instance Any) → ℕ
  deletions cutoff id is = tally (λ i. i.id == id && is_purgeable cutoff i) is

  abbrev without : Memory Any → String → Memory Any
  without s id = record s { commands = remove id s.commands }

  purge_each-cons :
      (s : Memory Any) (cutoff : ℤ) (i : Instance Any) (is : List (Instance Any)) (n : ℕ)
      → s.closed ≡ false
      → purge_each env (memory env) s cutoff (i ∷ is) n ≡ (
          if is_purgeable cutoff i
          then purge_each env (memory env) (without s i.id) cutoff is (suc n)
          else purge_each env (memory env) s cutoff is n)
  unfolding purge_each delete
  purge_each-cons s cutoff i is n o = ground arith

  lookup-purge_each :
      (s : Memory Any) (cutoff : ℤ) (is : List (Instance Any)) (n : ℕ) (id : String)
      → s.closed ≡ false
      → lookup id (purge_each env (memory env) s cutoff is n).0.commands
        ≡ (if ltb 0 (deletions cutoff id is) then none else lookup id s.commands)
  unfolding tally
  lookup-purge_each s cutoff [] n id o = unfold purge_each in refl
  lookup-purge_each s cutoff (i ∷ is) n id o = ground (
    arith,
    purge_each-cons s cutoff i is n o,
    lookup-remove i.id id s.commands,
    lookup-purge_each (without s i.id) cutoff is (suc n) id o,
    lookup-purge_each s cutoff is n id o,
  )

  count-purge_each :
      (s : Memory Any) (cutoff : ℤ) (is : List (Instance Any)) (n : ℕ)
      → s.closed ≡ false
      → (purge_each env (memory env) s cutoff is n).1 ≡ n + tally (is_purgeable cutoff) is
  unfolding tally
  count-purge_each s cutoff [] n o = unfold purge_each in omega arith
  count-purge_each s cutoff (i ∷ is) n o = ground (
    arith,
    purge_each-cons s cutoff i is n o,
    count-purge_each (without s i.id) cutoff is (suc n) o,
    count-purge_each s cutoff is n o,
  )

  abbrev listed : Dict (Instance Any) → List (Instance Any)
  listed m = map (clone env) (select (λ c. same c.status dead_letter) (values m))

  deletions-listed :
      (cutoff : ℤ) (id : String) (m : Dict (Instance Any))
      → Distinct m
      → IsKeyed m
      → deletions cutoff id (listed m)
        ≡ elim (lookup id m) [ none ↦ 0 | some c ↦ if is_purged cutoff c then 1 else 0 ]
  unfolding tally select lookup clone is_purgeable
  deletions-listed cutoff id [] d k = refl
  deletions-listed cutoff id ((j, c) ∷ m) d k =
      ground (arith, eq_iff j id, eq_iff c.id id, deletions-listed cutoff id m d.1 k.1)

  purgeable-listed :
      (cutoff : ℤ) (m : Dict (Instance Any))
      → tally (is_purgeable cutoff) (listed m) ≡ tally (is_purged cutoff) (values m)
  unfolding tally select clone is_purgeable
  purgeable-listed cutoff [] = refl
  purgeable-listed cutoff ((j, c) ∷ m) = ground (arith, purgeable-listed cutoff m)

  -- PurgeDLQ on an open in-memory storage, in which the ids are distinct and every command stands
  -- under its own: it removes exactly the commands that are dead-lettered and were completed before
  -- `now - age`, keeps every other command as it is, and answers how many it removed.
  pub lookup-purge_dlq :
      (e : Executor Any (Memory Any)) (age now : ℤ)
      → e.storage.closed ≡ false
      → Distinct e.storage.commands
      → IsKeyed e.storage.commands
      → ((id : String)
          → lookup id (purge_dlq env (memory env) e age now).1.storage.commands
            ≡ unpurged (now -ℤ age) (lookup id e.storage.commands))
        × ((purge_dlq env (memory env) e age now).0
            ≡ done (tally (is_purged (now -ℤ age)) (values e.storage.commands)))
  unfolding purge_dlq find_by_status
  lookup-purge_dlq e age now o d k =
      let cutoff = now -ℤ age in
      let is = listed e.storage.commands in
      (
        λ id. ground (
          arith,
          lookup-purge_each e.storage cutoff is 0 id o,
          deletions-listed cutoff id e.storage.commands d k,
        ),
        ground (
          arith,
          count-purge_each e.storage cutoff is 0 o,
          purgeable-listed cutoff e.storage.commands,
        ),
      )
