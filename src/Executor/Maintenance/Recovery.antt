-- ===== src/Executor/Maintenance/Recovery.antt =====
-- recoverStuckCommands over the in-memory storage.
use durex.Prelude.{
  sym, Bool-cases, inl, inr, ap, ◌∙◌, ltb_ℤ, ◌-ℤ◌, not, ℤ, String, ◌≡◌, refl, Bool, true, false,
  ◌&&◌, Option, none, some, is_some, List, [], ◌∷◌, map, select, values, Dict, lookup,
  lookup-insert, Distinct, arith, eq_iff, ◌==◌, if◌then◌else◌,
}
use durex.Status.{pending, started, same}
use durex.Instance.{Instance, clone}
use durex.Storage.Memory.{Memory, update, find_by_status}
use durex.Storage.Memory.Map.{memory}
use durex.Env.{Env}
use durex.Executor.{Executor, Config}
use durex.Executor.Schedule.{schedule, queue_schedule, send, schedule_delayed}
use durex.Executor.Dlq.Purge.{IsKeyed}
use durex.Executor.Maintenance.{
  is_stuck, as_recovered, recover_one, recover_each, recover_stuck_commands,
}

module _ (env : Env) where
  open env use {Any}

  abbrev Memories : Type 0
  Memories = Memory Any

  -- the update of a stuck command
  abbrev put_back : Memories → Instance Any → Memories
  put_back s i = (update env s (as_recovered i)).1

  recover_one-storage :
      (e : Executor Any Memories) (i : Instance Any) (now : ℤ)
      → ((recover_one env (memory env) e i now).storage
          ≡ (if is_stuck e.config i now then put_back e.storage i else e.storage))
        × ((recover_one env (memory env) e i now).config ≡ e.config)
  unfolding recover_one schedule queue_schedule send schedule_delayed
  recover_one-storage e i now = (ground arith, ground arith)

  lookup-put_back :
      (s : Memories) (i : Instance Any) (id : String)
      → s.closed ≡ false
      → ((put_back s i).closed ≡ false)
        × (lookup id (put_back s i).commands ≡ (
            if i.id == id && is_some (lookup id s.commands)
            then some (clone env (as_recovered i))
            else lookup id s.commands))
  unfolding update as_recovered
  lookup-put_back s i id o = (
    ground arith,
    ground (arith, eq_iff i.id id, lookup-insert i.id id (clone env (as_recovered i)) s.commands),
  )

  -- the entry of an id after the loop
  abbrev entry_after :
      Config Any → ℤ → String → List (Instance Any) → Option (Instance Any) → Option (Instance Any)
  entry_after c now id [] o = o
  entry_after c now id (i ∷ is) o = entry_after c now id is (
      if is_stuck c i now && (i.id == id && is_some o)
      then some (clone env (as_recovered i))
      else o)

  lookup-recover_each :
      (e : Executor Any Memories) (is : List (Instance Any)) (now : ℤ) (id : String)
      → e.storage.closed ≡ false
      → lookup id (recover_each env (memory env) e is now).storage.commands
        ≡ entry_after e.config now id is (lookup id e.storage.commands)
  unfolding recover_each
  lookup-recover_each e [] now id o = refl
  lookup-recover_each e (i ∷ is) now id o =
      let e' = recover_one env (memory env) e i now in
      let one = recover_one-storage e i now in
      let put = lookup-put_back e.storage i id o in
      let opened : e'.storage.closed ≡ false = ground (arith, one, put) in
      let entry : lookup id e'.storage.commands ≡ (
          if is_stuck e.config i now && (i.id == id && is_some (lookup id e.storage.commands))
          then some (clone env (as_recovered i))
          else lookup id e.storage.commands) =
        ground (arith, one, put) in
      lookup-recover_each e' is now id opened
      ∙ ap (λ c. entry_after c now id is (lookup id e'.storage.commands)) one.1
      ∙ ap (entry_after e.config now id is) entry

  abbrev listed : Dict (Instance Any) → List (Instance Any)
  listed m = map (clone env) (select (λ c. same c.status started) (values m))

  -- what becomes of an entry
  abbrev pub unstuck : Config Any → ℤ → Option (Instance Any) → Option (Instance Any)
  unstuck c now none = none
  unstuck c now (some i) =
      if same i.status started
        && elim i.started_at [ none ↦ false | some t ↦ not (ltb_ℤ (now -ℤ t) c.stuck_threshold) ]
      then some (clone env (record (clone env i) { status = pending; started_at = none }))
      else some i

  listed-cons :
      (j : String) (i : Instance Any) (m : Dict (Instance Any))
      → listed ((j, i) ∷ m) ≡ (if same i.status started then clone env i ∷ listed m else listed m)
  unfolding select
  listed-cons j i m = ground arith

  entry_after-if :
      (c : Config Any) (now : ℤ) (id : String) (b : Bool) (i : Instance Any)
      (is : List (Instance Any)) (o : Option (Instance Any))
      → entry_after c now id (if b then i ∷ is else is) o
        ≡ entry_after c now id is (
            if b && (is_stuck c i now && (i.id == id && is_some o))
            then some (clone env (as_recovered i))
            else o)
  entry_after-if c now id true i is o = refl
  entry_after-if c now id false i is o = refl

  -- the first command of the list, if it is listed, and then the rest
  entry_after-cons :
      (c : Config Any) (now : ℤ) (id j : String) (i : Instance Any) (m : Dict (Instance Any))
      (o : Option (Instance Any))
      → entry_after c now id (listed ((j, i) ∷ m)) o
        ≡ entry_after c now id (listed m) (
            if same i.status started
              && (is_stuck c (clone env i) now && ((clone env i).id == id && is_some o))
            then some (clone env (as_recovered (clone env i)))
            else o)
  entry_after-cons c now id j i m o =
      ap (λ l. entry_after c now id l o) (listed-cons j i m)
      ∙ entry_after-if c now id (same i.status started) (clone env i) (listed m) o

  entry_after-unlisted :
      (c : Config Any) (now : ℤ) (id : String) (m : Dict (Instance Any)) (o : Option (Instance Any))
      → IsKeyed m
      → lookup id m ≡ none
      → entry_after c now id (listed m) o ≡ o
  unfolding lookup clone
  entry_after-unlisted c now id [] o k h = unfold select in refl
  entry_after-unlisted c now id ((j, i) ∷ m) o k h =
      let other : (i.id == id) ≡ false = ground (arith, eq_iff i.id id, eq_iff j id, k.0) in
      let rest : lookup id m ≡ none = ground arith in
      entry_after-cons c now id j i m o
      ∙ ap (entry_after c now id (listed m)) (ground (arith, other))
      ∙ entry_after-unlisted c now id m o k.1 rest

  entry_after-listed :
      (c : Config Any) (now : ℤ) (id : String) (m : Dict (Instance Any))
      → Distinct m
      → IsKeyed m
      → entry_after c now id (listed m) (lookup id m) ≡ unstuck c now (lookup id m)
  unfolding lookup clone is_stuck as_recovered
  entry_after-listed c now id [] d k = unfold select in refl
  entry_after-listed c now id ((j, i) ∷ m) d k =
      let was = lookup id ((j, i) ∷ m) in
      elim (Bool-cases (j == id)) [
        | inl e ↦
            let alone : lookup id m ≡ none = ground (arith, eq_iff j id, d.0) in
            let its : (i.id == id) ≡ true = ground (arith, eq_iff i.id id, eq_iff j id, k.0) in
            entry_after-cons c now id j i m was
            ∙ entry_after-unlisted c now id m _ k.1 alone
            ∙ ground (arith, its)
        | inr e ↦
            let others : (i.id == id) ≡ false = ground (arith, eq_iff i.id id, eq_iff j id, k.0) in
            let same_entry : was ≡ lookup id m = ground arith in
            entry_after-cons c now id j i m was
            ∙ ap (entry_after c now id (listed m)) (ground (arith, others))
            ∙ entry_after-listed c now id m d.1 k.1
            ∙ ap (unstuck c now) (sym same_entry)
      ]

  -- The recovery of stuck commands on an open in-memory storage, in which the ids are distinct and
  -- every command stands under its own: exactly the commands that are STARTED and were started at
  -- least the threshold ago are PENDING afterwards with no start time, their other fields as JSON
  -- gives them back; every other command is as before.
  pub lookup-recover_stuck_commands :
      (e : Executor Any (Memory Any)) (now : ℤ) (id : String)
      → e.storage.closed ≡ false
      → Distinct e.storage.commands
      → IsKeyed e.storage.commands
      → lookup id (recover_stuck_commands env (memory env) e now).storage.commands
        ≡ unstuck e.config now (lookup id e.storage.commands)
  unfolding recover_stuck_commands find_by_status
  lookup-recover_stuck_commands e now id o d k = ground (
    arith,
    lookup-recover_each e (listed e.storage.commands) now id o,
    entry_after-listed e.config now id e.storage.commands d k,
  )
