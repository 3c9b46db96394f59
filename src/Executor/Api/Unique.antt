-- ===== src/Executor/Api/Unique.antt =====
-- Add over the in-memory storage: unique keys.
use durex.Prelude.{
  ℤ, String, ◌≡◌, ◌≢◌, inl, inr, true, false, Option-cases, Option, none, some, Dict, lookup,
  insert, lookup-insert, arith, eq_iff,
}
use durex.Status.{is_active}
use durex.Spec.{Spec}
use durex.Instance.{Instance, clone}
use durex.Env.{Env}
use durex.Storage.Memory.{Memory, create}
use durex.Storage.Memory.Map.{memory}
use durex.Storage.Memory.Queries.{find_by_unique_key_lem}
use durex.Executor.{Executor}
use durex.Executor.Create.{create_instance}
use durex.Executor.Api.{add, add_checked, check_unique, persist}
use durex.Executor.Schedule.Waiting.{storage-schedule}

-- No two active commands hold the same key, but for the empty one.
abbrev pub UniqueKeys : {V : Type 0} → Dict (Instance V) → Type 0
UniqueKeys {V} m =
    (id₁ id₂ : String) (c₁ c₂ : Instance V)
    → lookup id₁ m ≡ some c₁
    → lookup id₂ m ≡ some c₂
    → is_active c₁.status ≡ true
    → is_active c₂.status ≡ true
    → c₁.unique_key ≢ ""
    → c₁.unique_key ≡ c₂.unique_key
    → id₁ ≡ id₂

module _ (env : Env) where
  open env use {Any}

  -- the key is empty, or no active command holds it
  abbrev Free : Memory Any → String → Type 0
  Free m key =
      (id : String) (c : Instance Any)
      → lookup id m.commands ≡ some c
      → is_active c.status ≡ true
      → c.unique_key ≡ key
      → key ≡ ""

  Free-of_check :
      (m : Memory Any) (i : Instance Any)
      → m.closed ≡ false
      → check_unique env (memory env) m i ≡ none
      → Free m i.unique_key
  unfolding check_unique
  Free-of_check m i opened h id c l a k =
      ground (arith, eq_iff i.unique_key "", find_by_unique_key_lem env m i.unique_key id c opened)

  insert-UniqueKeys :
      (m : Memory Any) (i : Instance Any)
      → Free m i.unique_key
      → UniqueKeys m.commands
      → UniqueKeys (insert i.id (clone env i) m.commands)
  unfolding clone
  insert-UniqueKeys m i free u a b c d l r ac ad n k = ground (
    arith,
    eq_iff i.id a,
    eq_iff i.id b,
    lookup-insert i.id a (clone env i) m.commands,
    lookup-insert i.id b (clone env i) m.commands,
    free a c,
    free b d,
    u a b c d,
  )

  create-UniqueKeys :
      (m : Memory Any) (i : Instance Any)
      → m.closed ≡ false
      → check_unique env (memory env) m i ≡ none
      → UniqueKeys m.commands
      → UniqueKeys (create env m i).1.commands
  unfolding create
  create-UniqueKeys m i opened h u =
      ground (arith, insert-UniqueKeys m i (Free-of_check m i opened h) u)

  storage-persist :
      (e : Executor Any (Memory Any)) (i : Instance Any) (now : ℤ)
      → (persist env (memory env) e i now).1.storage ≡ (create env e.storage i).1
  unfolding persist
  storage-persist e i now =
      ground (arith, storage-schedule (record e { storage = (create env e.storage i).1 }) i now)

  persist-UniqueKeys :
      (e : Executor Any (Memory Any)) (i : Instance Any) (now : ℤ)
      → e.storage.closed ≡ false
      → check_unique env (memory env) e.storage i ≡ none
      → UniqueKeys e.storage.commands
      → UniqueKeys (persist env (memory env) e i now).1.storage.commands
  persist-UniqueKeys e i now opened h u a b c d l r =
      ground (arith, storage-persist e i now, create-UniqueKeys e.storage i opened h u a b c d)

  add_checked-UniqueKeys :
      (i : Option (Instance Any)) (e : Executor Any (Memory Any)) (now : ℤ)
      → e.storage.closed ≡ false
      → UniqueKeys e.storage.commands
      → UniqueKeys (add_checked env (memory env) i e now).1.storage.commands
  unfolding add_checked
  add_checked-UniqueKeys none e now opened u = u
  add_checked-UniqueKeys (some i) e now opened u =
      elim (Option-cases (check_unique env (memory env) e.storage i)) [
        | inl h ↦ λ a b c d l r. ground (arith, persist-UniqueKeys e i now opened h u a b c d)
        | inr (x, h) ↦ λ a b c d l r. ground (arith, u a b c d)
      ]

  storage-create_instance :
      (e : Executor Any (Memory Any)) (spec : Spec Any) (now : ℤ)
      → (create_instance env e spec now).1.storage ≡ e.storage
  unfolding create_instance
  storage-create_instance e spec now = ground arith

  -- Add over an open in-memory storage in which no two active commands hold the same key, except
  -- the empty one, keeps it so, whether it accepts the command or not.
  pub add-UniqueKeys :
      (e : Executor Any (Memory Any)) (spec : Spec Any) (now : ℤ)
      → e.storage.closed ≡ false
      → UniqueKeys e.storage.commands
      → UniqueKeys (add env (memory env) e spec now).1.storage.commands
  unfolding add
  add-UniqueKeys e spec now opened u a b c d l r = ground (
    arith,
    storage-create_instance e spec now,
    u a b c d,
    add_checked-UniqueKeys (create_instance env e spec now).0 made now opened' u' a b c d,
  )
    where
      made : Executor Any (Memory Any)
      made = (create_instance env e spec now).1

      opened' : made.storage.closed ≡ false
      opened' = ground (arith, storage-create_instance e spec now)

      u' : UniqueKeys made.storage.commands
      u' a b c d l r = ground (arith, storage-create_instance e spec now, u a b c d)
