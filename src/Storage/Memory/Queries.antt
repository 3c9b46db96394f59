-- ===== src/Storage/Memory/Queries.antt =====
-- The reads of the in-memory storage that filter its commands.
use durex.Prelude.{
  String, ◌≡◌, ◌≢◌, inl, inr, Bool, true, false, ◌&&◌, Option-cases, none, some, List, [], ◌∷◌,
  Dict, lookup, values, arith, ◌==◌, eq_iff,
}
use durex.Status.{is_active}
use durex.Instance.{Instance, clone}
use durex.Env.{Env}
use durex.Storage.{ok, err, not_found}
use durex.Storage.Memory.{Memory, first, find_by_unique_key}

module _ {V : Type 0} (p : Instance V → Bool) where
  -- the search loop finds a command that passes, or no command passes
  first_sound : (cs : List (Instance V)) (c : Instance V) → first p cs ≡ some c → p c ≡ true
  unfolding first
  first_sound [] c h = cc
  first_sound (x ∷ cs) c h = ground (arith, first_sound cs c)

  first-none :
      (m : Dict (Instance V)) (id : String) (c : Instance V)
      → first p (values m) ≡ none
      → lookup id m ≡ some c
      → p c ≡ false
  unfolding first lookup
  first-none [] id c h l = cc
  first-none ((j, x) ∷ m) id c h l = ground (arith, first-none m id c)

module _ (env : Env) where
  open env use {Any}

  -- On an open storage FindByUniqueKey answers `not_found` only if no active command holds the key,
  -- and what it returns is an active command that holds it.
  pub find_by_unique_key_lem :
      (m : Memory Any) (key id : String) (c : Instance Any)
      → m.closed ≡ false
      → (find_by_unique_key env m key ≡ err not_found
          → lookup id m.commands ≡ some c
          → is_active c.status ≡ true
          → c.unique_key ≢ key)
        × (find_by_unique_key env m key ≡ ok c → (c.unique_key ≡ key) × (is_active c.status ≡ true))
  unfolding find_by_unique_key clone
  find_by_unique_key_lem m key id c opened = (
    λ h l a e. ground (arith, eq_iff c.unique_key key, first-none holds m.commands id c),
    λ h. elim (Option-cases (first holds (values m.commands))) [
      | inl e ↦ ground arith
      | inr (x, e) ↦
          ground (arith, eq_iff x.unique_key key, first_sound holds (values m.commands) x e)
    ],
  )
    where
      holds : Instance Any → Bool
      holds cmd = cmd.unique_key == key && is_active cmd.status
