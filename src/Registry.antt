-- ===== src/Registry.antt =====
-- registry.go: command handlers by name. The type of handlers is a parameter, with the name of a
-- handler; the mutex makes each method one step.
pub mod Lookup
use durex.Prelude.{
  ℕ, String, Bool, true, false, Option, none, some, is_some, List, map, length, Dict, lookup,
  insert, remove, [], ◌==◌, if◌then◌else◌,
}

pub record Registry (H : Type 0) : Type 0 where
  pub handlers : Dict H

pub data RegisterError : Type 0 where
  name_empty : RegisterError
  already_registered : String → RegisterError

abbrev pub new_registry : {H : Type 0} → Registry H
new_registry = record { handlers = [] }

module _ {H : Type 0} (name_of : H → String) where
  unfoldable pub register : Registry H → H → Option RegisterError × Registry H
  register r cmd =
      if name_of cmd == ""
      then (some name_empty, r)
      else if is_some (lookup (name_of cmd) r.handlers)
      then (some (already_registered (name_of cmd)), r)
      else (none, record r { handlers = insert (name_of cmd) cmd r.handlers })

  -- `none` is the panic on an empty name
  unfoldable pub overwrite : Registry H → H → Option (Registry H)
  overwrite r cmd =
      if name_of cmd == ""
      then none
      else some (record r { handlers = insert (name_of cmd) cmd r.handlers })

module _ {H : Type 0} where
  -- `none` is the error of an unknown name
  unfoldable pub resolve : Registry H → String → Option H
  resolve r name = lookup name r.handlers

  unfoldable pub has : Registry H → String → Bool
  has r name = is_some (lookup name r.handlers)

  unfoldable pub names : Registry H → List String
  names r = map (λ e. e.0) r.handlers

  unfoldable pub count : Registry H → ℕ
  count r = length r.handlers

  unfoldable pub unregister : Registry H → String → Bool × Registry H
  unregister r name =
      if is_some (lookup name r.handlers)
      then (true, record r { handlers = remove name r.handlers })
      else (false, r)

  unfoldable pub clear : Registry H → Registry H
  clear r = record { handlers = [] }
