-- ===== src/Registry/Lookup.antt =====
-- The registry as a map from names to handlers.
use durex.Prelude.{String, ◌≡◌, not, ◌&&◌, some, lookup-insert, arith, ◌==◌, if◌then◌else◌}
use durex.Registry.{Registry, register, resolve, has}

module _ {H : Type 0} (name_of : H → String) where
  -- After Register a name resolves to the new handler if it is the handler's name, is not empty and
  -- was free; in every other case it resolves as before.
  pub resolve-register :
      (r : Registry H) (cmd : H) (name : String)
      → resolve (register name_of r cmd).1 name ≡ (
          if not (name_of cmd == "") && not (has r (name_of cmd)) && (name_of cmd == name)
          then some cmd
          else resolve r name)
  unfolding register resolve has
  resolve-register r cmd name = ground (arith, lookup-insert (name_of cmd) name cmd r.handlers)
