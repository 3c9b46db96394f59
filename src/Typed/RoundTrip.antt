-- ===== src/Typed/RoundTrip.antt =====
-- typed.go: from a typed value to the handler's function, through a specification and an instance.
use durex.Prelude.{
  ◌≡◌, refl, ◌∙◌, ℤ, String, false, Option, none, some, List, [], ◌∷◌, Dict, Distinct,
  merge-Distinct_append, eq_refl, arith, ◌==◌,
}
use durex.Spec.{Spec, zero_spec, merge_specs}
use durex.Instance.{Instance, record_event}
use durex.Registry.{resolve, has}
use durex.Registry.Lookup.{resolve-register}
use durex.Env.{Env}
use durex.Executor.{Executor, Outcome, user, barrier, name_of}
use durex.Executor.Create.{with_defaults, new_instance, create_instance}
use durex.Executor.Run.{register_command}
use durex.Typed.{
  Json, TypedCommand, bare, TypedOption, apply, apply_all, new_typed, handler_of, handle_typed,
  typed, execute, unmarshal_data, default,
}

module _ {V T : Type 0} where
  -- What the options leave alone.
  record Keeps (c d : TypedCommand V T) : Type 0 where
    same_name : d.name ≡ c.name
    same_fn : d.execute_fn ≡ c.execute_fn
    same_payload : d.default_spec.payload ≡ c.default_spec.payload

  apply-Keeps : (o : TypedOption V T) (c : TypedCommand V T) → Keeps c (apply o c)
  unfolding apply
  apply-Keeps o c = record {
    same_name = ground arith;
    same_fn = ground arith;
    same_payload = ground arith;
  }

  apply_all-Keeps :
      (opts : List (TypedOption V T)) (c : TypedCommand V T) → Keeps c (apply_all opts c)
  unfolding apply_all
  apply_all-Keeps [] c = record { same_name = refl; same_fn = refl; same_payload = refl }
  apply_all-Keeps (o ∷ opts) c =
      let rest = apply_all-Keeps opts (apply o c) in
      let this = apply-Keeps o c in
      record {
        same_name = rest.same_name ∙ this.same_name;
        same_fn = rest.same_fn ∙ this.same_fn;
        same_payload = rest.same_payload ∙ this.same_payload;
      }

-- The handler that the registry holds for the name of a typed command, run on an instance.
abbrev pub run_registered : {V S : Type 0} → Executor V S → Instance V → Option (Outcome V)
run_registered e i = elim (resolve e.registry i.name) [
  | none ↦ none
  | some (user h) ↦ some (h.execute i)
  | some barrier ↦ none
]

new_typed-Keeps :
    {V T : Type 0} (name : String) (fn : T → Instance V → Outcome V) (opts : List (TypedOption V T))
    → ((new_typed name fn opts).name ≡ name)
      × ((new_typed name fn opts).execute_fn ≡ fn)
      × ((new_typed name fn opts).default_spec.payload ≡ none)
unfolding new_typed
new_typed-Keeps name fn opts =
    let k = apply_all-Keeps opts (bare name fn) in (k.same_name, k.same_fn, k.same_payload)

module _ {V S T B : Type 0} (json : Json V T B) (e : Executor V S) where
  -- the handler under the name of a typed command
  registered :
      (name : String) (fn : T → Instance V → Outcome V) (opts : List (TypedOption V T))
      → (name == "") ≡ false
      → has e.registry name ≡ false
      → resolve (handle_typed json e name fn opts).1.registry name
        ≡ some (user (handler_of json (new_typed name fn opts)))
  unfolding handle_typed register_command handler_of
  registered name fn opts h g = ground (
    arith,
    new_typed-Keeps name fn opts,
    eq_refl name,
    resolve-register name_of e.registry (user (handler_of json (new_typed name fn opts))) name,
  )

module _ {V T B : Type 0} (json : Json V T B) where
  -- a map that encodes a value gets to the function
  executed :
      (c : TypedCommand V T) (i : Instance V) (m : Dict V) (bytes : B) (x : T)
      → i.payload ≡ some m
      → json.marshal_map (some m) ≡ some bytes
      → json.unmarshal bytes ≡ some x
      → execute json c i ≡ c.execute_fn x i
  unfolding execute unmarshal_data
  executed c i m bytes x h g k = ground arith

  -- the specification with the defaults of its handler
  defaulted :
      (c : TypedCommand V T) (name : String) (m : Dict V)
      → Distinct m
      → c.name ≡ name
      → c.default_spec.payload ≡ none
      → let merged =
          merge_specs (default json c) (record zero_spec { name = name; payload = some m }) in
        (merged.name ≡ name) × (merged.payload ≡ some m)
  unfolding default merge_specs
  defaulted c name m d h g = (ground arith, ground (arith, merge-Distinct_append [] m d))

module _ (env : Env) {T B S : Type 0} (json : Json env.Any T B) where
  open env use {Any}

  -- A handler that HandleTyped registers under a new name runs its function on the value that Typed
  -- was given, whatever the options: the specification gets through the handler's defaults, the
  -- instance and the registry. JSON must encode the value, decode it into a map, and decode the
  -- encoded map into the value.
  pub handle_typed-typed :
      (e : Executor Any S) (name : String) (fn : T → Instance Any → Outcome Any)
      (opts : List (TypedOption Any T)) (x : T) (bytes map_bytes : B) (m : Dict Any) (now : ℤ)
      → (name == "") ≡ false
      → has e.registry name ≡ false
      → Distinct m
      → json.marshal x ≡ some bytes
      → json.unmarshal_map bytes ≡ some (some m)
      → json.marshal_map (some m) ≡ some map_bytes
      → json.unmarshal map_bytes ≡ some x
      → (spec : Spec Any) × (i : Instance Any) × ((typed json name x ≡ some spec)
          × ((create_instance env (handle_typed json e name fn opts).1 spec now).0 ≡ some i)
          × (run_registered (handle_typed json e name fn opts).1 i ≡ some (fn x i)))
  unfolding typed create_instance with_defaults new_instance record_event handler_of
  handle_typed-typed e name fn opts x bytes map_bytes m now h1 h2 h3 h4 h5 h6 h7 =
      let c = new_typed name fn opts in
      let after = (handle_typed json e name fn opts).1 in
      let spec : Spec Any = record zero_spec { name = name; payload = some m } in
      let i = new_instance after (with_defaults after spec) (env.generated after.generated) now in
      let held = registered json e name fn opts h1 h2 in
      let kept = new_typed-Keeps name fn opts in
      let merged = defaulted json c name m h3 kept.0 kept.2 in
      let named : i.name ≡ name = ground arith in
      let filled : i.payload ≡ some m = ground arith in
      (
        spec,
        i,
        (ground arith, ground arith, ground (arith, executed json c i m map_bytes x filled h6 h7)),
      )
