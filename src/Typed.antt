-- ===== src/Typed.antt =====
-- typed.go: handlers that take their data as a Go type `T`. encoding/json is a parameter: `B` is its
-- bytes, and `none` is its error.
pub mod RoundTrip
use durex.Prelude.{ℤ, pos, ltb_ℤ, String, Option, none, some, List, [], ◌∷◌, Dict, if◌then◌else◌}
use durex.Text.{Text, lit}
use durex.Spec.{Spec, zero_spec}
use durex.Result.{empty}
use durex.Instance.{Instance}
use durex.Registry.{RegisterError}
use durex.Executor.{Executor, Handler, Outcome, Verdict, user}
use durex.Executor.Options.{if_positive}
use durex.Executor.Run.{register_command}

infixl 5 ◌>>=◌
abbrev ◌>>=◌ : {A B : Type 0} → Option A → (A → Option B) → Option B
none >>= f = none
some a >>= f = f a

-- json.Marshal and json.Unmarshal of a T and of a map; `none` as a map is nil
pub record Json (V T B : Type 0) : Type 0 where
  pub marshal : T → Option B
  pub unmarshal : B → Option T
  pub marshal_map : Option (Dict V) → Option B
  pub unmarshal_map : B → Option (Option (Dict V))

pub record TypedCommand (V T : Type 0) : Type 0 where
  pub name : String
  pub execute_fn : T → Instance V → Outcome V
  pub recover_fn : Option (T → Instance V → Text → Outcome V)
  pub expired_fn : Option (T → Instance V → Outcome V)
  pub default_spec : Spec V

module _ {V T B : Type 0} (json : Json V T B) where
  open json use {marshal, unmarshal, marshal_map, unmarshal_map}

  unfoldable pub unmarshal_data : Option (Dict V) → Option T
  unmarshal_data payload = do bytes ← marshal_map payload; unmarshal bytes

  abbrev refused_data : String → Instance V → Outcome V
  refused_data message i = record { instance_after = i; verdict = Verdict.failed (lit message) }

  abbrev nothing_done : Instance V → Outcome V
  nothing_done i = record { instance_after = i; verdict = Verdict.returned empty }

  unfoldable pub execute : TypedCommand V T → Instance V → Outcome V
  execute c i = elim (unmarshal_data i.payload) [
    | none ↦ refused_data "failed to unmarshal command data" i
    | some value ↦ c.execute_fn value i
  ]

  unfoldable pub recover : TypedCommand V T → Instance V → Text → Outcome V
  recover c i failure = elim c.recover_fn [
    | none ↦ nothing_done i
    | some fn ↦ elim (unmarshal_data i.payload) [
      | none ↦ refused_data "failed to unmarshal recovery data" i
      | some value ↦ fn value i failure
    ]
  ]

  unfoldable pub expired : TypedCommand V T → Instance V → Outcome V
  expired c i = elim c.expired_fn [
    | none ↦ nothing_done i
    | some fn ↦ elim (unmarshal_data i.payload) [
      | none ↦ refused_data "failed to unmarshal expired data" i
      | some value ↦ fn value i
    ]
  ]

  unfoldable pub default : TypedCommand V T → Spec V
  default c = record c.default_spec { name = c.name }

  unfoldable pub handler_of : TypedCommand V T → Handler V
  handler_of c = record {
    name = c.name;
    execute = execute c;
    recover = some (recover c);
    expired = some (expired c);
    default = some (default c);
  }

  -- MustTyped panics on its error
  unfoldable pub typed : String → T → Option (Spec V)
  typed name value = do
    bytes ← marshal value
    m ← unmarshal_map bytes
    some (record zero_spec { name = name; payload = m })

-- the options of NewTyped, by their names
pub data TypedOption (V T : Type 0) : Type 0 where
  retries period deadline : ℤ → TypedOption V T
  cron : String → TypedOption V T
  tags : List String → TypedOption V T
  on_recover : Option (T → Instance V → Text → Outcome V) → TypedOption V T
  on_expired : Option (T → Instance V → Outcome V) → TypedOption V T

module _ {V T : Type 0} where
  abbrev on_spec : (Spec V → Spec V) → TypedCommand V T → TypedCommand V T
  on_spec g c = record c { default_spec = g c.default_spec }

  unfoldable pub apply : TypedOption V T → TypedCommand V T → TypedCommand V T
  apply (retries n) = on_spec (λ s. record s { retries = if ltb_ℤ n (pos 0) then pos 0 else n })
  apply (period d) = on_spec (λ s. record s { period = if_positive d s.period })
  apply (deadline d) = on_spec (λ s. record s { deadline = if_positive d s.deadline })
  apply (cron expr) = on_spec (λ s. record s { cron = expr })
  apply (tags ts) = on_spec (λ s. record s { tags = ts })
  apply (on_recover fn) = λ c. record c { recover_fn = fn }
  apply (on_expired fn) = λ c. record c { expired_fn = fn }

  unfoldable pub apply_all : List (TypedOption V T) → TypedCommand V T → TypedCommand V T
  apply_all [] c = c
  apply_all (o ∷ opts) c = apply_all opts (apply o c)

  abbrev pub bare : String → (T → Instance V → Outcome V) → TypedCommand V T
  bare name fn = record {
    name = name;
    execute_fn = fn;
    recover_fn = none;
    expired_fn = none;
    default_spec = zero_spec;
  }

  unfoldable pub new_typed :
      String → (T → Instance V → Outcome V) → List (TypedOption V T) → TypedCommand V T
  new_typed name fn opts = apply_all opts (bare name fn)

  -- the error is the panic of MustRegister
  unfoldable pub handle_typed :
      {B S : Type 0} (json : Json V T B)
      → Executor V S
      → String
      → (T → Instance V → Outcome V)
      → List (TypedOption V T)
      → Option RegisterError × Executor V S
  handle_typed json e name fn opts =
      register_command e (user (handler_of json (new_typed name fn opts)))
