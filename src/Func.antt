-- ===== src/Func.antt =====
-- func.go: handlers made of functions.
use durex.Prelude.{ℤ, pos, ltb_ℤ, String, Option, none, some, List, [], ◌∷◌, if◌then◌else◌}
use durex.Text.{Text}
use durex.Spec.{Spec, zero_spec}
use durex.Result.{empty}
use durex.Instance.{Instance}
use durex.Registry.{RegisterError}
use durex.Executor.{Executor, Handler, Outcome, Verdict, user}
use durex.Executor.Options.{if_positive}
use durex.Executor.Run.{register_command}

pub record FuncCommand (V : Type 0) : Type 0 where
  pub name : String
  pub execute_fn : Instance V → Outcome V
  pub recover_fn : Option (Instance V → Text → Outcome V)
  pub expired_fn : Option (Instance V → Outcome V)
  pub default_spec : Spec V

module _ {V : Type 0} where
  abbrev nothing_done : Instance V → Outcome V
  nothing_done i = record { instance_after = i; verdict = Verdict.returned empty }

  -- FuncCommand.Recover and FuncCommand.Expired
  unfoldable pub recover : FuncCommand V → Instance V → Text → Outcome V
  recover f i failure = elim f.recover_fn [ none ↦ nothing_done i | some fn ↦ fn i failure ]

  unfoldable pub expired : FuncCommand V → Instance V → Outcome V
  expired f i = elim f.expired_fn [ none ↦ nothing_done i | some fn ↦ fn i ]

  unfoldable pub default : FuncCommand V → Spec V
  default f = record f.default_spec { name = f.name }

  -- FuncCommand implements Command, Recoverable, Expirable and Defaulter
  unfoldable pub handler_of : FuncCommand V → Handler V
  handler_of f = record {
    name = f.name;
    execute = f.execute_fn;
    recover = some (recover f);
    expired = some (expired f);
    default = some (default f);
  }

-- the options of NewFunc, by their names
pub data FuncOption (V : Type 0) : Type 0 where
  retries period deadline : ℤ → FuncOption V
  cron : String → FuncOption V
  tags : List String → FuncOption V
  on_recover : Option (Instance V → Text → Outcome V) → FuncOption V
  on_expired : Option (Instance V → Outcome V) → FuncOption V

module _ {V : Type 0} where
  abbrev on_spec : (Spec V → Spec V) → FuncCommand V → FuncCommand V
  on_spec g f = record f { default_spec = g f.default_spec }

  unfoldable pub apply : FuncOption V → FuncCommand V → FuncCommand V
  apply (retries n) = on_spec (λ s. record s { retries = if ltb_ℤ n (pos 0) then pos 0 else n })
  apply (period d) = on_spec (λ s. record s { period = if_positive d s.period })
  apply (deadline d) = on_spec (λ s. record s { deadline = if_positive d s.deadline })
  apply (cron expr) = on_spec (λ s. record s { cron = expr })
  apply (tags ts) = on_spec (λ s. record s { tags = ts })
  apply (on_recover fn) = λ f. record f { recover_fn = fn }
  apply (on_expired fn) = λ f. record f { expired_fn = fn }

  unfoldable pub apply_all : List (FuncOption V) → FuncCommand V → FuncCommand V
  apply_all [] f = f
  apply_all (o ∷ opts) f = apply_all opts (apply o f)

  unfoldable pub new_func : String → (Instance V → Outcome V) → List (FuncOption V) → FuncCommand V
  new_func name fn opts = apply_all opts (record {
    name = name;
    execute_fn = fn;
    recover_fn = none;
    expired_fn = none;
    default_spec = zero_spec;
  })

  -- the error is the panic of MustRegister
  unfoldable pub handle_func :
      {S : Type 0}
      → Executor V S
      → String
      → (Instance V → Outcome V)
      → List (FuncOption V)
      → Option RegisterError × Executor V S
  handle_func e name fn opts = register_command e (user (handler_of (new_func name fn opts)))
