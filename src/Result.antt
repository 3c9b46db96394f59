-- ===== src/Result.antt =====
-- result.go: what a handler asks the executor to do next.
use durex.Prelude.{Bool, true, false, Option, none, some, List, [], ◌∷◌}
use durex.Spec.{Spec}

pub record Result (V : Type 0) : Type 0 where
  pub commands : List (Spec V)
  pub continuation : Option (Spec V)
  pub repeat : Bool
  pub retry : Bool

module _ {V : Type 0} where
  abbrev pub empty : Result V
  empty = record { commands = []; continuation = none; repeat = false; retry = false }

  abbrev pub repeat : Result V
  repeat = record { commands = []; continuation = none; repeat = true; retry = false }

  abbrev pub retry : Result V
  retry = record { commands = []; continuation = none; repeat = false; retry = true }

  abbrev pub next : Spec V → Result V
  next spec = record { commands = spec ∷ []; continuation = none; repeat = false; retry = false }

  abbrev pub spawn : List (Spec V) → Result V
  spawn specs = record { commands = specs; continuation = none; repeat = false; retry = false }

  abbrev pub spawn_then : List (Spec V) → Spec V → Result V
  spawn_then parallel then_spec = record {
    commands = parallel;
    continuation = some then_spec;
    repeat = false;
    retry = false;
  }
