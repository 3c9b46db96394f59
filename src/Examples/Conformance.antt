-- ===== src/Examples/Conformance.antt =====
-- The conformance suite at a concrete setting: JSON values of a few forms, and ids of strokes.
use Prim.Native.Char.{code}
use durex.Prelude.{
  ℕ, zero, suc, ◌≡◌, refl, pos, ◌+ℤ◌, String, Bool, true, false, Option, none, some, List, [], ◌∷◌,
  All, Dict, lookup, ap, inl, inr, Bool-cases, eq_iff, arith, ◌==◌,
}
use durex.Env.{Env}
use durex.Storage.Memory.{new_memory, find_by_parent}
use durex.Storage.Memory.Map.{memory}
use durex.Conformance.{Setting}
use durex.Conformance.Queries.{parent_id}
use durex.Conformance.Fields.{Samples}
use durex.Conformance.Suite.{run_conformance_tests}
use durex.Conformance.Passed.{run_conformance_tests-memory}
use durex.Conformance.Passed.Values.{KeepsValues}
use durex.Examples.Strokes.{strokes_of, strokes_of_distinct}

-- a map is one with a text under "key"
data Value : Type 0 where
  text : String → Value
  bool : Bool → Value
  object : String → Value
  other : Value

abbrev text_in : Value → Option String
text_in (text s) = some s
text_in _ = none

abbrev bool_in : Value → Option Bool
bool_in (bool b) = some b
bool_in _ = none

abbrev map_in : Value → Option (Dict Value)
map_in (object s) = some (("key", text s) ∷ [])
map_in _ = none

abbrev env : Env
env = record {
  Any = Value;
  round_trip = λ m. some m;
  of_int = λ n. other;
  of_string = text;
  of_strings = λ l. other;
  of_spec = λ s. other;
  as_string = text_in;
  as_bool = bool_in;
  as_int = λ v. none;
  as_int64 = λ v. none;
  as_float64 = λ v. none;
  as_slice = λ v. none;
  as_map = map_in;
  to_int = λ v. none;
  to_string = λ v. none;
  to_strings = λ v. none;
  to_spec = λ v. none;
  Schedule = Unit {0};
  parse_schedule = λ s. none;
  next_after = λ s t. none;
  generated = λ n. "new";
}

abbrev setting : Setting
setting = record { now = pos 1000; later = pos 2000; ids = strokes_of }

abbrev samples : Samples Value
samples = record {
  forty_two = other;
  pi = other;
  truth = bool true;
  slice = other;
  nested = object "value";
  null = other;
}

abbrev initial : String → ℕ
initial String.[] = 0
initial (String.◌∷◌ c s) = code c

parent_differs : (m : ℕ) → (parent_id == strokes_of m) ≡ false
parent_differs zero = refl
parent_differs (suc m) = elim (Bool-cases (parent_id == strokes_of (suc m))) [
  | inl e ↦
      let same : ◌≡◌ {A = ℕ} b'p' b'|' = ap initial ((eq_iff parent_id (strokes_of (suc m))).0 e) in
      absurd (omega arith)
  | inr e ↦ e
]

keeps : KeepsValues env setting
keeps = record {
  text_kept = λ m r k t e h. ground arith;
  truth_kept = λ m r k e h. ground arith;
  nested_kept = λ m r k e h. ground arith;
  text_made = λ t. refl;
}

run_conformance_tests-memory_example :
    All
      (λ (result : String × List _). result.1 ≡ [])
      (run_conformance_tests env
        (memory env)
        setting
        (find_by_parent env)
        (object "inner")
        samples
        new_memory)
unfolding ◌+ℤ◌ lookup
run_conformance_tests-memory_example =
    run_conformance_tests-memory env setting (object "inner") samples strokes_of_distinct
      parent_differs (omega arith) (omega arith) keeps refl refl
