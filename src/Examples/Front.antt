-- ===== src/Examples/Front.antt =====
-- The options, the typed handlers, the ids and the dashboard at concrete inputs.
use durex.Prelude.{
  ◌||◌, ◌++◌, false, ◌&&◌, ◌≡◌, refl, sym, ap, ◌∙◌, ℕ, ℤ, pos, String, Option, none, some, List, [],
  ◌∷◌, Dict, lookup, arith, ◌==◌, if◌then◌else◌,
}
use durex.Spec.{Spec}
use durex.Result.{empty}
use durex.Instance.{Instance}
use durex.Registry.{has}
use durex.Executor.{Executor, Outcome, Verdict}
use durex.Executor.Create.{create_instance}
use durex.Executor.Run.{new_executor}
use durex.Executor.Options.{ExecutorOption}
use durex.Executor.Options.Valid.{IsValid, new_executor-IsValid}
use durex.Typed.{Json, TypedOption, handle_typed, typed}
use durex.Typed.RoundTrip.{run_registered, handle_typed-typed}
use durex.Id.{Sprintf}
use durex.Id.Distinct.{generate_all, AllDistinct, generate-AllDistinct}
use durex.Text.{empty_text}
use durex.Status.{Status, dead_letter, failed, same}
use durex.Storage.{is_ok}
use durex.Instance.{clone, deep_copy_map}
use durex.Storage.Memory.{Memory, get, update}
use durex.Storage.Memory.Map.{memory, memory_laws, view}
use durex.Executor.Dashboard.{Request, handle_api_retry}
use durex.Executor.Dashboard.Retry.{is_scheduled, handle_api_retry_lem}
use durex.Examples.Strokes.{strokes_of, how_many, how_many-strokes_of}
use durex.Examples.Data.{a_command, Value, number, env, executor, succeeding}

abbrev some_options : List (ExecutorOption Value)
some_options = ExecutorOption.parallelism (pos 0) ∷ ExecutorOption.default_retries (pos 3) ∷ []

new_executor-IsValid_example : IsValid (new_executor {S = String} "table" some_options).config
new_executor-IsValid_example = new_executor-IsValid {S = String} "table" some_options

-- a number as a map with one entry; the map is its own encoding
abbrev number_in : Option (Dict Value) → Option ℤ
number_in (some ((k, number n) ∷ [])) = some n
number_in _ = none

abbrev json : Json Value ℤ (Option (Dict Value))
json = record {
  marshal = λ n. some (some (("n", number n) ∷ []));
  unmarshal = number_in;
  marshal_map = λ m. some m;
  unmarshal_map = λ b. some b;
}

abbrev told : ℤ → Instance Value → Outcome Value
told n i = record { instance_after = i; verdict = Verdict.returned empty }

abbrev typed_options : List (TypedOption Value ℤ)
typed_options = TypedOption.retries (pos 2) ∷ TypedOption.cron "@daily" ∷ []

handle_typed-typed_example :
    (spec : Spec Value) × (i : Instance Value) × ((typed json "count" (pos 7) ≡ some spec)
      × ((create_instance env
            (handle_typed json (executor succeeding none) "count" told typed_options).1
            spec
            (pos 3)).0
          ≡ some i)
      × (run_registered
            (handle_typed json (executor succeeding none) "count" told typed_options).1
            i
          ≡ some (told (pos 7) i)))
unfolding has lookup
handle_typed-typed_example =
    handle_typed-typed env json (executor succeeding none) "count" told typed_options (pos 7)
      (some (("n", number (pos 7)) ∷ [])) (some (("n", number (pos 7)) ∷ []))
      (("n", number (pos 7)) ∷ []) (pos 3) refl refl (refl, tt) refl refl refl refl

abbrev strokes : Sprintf
strokes ts count random = strokes_of count

abbrev calls : List (ℕ × List ℕ)
calls = (5, []) ∷ (5, []) ∷ (4, 7 ∷ []) ∷ []

generate-AllDistinct_example :
    AllDistinct (generate_all strokes (record { counter = 18446744073709551615 }) calls)
generate-AllDistinct_example =
    generate-AllDistinct strokes
      (λ t n r t' n' r' same.
        sym (how_many-strokes_of n) ∙ ap how_many same ∙ how_many-strokes_of n')
      (record { counter = 18446744073709551615 }) calls (omega arith)

abbrev dead : Instance Value
dead = a_command "dead" dead_letter

abbrev with_dead : Executor Value (Memory Value)
with_dead = record (executor succeeding none) {
  storage = record { commands = ("dead", dead) ∷ []; closed = false };
}

abbrev retry_request : Request
retry_request = record { method = "POST"; parameters = ("id", "dead") ∷ [] }

abbrev retried : Instance Value
retried = record dead {
  status = Status.pending;
  error = empty_text;
  started_at = none;
  completed_at = none;
  attempt = pos 0;
  ready_at = pos 7;
}

handle_api_retry_lem_example :
    let (answer, e') = handle_api_retry env (memory env) with_dead retry_request (pos 7) in
    let accepted =
      (retry_request.method == "POST")
      && ((same dead.status failed || same dead.status dead_letter)
          && is_ok (update env with_dead.storage retried).0) in
    (is_scheduled answer ≡ accepted)
    × ((j : String)
        → view env e'.storage j ≡ (
            if accepted && (dead.id == j)
            then some ((memory_laws env).stored retried)
            else view env with_dead.storage j))
    × (e'.queue ≡ (if accepted then with_dead.queue ++ retried ∷ [] else with_dead.queue))
unfolding lookup get clone deep_copy_map memory_laws
handle_api_retry_lem_example =
    handle_api_retry_lem env (memory env) (memory_laws env) with_dead retry_request dead (pos 7)
      refl refl refl refl refl
