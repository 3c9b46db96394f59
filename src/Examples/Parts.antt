-- ===== src/Examples/Parts.antt =====
-- The rate limiter, the registry, the specifications and the barrier.
use durex.Prelude.{
  String, eq_iff, inl, inr, tally, pos, All, lookup, insert, merge, ◌≡◌, ◌≢◌, refl, false, some,
  List, [], ◌∷◌, arith, Dict,
}
use durex.Status.{pending, completed, dead_letter, is_terminal}
use durex.Spec.{Spec, made}
use durex.Result.{next}
use durex.Instance.{Instance, clone, deep_copy_map}
use durex.Registry.{Registry}
use durex.RateLimiter.{RateLimiter, acquired, attempt, release, remove_waiter}
use durex.RateLimiter.Lost.{release-waiting}
use durex.RateLimiter.Holders.{
  System, acquire, give, Reach, here, next as step, Within, Reach-Within,
}
use durex.Storage.Memory.{Memory, get}
use durex.Storage.Memory.Map.{memory}
use durex.Executor.{Command, Verdict}
use durex.Executor.Barrier.{
  BarrierData, decode, barrier_execute, join, fetch, all_complete, last_failed, merge_children,
  add_results, counts_as_failed,
}
use durex.Executor.Barrier.Join.{
  Passes, ChildPasses, results_of, last_value, resumed, join_iff, join_dead_letter,
  barrier_execute-next,
}
use durex.Examples.Data.{Value, number, text, texts, command, env, a_command, named, limiter}

abbrev free : System
free = record { limiter = limiter; holders = [] }

free-Within : Within limiter.limits (pos 0) free
unfolding lookup tally
free-Within = record {
  limits_kept = refl;
  global_kept = refl;
  each = λ name. refl;
  all = refl;
  under = λ name limit l p. ground arith;
  under_global = λ p. ground arith;
}

abbrev taken : System
taken = record { limiter = (attempt limiter "work").1; holders = "work" ∷ [] }

-- `work` takes its slot, and gives it back
taken_and_given : Reach free (record { limiter = release taken.limiter "work"; holders = [] })
unfolding attempt lookup
taken_and_given = step (step here (acquire free "work" refl)) (give taken "work" [] [] refl)

Reach-Within_example :
    Within limiter.limits (pos 0) (record { limiter = release taken.limiter "work"; holders = [] })
Reach-Within_example = Reach-Within taken_and_given free-Within

-- `work` runs, and two callers wait for it
abbrev crowded : RateLimiter
crowded = (attempt (attempt taken.limiter "work").1 "work").1

release-waiting_example :
    let r = remove_waiter (release crowded "work") "work" 0 in
    (lookup "work" r.waiters ≡ some (1 ∷ []))
    × (r.signals ≡ 0 ∷ crowded.signals)
    × All (λ signal. signal ≢ 1) r.signals
    × ((attempt r "work").0 ≡ acquired)
unfolding attempt lookup insert
release-waiting_example =
    release-waiting crowded "work" 0 1 [] (pos 1) refl refl
      (λ e. ground (arith, (eq_iff "work" "").1 e)) (ground arith) tt refl refl (omega arith)
      (omega arith)

abbrev registry : Registry (Command Value)
registry = record { handlers = [] }

abbrev with_data : Dict Value → Spec Value
with_data d = record (named "work") { payload = some d }

abbrev data_of_two : BarrierData Value
data_of_two = record {
  coordinator_id = "parent";
  expected_count = pos 2;
  continuation = named "after";
  child_ids = "one" ∷ "two" ∷ [];
}

abbrev children : List (Instance Value)
children =
    record (a_command "one" completed) { payload = some (("total", number (pos 7)) ∷ []) }
    ∷ a_command "two" dead_letter
    ∷ []

join_iff_example :
    (All Passes children
      → join env data_of_two children ≡ Verdict.returned (next (resumed env data_of_two children)))
    × ((spec : Spec Value)
        → join env data_of_two children ≡ Verdict.returned (next spec)
        → All Passes children)
    × ((key : String)
        → lookup key (made (resumed env data_of_two children).payload)
          ≡ last_value key
              (lookup key (made data_of_two.continuation.payload))
              (results_of children))
    × (record (resumed env data_of_two children) { payload = data_of_two.continuation.payload }
        ≡ data_of_two.continuation)
unfolding lookup
join_iff_example = join_iff env data_of_two children tt

join_dead_letter_example :
    join env data_of_two children ≡ Verdict.returned (next (resumed env data_of_two children))
join_dead_letter_example = join_dead_letter env data_of_two children (inl refl, (inr refl, tt))

-- the barrier's own command, and a storage with both children
abbrev barrier_job : Instance Value
barrier_job = record (a_command "barrier" pending) {
  payload = some (
      ("coordinator_id", text "parent")
      ∷ ("expected_count", number (pos 2))
      ∷ ("continuation", command "after")
      ∷ ("child_ids", texts ("one" ∷ "two" ∷ []))
      ∷ []);
}

abbrev both : Memory Value
both = record {
  commands = ("one", a_command "one" completed) ∷ ("two", a_command "two" completed) ∷ [];
  closed = false;
}

barrier_execute-next_example : All (ChildPasses env (memory env) both) ("one" ∷ "two" ∷ [])
unfolding barrier_execute decode fetch get lookup clone deep_copy_map join all_complete last_failed
    merge_children add_results merge is_terminal counts_as_failed insert
barrier_execute-next_example =
    barrier_execute-next env (memory env) both barrier_job data_of_two
      (resumed env data_of_two (a_command "one" completed ∷ a_command "two" completed ∷ [])) refl
      refl refl
