-- ===== src/Executor/Barrier.antt =====
-- barrier.go: the internal command that waits for the children of a SpawnThen.
pub mod Join
use Prim.Native.String.{◌++◌ as string_append}
use durex.Prelude.{
  ℤ, pos, ltb_ℤ, ◌+ℤ◌, int64, is_zero, String, Bool, true, false, ◌||◌, Option, none, some, List,
  [], ◌∷◌, Dict, lookup, insert, merge, ◌==◌, if◌then◌else◌,
}
use durex.Text.{barrier_decode, barrier_missing, barrier_child_failed}
use durex.Status.{Status, is_terminal}
use durex.Spec.{Spec, zero_spec, made}
use durex.Instance.{Instance, set, get_int}
use durex.Result.{next, repeat}
use durex.Storage.{Storage, Reply, ok, err}
use durex.Env.{Env}
use durex.Executor.{Outcome, Verdict}

pub record BarrierData (V : Type 0) : Type 0 where
  pub coordinator_id : String
  pub expected_count : ℤ
  pub continuation : Spec V
  pub child_ids : List String

abbrev check_count : String
check_count = "_barrier_check_count"

-- a field of the JSON object: its zero value when the key is missing
abbrev field {ℓ} : {V : Type 0} {A : Type ℓ} → Dict V → String → A → (V → Option A) → Option A
field m key zero_value decode = elim (lookup key m) [ none ↦ some zero_value | some v ↦ decode v ]

infixl 5 ◌>>=◌
abbrev ◌>>=◌ {ℓ κ} : {A : Type ℓ} {B : Type κ} → Option A → (A → Option B) → Option B
none >>= f = none
some a >>= f = f a

-- the failing statuses that the barrier looks for
unfoldable pub counts_as_failed : Status → Bool
counts_as_failed Status.failed = true
counts_as_failed Status.expired = true
counts_as_failed Status.cancelled = true
counts_as_failed _ = false

-- the scan of the children: whether all are terminal, up to the first that is not
unfoldable pub all_complete : {V : Type 0} → List (Instance V) → Bool
all_complete [] = true
all_complete (c ∷ cs) = if is_terminal c.status then all_complete cs else false

-- the id of the last child that counts as failed
unfoldable pub last_failed : {V : Type 0} → Option String → List (Instance V) → Option String
last_failed found [] = found
last_failed found (c ∷ cs) = last_failed (if counts_as_failed c.status then some c.id else found) cs

-- fmt.Sprintf("_barrier_result_%s_", s) + k
abbrev result_key : String → String → String
result_key s k = string_append (string_append (string_append "_barrier_result_" s) "_") k

-- the results of one child, under its id and under its name
unfoldable pub add_results : {V : Type 0} → Dict V → Instance V → Dict V → Dict V
add_results dst child [] = dst
add_results dst child ((k, v) ∷ rest) =
    add_results
      (if k == check_count || k == "_barrier_parent"
        then dst
        else insert (result_key child.name k) v (insert (result_key child.id k) v dst))
      child rest

unfoldable pub merge_children : {V : Type 0} → Dict V → List (Instance V) → Dict V
merge_children dst [] = dst
merge_children dst (c ∷ cs) = merge_children (add_results dst c (made c.payload)) cs

module _ (env : Env) where
  open env use {Any, of_int, to_int, to_string, to_strings, to_spec}

  -- json.Marshal of the payload, then json.Unmarshal into barrierData
  unfoldable pub decode : Option (Dict Any) → Option (BarrierData Any)
  decode payload = do
    coordinator ← field (made payload) "coordinator_id" "" to_string
    expected ← field (made payload) "expected_count" (pos 0) to_int
    spec ← field (made payload) "continuation" zero_spec to_spec
    ids ← field (made payload) "child_ids" [] to_strings
    some (record {
      coordinator_id = coordinator;
      expected_count = expected;
      continuation = spec;
      child_ids = ids;
    })

  -- another check that found children missing; the 31st gives up
  unfoldable pub wait_for_missing : Instance Any → List String → Outcome Any
  wait_for_missing cmd missing =
      let count = int64 (get_int env cmd check_count +ℤ pos 1) in
      let cmd' = set cmd check_count (of_int count) in
      record {
        instance_after = cmd';
        verdict =
            if ltb_ℤ (pos 30) (get_int env cmd' check_count)
            then Verdict.failed (barrier_missing missing)
            else Verdict.returned repeat;
      }

  unfoldable pub join : BarrierData Any → List (Instance Any) → Verdict Any
  join barrier_data children =
      if all_complete children
      then (elim (last_failed none children) [
        | some id ↦ Verdict.failed (barrier_child_failed id)
        | none ↦ Verdict.returned (
            next (record continuation {
              payload = some (merge_children (merge [] (made continuation.payload)) children);
            }))
      ])
      else Verdict.returned repeat
    where
      open barrier_data use {continuation}

module _ (env : Env) (st : Storage env.Any) where
  open env use {Any}

  abbrev found :
      Reply (Instance Any)
      → String
      → List (Instance Any) × List String
      → List (Instance Any) × List String
  found (ok child) id (children, missing) = (child ∷ children, missing)
  found (err x) id (children, missing) = (children, id ∷ missing)

  -- the children that were found, and the ids of the others: any error counts as missing
  unfoldable pub fetch : st.State → List String → List (Instance Any) × List String
  fetch s [] = ([], [])
  fetch s (id ∷ ids) = found (st.get s id) id (fetch s ids)

  abbrev resume : Instance Any → BarrierData Any → List (Instance Any) × List String → Outcome Any
  resume cmd barrier_data (children, []) = record {
    instance_after = cmd;
    verdict = join env barrier_data children;
  }
  resume cmd barrier_data (children, id ∷ ids) = wait_for_missing env cmd (id ∷ ids)

  abbrev no_children : BarrierData Any → Bool
  no_children d = is_zero d.expected_count || elim d.child_ids [ [] ↦ true | id ∷ ids ↦ false ]

  unfoldable pub barrier_execute : st.State → Instance Any → Outcome Any
  barrier_execute s cmd = elim (decode env cmd.payload) [
    | none ↦ record { instance_after = cmd; verdict = Verdict.failed barrier_decode }
    | some barrier_data ↦
        if no_children barrier_data
        then record {
          instance_after = cmd;
          verdict = Verdict.returned (next barrier_data.continuation);
        }
        else resume cmd barrier_data (fetch s barrier_data.child_ids)
  ]
