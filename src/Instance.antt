-- ===== src/Instance.antt =====
-- instance.go: a command with its runtime state. The clock's reading is an argument.
pub mod Json
use durex.Prelude.{
  ℕ, zero, suc, ◌/◌, ℤ, pos, negsuc, ◌-ℤ◌, ltb_ℤ, String, Bool, false, ◌||◌, Option, none, some,
  List, [], ◌∷◌, ◌++◌, Dict, lookup, insert, merge, ◌==◌,
}
use durex.Text.{Text, empty_text}
use durex.Status.{Status}
use durex.Event.{Event, EventType}
use durex.Spec.{zero_spec, made}
use durex.Result.{Result, empty, next}
use durex.Env.{Env}

pub record Instance (V : Type 0) : Type 0 where
  pub id : String
  pub name : String
  pub payload : Option (Dict V)
  pub status : Status
  pub retries : ℤ
  pub sequence : List String
  pub parent_id : Option String
  pub priority : ℤ
  pub tags : List String
  pub unique_key : String
  pub trace_id : String
  pub correlation_id : String
  pub created_at : ℤ
  pub ready_at : ℤ
  pub started_at : Option ℤ
  pub completed_at : Option ℤ
  pub deadline_at : Option ℤ
  pub timeout : ℤ
  pub period : ℤ
  pub cron : String
  pub error : Text
  pub attempt : ℤ
  pub metadata : Option (Dict V)
  pub history : List Event

mem_tag : List String → String → Bool
mem_tag [] tag = false
mem_tag (t ∷ tags) tag = t == tag || mem_tag tags tag

-- Data[key], on a nil map too
unfoldable pub get : {V : Type 0} → Instance V → String → Option V
get i key = lookup key (made i.payload)

unfoldable pub set : {V : Type 0} → Instance V → String → V → Instance V
set i key value = record i { payload = some (insert key value (made i.payload)) }

module _ (env : Env) where
  open env use {Any, round_trip, as_string, as_bool, as_int, as_int64, as_float64, as_slice, as_map}

  -- v, _ := i.Data[key].(A), with the zero value of A; nil has no type
  abbrev asserted {ℓ} : {A : Type ℓ} → A → (Any → Option A) → Option Any → A
  asserted z cast none = z
  asserted z cast (some v) = elim (cast v) [ none ↦ z | some a ↦ a ]

  unfoldable pub get_string : Instance Any → String → String
  unfolding get
  get_string i key = asserted "" as_string (get i key)

  -- the cases of the type switch, in their order
  abbrev int_of_any : Any → Option ℤ
  int_of_any v = elim (as_int v) [
    | some n ↦ some n
    | none ↦ elim (as_int64 v) [ some n ↦ some n | none ↦ as_float64 v ]
  ]

  unfoldable pub get_int : Instance Any → String → ℤ
  unfolding get
  get_int i key = asserted (pos 0) int_of_any (get i key)

  unfoldable pub get_bool : Instance Any → String → Bool
  unfolding get
  get_bool i key = asserted false as_bool (get i key)

  unfoldable pub get_slice : Instance Any → String → List Any
  unfolding get
  get_slice i key = asserted [] as_slice (get i key)

  -- `none` is a nil map
  unfoldable pub get_map : Instance Any → String → Option (Dict Any)
  unfolding get
  get_map i key =
      asserted none (λ v. elim (as_map v) [ none ↦ none | some m ↦ some (some m) ]) (get i key)

  -- the shallow copy of the fallback holds the same entries
  unfoldable pub deep_copy_map : Option (Dict Any) → Option (Dict Any)
  deep_copy_map none = none
  deep_copy_map (some m) = elim (round_trip m) [ none ↦ some m | some r ↦ some r ]

  -- copies of slices hold what the slices hold
  unfoldable pub clone : Instance Any → Instance Any
  unfolding deep_copy_map
  clone i = record i { payload = deep_copy_map i.payload; metadata = deep_copy_map i.metadata }

  unfoldable pub continue_sequence : Instance Any → Dict Any → Result Any
  unfolding deep_copy_map
  continue_sequence i additional_data = elim i.sequence [
    | [] ↦ empty
    | next_name ∷ remaining ↦ next (record zero_spec {
      name = next_name;
      payload = some (merge (made (deep_copy_map i.payload)) additional_data);
      sequence = remaining;
      trace_id = i.trace_id;
      correlation_id = i.correlation_id;
    })
  ]

-- Duration.Milliseconds
abbrev pub milliseconds : ℤ → ℤ
milliseconds (pos n) = pos (n / 1000000)
milliseconds (negsuc n) = neg (suc n / 1000000)
  where
    neg : ℕ → ℤ
    neg zero = pos 0
    neg (suc k) = negsuc k

module _ {V : Type 0} where
  unfoldable pub record_event : Instance V → EventType → ℤ → Text → Instance V
  record_event i event_type now message = record i { history = i.history ++ event ∷ [] }
    where
      event : Event
      event = record {
        type = event_type;
        timestamp = now;
        attempt = i.attempt;
        error = empty_text;
        duration_ms = pos 0;
        message = message;
      }

  -- Milliseconds() of a duration drops what is less, towards zero
  unfoldable pub record_event_with_duration : Instance V → EventType → ℤ → ℤ → Text → Instance V
  record_event_with_duration i event_type now duration message = record i {
    history = i.history ++ event ∷ [];
  }
    where
      event : Event
      event = record {
        type = event_type;
        timestamp = now;
        attempt = i.attempt;
        error = empty_text;
        duration_ms = milliseconds duration;
        message = message;
      }

  unfoldable pub record_error : Instance V → EventType → ℤ → Text → Instance V
  record_error i event_type now err = record i { history = i.history ++ event ∷ [] }
    where
      event : Event
      event = record {
        type = event_type;
        timestamp = now;
        attempt = i.attempt;
        error = err;
        duration_ms = pos 0;
        message = empty_text;
      }

  unfoldable pub duration : Instance V → ℤ
  duration i = elim i.started_at [
    | none ↦ pos 0
    | some s ↦ elim i.completed_at [ none ↦ pos 0 | some c ↦ c -ℤ s ]
  ]

  unfoldable pub age : Instance V → ℤ → ℤ
  age i now = now -ℤ i.created_at

  unfoldable pub is_overdue : Instance V → ℤ → Bool
  is_overdue i now = elim i.deadline_at [ none ↦ false | some d ↦ ltb_ℤ d now ]

  unfoldable pub has_tag : Instance V → String → Bool
  unfolding mem_tag
  has_tag i tag = mem_tag i.tags tag
