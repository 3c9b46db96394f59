-- ===== src/Cli/Stats.antt =====
-- cmd/durex/commands/stats.go: `durex stats`. A percentage and a rate are kept as the two numbers
-- that they are computed from. What stands on the screen when a later part fails is not kept.
pub mod Groups
pub mod Averages
use durex.Prelude.{
  ℕ, suc, ◌+◌, ◌/◌, ℤ, pos, negsuc, ◌+ℤ◌, ◌-ℤ◌, int64, ltb, ltb_ℤ, String, Bool, true, false, not,
  ◌||◌, Option, none, some, List, [], ◌∷◌, ◌++◌, length, Dict, lookup, insert, ◌==◌, if◌then◌else◌,
}
use durex.Status.{Status, same, dead_letter}
use durex.Instance.{Instance, milliseconds}
use durex.Storage.{Storage, Reply, ok, err, Query, any_query}
use durex.Cli.{
  Dialect, Answer, printed, failed, failed_to, count_commands, fetch_commands, ◌>>=◌, on_storage,
}
use durex.Cli.Format.{DurationText, format_duration}

-- a line of the first table: the name, the count, and the total that the percentage is of
pub record StatLine : Type 0 where
  pub name : String
  pub count : ℕ
  pub total : ℕ

-- what is kept of the commands of one name
pub record NameStats : Type 0 where
  pub pending : ℕ
  pub started : ℕ
  pub completed : ℕ
  pub failed : ℕ
  pub total : ℕ

abbrev pub no_stats : NameStats
no_stats = record { pending = 0; started = 0; completed = 0; failed = 0; total = 0 }

-- the variables of the loop over the commands of one name
pub record Durations : Type 0 where
  pub total_attempts : ℤ
  pub total_duration : ℤ
  pub max_duration : ℤ
  pub min_duration : ℤ
  pub success_count : ℕ
  pub failure_count : ℕ

abbrev pub no_durations : Durations
no_durations = record {
  total_attempts = pos 0;
  total_duration = pos 0;
  max_duration = pos 0;
  min_duration = pos 999999999;
  success_count = 0;
  failure_count = 0;
}

pub record DurationLines : Type 0 where
  pub average : DurationText
  pub minimum : DurationText
  pub maximum : DurationText

pub data CommandStats : Type 0 where
  stats_need_queries : CommandStats
  no_commands : String → CommandStats
  -- how many, the successful and the failed, the sum of the attempts, and the durations if any
  -- command was successful
  command_stats : ℕ → ℕ → ℕ → ℤ → Option DurationLines → CommandStats

pub data Breakdown : Type 0 where
  breakdown_needs_queries : Breakdown
  breakdown : Dict NameStats → Breakdown

pub record StatsOutput : Type 0 where
  pub overall : List StatLine
  pub detailed : Option Breakdown
  pub command : Option CommandStats

-- the switch on the status; the other statuses count in the total only
unfoldable pub count_status : Status → NameStats → NameStats
count_status Status.pending s = record s { pending = suc s.pending }
count_status Status.started s = record s { started = suc s.started }
count_status Status.completed s = record s { completed = suc s.completed }
count_status Status.failed s = record s { failed = suc s.failed }
count_status Status.dead_letter s = record s { failed = suc s.failed }
count_status _ s = s

-- Go's division of int64, towards zero, by a count that is not 0
abbrev pub quotient : ℤ → ℕ → ℤ
quotient (pos n) k = pos (n / k)
quotient (negsuc n) k = pos 0 -ℤ pos (suc n / k)

abbrev pub add_duration : Option ℤ → Durations → Durations
add_duration none d = d
add_duration (some t) d = record d {
  total_duration = int64 (d.total_duration +ℤ t);
  max_duration = if ltb_ℤ d.max_duration t then t else d.max_duration;
  min_duration = if ltb_ℤ t d.min_duration then t else d.min_duration;
}

module _ {V : Type 0} where
  unfoldable pub add_command : Dict NameStats → Instance V → Dict NameStats
  unfolding count_status
  add_command stats cmd =
      let s : NameStats = elim (lookup cmd.name stats) [ none ↦ no_stats | some s ↦ s ] in
      insert cmd.name (count_status cmd.status (record s { total = suc s.total })) stats

  unfoldable pub group_by_name : Dict NameStats → List (Instance V) → Dict NameStats
  unfolding add_command
  group_by_name stats [] = stats
  group_by_name stats (cmd ∷ cmds) = group_by_name (add_command stats cmd) cmds

  abbrev pub duration_of : Instance V → Option ℤ
  duration_of cmd = elim cmd.started_at [
    | none ↦ none
    | some s ↦ elim cmd.completed_at [ none ↦ none | some c ↦ some (milliseconds (c -ℤ s)) ]
  ]

  unfoldable pub measure : Durations → Instance V → Durations
  measure d cmd =
      let d' = record d { total_attempts = int64 (d.total_attempts +ℤ cmd.attempt) } in
      if same cmd.status Status.completed
      then add_duration (duration_of cmd) (record d' { success_count = suc d.success_count })
      else if same cmd.status Status.failed || same cmd.status dead_letter
      then record d' { failure_count = suc d.failure_count }
      else d'

  unfoldable pub measure_each : Durations → List (Instance V) → Durations
  unfolding measure
  measure_each d [] = d
  measure_each d (cmd ∷ cmds) = measure_each (measure d cmd) cmds

  unfoldable pub command_lines : List (Instance V) → CommandStats
  unfolding measure_each
  command_lines cmds =
      let d = measure_each no_durations cmds in
      command_stats (length cmds) d.success_count d.failure_count d.total_attempts (
        if ltb 0 d.success_count
        then some (record {
          average = format_duration (quotient d.total_duration d.success_count);
          minimum = format_duration d.min_duration;
          maximum = format_duration d.max_duration;
        })
        else none)

module _ {V : Type 0} (st : Storage V) where
  abbrev count_of : Option Status → st.State → Answer ℕ
  count_of status s = elim (st.count s status) [
    | err x ↦ failed (failed_to count_commands x)
    | ok n ↦ printed n
  ]

  -- the nine counts, in their order
  unfoldable pub overall_stats : st.State → Answer (List StatLine)
  overall_stats s = do
    pending_count ← count_of (some Status.pending) s
    started_count ← count_of (some Status.started) s
    completed_count ← count_of (some Status.completed) s
    failed_count ← count_of (some Status.failed) s
    expired_count ← count_of (some Status.expired) s
    cancelled_count ← count_of (some Status.cancelled) s
    repeating_count ← count_of (some Status.repeating) s
    dead_count ← count_of (some dead_letter) s
    total ← count_of none s
    let line : String → ℕ → StatLine = λ name n. record { name = name; count = n; total = total }
    let head : List StatLine =
        line "Pending" pending_count
        ∷ line "Started" started_count
        ∷ line "Completed" completed_count
        ∷ line "Failed" failed_count
        ∷ line "Expired" expired_count
        ∷ line "Cancelled" cancelled_count
        ∷ line "Repeating" repeating_count
        ∷ []
    let dead_line : List StatLine =
        if ltb 0 dead_count then line "Dead Letter" dead_count ∷ [] else []
    printed (head ++ (dead_line ++ line "TOTAL" total ∷ []))

  unfoldable pub detailed_stats : st.State → Answer Breakdown
  unfolding group_by_name
  detailed_stats s = elim st.find [
    | none ↦ printed breakdown_needs_queries
    | some find ↦ elim (find s any_query) [
      | err x ↦ failed (failed_to fetch_commands x)
      | ok cmds ↦ printed (breakdown (group_by_name [] cmds))
    ]
  ]

  unfoldable pub stats_of_command : String → st.State → Answer CommandStats
  unfolding command_lines
  stats_of_command name s = elim st.find [
    | none ↦ printed stats_need_queries
    | some find ↦ elim (find s (record any_query { name = some name })) [
      | err x ↦ failed (failed_to fetch_commands x)
      | ok [] ↦ printed (no_commands name)
      | ok (cmd ∷ cmds) ↦ printed (command_lines (cmd ∷ cmds))
    ]
  ]

  -- a part that a flag asks for
  abbrev optional {ℓ} : {A : Type ℓ} → Bool → Answer A → Answer (Option A)
  optional false part = printed none
  optional true part = part >>= λ a. printed (some a)

  unfoldable pub run : Answer Dialect → Bool → String → st.State → Answer StatsOutput × st.State
  unfolding overall_stats detailed_stats stats_of_command
  run connected detailed name s = on_storage connected s λ s'. (
    do
      overall ← overall_stats s'
      by_name ← optional detailed (detailed_stats s')
      command ← optional (not (name == "")) (stats_of_command name s')
      printed (record { overall = overall; detailed = by_name; command = command }),
    s',
  )
