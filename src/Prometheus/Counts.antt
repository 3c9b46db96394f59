-- ===== src/Prometheus/Counts.antt =====
-- What a scrape reads after the calls that an executor has made.
use durex.Prelude.{
  suc, ◌+◌, ◌≡◌, String, Bool, false, List, [], ◌∷◌, tally, arith, ◌==◌, if◌then◌else◌,
}
use durex.Executor.{
  Executor, Observed, command_started, command_completed, command_failed, command_retried,
  error_handled,
}
use durex.Prometheus.{
  Client, PrometheusMetrics, PrometheusOption, new_prometheus_metrics, command_started_metric,
  command_completed_metric, command_failed_metric, command_retried_metric, collect_each,
}

-- What the client library documents: a counter starts at 0 and Inc adds 1 to that of its label, a
-- histogram has the number of the observations of each label and their sum, a gauge starts at 0.
pub record IsClient (client : Client) : Type 0 where
  pub value_new : (name : String) → client.value client.new_counters name ≡ 0
  pub value_inc :
      (c : client.Counters) (k name : String)
      → client.value (client.inc c k) name
        ≡ (if k == name then suc (client.value c name) else client.value c name)
  pub count_new : (name : String) → client.sample_count client.new_histograms name ≡ 0
  pub count_observe :
      (h : client.Histograms) (k name : String) (x : client.Float)
      → client.sample_count (client.observe h k x) name
        ≡ (if k == name then suc (client.sample_count h name) else client.sample_count h name)
  pub sum_new : (name : String) → client.sample_sum client.new_histograms name ≡ client.zero
  pub sum_observe :
      (h : client.Histograms) (k name : String) (x : client.Float)
      → client.sample_sum (client.observe h k x) name
        ≡ (if k == name then client.add (client.sample_sum h name) x else client.sample_sum h name)
  pub level_new : client.level client.new_gauge ≡ client.zero

module _ {V : Type 0} (name : String) where
  abbrev pub is_started : Observed V → Bool
  is_started (command_started k) = k == name
  is_started _ = false

  abbrev pub is_completed : Observed V → Bool
  is_completed (command_completed k d) = k == name
  is_completed _ = false

  abbrev pub is_failed : Observed V → Bool
  is_failed (command_failed k err) = k == name
  is_failed _ = false

  abbrev pub is_retried : Observed V → Bool
  is_retried (command_retried k attempt) = k == name
  is_retried _ = false

-- a sum, and what the completed executions of that name took, in seconds, added one after the other
abbrev pub added_durations :
    {V : Type 0} (client : Client) → String → client.Float → List (Observed V) → client.Float
added_durations client name sum [] = sum
added_durations client name sum (command_completed k d ∷ os) =
    added_durations client name (if k == name then client.add sum (client.seconds d) else sum) os
added_durations client name sum (command_started k ∷ os) = added_durations client name sum os
added_durations client name sum (command_failed k err ∷ os) = added_durations client name sum os
added_durations client name sum (command_retried k attempt ∷ os) =
    added_durations client name sum os
added_durations client name sum (error_handled i err ∷ os) = added_durations client name sum os

module _ {V : Type 0} (client : Client) (laws : IsClient client) (name : String) where
  -- the readings after more calls
  abbrev Collected : PrometheusMetrics client → List (Observed V) → Type 0
  Collected m os =
      let m' = collect_each client m os in
      (client.value m'.commands_started name
        ≡ client.value m.commands_started name + tally (is_started name) os)
      × (client.value m'.commands_completed name
          ≡ client.value m.commands_completed name + tally (is_completed name) os)
      × (client.value m'.commands_failed name
          ≡ client.value m.commands_failed name + tally (is_failed name) os)
      × (client.value m'.commands_retried name
          ≡ client.value m.commands_retried name + tally (is_retried name) os)
      × (client.sample_count m'.command_duration name
          ≡ client.sample_count m.command_duration name + tally (is_completed name) os)
      × (client.sample_sum m'.command_duration name
          ≡ added_durations client name (client.sample_sum m.command_duration name) os)
      × (client.level m'.queue_size ≡ client.level m.queue_size)

  collect_each-Collected : (m : PrometheusMetrics client) (os : List (Observed V)) → Collected m os
  unfolding collect_each tally
  collect_each-Collected m [] = ground arith
  collect_each-Collected m (command_started k ∷ os) = ground (
    arith,
    laws.value_inc m.commands_started k name,
    collect_each-Collected (command_started_metric client m k) os,
  )
  collect_each-Collected m (command_completed k d ∷ os) = ground (
    arith,
    laws.value_inc m.commands_completed k name,
    laws.count_observe m.command_duration k name (client.seconds d),
    laws.sum_observe m.command_duration k name (client.seconds d),
    collect_each-Collected (command_completed_metric client m k d) os,
  )
  collect_each-Collected m (command_failed k err ∷ os) = ground (
    arith,
    laws.value_inc m.commands_failed k name,
    collect_each-Collected (command_failed_metric client m k) os,
  )
  collect_each-Collected m (command_retried k attempt ∷ os) = ground (
    arith,
    laws.value_inc m.commands_retried k name,
    collect_each-Collected (command_retried_metric client m k) os,
  )
  collect_each-Collected m (error_handled i err ∷ os) = collect_each-Collected m os

  -- After all calls that an executor has made of a new PrometheusMetrics, whatever its options, each
  -- counter shows for a command's name how many of the calls were of its kind and that name; the
  -- histogram counts the completed executions of that name, and its sum is what they took in
  -- seconds, added in their order. The gauge of the queue's size is still 0.
  pub collect_each-new :
      {S Buckets : Type 0} (e : Executor V S) (def_buckets : Buckets)
      (opts : List (PrometheusOption Buckets))
      → let m = collect_each client (new_prometheus_metrics client def_buckets opts).0 e.observed in
        (client.value m.commands_started name ≡ tally (is_started name) e.observed)
        × (client.value m.commands_completed name ≡ tally (is_completed name) e.observed)
        × (client.value m.commands_failed name ≡ tally (is_failed name) e.observed)
        × (client.value m.commands_retried name ≡ tally (is_retried name) e.observed)
        × (client.sample_count m.command_duration name ≡ tally (is_completed name) e.observed)
        × (client.sample_sum m.command_duration name
            ≡ added_durations client name client.zero e.observed)
        × (client.level m.queue_size ≡ client.zero)
  unfolding new_prometheus_metrics
  collect_each-new e def_buckets opts = ground (
    arith,
    collect_each-Collected (new_prometheus_metrics client def_buckets opts).0 e.observed,
    laws.value_new name,
    laws.count_new name,
    laws.sum_new name,
    laws.level_new,
  )
