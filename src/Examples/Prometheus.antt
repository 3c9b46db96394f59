-- ===== src/Examples/Prometheus.antt =====
-- A client of the metrics that counts in functions of the label, and an executor that has run.
use durex.Prelude.{
  ℕ, suc, ◌≡◌, refl, ℤ, pos, String, none, List, [], ◌∷◌, ◌+ℤ◌, ◌*ℤ◌, arith, tally, ◌==◌,
  if◌then◌else◌,
}
use durex.Text.{lit}
use durex.Executor.{Executor, command_started, command_completed, command_failed}
use durex.Storage.Memory.{Memory}
use durex.Prometheus.{Client, namespace_is, collect_each, new_prometheus_metrics}
use durex.Prometheus.Counts.{
  IsClient, is_started, is_completed, is_failed, is_retried, added_durations, collect_each-new,
}
use durex.Examples.Data.{Value, executor, succeeding}

-- numbers with nine decimal places, in the place of floats
abbrev client : Client
client = record {
  Float = ℤ;
  zero = pos 0;
  add = λ a b. a +ℤ b;
  seconds = λ d. d;
  of_int = λ n. n *ℤ pos 1000000000;
  Counters = String → ℕ;
  Histograms = String → ℕ × ℤ;
  Gauge = ℤ;
  new_counters = λ n. 0;
  new_histograms = λ n. (0, pos 0);
  new_gauge = pos 0;
  inc = λ c k n. if k == n then suc (c n) else c n;
  observe = λ h k x n. if k == n then (suc (h n).0, (h n).1 +ℤ x) else h n;
  set = λ g n. n;
  value = λ c n. c n;
  sample_count = λ h n. (h n).0;
  sample_sum = λ h n. (h n).1;
  level = λ g. g;
}

client_laws : IsClient client
client_laws = record {
  value_new = λ n. refl;
  value_inc = λ c k n. refl;
  count_new = λ n. refl;
  count_observe = λ h k n x. ground arith;
  sum_new = λ n. refl;
  sum_observe = λ h k n x. ground arith;
  level_new = refl;
}

abbrev ran : Executor Value (Memory Value)
ran = record (executor succeeding none) {
  observed =
      command_started "work"
      ∷ command_failed "work" (lit "boom")
      ∷ command_started "work"
      ∷ command_completed "work" (pos 5)
      ∷ [];
}

abbrev buckets : List ℕ
buckets = 1 ∷ 5 ∷ []

collect_each-new_example :
    let m =
      collect_each client
        (new_prometheus_metrics client buckets (namespace_is "jobs" ∷ [])).0
        ran.observed in
    (client.value m.commands_started "work" ≡ tally (is_started "work") ran.observed)
    × (client.value m.commands_completed "work" ≡ tally (is_completed "work") ran.observed)
    × (client.value m.commands_failed "work" ≡ tally (is_failed "work") ran.observed)
    × (client.value m.commands_retried "work" ≡ tally (is_retried "work") ran.observed)
    × (client.sample_count m.command_duration "work" ≡ tally (is_completed "work") ran.observed)
    × (client.sample_sum m.command_duration "work"
        ≡ added_durations client "work" (pos 0) ran.observed)
    × (client.level m.queue_size ≡ pos 0)
collect_each-new_example =
    collect_each-new client client_laws "work" ran buckets (namespace_is "jobs" ∷ [])
