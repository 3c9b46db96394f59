-- ===== src/Prometheus.antt =====
-- prometheus.go: PrometheusMetrics, with its options and its collectors. The client library is the
-- record `Client`, with Go's floating-point numbers; registering is left as the list of what is
-- registered.
pub mod Counts
use durex.Prelude.{
  ℕ, suc, ℤ, String, Option, none, some, List, [], ◌∷◌, ◌++◌, ◌==◌, ◌≡◌, if◌then◌else◌,
}
use durex.Executor.{
  Observed, command_started, command_completed, command_failed, command_retried, error_handled,
}

-- CounterVec, HistogramVec and Gauge, the vectors with the label "command"
pub record Client : Type 1 where
  -- float64, Duration.Seconds, and the conversion of an int
  pub Float : Type 0
  pub zero : Float
  pub add : Float → Float → Float
  pub seconds : ℤ → Float
  pub of_int : ℤ → Float
  pub Counters : Type 0
  pub Histograms : Type 0
  pub Gauge : Type 0
  pub new_counters : Counters
  pub new_histograms : Histograms
  pub new_gauge : Gauge
  -- WithLabelValues(name).Inc(), WithLabelValues(name).Observe(d), Set(n)
  pub inc : Counters → String → Counters
  pub observe : Histograms → String → Float → Histograms
  pub set : Gauge → Float → Gauge
  -- what a scrape reads: of a histogram, the number and the sum of its observations; its buckets are
  -- left out
  pub value : Counters → String → ℕ
  pub sample_count : Histograms → String → ℕ
  pub sample_sum : Histograms → String → Float
  pub level : Gauge → Float

-- A name, with the namespace and the subsystem that stand before it.
pub record MetricName : Type 0 where
  pub namespace : String
  pub subsystem : String
  pub name : String

pub record PrometheusConfig (Buckets : Type 0) : Type 0 where
  pub namespace : String
  pub subsystem : String
  pub buckets : Buckets

pub data PrometheusOption (Buckets : Type 0) : Type 0 where
  namespace_is subsystem_is : String → PrometheusOption Buckets
  buckets_are : Buckets → PrometheusOption Buckets

module _ {Buckets : Type 0} where
  unfoldable pub with_prometheus_namespace :
      String → PrometheusConfig Buckets → PrometheusConfig Buckets
  with_prometheus_namespace n c = record c { namespace = n }

  unfoldable pub with_prometheus_subsystem :
      String → PrometheusConfig Buckets → PrometheusConfig Buckets
  with_prometheus_subsystem s c = record c { subsystem = s }

  unfoldable pub with_prometheus_buckets :
      Buckets → PrometheusConfig Buckets → PrometheusConfig Buckets
  with_prometheus_buckets b c = record c { buckets = b }

  abbrev apply_option :
      PrometheusOption Buckets → PrometheusConfig Buckets → PrometheusConfig Buckets
  apply_option (namespace_is n) = with_prometheus_namespace n
  apply_option (subsystem_is s) = with_prometheus_subsystem s
  apply_option (buckets_are b) = with_prometheus_buckets b

  -- the loop over the options, from the defaults
  unfoldable pub configured :
      PrometheusConfig Buckets → List (PrometheusOption Buckets) → PrometheusConfig Buckets
  unfolding with_prometheus_namespace with_prometheus_subsystem with_prometheus_buckets
  configured c [] = c
  configured c (o ∷ opts) = configured (apply_option o c) opts

  abbrev pub default_prometheus_config : Buckets → PrometheusConfig Buckets
  default_prometheus_config def_buckets = record {
    namespace = "durex";
    subsystem = "";
    buckets = def_buckets;
  }

module _ (client : Client) where
  open client use {
    Counters, Histograms, Gauge, new_counters, new_histograms, new_gauge, inc, observe, set,
    seconds, of_int,
  }

  pub record PrometheusMetrics : Type 0 where
    pub commands_started : Counters
    pub commands_completed : Counters
    pub commands_failed : Counters
    pub commands_retried : Counters
    pub command_duration : Histograms
    pub queue_size : Gauge

  -- the metrics, and the names under which MustRegister is given them
  unfoldable pub new_prometheus_metrics :
      {Buckets : Type 0}
      → Buckets
      → List (PrometheusOption Buckets)
      → PrometheusMetrics × List MetricName
  unfolding configured
  new_prometheus_metrics def_buckets opts =
      let cfg = configured (default_prometheus_config def_buckets) opts in
      let named : String → MetricName =
        λ n. record { namespace = cfg.namespace; subsystem = cfg.subsystem; name = n } in
      (
        record {
          commands_started = new_counters;
          commands_completed = new_counters;
          commands_failed = new_counters;
          commands_retried = new_counters;
          command_duration = new_histograms;
          queue_size = new_gauge;
        },
        named "commands_started_total"
            ∷ named "commands_completed_total"
            ∷ named "commands_failed_total"
            ∷ named "commands_retried_total"
            ∷ named "command_duration_seconds"
            ∷ named "queue_size"
            ∷ [],
      )

  unfoldable pub command_started_metric : PrometheusMetrics → String → PrometheusMetrics
  command_started_metric m name = record m { commands_started = inc m.commands_started name }

  unfoldable pub command_completed_metric : PrometheusMetrics → String → ℤ → PrometheusMetrics
  command_completed_metric m name duration = record m {
    commands_completed = inc m.commands_completed name;
    command_duration = observe m.command_duration name (seconds duration);
  }

  unfoldable pub command_failed_metric : PrometheusMetrics → String → PrometheusMetrics
  command_failed_metric m name = record m { commands_failed = inc m.commands_failed name }

  unfoldable pub command_retried_metric : PrometheusMetrics → String → PrometheusMetrics
  command_retried_metric m name = record m { commands_retried = inc m.commands_retried name }

  -- no code of the library calls it
  unfoldable pub queue_size_metric : PrometheusMetrics → ℤ → PrometheusMetrics
  queue_size_metric m size = record m { queue_size = set m.queue_size (of_int size) }

  -- the calls of the collector that an executor has made; the error handler is another's
  unfoldable pub collect_each :
      {V : Type 0} → PrometheusMetrics → List (Observed V) → PrometheusMetrics
  unfolding command_started_metric command_completed_metric command_failed_metric
      command_retried_metric
  collect_each m [] = m
  collect_each m (command_started name ∷ os) = collect_each (command_started_metric m name) os
  collect_each m (command_completed name d ∷ os) =
      collect_each (command_completed_metric m name d) os
  collect_each m (command_failed name err ∷ os) = collect_each (command_failed_metric m name) os
  collect_each m (command_retried name attempt ∷ os) =
      collect_each (command_retried_metric m name) os
  collect_each m (error_handled i err ∷ os) = collect_each m os
