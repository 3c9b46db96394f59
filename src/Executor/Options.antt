-- ===== src/Executor/Options.antt =====
-- options.go: the options of New, and the defaults that they start from. A collector or an error
-- handler is present or not; the logger is not modelled.
pub mod Valid
use durex.Prelude.{
  ℕ, ◌+◌, ℤ, pos, ltb_ℤ, pos_part, String, Bool, true, false, Option, none, some, List, [], ◌∷◌,
  ◌++◌, if◌then◌else◌,
}
use durex.RateLimiter.{RateLimiter, new_rate_limiter, set_limit, set_global_limit}
use durex.Executor.{Config, Middleware}

-- the defaults of New
abbrev pub default_config : {V : Type 0} → Config V
default_config = record {
  parallelism = 4;
  queue_size = 1000;
  default_retries = pos 0;
  default_timeout = pos 0;
  default_repeat_interval = pos 60000000000;
  max_delay = pos 86400000000000;
  cleanup_interval = pos 3600000000000;
  cleanup_age = pos 86400000000000;
  shutdown_timeout = pos 30000000000;
  permanent_commands = [];
  backoff = λ attempt. pos 0;
  poll_interval = pos 1000000000;
  claim_batch_size = pos 10;
  stuck_check_interval = pos 0;
  stuck_threshold = pos 300000000000;
  dashboard_addr = "";
  dead_letter_enabled = false;
  middleware = [];
  has_metrics = false;
  has_error_handler = false;
}

-- what an option changes
pub record Settings (V : Type 0) : Type 0 where
  pub config : Config V
  pub rate_limiter : Option RateLimiter

abbrev pub default_settings : {V : Type 0} → Settings V
default_settings = record { config = default_config; rate_limiter = none }

-- if n > 0 { field = n }
abbrev pub if_positive : ℤ → ℤ → ℤ
if_positive n old = if ltb_ℤ (pos 0) n then n else old

abbrev pub or_new : Option RateLimiter → RateLimiter
or_new none = new_rate_limiter
or_new (some r) = r

module _ {V : Type 0} where
  unfoldable pub with_parallelism : ℤ → Config V → Config V
  with_parallelism n c = record c {
    parallelism = if ltb_ℤ (pos 0) n then pos_part n else c.parallelism;
  }

  unfoldable pub with_queue_size : ℤ → Config V → Config V
  with_queue_size size c = record c {
    queue_size = if ltb_ℤ (pos 0) size then pos_part size else c.queue_size;
  }

  -- max(n, 0)
  unfoldable pub with_default_retries : ℤ → Config V → Config V
  with_default_retries n c = record c { default_retries = if ltb_ℤ n (pos 0) then pos 0 else n }

  unfoldable pub with_default_timeout : ℤ → Config V → Config V
  with_default_timeout d c = record c { default_timeout = if_positive d c.default_timeout }

  -- WithDefaultRepeatInterval is the same
  unfoldable pub with_default_period : ℤ → Config V → Config V
  with_default_period d c = record c {
    default_repeat_interval = if_positive d c.default_repeat_interval;
  }

  unfoldable pub with_max_delay : ℤ → Config V → Config V
  with_max_delay d c = record c { max_delay = if_positive d c.max_delay }

  unfoldable pub with_cleanup_interval : ℤ → Config V → Config V
  with_cleanup_interval d c = record c { cleanup_interval = d }

  unfoldable pub with_cleanup_age : ℤ → Config V → Config V
  with_cleanup_age d c = record c { cleanup_age = if_positive d c.cleanup_age }

  unfoldable pub with_stuck_command_recovery : ℤ → ℤ → Config V → Config V
  with_stuck_command_recovery check_interval threshold c = record c {
    stuck_check_interval = check_interval;
    stuck_threshold = if_positive threshold c.stuck_threshold;
  }

  unfoldable pub with_graceful_shutdown : ℤ → Config V → Config V
  with_graceful_shutdown d c = record c { shutdown_timeout = if_positive d c.shutdown_timeout }

  unfoldable pub with_dashboard : String → Config V → Config V
  with_dashboard addr c = record c { dashboard_addr = addr }

  unfoldable pub with_dead_letter_queue : Config V → Config V
  with_dead_letter_queue c = record c { dead_letter_enabled = true }

  unfoldable pub with_metrics : Bool → Config V → Config V
  with_metrics collector c = record c { has_metrics = collector }

  unfoldable pub with_middleware : List (Middleware V) → Config V → Config V
  with_middleware mw c = record c { middleware = c.middleware ++ mw }

  unfoldable pub with_permanent_commands : List String → Config V → Config V
  with_permanent_commands names c = record c { permanent_commands = c.permanent_commands ++ names }

  unfoldable pub with_error_handler : Bool → Config V → Config V
  with_error_handler handler c = record c { has_error_handler = handler }

  -- `none` is a nil strategy
  unfoldable pub with_backoff : Option (ℤ → ℤ) → Config V → Config V
  with_backoff none c = c
  with_backoff (some strategy) c = record c { backoff = strategy }

  unfoldable pub with_poll_interval : ℤ → Config V → Config V
  with_poll_interval d c = record c { poll_interval = if_positive d c.poll_interval }

  unfoldable pub with_claim_batch_size : ℤ → Config V → Config V
  with_claim_batch_size size c = record c { claim_batch_size = if_positive size c.claim_batch_size }

  unfoldable pub with_rate_limiter : Option RateLimiter → Settings V → Settings V
  with_rate_limiter limiter s = record s { rate_limiter = limiter }

  unfoldable pub with_rate_limit : String → ℤ → Settings V → Settings V
  with_rate_limit command_name max_concurrent s = record s {
    rate_limiter = some (set_limit (or_new s.rate_limiter) command_name max_concurrent);
  }

  unfoldable pub with_global_rate_limit : ℤ → Settings V → Settings V
  with_global_rate_limit max_concurrent s = record s {
    rate_limiter = some (set_global_limit (or_new s.rate_limiter) max_concurrent);
  }

-- the options that a program can write
pub data ExecutorOption (V : Type 0) : Type 0 where
  parallelism queue_size default_retries default_timeout default_period max_delay cleanup_interval
        cleanup_age graceful_shutdown poll_interval claim_batch_size global_rate_limit :
      ℤ → ExecutorOption V
  stuck_command_recovery : ℤ → ℤ → ExecutorOption V
  dashboard : String → ExecutorOption V
  dead_letter_queue : ExecutorOption V
  metrics error_handler : Bool → ExecutorOption V
  middleware : List (Middleware V) → ExecutorOption V
  permanent_commands : List String → ExecutorOption V
  backoff : Option (ℤ → ℤ) → ExecutorOption V
  rate_limiter : Option RateLimiter → ExecutorOption V
  rate_limit : String → ℤ → ExecutorOption V

module _ {V : Type 0} where
  abbrev on_config : (Config V → Config V) → Settings V → Settings V
  on_config f s = record s { config = f s.config }

  unfoldable pub apply : ExecutorOption V → Settings V → Settings V
  apply (parallelism n) = on_config (with_parallelism n)
  apply (queue_size n) = on_config (with_queue_size n)
  apply (default_retries n) = on_config (with_default_retries n)
  apply (default_timeout d) = on_config (with_default_timeout d)
  apply (default_period d) = on_config (with_default_period d)
  apply (max_delay d) = on_config (with_max_delay d)
  apply (cleanup_interval d) = on_config (with_cleanup_interval d)
  apply (cleanup_age d) = on_config (with_cleanup_age d)
  apply (graceful_shutdown d) = on_config (with_graceful_shutdown d)
  apply (poll_interval d) = on_config (with_poll_interval d)
  apply (claim_batch_size n) = on_config (with_claim_batch_size n)
  apply (global_rate_limit n) = with_global_rate_limit n
  apply (stuck_command_recovery i t) = on_config (with_stuck_command_recovery i t)
  apply (dashboard a) = on_config (with_dashboard a)
  apply dead_letter_queue = on_config with_dead_letter_queue
  apply (metrics m) = on_config (with_metrics m)
  apply (error_handler h) = on_config (with_error_handler h)
  apply (middleware mw) = on_config (with_middleware mw)
  apply (permanent_commands names) = on_config (with_permanent_commands names)
  apply (backoff b) = on_config (with_backoff b)
  apply (rate_limiter r) = with_rate_limiter r
  apply (rate_limit name n) = with_rate_limit name n

  unfoldable pub apply_all : List (ExecutorOption V) → Settings V → Settings V
  apply_all [] s = s
  apply_all (o ∷ opts) s = apply_all opts (apply o s)
