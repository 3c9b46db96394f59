-- ===== src/Cron.antt =====
-- cron.go over the cron parser of the environment. The zero time is `none`.
use durex.Prelude.{ℤ, String, Bool, true, false, Option, none, some}
use durex.Env.{Env}

module _ (env : Env) where
  open env use {Schedule, parse_schedule, next_after}

  -- `none` is ErrInvalidCron
  unfoldable pub parse_cron : String → Option Schedule
  parse_cron expr = parse_schedule expr

  unfoldable pub validate_cron : String → Bool
  unfolding parse_cron
  validate_cron expr = elim (parse_cron expr) [ none ↦ false | some schedule ↦ true ]

  unfoldable pub next_cron_time : String → ℤ → Option ℤ
  unfolding parse_cron
  next_cron_time expr after = elim (parse_cron expr) [
    | none ↦ none
    | some schedule ↦ next_after schedule after
  ]

  pub record CronSchedule : Type 0 where
    pub expr : String
    pub schedule : Schedule

  unfoldable pub new_cron_schedule : String → Option CronSchedule
  unfolding parse_cron
  new_cron_schedule e = elim (parse_cron e) [
    | none ↦ none
    | some s ↦ some (record { expr = e; schedule = s })
  ]

  unfoldable pub next : CronSchedule → ℤ → Option ℤ
  next c after = next_after c.schedule after

  unfoldable pub cron_string : CronSchedule → String
  cron_string c = c.expr

-- the predefined expressions
pub data Predefined : Type 0 where
  cron_every_minute : Predefined
  cron_every_5_minutes : Predefined
  cron_every_15_minutes : Predefined
  cron_every_30_minutes : Predefined
  cron_hourly : Predefined
  cron_daily : Predefined
  cron_weekly : Predefined
  cron_monthly : Predefined
  cron_weekdays : Predefined
  cron_weekends : Predefined

unfoldable pub expression : Predefined → String
expression cron_every_minute = "* * * * *"
expression cron_every_5_minutes = "*/5 * * * *"
expression cron_every_15_minutes = "*/15 * * * *"
expression cron_every_30_minutes = "*/30 * * * *"
expression cron_hourly = "0 * * * *"
expression cron_daily = "0 0 * * *"
expression cron_weekly = "0 0 * * 0"
expression cron_monthly = "0 0 1 * *"
expression cron_weekdays = "0 0 * * 1-5"
expression cron_weekends = "0 0 * * 0,6"
