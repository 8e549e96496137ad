-- ===== src/Retry.antt =====
-- internal/pkg/retry/retry.go: the strategy of a retry configuration. The strategies themselves
-- are those of easy-kit, the parameter `Strategies`.
use text.Mathlib.Text.{◌==◌}
use Prim.Native.String.{◌++◌}
use jotify.Prelude.{String, Option, none, some, if◌then◌else◌}
use jotify.Prelude.Int.{ℤ}
use jotify.Errs.{Result, err, other, Run, returned, panicked}
use jotify.Domain.Time.{Duration}

pub record FixedIntervalConfig : Type 0 where
  pub interval : Duration
  pub max_times : ℤ

pub record ExponentialBackoffConfig : Type 0 where
  pub init_interval : Duration
  pub max_interval : Duration
  pub max_times : ℤ

pub record Config : Type 0 where
  pub type : String
  pub fixed_interval : Option FixedIntervalConfig
  pub exponential_backoff : Option ExponentialBackoffConfig

-- A retry.Strategy, by its NextWithRetried: the interval where there is one more try.
abbrev pub Strategy : Type 0
Strategy = ℤ → Option Duration

pub record Strategies : Type 0 where
  pub new_fixed_interval_strategy : Duration → ℤ → Result Strategy
  pub new_exponential_backoff_strategy : Duration → Duration → ℤ → Result Strategy

module _ (lib : Strategies) where
  -- A configuration that is nil panics where its field is read.
  abbrev pub fixed : Option FixedIntervalConfig → Run Strategy
  fixed none = panicked
  fixed (some c) = returned (lib.new_fixed_interval_strategy c.interval c.max_times)

  abbrev pub exponential : Option ExponentialBackoffConfig → Run Strategy
  exponential none = panicked
  exponential (some c) =
      returned (lib.new_exponential_backoff_strategy c.init_interval c.max_interval c.max_times)

  unfoldable pub new_retry_strategy : Config → Run Strategy
  new_retry_strategy cfg =
      if cfg.type == "fixed_interval"
      then fixed cfg.fixed_interval
      else if cfg.type == "exponential_backoff"
      then exponential cfg.exponential_backoff
      else returned (err (other ("unknown retry strategy type: " ++ cfg.type)))
