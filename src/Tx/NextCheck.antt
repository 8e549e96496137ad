-- ===== src/Tx/NextCheck.antt =====
-- When the next check of a transaction is.
use text.Mathlib.Text.{◌==◌}
use jotify.Prelude.{
  if◌then◌else◌, ◌⊎◌, inl, inr, ◌≡◌, refl, arith, Bool, true, false, Option, none, some,
}
use jotify.Prelude.Int.{ℤ, pos, negsuc, ◌+ℤ◌, ◌≤ℤ◌}
use jotify.Errs.{Result, ok, err, Error, Run, returned, panicked}
use jotify.Retry.{
  Config, Strategy, Strategies, new_retry_strategy, fixed, exponential, FixedIntervalConfig,
  ExponentialBackoffConfig,
}
use jotify.Domain.Time.{Time, Duration}
use jotify.Repo.{unix_milli}
use jotify.BizConf.{TxNotifConf}
use jotify.Tx.{
  TxNotification, txn_status_failed, next_with_retried, next_check, checked_next, of_policy,
  set_next_check_at_and_status,
}

unix_milli_le : (t : Time) (d : Duration) → pos 0 ≤ℤ d → unix_milli t ≤ℤ unix_milli (t +ℤ d)
unfolding unix_milli ◌+ℤ◌
unix_milli_le (pos n) (pos d) h = ground arith
unix_milli_le (pos n) (negsuc d) h = ground arith
unix_milli_le (negsuc n) (negsuc d) h = ground arith
unix_milli_le (negsuc n) (pos d) h = ground arith

-- The strategies wait: no interval that they give is negative.
pub record Waits (lib : Strategies) : Type 0 where
  pub fixed-waits :
      (interval : Duration) (max_times : ℤ) (st : Strategy)
      → lib.new_fixed_interval_strategy interval max_times ≡ ok st
      → (cnt : ℤ) (d : Duration) → st cnt ≡ some d
      → pos 0 ≤ℤ d
  pub exponential-waits :
      (init_interval max_interval : Duration) (max_times : ℤ) (st : Strategy)
      → lib.new_exponential_backoff_strategy init_interval max_interval max_times ≡ ok st
      → (cnt : ℤ) (d : Duration) → st cnt ≡ some d
      → pos 0 ≤ℤ d

-- What SetNextCheckAtAndStatus does to a transaction: it panics, which only a policy without the
-- part of its type does, or keeps the status and has a next check that is not in the past, or has
-- failed and has none.
pub data Checked (lib : Strategies) (now : Time) (tn : TxNotification)
    : Option TxNotifConf → Run TxNotification → Type 0 where
  partless :
      {conf : TxNotifConf} (policy : Config)
      → conf.retry_policy ≡ some policy
      → (policy.fixed_interval ≡ none) ⊎ (policy.exponential_backoff ≡ none)
      → Checked lib now tn (some conf) panicked
  later :
      {conf : TxNotifConf} (at : ℤ)
      → unix_milli now ≤ℤ at
      → Checked lib now tn (some conf) (returned (ok (record tn { next_check_back_at = at })))
  gives_up :
      {conf : Option TxNotifConf}
      → Checked lib now tn conf
          (returned (ok (record tn { next_check_back_at = pos 0; status = txn_status_failed })))

-- What is known of the strategy of a policy.
data Chosen (policy : Config) : Run Strategy → Type 0 where
  partless :
      (policy.fixed_interval ≡ none) ⊎ (policy.exponential_backoff ≡ none) → Chosen policy panicked
  refused : (e : Error) → Chosen policy (returned (err e))
  waits :
      (st : Strategy)
      → ((cnt : ℤ) (d : Duration) → st cnt ≡ some d → pos 0 ≤ℤ d)
      → Chosen policy (returned (ok st))

module _ (lib : Strategies) (laws : Waits lib) where
  of_new :
      (policy : Config) (r : Result Strategy)
      → ((st : Strategy) → r ≡ ok st → (cnt : ℤ) (d : Duration) → st cnt ≡ some d → pos 0 ≤ℤ d)
      → Chosen policy (returned r)
  of_new policy (err e) h = Chosen.refused e
  of_new policy (ok st) h = Chosen.waits st (h st refl)

  fixed-Chosen :
      (policy : Config) (part : Option FixedIntervalConfig)
      → policy.fixed_interval ≡ part
      → Chosen policy (fixed lib part)
  fixed-Chosen policy none e = Chosen.partless (inl e)
  fixed-Chosen policy (some c) e =
      of_new policy _ (λ st h. laws.fixed-waits c.interval c.max_times st h)

  exponential-Chosen :
      (policy : Config) (part : Option ExponentialBackoffConfig)
      → policy.exponential_backoff ≡ part
      → Chosen policy (exponential lib part)
  exponential-Chosen policy none e = Chosen.partless (inr e)
  exponential-Chosen policy (some c) e =
      of_new policy _
        (λ st h. laws.exponential-waits c.init_interval c.max_interval c.max_times st h)

  new_retry_strategy-Chosen : (policy : Config) → Chosen policy (new_retry_strategy lib policy)
  unfolding new_retry_strategy
  new_retry_strategy-Chosen policy =
      branch (policy.type == "fixed_interval") (policy.type == "exponential_backoff") _
        (fixed-Chosen policy policy.fixed_interval refl)
        (exponential-Chosen policy policy.exponential_backoff refl)
    where
      branch :
          (b c : Bool) {f x : Run Strategy} (e : Error)
          → Chosen policy f
          → Chosen policy x
          → Chosen policy (if b then f else if c then x else returned (err e))
      branch true c e f x = f
      branch false true e f x = x
      branch false false e f x = Chosen.refused e

  of_next :
      (now : Time) (tn : TxNotification) (conf : TxNotifConf) (o : Option Duration)
      → ((d : Duration) → o ≡ some d → pos 0 ≤ℤ d)
      → Checked lib now tn (some conf) (checked_next lib now tn (returned (ok o)))
  of_next now tn conf none h = Checked.gives_up
  of_next now tn conf (some d) h = Checked.later _ (unix_milli_le now d (h d refl))

  of_run :
      (now : Time) (tn : TxNotification) (conf : TxNotifConf) (policy : Config) (r : Run Strategy)
      → conf.retry_policy ≡ some policy
      → Chosen policy r
      → Checked lib now tn
          (some conf)
          (checked_next lib now tn (next_with_retried tn.checked_back_cnt r))
  of_run now tn conf policy _ e (Chosen.partless h) = Checked.partless policy e h
  of_run now tn conf policy _ e (Chosen.refused x) = Checked.gives_up
  of_run now tn conf policy _ e (Chosen.waits st h) =
      of_next now tn conf (st tn.checked_back_cnt) (h tn.checked_back_cnt)

  -- With strategies whose intervals are not negative, a transaction whose next check is set keeps
  -- its status and has a next check that is not in the past, or has failed and has none; only a
  -- policy that lacks a part of its configuration panics.
  set_next_check_at_and_status-Checked :
      (now : Time) (conf : Option TxNotifConf) (tn : TxNotification)
      → Checked lib now tn conf (set_next_check_at_and_status lib now conf tn)
  unfolding set_next_check_at_and_status next_check
  set_next_check_at_and_status-Checked now none tn = Checked.gives_up
  set_next_check_at_and_status-Checked now (some conf) tn = of_policy_Checked conf.retry_policy refl
    where
      of_policy_Checked :
          (policy : Option Config)
          → conf.retry_policy ≡ policy
          → Checked lib now tn
              (some conf)
              (checked_next lib now tn (of_policy lib tn.checked_back_cnt policy))
      of_policy_Checked none e = Checked.gives_up
      of_policy_Checked (some policy) e =
          of_run now tn conf policy _ e (new_retry_strategy-Chosen policy)
