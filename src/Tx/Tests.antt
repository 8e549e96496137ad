-- ===== src/Tx/Tests.antt =====
-- The theorem on transaction notifications at a concrete policy: five checks, a minute apart.
use mathlib.Core.Path.{subst}
use jotify.Prelude.{
  ◌≡◌, refl, ap, ◌∙◌, arith, Bool, true, false, if◌then◌else◌, [], Option, none, some,
}
use jotify.Prelude.Int.{ℤ, pos, ltb_ℤ, ◌+ℤ◌, ◌≤ℤ◌}
use jotify.Errs.{Result, ok, err, other, returned}
use jotify.Retry.{Strategies, Strategy, new_retry_strategy}
use jotify.Domain.Time.{Duration, minute, unix_epoch}
use jotify.BizConf.{TxNotifConf}
use jotify.Domain.{channel_sms}
use jotify.Repo.{no_config, unix_milli}
use jotify.Tx.{TxNotification, txn_status_prepare, next_check, set_next_check_at_and_status}
use jotify.Tx.NextCheck.{Waits}

-- The interval while there are tries left.
abbrev tries : Duration → ℤ → Strategy
tries interval max_times cnt = if ltb_ℤ cnt max_times then some interval else none

some_le :
    (b : Bool) (interval d : Duration)
    → pos 0 ≤ℤ interval
    → (if b then some interval else none) ≡ some d
    → pos 0 ≤ℤ d
some_le true interval d h e =
    subst (λ (x : Duration). pos 0 ≤ℤ x)
      (ap (λ (o : Option Duration). elim o [ none ↦ interval | some x ↦ x ]) e) h
some_le false interval d h e = ground arith

tries_le :
    (b : Bool) (interval max_times : ℤ) (st : Strategy)
    → ltb_ℤ (pos 0) interval ≡ b
    → Path
        (Result Strategy)
        (if b then ok (tries interval max_times) else err (other "no interval"))
        (ok st)
    → (cnt : ℤ) (d : Duration) → st cnt ≡ some d
    → pos 0 ≤ℤ d
tries_le true interval max_times st e h cnt d f =
    some_le (ltb_ℤ cnt max_times) interval d (ground arith)
      (ap (λ (r : Result Strategy). elim r [ ok x ↦ x cnt | err x ↦ none ]) h ∙ f)
tries_le false interval max_times st e h cnt d f = ground arith

abbrev lib : Strategies
lib = record {
  new_fixed_interval_strategy = λ interval max_times.
      if ltb_ℤ (pos 0) interval then ok (tries interval max_times) else err (other "no interval");
  new_exponential_backoff_strategy = λ first last max_times. err (other "no strategy");
}

lib-Waits : Waits lib
lib-Waits = record {
  fixed-waits = λ interval max_times st h cnt d e. tries_le _ interval max_times st refl h cnt d e;
  exponential-waits = λ first last max_times st h cnt d e. ground arith;
}

abbrev conf : TxNotifConf
conf = record {
  service_name = "orders";
  initial_delay = pos 60;
  retry_policy = some (record {
    type = "fixed_interval";
    fixed_interval = some (record { interval = pos minute; max_times = pos 5 });
    exponential_backoff = none;
  });
}

abbrev payment : TxNotification
payment = record {
  tx_id = 1;
  biz_id = 7;
  biz_key = "payment-1";
  notification = record {
    id = 12;
    biz_id = 7;
    biz_key = "payment-1";
    receivers = [];
    channel = channel_sms;
    template = record { id = 3; version_id = 2; params = [] };
    status = "prepare";
    scheduled_start = pos 0;
    scheduled_end = pos 0;
    version = 1;
    strategy_config = no_config;
  };
  status = txn_status_prepare;
  checked_back_cnt = pos 2;
  next_check_back_at = pos 0;
  create_at = pos 0;
  update_at = pos 0;
}

payment_waits :
    set_next_check_at_and_status lib unix_epoch (some conf) payment
    ≡ returned (ok (record payment { next_check_back_at = pos 60000 }))
unfolding set_next_check_at_and_status next_check new_retry_strategy unix_milli ◌+ℤ◌
payment_waits = refl
