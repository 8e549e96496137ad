-- ===== src/Tx.antt =====
-- internal/domain/notification_tx.go: the notification of a transaction, and when its business is
-- asked next whether the transaction was committed. `now` is time.Now() at the call.
pub mod NextCheck
mod Tests
use jotify.Prelude.{ℕ, String, Option, none, some}
use jotify.Prelude.Int.{ℤ, pos, ◌+ℤ◌}
use jotify.Errs.{Result, ok, err, Run, returned, panicked, running}
use jotify.Retry.{Config, Strategy, Strategies, new_retry_strategy}
use jotify.Domain.Time.{Time, Duration}
use jotify.Domain.Notification.{Notification, set_send_time as set_window}
use jotify.Repo.{unix_milli}
use jotify.BizConf.{TxNotifConf}

abbrev pub TxNotifStatus : Type 0
TxNotifStatus = String

abbrev pub txn_status_prepare : TxNotifStatus
txn_status_prepare = "prepare"

abbrev pub txn_status_commit : TxNotifStatus
txn_status_commit = "commit"

abbrev pub txn_status_cancel : TxNotifStatus
txn_status_cancel = "cancel"

abbrev pub txn_status_failed : TxNotifStatus
txn_status_failed = "failed"

pub record TxNotification : Type 0 where
  pub tx_id : ℕ
  pub biz_id : ℕ
  pub biz_key : String
  pub notification : Notification
  pub status : TxNotifStatus
  pub checked_back_cnt : ℤ
  pub next_check_back_at : ℤ
  pub create_at : ℤ
  pub update_at : ℤ

-- Where there is no next check, there is no answer.
abbrev pub next_with_retried : ℤ → Run Strategy → Run (Option Duration)
next_with_retried cnt panicked = panicked
next_with_retried cnt running = running
next_with_retried cnt (returned (err e)) = returned (ok none)
next_with_retried cnt (returned (ok strategy)) = returned (ok (strategy cnt))

module _ (lib : Strategies) where
  abbrev pub of_policy : ℤ → Option Config → Run (Option Duration)
  of_policy cnt none = returned (ok none)
  of_policy cnt (some policy) = next_with_retried cnt (new_retry_strategy lib policy)

  unfoldable pub next_check : Option TxNotifConf → TxNotification → Run (Option Duration)
  unfolding new_retry_strategy
  next_check none tn = returned (ok none)
  next_check (some conf) tn = of_policy tn.checked_back_cnt conf.retry_policy

  abbrev pub checked_next : Time → TxNotification → Run (Option Duration) → Run TxNotification
  checked_next now tn (returned (ok (some next))) =
      returned (ok (record tn { next_check_back_at = unix_milli (now +ℤ next) }))
  checked_next now tn (returned _) =
      returned (ok (record tn { next_check_back_at = pos 0; status = txn_status_failed }))
  checked_next now tn panicked = panicked
  checked_next now tn running = running

  unfoldable pub set_next_check_at_and_status :
      Time → Option TxNotifConf → TxNotification → Run TxNotification
  unfolding next_check unix_milli
  set_next_check_at_and_status now conf tn = checked_next now tn (next_check conf tn)

unfoldable pub set_send_time : Time → TxNotification → TxNotification
unfolding set_window
set_send_time now tn = record tn { notification = set_window now tn.notification }
