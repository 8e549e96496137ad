-- ===== src/Dao/Logs.antt =====
-- internal/repository/dao/callback_log.go: the rows of the callback logs. The database that
-- DefaultCallbackLogDAO is made with is the parameter `LogDb`.
use jotify.Prelude.{ℕ, List, [], ◌∷◌, ◌⊎◌, inl, inr, Option, none, some, String}
use jotify.Prelude.Int.{ℤ}
use jotify.Errs.{Result, ok, err}
use jotify.Dao.{DbError, of_db, CallbackLog, transaction}

-- `pending start_time status start_id limit` are the rows due at the start time with the status,
-- whose id column is above the start id, in the order of that column and at most `limit`;
-- `updates` sets the four columns in the rows with the notification's id.
pub record LogDb : Type 1 where
  pub State : Type 0
  pub pending : ℤ → String → ℕ → ℕ → State → List CallbackLog ⊎ DbError
  pub with_notification_ids : List ℕ → State → List CallbackLog ⊎ DbError
  pub updates : ℕ → ℤ → ℤ → String → ℤ → State → Option DbError × State

-- The notification's id of the last row, and 0 where there is none.
unfoldable pub last_id : List CallbackLog → ℕ
last_id [] = 0
last_id (log ∷ []) = log.notification_id
last_id (log ∷ next ∷ logs) = last_id (next ∷ logs)

module _ (db : LogDb) where
  abbrev pub with_next : List CallbackLog ⊎ DbError → Result (List CallbackLog × ℕ)
  with_next (inl logs) = ok (logs, last_id logs)
  with_next (inr e) = err (of_db e)

  unfoldable pub find : ℤ → ℕ → ℕ → db.State → Result (List CallbackLog × ℕ)
  unfolding last_id
  find start_time start_id batch_size s =
      with_next (db.pending start_time "pending" start_id batch_size s)

  abbrev pub row_updated :
      Option DbError × db.State
      → (db.State → Result (Unit {0}) × db.State)
      → Result (Unit {0}) × db.State
  row_updated (none, s) rest = rest s
  row_updated (some e, s) rest = (err (of_db e), s)

  -- The body of the transaction.
  unfoldable pub update_rows : ℤ → List CallbackLog → db.State → Result (Unit {0}) × db.State
  update_rows now [] s = (ok tt, s)
  update_rows now (log ∷ logs) s =
      row_updated
        (db.updates log.notification_id log.retried_times log.next_retry_at log.status now s)
        (λ t. update_rows now logs t)

  -- `now` is time.Now() in milliseconds.
  unfoldable pub update : ℤ → List CallbackLog → db.State → Result (Unit {0}) × db.State
  unfolding update_rows transaction
  update now [] s = (ok tt, s)
  update now (log ∷ logs) s = transaction (update_rows now (log ∷ logs)) s

  unfoldable pub find_by_notification_ids : List ℕ → db.State → Result (List CallbackLog)
  find_by_notification_ids ids s = elim (db.with_notification_ids ids s) [
    | inl logs ↦ ok logs
    | inr e ↦ err (of_db e)
  ]
