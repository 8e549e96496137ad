-- ===== src/Callback/Quiet.antt =====
-- What the calls of other services leave as it is, the loop over the logs does.
use jotify.Prelude.{ℕ, String, Bool, true, false, List, [], ◌∷◌, Option, none, some}
use jotify.Prelude.Maps.{lookup}
use jotify.Errs.{Result, ok, err, Run, returned, panicked, running}
use jotify.Domain.Notification.{Notification}
use jotify.Callback.{
  Calls, NotifyRequest, CallbackLog, CallbackConf, State, ConfMap, stored, loaded, get_conf,
  notified, build_notify_req, send_callback, retried, changed, send_and_set_change_fields, next_log,
  kept, send_logs,
}

module _ {ℓ} {S : Type 0} (c : Calls S) (P : S → Type ℓ)
    (asked : (b : ℕ) (s : S) → P s → P (c.get_by_id b s).1)
    (sent : (name : String) (r : NotifyRequest) (s : S)
      → P s
      → P (c.send_result_notify name r s).1) where
  stored-keeps :
      (b : ℕ) (m : ConfMap c) (x : Result (Option CallbackConf) × S)
      → P x.1
      → P (stored c b m x).1.1
  unfolding stored
  stored-keeps b m (err e, s) p = p
  stored-keeps b m (ok none, s) p = p
  stored-keeps b m (ok (some conf), s) p = p

  get_conf-keeps : (b : ℕ) (st : State c) → P st.1 → P (get_conf c b st).1.1
  unfolding get_conf
  get_conf-keeps b (m, s) p = either (lookup b m)
    where
      either :
          (o : Option CallbackConf) → P (loaded c o (stored c b m (c.get_by_id b s)) (m, s)).1.1
      either none = stored-keeps b m (c.get_by_id b s) (asked b s p)
      either (some conf) = p

  notified-keeps :
      (n : Notification) (x : Result (Option CallbackConf) × State c)
      → P x.1.1
      → P (notified c n x).1.1
  unfolding notified
  notified-keeps n (err e, st) p = p
  notified-keeps n (ok none, st) p = p
  notified-keeps n (ok (some conf), (m, s)) p = sent conf.service_name (build_notify_req n) s p

  retried-keeps :
      (log : CallbackLog) (x : Result (Option CallbackConf) × State c)
      → P x.1.1
      → P (retried c log x).1.1
  unfolding retried
  retried-keeps log (err e, st) p = p
  retried-keeps log (ok none, st) p = p
  retried-keeps log (ok (some conf), st) p = p

  changed-keeps :
      (log : CallbackLog) (x : Result Bool × State c) → P x.1.1 → P (changed c log x).1.1
  unfolding changed
  changed-keeps log (err e, st) p = p
  changed-keeps log (ok true, st) p = p
  changed-keeps log (ok false, st) p =
      retried-keeps log (get_conf c log.notification.biz_id st)
        (get_conf-keeps log.notification.biz_id st p)

  kept-keeps :
      (b : Bool) (log : CallbackLog) (x : Run (List CallbackLog) × State c)
      → P x.1.1
      → P (kept c b log x).1.1
  kept-keeps b log (returned (err e), st) p = p
  kept-keeps b log (returned (ok params), st) p = p
  kept-keeps b log (panicked, st) p = p
  kept-keeps b log (running, st) p = p

  next_log-keeps :
      (log : CallbackLog) (x : Run (Bool × CallbackLog) × State c)
      (rest : State c → Run (List CallbackLog) × State c)
      → P x.1.1
      → ((st : State c) → P st.1 → P (rest st).1.1)
      → P (next_log c log x rest).1.1
  next_log-keeps log (returned (err e), st) rest p h = h st p
  next_log-keeps log (returned (ok (b, own)), st) rest p h = kept-keeps b log (rest st) (h st p)
  next_log-keeps log (panicked, st) rest p h = p
  next_log-keeps log (running, st) rest p h = p

  pub send_logs-keeps :
      (logs : List CallbackLog) (st : State c) → P st.1 → P (send_logs c logs st).1.1
  unfolding send_logs send_and_set_change_fields send_callback
  send_logs-keeps [] st p = p
  send_logs-keeps (log ∷ logs) st p =
      next_log-keeps log (send_and_set_change_fields c log st) _
        (changed-keeps log (send_callback c log.notification st) (
          notified-keeps log.notification (get_conf c log.notification.biz_id st)
            (get_conf-keeps log.notification.biz_id st p)))
        (λ t q. send_logs-keeps logs t q)
