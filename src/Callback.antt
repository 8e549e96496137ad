-- ===== src/Callback.antt =====
-- internal/service/notification/callback/callback.go: the callbacks that tell a business how its
-- notifications ended. The state is the map of configurations beside that of the calls, which are
-- the parameters `LogRepo` and `Calls`; what the code only logs is left out.
pub mod Missing
mod Tests
pub mod Conf
pub mod Request
pub mod Quiet
pub mod Endless
pub mod Log
pub mod Loss
use text.Mathlib.Text.{◌==◌}
use jotify.Prelude.{
  ℕ, zero, suc, ◌-◌, ◌/◌, ◌^◌, Bool, true, false, String, List, [], ◌∷◌, map, Option, none, some,
  if◌then◌else◌, length, ◌==◌ as nat_eq,
}
use jotify.Prelude.Int.{ℤ, pos, negsuc, ◌+ℤ◌}
use jotify.Prelude.Maps.{lookup, store, delete}
use jotify.Prelude.Text.{format_uint}
use jotify.Errs.{Result, ok, err, Error, Run, returned, panicked, running, biz_conf_not_found}
use jotify.Domain.{
  Channel, channel_sms, channel_email, channel_app, SendStatus, send_status_success,
  send_status_failure, send_status_prepare, send_status_pending, send_status_cancel,
}
use jotify.Domain.Time.{Time, Duration, second, eq_ℤ}
use jotify.Domain.Notification.{Notification}
use jotify.Domain.FromApi.{ApiChannel, sms, email, in_app, other_channel}
use jotify.Retry.{Config, Strategy, Strategies, new_retry_strategy}

abbrev pub callback_status_pending : String
callback_status_pending = "pending"

abbrev pub callback_status_success : String
callback_status_success = "success"

abbrev pub callback_status_failure : String
callback_status_failure = "failure"

-- CallbackLog of internal/domain/callback_log.go
pub record CallbackLog : Type 0 where
  pub notification : Notification
  pub retried_times : ℤ
  pub next_retry_at : ℤ
  pub status : String

-- CallbackConf of internal/domain/conf.go
pub record CallbackConf : Type 0 where
  pub service_name : String
  pub retry_policy : Option Config

-- The status of the API.
pub data ApiStatus : Type 0 where
  success : ApiStatus
  failure : ApiStatus
  prepare : ApiStatus
  pending : ApiStatus
  cancel : ApiStatus
  unspecified : ApiStatus

-- SendResultNotifyRequest of the API, with the messages in it; the original request has no
-- strategy.
pub record NotifyRequest : Type 0 where
  pub notification_id : ℕ
  pub biz_key : String
  pub receivers : List String
  pub channel : ApiChannel
  pub tpl_id : String
  pub tpl_params : List (String × String)
  pub status : ApiStatus

unfoldable pub get_channel : Channel → ApiChannel
get_channel c =
    if c == channel_sms
    then sms
    else if c == channel_email
    then email
    else if c == channel_app
    then in_app
    else other_channel

unfoldable pub get_status : SendStatus → ApiStatus
get_status s =
    if s == send_status_success
    then success
    else if s == send_status_failure
    then failure
    else if s == send_status_prepare
    then prepare
    else if s == send_status_pending
    then pending
    else if s == send_status_cancel
    then cancel
    else unspecified

unfoldable pub build_notify_req : Notification → NotifyRequest
unfolding get_channel get_status
build_notify_req n = record {
  notification_id = n.id;
  biz_key = n.biz_key;
  receivers = n.receivers;
  channel = get_channel n.channel;
  tpl_id = format_uint n.template.id;
  tpl_params = n.template.params;
  status = get_status n.status;
}

-- repository.CallbackLogRepo, on the state `S`.
pub record LogRepo (S : Type 0) : Type 0 where
  pub find : ℤ → ℕ → ℕ → S → Result (List CallbackLog × ℕ)
  pub find_by_notification_ids : List ℕ → S → Result (List CallbackLog)
  pub update : List CallbackLog → S → Result (Unit {0}) × S

-- The callback configuration that bizConfRepo.GetById finds, the call of the client of a service
-- with the success it answers, the strategies and time.Now().
pub record Calls (S : Type 0) : Type 0 where
  pub get_by_id : ℕ → S → Result (Option CallbackConf) × S
  pub send_result_notify : String → NotifyRequest → S → Result Bool × S
  pub strategies : Strategies
  pub now : S → Time

-- time.Time.Unix
abbrev unix : Time → ℤ
unix (pos n) = pos (n / second)
unix (negsuc n) = negsuc (n / second)

-- x++ on an int32
abbrev incr_int32 : ℤ → ℤ
incr_int32 x = if eq_ℤ x (pos (2 ^ 31 - 1)) then negsuc (2 ^ 31 - 1) else x +ℤ pos 1

-- The log after a callback that was refused.
unfoldable pub waiting : CallbackLog → Time → Option Duration → CallbackLog
unfolding ◌+ℤ◌
waiting log now (some interval) = record log {
  next_retry_at = unix (now +ℤ interval);
  retried_times = incr_int32 log.retried_times;
}
waiting log now none = record log { status = callback_status_failure }

-- The map m of SendByNotifications, and what its deletions leave.
unfoldable pub notification_map :
    List Notification → List (ℕ × Notification) → List (ℕ × Notification)
unfolding store
notification_map [] m = m
notification_map (n ∷ ns) m = notification_map ns (store n.id n m)

unfoldable pub delete_all : List Notification → List (ℕ × Notification) → List (ℕ × Notification)
unfolding delete
delete_all [] m = m
delete_all (n ∷ ns) m = delete_all ns (delete n.id m)

abbrev pub forget : Result Bool → Result (Unit {0})
forget (err e) = err e
forget (ok _) = ok tt

module _ {S : Type 0} (c : Calls S) where
  abbrev pub ConfMap : Type 0
  ConfMap = List (ℕ × CallbackConf)

  abbrev pub State : Type 0
  State = ConfMap × S

  -- What getConf does with the answer of the repository.
  unfoldable pub stored :
      ℕ → ConfMap → Result (Option CallbackConf) × S → Result (Option CallbackConf) × State
  unfolding store
  stored biz_id m (err e, s) = (err e, (m, s))
  stored biz_id m (ok none, s) = (ok none, (m, s))
  stored biz_id m (ok (some conf), s) = (ok (some conf), (store biz_id conf m, s))

  abbrev pub loaded :
      Option CallbackConf
      → Result (Option CallbackConf) × State
      → State
      → Result (Option CallbackConf) × State
  loaded (some conf) asked st = (ok (some conf), st)
  loaded none asked st = asked

  unfoldable pub get_conf : ℕ → State → Result (Option CallbackConf) × State
  unfolding lookup
  get_conf biz_id (m, s) = loaded (lookup biz_id m) (stored biz_id m (c.get_by_id biz_id s)) (m, s)

  unfoldable pub notified :
      Notification → Result (Option CallbackConf) × State → Result Bool × State
  unfolding build_notify_req
  notified n (err e, st) = (err e, st)
  notified n (ok none, st) = (err biz_conf_not_found, st)
  notified n (ok (some conf), (m, s)) =
      let (resp, s₁) = c.send_result_notify conf.service_name (build_notify_req n) s in
      (resp, (m, s₁))

  unfoldable pub send_callback : Notification → State → Result Bool × State
  unfolding get_conf
  send_callback n st = notified n (get_conf n.biz_id st)

  -- The end of sendAndSetChangeFields: the log is changed by the strategy of the configuration.
  unfoldable pub with_strategy : CallbackLog → Time → Run Strategy → Run (Bool × CallbackLog)
  unfolding waiting
  with_strategy log now panicked = panicked
  with_strategy log now running = running
  with_strategy log now (returned (err e)) = returned (err e)
  with_strategy log now (returned (ok next)) =
      returned (ok (true, waiting log now (next log.retried_times)))

  -- A configuration or a policy that is nil panics.
  unfoldable pub retried :
      CallbackLog → Result (Option CallbackConf) × State → Run (Bool × CallbackLog) × State
  unfolding new_retry_strategy
  retried log (err e, st) = (returned (err e), st)
  retried log (ok none, st) = (panicked, st)
  retried log (ok (some conf), st) = (
    elim (conf.retry_policy) [
      | none ↦ panicked
      | some cfg ↦ with_strategy log (c.now st.1) (new_retry_strategy c.strategies cfg)
    ],
    st,
  )

  unfoldable pub changed : CallbackLog → Result Bool × State → Run (Bool × CallbackLog) × State
  unfolding get_conf
  changed log (err e, st) = (returned (err e), st)
  changed log (ok true, st) =
      (returned (ok (true, record log { status = callback_status_success })), st)
  changed log (ok false, st) = retried log (get_conf log.notification.biz_id st)

  -- Whether the log has to be updated, beside the log as the function leaves its own copy of it.
  unfoldable pub send_and_set_change_fields : CallbackLog → State → Run (Bool × CallbackLog) × State
  unfolding send_callback
  send_and_set_change_fields log st = changed log (send_callback log.notification st)

  -- A log whose callback was answered is appended as it was given.
  abbrev pub kept :
      Bool → CallbackLog → Run (List CallbackLog) × State → Run (List CallbackLog) × State
  kept is_changed log (returned (err e), st) = (returned (err e), st)
  kept is_changed log (returned (ok params), st) =
      (returned (ok (if is_changed then log ∷ params else params)), st)
  kept is_changed log (panicked, st) = (panicked, st)
  kept is_changed log (running, st) = (running, st)

  abbrev pub next_log :
      CallbackLog
      → Run (Bool × CallbackLog) × State
      → (State → Run (List CallbackLog) × State)
      → Run (List CallbackLog) × State
  next_log log (returned (err e), st) rest = rest st
  next_log log (returned (ok (is_changed, own)), st) rest = kept is_changed log (rest st)
  next_log log (panicked, st) rest = (panicked, st)
  next_log log (running, st) rest = (running, st)

  -- The loop of sendAndUpdateLogs, with the parameters of the update that it collects.
  unfoldable pub send_logs : List CallbackLog → State → Run (List CallbackLog) × State
  unfolding send_and_set_change_fields
  send_logs [] st = (returned (ok []), st)
  send_logs (log ∷ logs) st =
      next_log log (send_and_set_change_fields log st) (λ t. send_logs logs t)

  module _ (repo : LogRepo S) where
    abbrev pub updated : Run (List CallbackLog) × State → Run (Unit {0}) × State
    updated (returned (err e), st) = (returned (err e), st)
    updated (returned (ok params), (m, s)) =
        let (done, s₁) = repo.update params s in (returned done, (m, s₁))
    updated (panicked, st) = (panicked, st)
    updated (running, st) = (running, st)

    unfoldable pub send_and_update_logs : List CallbackLog → State → Run (Unit {0}) × State
    unfolding send_logs
    send_and_update_logs logs st = updated (send_logs logs st)

    abbrev pub after_batch :
        Run (Unit {0}) × State → (State → Run (Unit {0}) × State) → Run (Unit {0}) × State
    after_batch (returned (err e), st) again = (returned (err e), st)
    after_batch (returned (ok _), st) again = again st
    after_batch (panicked, st) again = (panicked, st)
    after_batch (running, st) again = (running, st)

    -- One round of Send, from the logs that were found on.
    unfoldable pub batch_round :
        Result (List CallbackLog × ℕ)
        → State
        → (ℕ → State → Run (Unit {0}) × State)
        → Run (Unit {0}) × State
    unfolding send_and_update_logs
    batch_round (err e) st again = (returned (err e), st)
    batch_round (ok ([], new_id)) st again = (returned (ok tt), st)
    batch_round (ok (log ∷ logs, new_id)) st again =
        after_batch (send_and_update_logs (log ∷ logs) st) (again new_id)

    -- The loop of Send from the id `next_start_id` on, for at most `rounds` batches.
    unfoldable pub send_loop : ℕ → ℤ → ℕ → ℕ → State → Run (Unit {0}) × State
    send_loop zero start_time batch_size next_start_id st = (running, st)
    send_loop (suc rounds) start_time batch_size next_start_id st =
        batch_round (repo.find start_time next_start_id batch_size st.1) st
          (λ new_id t. send_loop rounds start_time batch_size new_id t)

    unfoldable pub send : ℕ → ℤ → ℕ → State → Run (Unit {0}) × State
    unfolding send_loop
    send rounds start_time batch_size st = send_loop rounds start_time batch_size 0 st

    unfoldable pub found_logs : Result (List CallbackLog) → State → Run (Unit {0}) × State
    unfolding send_and_update_logs
    found_logs (err e) st = (returned (err e), st)
    found_logs (ok logs) st = send_and_update_logs logs st

    unfoldable pub send_by_notification : Notification → State → Run (Unit {0}) × State
    send_by_notification n st = found_logs (repo.find_by_notification_ids (n.id ∷ []) st.1) st

    -- The loop over the values of a map, in the order of the list: the last error is kept.
    unfoldable pub send_rest :
        List (ℕ × Notification) → Result (Unit {0}) → State → Result (Unit {0}) × State
    unfolding send_callback
    send_rest [] last st = (last, st)
    send_rest ((_, n) ∷ m) last st =
        let (resp, st₁) = send_callback n st in send_rest m (forget resp) st₁

    -- The rest of SendByNotifications where some notification has no log.
    unfoldable pub update_and_send_rest :
        List CallbackLog → List (ℕ × Notification) → State → Result (Unit {0}) × State
    unfolding send_rest
    update_and_send_rest [] rest st = send_rest rest (ok tt) st
    update_and_send_rest (log ∷ logs) rest (m, s) =
        let (done, s₁) = repo.update (log ∷ logs) s in send_rest rest done (m, s₁)

    abbrev pub some_missing : Result (Unit {0}) × State → Run (Unit {0}) × State
    some_missing (done, st) = (returned done, st)

    unfoldable pub found_all :
        List Notification → Result (List CallbackLog) → State → Run (Unit {0}) × State
    unfolding send_and_update_logs notification_map delete_all update_and_send_rest
    found_all ns (err e) st = (returned (err e), st)
    found_all ns (ok logs) st =
        let all = send_and_update_logs logs st in
        let rest = delete_all ns (notification_map ns []) in
        if nat_eq (length logs) (length ns)
        then all
        else some_missing (update_and_send_rest logs rest st)

    unfoldable pub send_by_notifications : List Notification → State → Run (Unit {0}) × State
    send_by_notifications ns st =
        found_all ns (repo.find_by_notification_ids (map (λ (n : Notification). n.id) ns) st.1) st
