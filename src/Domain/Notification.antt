-- ===== src/Domain/Notification.antt =====
-- internal/domain/notification.go and notification_send.go: a notification, its validation and
-- its send window. `now` is time.Now() at the call.
use text.Mathlib.Text.{◌==◌}
use jotify.Prelude.{ℕ, ◌*◌, Bool, String, List, ◌||◌, not, if◌then◌else◌, length, ◌==◌ as nat_eq}
use jotify.Prelude.Int.{pos, ◌+ℤ◌, ◌-ℤ◌, ltb_ℤ}
use jotify.Errs.{Result, ok, err, invalid_param, reject, ◌>>◌}
use jotify.Domain.{
  Channel, channel_validate, SendStatus, SendStrategy, send_strategy_immediate,
  send_strategy_delayed, send_strategy_scheduled, send_strategy_time_window, send_strategy_deadline,
}
use jotify.Domain.Time.{Time, Duration, is_zero, before, after, minute, second}

pub record SendStrategyConf : Type 0 where
  pub strategy : SendStrategy
  pub delay : Duration
  pub schedule_at : Time
  pub start : Time
  pub end : Time
  pub deadline : Time

pub record Template : Type 0 where
  pub id : ℕ
  pub version_id : ℕ
  pub params : List (String × String)

pub record Notification : Type 0 where
  pub id : ℕ
  pub biz_id : ℕ
  pub biz_key : String
  pub receivers : List String
  pub channel : Channel
  pub template : Template
  pub status : SendStatus
  pub scheduled_start : Time
  pub scheduled_end : Time
  pub version : ℕ
  pub strategy_config : SendStrategyConf

unfoldable pub conf_validate : Time → SendStrategyConf → Result (Unit {0})
conf_validate now c =
    if c.strategy == send_strategy_immediate
    then ok tt
    else if c.strategy == send_strategy_delayed
    then reject (not (ltb_ℤ (pos 0) c.delay)) (invalid_param "delay time should be greater than 0")
    else if c.strategy == send_strategy_scheduled
    then reject (is_zero c.schedule_at || before c.schedule_at now)
        (invalid_param "schedule_at should not be zero or before now")
    else if c.strategy == send_strategy_time_window
    then reject (is_zero c.start || after c.start c.end)
        (invalid_param "start and end time should not be zero and start should be before end")
    else if c.strategy == send_strategy_deadline
    then reject (is_zero c.deadline || before c.deadline now)
        (invalid_param "deadline should not be zero or before now")
    else err (invalid_param "unknown strategy")

unfoldable pub validate : Time → Notification → Result (Unit {0})
unfolding conf_validate channel_validate
validate now n = do
  reject (nat_eq n.biz_id 0) (invalid_param "biz id should not be negative or zero")
  reject (n.biz_key == "") (invalid_param "biz key should not be empty")
  reject (nat_eq (length n.receivers) 0) (invalid_param "receivers should not be empty")
  reject (not (channel_validate n.channel)) (invalid_param "invalid channel")
  reject (nat_eq n.template.id 0) (invalid_param "template id should not be negative or zero")
  reject (nat_eq n.template.version_id 0)
      (invalid_param "template version id should not be negative or zero")
  reject (nat_eq (length n.template.params) 0) (invalid_param "template params should not be empty")
  conf_validate now n.strategy_config

-- The start and the end of the window in which the notification is sent.
unfoldable pub calc_time_window : Time → SendStrategyConf → Time × Time
calc_time_window now c =
    if c.strategy == send_strategy_immediate
    then (now, now +ℤ pos (30 * minute))
    else if c.strategy == send_strategy_delayed
    then (now, now +ℤ c.delay)
    else if c.strategy == send_strategy_deadline
    then (now, c.deadline)
    else if c.strategy == send_strategy_time_window
    then (c.start, c.end)
    else if c.strategy == send_strategy_scheduled
    then (c.start -ℤ pos (3 * second), c.deadline)
    else (now, now)

unfoldable pub set_send_time : Time → Notification → Notification
unfolding calc_time_window
set_send_time now n =
    let (start, end) = calc_time_window now n.strategy_config in
    record n { scheduled_start = start; scheduled_end = end }

unfoldable pub is_immediate : Notification → Bool
is_immediate n = n.strategy_config.strategy == send_strategy_immediate

unfoldable pub replace_async_immediate : Time → Notification → Notification
unfolding is_immediate
replace_async_immediate now n =
    if is_immediate n
    then record n {
      strategy_config = record n.strategy_config {
        deadline = now +ℤ pos minute;
        strategy = send_strategy_deadline;
      };
    }
    else n
