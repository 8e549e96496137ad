-- ===== src/Domain.antt =====
-- internal/domain: the notification with its channel, template and send strategy, the channel
-- templates and the providers. The string types of Go (Channel, SendStatus, ...) are texts, since
-- a value read from the database can be any text.
pub mod Time
pub mod Notification
pub mod Window
pub mod FromApi
pub mod Template
pub mod Validate
pub mod Accept
pub mod Provider
mod Tests
use text.Mathlib.Text.{◌==◌}
use jotify.Prelude.{ℕ, Bool, ◌||◌, String}

abbrev pub Channel : Type 0
Channel = String

abbrev pub channel_email : Channel
channel_email = "email"

abbrev pub channel_sms : Channel
channel_sms = "sms"

abbrev pub channel_app : Channel
channel_app = "app"

unfoldable pub channel_validate : Channel → Bool
channel_validate c = c == channel_email || c == channel_sms || c == channel_app

abbrev pub SendStatus : Type 0
SendStatus = String

abbrev pub send_status_prepare : SendStatus
send_status_prepare = "prepare"

abbrev pub send_status_cancel : SendStatus
send_status_cancel = "cancel"

abbrev pub send_status_pending : SendStatus
send_status_pending = "pending"

abbrev pub send_status_sending : SendStatus
send_status_sending = "sending"

abbrev pub send_status_success : SendStatus
send_status_success = "success"

abbrev pub send_status_failure : SendStatus
send_status_failure = "failure"

abbrev pub SendStrategy : Type 0
SendStrategy = String

abbrev pub send_strategy_immediate : SendStrategy
send_strategy_immediate = "immediate"

abbrev pub send_strategy_delayed : SendStrategy
send_strategy_delayed = "delayed"

abbrev pub send_strategy_scheduled : SendStrategy
send_strategy_scheduled = "scheduled"

abbrev pub send_strategy_time_window : SendStrategy
send_strategy_time_window = "time_window"

abbrev pub send_strategy_deadline : SendStrategy
send_strategy_deadline = "deadline"

-- SendResult of notification_send.go.
pub record SendResult : Type 0 where
  pub notification_id : ℕ
  pub status : SendStatus
