-- ===== src/Domain/FromApi.antt =====
-- internal/domain/notification.go: NotificationFromApi. The API's message is generated code of
-- another repository; the records here have the fields that the code reads. A message of Go that
-- is nil is `none`, and a timestamp is what AsTime returns for it.
use Prim.Native.Char.{code}
use text.Mathlib.Text.{◌==◌}
use jotify.Prelude.{
  ℕ, ◌+◌, ◌*◌, ◌%◌, ◌-◌, ◌^◌, String, ◌&&◌, leb, ltb, if◌then◌else◌, List, Option, none, some,
}
use jotify.Prelude.Int.{ℤ, pos, ◌*ℤ◌, ltb_ℤ, pos_part}
use jotify.Errs.{Result, ok, err, invalid_param, invalid_channel, invalid_send_strategy, ◌>>=◌}
use jotify.Domain.{
  Channel, channel_email, channel_sms, channel_app, SendStrategy, send_strategy_immediate,
  send_strategy_delayed, send_strategy_scheduled, send_strategy_time_window, send_strategy_deadline,
}
use jotify.Domain.Time.{Time, zero_time, second, int64_of}
use jotify.Domain.Notification.{SendStrategyConf, Notification}

-- The enumeration's members that the code tells apart.
pub data ApiChannel : Type 0 where
  sms : ApiChannel
  email : ApiChannel
  in_app : ApiChannel
  other_channel : ApiChannel

-- The cases of SendStrategy.StrategyType, with what they hold.
pub data ApiStrategy : Type 0 where
  immediate : ApiStrategy
  delayed : Option ℤ → ApiStrategy
  scheduled : Option (Option Time) → ApiStrategy
  time_window : Option (ℤ × ℤ) → ApiStrategy
  deadline : Option Time → ApiStrategy
  other_strategy : ApiStrategy

pub record ApiNotification : Type 0 where
  pub biz_key : String
  pub receivers : List String
  pub channel : ApiChannel
  pub tpl_id : String
  pub tpl_params : List (String × String)
  pub strategy : Option ApiStrategy

-- The rest of the digits, after the number `n`; a number above a uint64 is refused.
parse_digits : ℕ → String → Option ℕ
parse_digits n String.[] = some n
parse_digits n (String.◌∷◌ c s) =
    let m = n * 10 + (code c - b'0') in
    let rest = parse_digits m s in
    if leb b'0' (code c) && leb (code c) b'9' && ltb m (2 ^ 64) then rest else none

-- strconv.ParseUint(s, 10, 64)
unfoldable pub parse_uint : String → Option ℕ
unfolding parse_digits
parse_uint s = if s == "" then none else parse_digits 0 s

unfoldable pub get_domain_channel : ApiChannel → Result Channel
get_domain_channel sms = ok channel_sms
get_domain_channel email = ok channel_email
get_domain_channel in_app = ok channel_app
get_domain_channel other_channel = err invalid_channel

-- The configuration with the values that the switch has set; the seconds given to time.Unix and
-- the delay in seconds are int64 values.
abbrev conf : SendStrategy → ℤ → Time → ℤ → ℤ → Time → SendStrategyConf
conf strategy delay_seconds schedule_at start_time end_time due = record {
  strategy = strategy;
  delay = int64_of (pos_part delay_seconds * second % 2 ^ 64);
  schedule_at = schedule_at;
  start = start_time *ℤ pos second;
  end = end_time *ℤ pos second;
  deadline = due;
}

-- Without a strategy the switch is skipped, and the strategy stays "".
unfoldable pub get_domain_strategy_config : Option ApiStrategy → Result SendStrategyConf
get_domain_strategy_config none = ok (conf "" (pos 0) zero_time (pos 0) (pos 0) zero_time)
get_domain_strategy_config (some immediate) =
    ok (conf send_strategy_immediate (pos 0) zero_time (pos 0) (pos 0) zero_time)
get_domain_strategy_config (some (delayed (some d))) =
    if ltb_ℤ (pos 0) d
    then ok (conf send_strategy_delayed d zero_time (pos 0) (pos 0) zero_time)
    else err invalid_send_strategy
get_domain_strategy_config (some (delayed none)) = err invalid_send_strategy
get_domain_strategy_config (some (scheduled (some (some t)))) =
    ok (conf send_strategy_scheduled (pos 0) t (pos 0) (pos 0) zero_time)
get_domain_strategy_config (some (scheduled _)) = err invalid_send_strategy
get_domain_strategy_config (some (time_window (some (start, end)))) =
    ok (conf send_strategy_time_window (pos 0) zero_time start end zero_time)
get_domain_strategy_config (some (time_window none)) = err invalid_send_strategy
get_domain_strategy_config (some (deadline (some t))) =
    ok (conf send_strategy_deadline (pos 0) zero_time (pos 0) (pos 0) t)
get_domain_strategy_config (some (deadline none)) = err invalid_send_strategy
get_domain_strategy_config (some other_strategy) = err invalid_send_strategy

abbrev pub parsed : Option ℕ → Result ℕ
parsed none = err (invalid_param "parse template id failed")
parsed (some n) = ok n

-- The notification that is returned: the fields that the code leaves out are zero.
abbrev pub made : ApiNotification → ℕ → Channel → SendStrategyConf → Notification
made n tpl_id channel strategy_config = record {
  id = 0;
  biz_id = 0;
  biz_key = n.biz_key;
  receivers = n.receivers;
  channel = channel;
  template = record { id = tpl_id; version_id = 0; params = n.tpl_params };
  status = "";
  scheduled_start = zero_time;
  scheduled_end = zero_time;
  version = 0;
  strategy_config = strategy_config;
}

unfoldable pub notification_from_api : Option ApiNotification → Result Notification
unfolding parse_uint get_domain_channel get_domain_strategy_config
notification_from_api none = err (invalid_param "notification is nil")
notification_from_api (some n) = do
  tpl_id ← parsed (parse_uint n.tpl_id)
  channel ← get_domain_channel n.channel
  strategy_config ← get_domain_strategy_config n.strategy
  ok (made n tpl_id channel strategy_config)
