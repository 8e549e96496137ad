-- ===== src/Domain/Tests.antt =====
-- The theorems on the domain at concrete notifications and requests.
use text.Mathlib.TextEquality.{eq_iff}
use jotify.Prelude.{◌*◌, ◌≡◌, ◌≢◌, ◌↔◌, refl, [], ◌∷◌, some, false, true, arith, ◌⊎◌}
use jotify.Prelude.Int.{pos, ◌*ℤ◌, ◌+ℤ◌}
use jotify.Errs.{ok}
use jotify.Domain.{
  channel_sms, send_strategy_delayed, send_strategy_scheduled, send_strategy_deadline,
}
use jotify.Domain.Time.{Time, zero_time, second, minute, before}
use jotify.Domain.Notification.{
  SendStrategyConf, Notification, conf_validate, calc_time_window, validate,
}
use jotify.Domain.Validate.{IsSendable, validate-IsSendable}
use jotify.Domain.Window.{calc_time_window-ordered}
use jotify.Domain.FromApi.{
  ApiNotification, ApiStrategy, scheduled, sms, made, notification_from_api,
}
use jotify.Domain.Accept.{from_api-not_sendable}
use jotify.Domain.Template.{ChannelTplProvider, ChannelTplVersion, ChannelTpl}

abbrev now : Time
now = pos (1750000000 * second)

abbrev in_a_minute : SendStrategyConf
in_a_minute = record {
  strategy = send_strategy_delayed;
  delay = pos minute;
  schedule_at = zero_time;
  start = pos 0;
  end = pos 0;
  deadline = zero_time;
}

abbrev code_for_ann : Notification
code_for_ann = record {
  id = 0;
  biz_id = 7;
  biz_key = "order-1";
  receivers = "13800000000" ∷ [];
  channel = channel_sms;
  template = record { id = 3; version_id = 2; params = ("code", "1234") ∷ [] };
  status = "";
  scheduled_start = zero_time;
  scheduled_end = zero_time;
  version = 0;
  strategy_config = in_a_minute;
}

abbrev request : ApiStrategy → ApiNotification
request s = record {
  biz_key = "order-1";
  receivers = "13800000000" ∷ [];
  channel = sms;
  tpl_id = "42";
  tpl_params = ("code", "1234") ∷ [];
  strategy = some s;
}

abbrev requested : ApiStrategy → Notification
requested (scheduled (some (some t))) =
    made (request (scheduled (some (some t)))) 42 channel_sms (record {
      strategy = send_strategy_scheduled;
      delay = pos 0;
      schedule_at = t;
      start = pos 0;
      end = pos 0;
      deadline = zero_time;
    })
requested _ = code_for_ann

validate-IsSendable_example : (validate now code_for_ann ≡ ok tt) ↔ IsSendable now code_for_ann
validate-IsSendable_example = validate-IsSendable now code_for_ann

calc_time_window-ordered_example :
    (before
        ((calc_time_window (now +ℤ pos 5) in_a_minute).1)
        ((calc_time_window (now +ℤ pos 5) in_a_minute).0)
      ≡ false)
    ⊎ ((send_strategy_delayed ≡ send_strategy_deadline)
        × (before in_a_minute.deadline (now +ℤ pos 5) ≡ true))
unfolding conf_validate
calc_time_window-ordered_example =
    calc_time_window-ordered now (now +ℤ pos 5) in_a_minute refl
      (λ e. ground (arith, (eq_iff send_strategy_delayed send_strategy_scheduled).1 e))

abbrev tomorrow : ApiStrategy
tomorrow = scheduled (some (some (pos (1750086400 * second))))

from_api-not_sendable_example : validate now (record (requested tomorrow) { biz_id = 7 }) ≢ ok tt
unfolding notification_from_api ◌*ℤ◌
from_api-not_sendable_example =
    from_api-not_sendable (request tomorrow) (requested tomorrow) now 7 refl

abbrev provider : ChannelTplProvider
provider = record {
  id = 5;
  tpl_id = 3;
  tpl_version_id = 2;
  provider_id = 1;
  provider_name = "tencent";
  provider_channel = channel_sms;
  request_id = "";
  provider_tpl_id = "T1";
  audit_status = "approved";
  reject_reason = "";
  last_review_at = pos 0;
  create_at = pos 0;
  update_at = pos 0;
}

abbrev version : ChannelTplVersion
version = record {
  id = 2;
  channel_tpl_id = 3;
  name = "v2";
  signature = "";
  content = "";
  remark = "";
  audit_id = 0;
  auditor_id = 0;
  audit_at = pos 0;
  audit_status = "approved";
  reject_reason = "";
  last_review_at = pos 0;
  create_at = pos 0;
  update_at = pos 0;
  providers = provider ∷ [];
}

abbrev template : ChannelTpl
template = record {
  id = 3;
  owner_id = 9;
  owner_type = "person";
  name = "code";
  description = "a code";
  channel = channel_sms;
  biz_type = "verify_code";
  activated_version_id = 2;
  create_at = pos 0;
  update_at = pos 0;
  versions = version ∷ [];
}
