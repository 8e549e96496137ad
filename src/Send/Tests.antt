-- ===== src/Send/Tests.antt =====
-- The theorems on sending at concrete providers and calls.
use jotify.Prelude.{ℕ, suc, ◌≡◌, List, [], ◌∷◌, false}
use jotify.Prelude.Int.{pos}
use jotify.Errs.{Result, ok, err, other}
use jotify.Domain.{SendResult}
use jotify.Domain.Time.{zero_time}
use jotify.Domain.Notification.{Notification, set_send_time}
use jotify.Send.{Provider, channel_send}
use jotify.Send.Channel.{first_success, channel_send-first_success}
use jotify.Send.Strategy.{Calls, IsInverted, immediate_send, immediate_send-IsInverted}

abbrev code_for_ann : Notification
code_for_ann = record {
  id = 9;
  biz_id = 7;
  biz_key = "order-1";
  receivers = "13800000000" ∷ [];
  channel = "sms";
  template = record { id = 3; version_id = 2; params = ("code", "1234") ∷ [] };
  status = "";
  scheduled_start = zero_time;
  scheduled_end = zero_time;
  version = 0;
  strategy_config = record {
    strategy = "immediate";
    delay = pos 0;
    schedule_at = zero_time;
    start = pos 0;
    end = pos 0;
    deadline = zero_time;
  };
}

-- The state counts the calls.
abbrev busy : Provider ℕ
busy n s = (err (other "busy"), suc s)

abbrev ready : Provider ℕ
ready n s = (ok (record { notification_id = n.id; status = "success" }), suc s)

channel_send-first_success_example :
    channel_send (busy ∷ ready ∷ []) code_for_ann 0
    ≡ first_success (busy ∷ ready ∷ []) code_for_ann 0
channel_send-first_success_example = channel_send-first_success (busy ∷ ready ∷ []) code_for_ann 0

abbrev calls : Calls
calls = record {
  State = ℕ;
  create = λ n s. (ok n, suc s);
  create_with_callback = λ n s. (ok n, suc s);
  get_by_key = λ biz_id key s. err (other "missing");
  compare_and_swap_status = λ n s. (ok tt, s);
  send = λ n s. (ok (record { notification_id = n.id; status = "success" }), s);
  has_callback = λ biz_id. false;
}

immediate_send-IsInverted_example :
    IsInverted calls
      (set_send_time (pos 5) code_for_ann)
      (calls.create (set_send_time (pos 5) code_for_ann) 0)
      (immediate_send calls (pos 5) code_for_ann 0)
immediate_send-IsInverted_example = immediate_send-IsInverted calls (pos 5) code_for_ann 0

abbrev later_code : Notification
later_code = record code_for_ann {
  strategy_config = record code_for_ann.strategy_config { strategy = "delayed"; delay = pos 60 };
}

abbrev store_batch : List Notification → ℕ → Result (List SendResult) × ℕ
store_batch ns s = (ok [], suc s)
