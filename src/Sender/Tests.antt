-- ===== src/Sender/Tests.antt =====
-- The theorems on the sender at a channel that refuses every message.
use jotify.Prelude.{ℕ, suc, String, [], ◌∷◌, none}
use jotify.Prelude.Int.{ℤ, pos}
use jotify.Errs.{Result, ok, err, other}
use jotify.Domain.{SendResult, channel_sms}
use jotify.Domain.Notification.{Notification}
use jotify.Quota.{param_key}
use jotify.Quota.Cells.{cells, cells-IsRedis}
use jotify.Repo.{Json, Dao, unit_param, no_config}
use jotify.Sender.{Parts, send, batch_send}
use jotify.Sender.Quota.{parts, Delivers, success_mark, failure_mark, send-Delivers}
use jotify.Sender.Results.{OneEach, batch_send-OneEach}

abbrev invoice : Notification
invoice = record {
  id = 12;
  biz_id = 7;
  biz_key = "invoice-12";
  receivers = [];
  channel = channel_sms;
  template = record { id = 3; version_id = 2; params = [] };
  status = "pending";
  scheduled_start = pos 0;
  scheduled_end = pos 0;
  version = 1;
  strategy_config = no_config;
}

abbrev steady : Dao
steady = record {
  State = ℕ;
  create = λ e d. (ok e, d);
  create_with_callback = λ e d. (ok e, d);
  batch_create = λ es d. ((es, none), d);
  batch_create_with_callback = λ es d. ((es, none), d);
  batch_update_status = λ xs ys d. (ok tt, d);
  mark_success = λ e d. (ok tt, suc d);
  mark_failure = λ e d. (ok tt, suc d);
}

abbrev plain : Json
plain = record {
  marshal_receivers = λ xs. "[]";
  unmarshal_receivers = λ s. [];
  marshal_params = λ xs. "{}";
  unmarshal_params = λ s. [];
}

-- Its state counts the messages.
abbrev refusing : Notification → ℕ → Result SendResult × ℕ
refusing n t = (err (other "refused"), suc t)

abbrev two_units : String → ℤ
two_units k = pos 2

abbrev here : Parts (((String → ℤ) × ℕ) × ℕ)
here = parts cells plain steady refusing (λ n t. t) (λ ns t. t) (λ ids s. ok ((12, invoice) ∷ []))

send-Delivers_example :
    Delivers cells plain steady refusing
      (λ n t. t)
      (λ ns t. t)
      (λ ids s. ok ((12, invoice) ∷ []))
      (param_key (unit_param invoice))
      invoice
      two_units
      ((send here invoice ((two_units, 0), 0)).1.0.0)
      (refusing invoice 0).0
      (success_mark cells plain steady refusing
        (λ n t. t)
        (λ ns t. t)
        (λ ids s. ok ((12, invoice) ∷ []))
        cells-IsRedis
        invoice
        0)
      (failure_mark cells plain steady refusing
        (λ n t. t)
        (λ ns t. t)
        (λ ids s. ok ((12, invoice) ∷ []))
        cells-IsRedis
        invoice
        0)
      ((send here invoice ((two_units, 0), 0)).0)
send-Delivers_example =
    send-Delivers cells plain steady refusing (λ n t. t) (λ ns t. t)
      (λ ids s. ok ((12, invoice) ∷ [])) cells-IsRedis invoice two_units 0 0

batch_send-OneEach_example :
    OneEach
      (invoice ∷ invoice ∷ [])
      (batch_send here (invoice ∷ invoice ∷ []) ((two_units, 0), 0)).0
batch_send-OneEach_example = batch_send-OneEach here (invoice ∷ invoice ∷ []) ((two_units, 0), 0)
