-- ===== src/Send/Service.antt =====
-- internal/service/notification/notification_send.go: Send and AsyncSend, over the strategy that
-- does the sending and the id generator.
use text.Mathlib.Text.{◌==◌}
use jotify.Prelude.{ℕ, ◌≡◌, refl, arith, Bool, true, false, String, if◌then◌else◌}
use jotify.Prelude.Int.{pos, ◌+ℤ◌}
use jotify.Errs.{Result, ok, err, failed_send_notification}
use jotify.Snowflake.{Generator, next_id}
use jotify.Domain.{SendResult, send_strategy_immediate, send_strategy_deadline}
use jotify.Domain.Time.{Time, before, minute}
use jotify.Domain.Notification.{Notification, validate, replace_async_immediate, is_immediate}
use jotify.Domain.Validate.{IsSendable, deadline, validate_sound, validate_complete}

module _ (sum64 : String → ℕ) {S : Type 0}
    (strategy : Notification → S → Result SendResult × S) where
  abbrev State : Type 0
  State = Generator × S

  -- The notification with a new id.
  abbrev with_id : ℕ → Notification → Generator → Notification
  with_id clock n g = record n { id = (next_id sum64 g clock n.biz_id n.biz_key).1 }

  abbrev pub wrapped : Result SendResult → Result SendResult
  wrapped (ok r) = ok r
  wrapped (err e) = err failed_send_notification

  -- Where it fails, Send returns a response with the status of a failure beside the error.
  unfoldable pub send : Time → ℕ → Notification → State → Result SendResult × State
  unfolding validate
  send now clock n (g, s) =
      let (sent, s₁) = strategy (with_id clock n g) s in
      elim (validate now n) [
        | err e ↦ (err e, (g, s))
        | ok _ ↦ (wrapped sent, ((next_id sum64 g clock n.biz_id n.biz_key).0, s₁))
      ]

  unfoldable pub async_send : Time → ℕ → Notification → State → Result SendResult × State
  unfolding validate replace_async_immediate
  async_send now clock n (g, s) =
      let (sent, s₁) = strategy (replace_async_immediate now (with_id clock n g)) s in
      elim (validate now n) [
        | err e ↦ (err e, (g, s))
        | ok _ ↦ (sent, ((next_id sum64 g clock n.biz_id n.biz_key).0, s₁))
      ]

-- The notification with the deadline in a minute.
abbrev in_a_minute : Time → Notification → Notification
in_a_minute now n = record n {
  strategy_config = record n.strategy_config {
    deadline = now +ℤ pos minute;
    strategy = send_strategy_deadline;
  };
}

in_a_minute-valid :
    (now : Time) (n : Notification)
    → before now (pos 0) ≡ false
    → IsSendable now n
    → IsSendable now (in_a_minute now n)
unfolding ◌+ℤ◌
in_a_minute-valid now n since s = record {
  biz_id = s.biz_id;
  biz_key = s.biz_key;
  receivers = s.receivers;
  channel = s.channel;
  template_id = s.template_id;
  version_id = s.version_id;
  params = s.params;
  strategy = deadline refl (ground (arith, since)) (ground (arith, since));
}

-- A valid notification that is sent asynchronously, from 1970 on, is handed on as a valid one that
-- is not immediate.
replace_async_immediate-valid :
    (now : Time) (n : Notification)
    → before now (pos 0) ≡ false
    → validate now n ≡ ok tt
    → (validate now (replace_async_immediate now n) ≡ ok tt)
      × (is_immediate (replace_async_immediate now n) ≡ false)
unfolding replace_async_immediate is_immediate
replace_async_immediate-valid now n since v =
    branch (n.strategy_config.strategy == send_strategy_immediate) refl
  where
    branch :
        (b : Bool)
        → (n.strategy_config.strategy == send_strategy_immediate) ≡ b
        → (validate now (if b then in_a_minute now n else n) ≡ ok tt)
          × ((if b then in_a_minute now n else n).strategy_config.strategy
                == send_strategy_immediate
              ≡ false)
    branch true e = (
      validate_complete now (in_a_minute now n)
          (in_a_minute-valid now n since (validate_sound now n v)),
      refl,
    )
    branch false e = (v, e)
