-- ===== src/Domain/Accept.antt =====
-- What becomes of the notifications that NotificationFromApi accepts.
use jotify.Prelude.{ℕ, ◌*◌, ◌-◌, ◌≡◌, ◌≢◌, refl, ap, sym, ◌∙◌, Option, none, some, arith}
use jotify.Prelude.Int.{pos, negsuc, ◌-ℤ◌, ◌*ℤ◌}
use jotify.Errs.{Result, ok, err, ◌>>=◌}
use jotify.Domain.{Channel, send_strategy_scheduled}
use jotify.Domain.Time.{Time, zero_time, second}
use jotify.Domain.Notification.{
  SendStrategyConf, Notification, validate, set_send_time, calc_time_window,
}
use jotify.Domain.FromApi.{
  ApiNotification, ApiStrategy, scheduled, made, notification_from_api, parsed, parse_uint,
  get_domain_channel, get_domain_strategy_config,
}
use jotify.Domain.Validate.{validate_sound}

chained :
    (a : ApiNotification) (p : Result ℕ) (c : Result Channel) (s : Result SendStrategyConf)
    (n : Notification)
    → (p >>= λ t. c >>= λ ch. s >>= λ conf. ok (made a t ch conf)) ≡ ok n
    → (conf : SendStrategyConf) × (s ≡ ok conf)
      × (n.strategy_config ≡ conf)
      × (n.template.version_id ≡ 0)
chained a (ok t) (ok ch) (ok conf) n h = (conf, refl, ground arith, ground arith)
chained a (err e) c s n h = ground arith
chained a (ok t) (err e) s n h = ground arith
chained a (ok t) (ok ch) (err e) n h = ground arith

accepted :
    (a : ApiNotification) (n : Notification)
    → notification_from_api (some a) ≡ ok n
    → (conf : SendStrategyConf) × (get_domain_strategy_config a.strategy ≡ ok conf)
      × (n.strategy_config ≡ conf)
      × (n.template.version_id ≡ 0)
unfolding notification_from_api
accepted a n h =
    chained a (parsed (parse_uint a.tpl_id)) (get_domain_channel a.channel)
      (get_domain_strategy_config a.strategy) n h

refused : (n : Notification) → notification_from_api none ≢ ok n
unfolding notification_from_api
refused n h = ground arith

-- A notification that the API accepts never passes the validation, at whatever time and with
-- whatever business id it is completed: its template has no version.
pub from_api-not_sendable :
    (a : ApiNotification) (n : Notification) (now : Time) (biz_id : ℕ)
    → notification_from_api (some a) ≡ ok n
    → validate now (record n { biz_id = biz_id }) ≢ ok tt
from_api-not_sendable a n now biz_id h v =
    let (_, _, _, zero_version) = accepted a n h in
    ground (arith, zero_version, (validate_sound now _ v).version_id)

from_scheduled :
    (s : Option ApiStrategy) (t : Time) (c : SendStrategyConf)
    → s ≡ some (scheduled (some (some t)))
    → get_domain_strategy_config s ≡ ok c
    → (c.strategy ≡ send_strategy_scheduled) × (c.start ≡ pos 0) × (c.deadline ≡ zero_time)
unfolding get_domain_strategy_config ◌*ℤ◌
from_scheduled s t c e h = go (ap get_domain_strategy_config (sym e) ∙ h)
  where
    go :
        get_domain_strategy_config (some (scheduled (some (some t)))) ≡ ok c
        → (c.strategy ≡ send_strategy_scheduled) × (c.start ≡ pos 0) × (c.deadline ≡ zero_time)
    go h = ground arith

scheduled_window :
    (now : Time) (c : SendStrategyConf)
    → c.strategy ≡ send_strategy_scheduled
    → calc_time_window now c ≡ (c.start -ℤ pos (3 * second), c.deadline)
unfolding calc_time_window
scheduled_window now c s = simp s

-- A request to send at a time, once accepted, gets a window that has nothing to do with that
-- time: it starts three seconds before 1970 and ends at the zero time, before it starts.
from_api-scheduled_window :
    (a : ApiNotification) (n : Notification) (now send_time : Time)
    → notification_from_api (some a) ≡ ok n
    → a.strategy ≡ some (scheduled (some (some send_time)))
    → ((set_send_time now n).scheduled_start ≡ negsuc (3 * second - 1))
      × ((set_send_time now n).scheduled_end ≡ zero_time)
unfolding set_send_time ◌-ℤ◌
from_api-scheduled_window a n now send_time h s =
    let (conf, made_conf, kept, _) = accepted a n h in
    let (strategy, start, deadline) =
      from_scheduled a.strategy send_time n.strategy_config s (made_conf ∙ ap ok (sym kept)) in
    let window = scheduled_window now n.strategy_config strategy in
    (ap (λ w. w.0) window ∙ ap (λ t. t -ℤ pos (3 * second)) start, ap (λ w. w.1) window ∙ deadline)
