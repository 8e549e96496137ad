-- ===== src/Send/Strategy.antt =====
-- internal/service/sendstrategy: the immediate strategy, the default one and their dispatcher.
use text.Mathlib.Text.{◌==◌}
use jotify.Prelude.{
  ℕ, ◌+◌, ◌%◌, ◌^◌, Bool, true, false, not, String, Option, none, some, if◌then◌else◌,
}
use jotify.Errs.{
  Result, ok, err, Error, failed_to_send_notification, duplicate_notification_id, other,
}
use jotify.Domain.{SendResult, send_status_success, send_status_sending}
use jotify.Domain.Time.{Time}
use jotify.Domain.Notification.{Notification, set_send_time, is_immediate}

-- The repository and the sender, on one state. `has_callback` tells whether the configuration of
-- the business was found and has callbacks.
pub record Calls : Type 1 where
  pub State : Type 0
  pub create : Notification → State → Result Notification × State
  pub create_with_callback : Notification → State → Result Notification × State
  pub get_by_key : ℕ → String → State → Result Notification
  pub compare_and_swap_status : Notification → State → Result (Unit {0}) × State
  pub send : Notification → State → Result SendResult × State
  pub has_callback : ℕ → Bool

-- errors.Is(err, ErrDuplicateNotificationId), where `none` is nil
abbrev pub is_duplicate : Option Error → Bool
is_duplicate (some duplicate_notification_id) = true
is_duplicate _ = false

module _ (c : Calls) where
  -- The end of ImmediateSendStrategy.Send, from the found notification on.
  unfoldable pub send_found : Result Notification → c.State → Result SendResult × c.State
  send_found (err e) s = (err e, s)
  send_found (ok found) s =
      let (swapped, s₁) =
        c.compare_and_swap_status (record found { status = send_status_sending }) s in
      let sent =
        c.send
          (record found { status = send_status_sending; version = (found.version + 1) % 2 ^ 32 })
          s₁ in
      if found.status == send_status_success
      then (ok (record { notification_id = found.id; status = found.status }), s)
      else if not (found.status == send_status_sending)
      then (err failed_to_send_notification, s)
      else elim swapped [ err e ↦ (err e, s₁) | ok _ ↦ sent ]

  -- What follows the creation. Where it has no error, `err` is nil in the tests that follow.
  unfoldable pub after_create :
      Notification → Result Notification × c.State → Result SendResult × c.State
  unfolding send_found
  after_create n (err e, s) = c.send n s
  after_create n (ok created, s) =
      if not (is_duplicate none)
      then (err (other "failed to create notification"), s)
      else send_found (c.get_by_key created.biz_id created.biz_key s) s

  unfoldable pub immediate_send : Time → Notification → c.State → Result SendResult × c.State
  unfolding set_send_time after_create
  immediate_send now n s = after_create (set_send_time now n) (c.create (set_send_time now n) s)

  -- DefaultSendStrategy.needCallbackLog and create
  unfoldable pub default_create : Notification → c.State → Result Notification × c.State
  default_create n = if c.has_callback n.biz_id then c.create_with_callback n else c.create n

  abbrev pub sent_created : Result Notification × c.State → Result SendResult × c.State
  sent_created (err e, s) = (err e, s)
  sent_created (ok created, s) =
      (ok (record { notification_id = created.id; status = created.status }), s)

  unfoldable pub default_send : Time → Notification → c.State → Result SendResult × c.State
  unfolding set_send_time default_create
  default_send now n s = sent_created (default_create (set_send_time now n) s)

  -- Dispatcher.chooseStrategy and Send
  unfoldable pub dispatch : Time → Notification → c.State → Result SendResult × c.State
  unfolding immediate_send default_send is_immediate
  dispatch now n = if is_immediate n then immediate_send now n else default_send now n

  -- An immediate notification that is stored is not sent: the strategy returns an error and leaves
  -- the state as the creation left it. One that could not be stored is sent.
  pub data IsInverted (n : Notification)
      : Result Notification × c.State → Result SendResult × c.State → Type 0 where
    stored :
        (created : Notification) (s : c.State) (e : Error) → IsInverted n (ok created, s) (err e, s)
    not_stored : (e : Error) (s : c.State) → IsInverted n (err e, s) (c.send n s)

  inverted :
      (n : Notification) (x : Result Notification × c.State) → IsInverted n x (after_create n x)
  unfolding after_create
  inverted n (ok created, s) = stored created s _
  inverted n (err e, s) = not_stored e s

  -- The immediate strategy, after the creation of the notification with its window: where the
  -- creation succeeds it returns an error and sends nothing, and where the creation fails it sends
  -- the notification that was not stored.
  pub immediate_send-IsInverted :
      (now : Time) (n : Notification) (s : c.State)
      → IsInverted (set_send_time now n) (c.create (set_send_time now n) s) (immediate_send now n s)
  unfolding immediate_send
  immediate_send-IsInverted now n s =
      inverted (set_send_time now n) (c.create (set_send_time now n) s)
