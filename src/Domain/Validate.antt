-- ===== src/Domain/Validate.antt =====
-- Which notifications the validation accepts.
use text.Mathlib.Text.{◌==◌}
use text.Mathlib.TextEquality.{eq_iff}
use jotify.Prelude.{◌<◌, ◌≡◌, ◌≢◌, ◌↔◌, inl, inr, true, false, String, arith, length, Bool-cases}
use jotify.Prelude.Int.{pos, ltb_ℤ}
use jotify.Errs.{ok}
use jotify.Domain.{
  Channel, channel_validate, channel_email, channel_sms, channel_app, send_strategy_immediate,
  send_strategy_delayed, send_strategy_scheduled, send_strategy_time_window, send_strategy_deadline,
}
use jotify.Domain.Time.{Time, is_zero, before, after}
use jotify.Domain.Notification.{SendStrategyConf, Notification, validate, conf_validate}

-- What is asked of a configuration, by its strategy.
pub data IsSchedulable (now : Time) (c : SendStrategyConf) : Type 0 where
  immediate : c.strategy ≡ send_strategy_immediate → IsSchedulable now c
  delayed : c.strategy ≡ send_strategy_delayed → ltb_ℤ (pos 0) c.delay ≡ true → IsSchedulable now c
  scheduled :
      c.strategy ≡ send_strategy_scheduled
      → is_zero c.schedule_at ≡ false
      → before c.schedule_at now ≡ false
      → IsSchedulable now c
  time_window :
      c.strategy ≡ send_strategy_time_window
      → is_zero c.start ≡ false
      → after c.start c.end ≡ false
      → IsSchedulable now c
  deadline :
      c.strategy ≡ send_strategy_deadline
      → is_zero c.deadline ≡ false
      → before c.deadline now ≡ false
      → IsSchedulable now c

pub data IsChannel (c : Channel) : Type 0 where
  email : c ≡ channel_email → IsChannel c
  sms : c ≡ channel_sms → IsChannel c
  app : c ≡ channel_app → IsChannel c

pub record IsSendable (now : Time) (n : Notification) : Type 0 where
  pub biz_id : 0 < n.biz_id
  pub biz_key : n.biz_key ≢ ""
  pub receivers : 0 < length n.receivers
  pub channel : IsChannel n.channel
  pub template_id : 0 < n.template.id
  pub version_id : 0 < n.template.version_id
  pub params : 0 < length n.template.params
  pub strategy : IsSchedulable now n.strategy_config

module _ (now : Time) (c : SendStrategyConf) where
  pub conf_sound : conf_validate now c ≡ ok tt → IsSchedulable now c
  unfolding conf_validate
  conf_sound h = elim (Bool-cases (c.strategy == send_strategy_immediate)) [
    | inl e ↦ immediate ((eq_iff _ _).0 e)
    | inr e ↦ elim (Bool-cases (c.strategy == send_strategy_delayed)) [
      | inl f ↦ delayed ((eq_iff _ _).0 f) (ground arith)
      | inr f ↦ elim (Bool-cases (c.strategy == send_strategy_scheduled)) [
        | inl g ↦ scheduled ((eq_iff _ _).0 g) (ground arith) (ground arith)
        | inr g ↦ elim (Bool-cases (c.strategy == send_strategy_time_window)) [
          | inl k ↦ time_window ((eq_iff _ _).0 k) (ground arith) (ground arith)
          | inr k ↦ elim (Bool-cases (c.strategy == send_strategy_deadline)) [
            | inl m ↦ deadline ((eq_iff _ _).0 m) (ground arith) (ground arith)
            | inr m ↦ ground arith
          ]
        ]
      ]
    ]
  ]

conf_complete :
    (now : Time) (c : SendStrategyConf) → IsSchedulable now c → conf_validate now c ≡ ok tt
unfolding conf_validate
conf_complete now c (immediate s) = ground (arith, eq_iff c.strategy send_strategy_immediate)
conf_complete now c (delayed s p) = simp (s, p)
conf_complete now c (scheduled s p q) = simp (s, p, q)
conf_complete now c (time_window s p q) = simp (s, p, q)
conf_complete now c (deadline s p q) = simp (s, p, q)

channel_lem : (c : Channel) → channel_validate c ≡ true → IsChannel c
unfolding channel_validate
channel_lem c h = elim (Bool-cases (c == channel_email)) [
  | inl e ↦ email ((eq_iff _ _).0 e)
  | inr e ↦ elim (Bool-cases (c == channel_sms)) [
    | inl f ↦ sms ((eq_iff _ _).0 f)
    | inr f ↦ app ((eq_iff _ _).0 (ground arith))
  ]
]

channel_complete : (c : Channel) → IsChannel c → channel_validate c ≡ true
unfolding channel_validate
channel_complete c (email e) = simp e
channel_complete c (sms e) = simp e
channel_complete c (app e) = simp e

text_ne : (s t : String) → s ≢ t → (s == t) ≡ false
text_ne s t ne = elim (Bool-cases (s == t)) [ inl e ↦ elim (ne ((eq_iff s t).0 e)) [ ] | inr e ↦ e ]

pub validate_sound : (now : Time) (n : Notification) → validate now n ≡ ok tt → IsSendable now n
unfolding validate
validate_sound now n h = record {
  biz_id = ground arith;
  biz_key = λ e. ground (arith, e, (eq_iff n.biz_key "").1 e);
  receivers = ground arith;
  channel = channel_lem n.channel (ground arith);
  template_id = ground arith;
  version_id = ground arith;
  params = ground arith;
  strategy = conf_sound now n.strategy_config (ground arith);
}

pub validate_complete : (now : Time) (n : Notification) → IsSendable now n → validate now n ≡ ok tt
unfolding validate
validate_complete now n s = ground (
  arith,
  text_ne n.biz_key "" s.biz_key,
  channel_complete n.channel s.channel,
  conf_complete now n.strategy_config s.strategy,
)

-- The validation of a notification accepts exactly the sendable ones: an id and a key of the
-- business, receivers, one of the three channels, a template with its version and parameters,
-- and a send configuration that suits its strategy.
pub validate-IsSendable :
    (now : Time) (n : Notification) → (validate now n ≡ ok tt) ↔ IsSendable now n
validate-IsSendable now n = (validate_sound now n, validate_complete now n)
