-- ===== src/Errs.antt =====
-- internal/errs/error.go: the errors of the program, and results that carry one. A message that
-- the code adds to an error by `%w` is kept where a test or a caller can tell it apart.
use jotify.Prelude.{String, Bool, true, false}

-- `other` is an error of a library or of another service, by its text.
pub data Error : Type 0 where
  invalid_param : String → Error
  invalid_channel : Error
  invalid_send_strategy : Error
  biz_id_not_found : Error
  biz_conf_not_found : Error
  channel_tpl_not_found : Error
  channel_tpl_version_not_found : Error
  notification_not_found : Error
  failed_send_notification : Error
  not_approved_tpl_version : Error
  not_available_provider : Error
  insufficient_quota : Error
  failed_to_create_callback_log : Error
  failed_to_send_notification : Error
  duplicate_notification_id : Error
  acquire_exceed_limit : Error
  event_threshold_exceeded : Error
  other : String → Error

pub data Result {κ} (V : Type κ) : Type κ where
  err : Error → Result V
  ok : V → Result V

infixl 5 ◌>>◌ ◌>>=◌
-- The steps after a call that returns an error are skipped.
abbrev pub ◌>>◌ {κ} : {V : Type κ} → Result (Unit {0}) → Result V → Result V
err failure >> rest = err failure
ok _ >> rest = rest

abbrev pub ◌>>=◌ {ι κ} : {U : Type ι} {V : Type κ} → Result U → (U → Result V) → Result V
err failure >>= next = err failure
ok value >>= next = next value

-- `if bad { return err }`
abbrev pub reject : Bool → Error → Result (Unit {0})
reject true e = err e
reject false e = ok tt

-- What a call comes to: a result, a panic, or nothing within the rounds given.
pub data Run {κ} (V : Type κ) : Type κ where
  returned : Result V → Run V
  panicked : Run V
  running : Run V
