-- ===== src/Callback/Request.antt =====
-- The channel of a callback and that of the API's requests.
use text.Mathlib.TextEquality.{eq_iff}
use jotify.Prelude.{arith, ◌≡◌, true}
use jotify.Errs.{ok}
use jotify.Domain.{Channel, channel_validate, channel_sms, channel_email, channel_app}
use jotify.Domain.FromApi.{get_domain_channel}
use jotify.Callback.{get_channel}

-- The channel of the callback of a valid channel is the one that a request of that channel has.
pub get_domain_channel-get_channel :
    (c : Channel) → channel_validate c ≡ true → get_domain_channel (get_channel c) ≡ ok c
unfolding channel_validate get_channel get_domain_channel
get_domain_channel-get_channel c valid =
    ground (arith, eq_iff c channel_sms, eq_iff c channel_email, eq_iff c channel_app)
