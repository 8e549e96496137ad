-- ===== src/Repo/RoundTrip.antt =====
-- What a notification keeps when it is stored and read back.
use jotify.Prelude.{◌+◌, ◌-◌, ◌%◌, ◌≡◌, arith}
use jotify.Prelude.Int.{pos, negsuc}
use jotify.Domain.Time.{Time}
use jotify.Domain.Notification.{Notification}
use jotify.Repo.{Json, to_entity, to_domain, unix_milli, of_unix_milli, millisecond, no_config}

-- A time without its part of a millisecond.
unfoldable pub floor_milli : Time → Time
floor_milli (pos n) = pos (n - n % millisecond)
floor_milli (negsuc n) = negsuc (n - n % millisecond + (millisecond - 1))

floor_lem : (t : Time) → of_unix_milli (unix_milli t) ≡ floor_milli t
unfolding of_unix_milli unix_milli floor_milli
floor_lem (pos n) = ground arith
floor_lem (negsuc n) = ground arith

-- A notification whose receivers and parameters JSON keeps, when it is stored and read back, keeps every field but two kinds: the ends of its
-- window lose their part of a millisecond, and its send configuration is lost.
pub to_domain-to_entity :
    (json : Json) (n : Notification)
    → json.unmarshal_receivers (json.marshal_receivers n.receivers) ≡ n.receivers
    → json.unmarshal_params (json.marshal_params n.template.params) ≡ n.template.params
    → to_domain json (to_entity json n) ≡ record n {
      scheduled_start = floor_milli n.scheduled_start;
      scheduled_end = floor_milli n.scheduled_end;
      strategy_config = no_config;
    }
unfolding to_domain to_entity
to_domain-to_entity json n receivers params = simp (receivers, params, floor_lem)
