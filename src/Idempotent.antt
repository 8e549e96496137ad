-- ===== src/Idempotent.antt =====
-- internal/pkg/idempotent/redis/redis_idempotent.go: which requests have been seen. Redis is a
-- parameter; the keys expire after a time, of which nothing is modelled.
pub mod Seen
mod Tests
use Prim.Native.String.{◌++◌}
use jotify.Prelude.{Bool, not, String, List, [], ◌∷◌, map}
use jotify.Prelude.TextMaps.{put}
use jotify.Errs.{Result, ok, err, Error}

-- SETNX with an expiry tells whether the key was not there and is set now. The pipeline answers an
-- error, or the results of its commands in their order.
pub record Redis : Type 1 where
  pub Store : Type 0
  pub set_nx : String → Store → Result Bool × Store
  pub pipeline : List String → Store → Result (List (Result Bool)) × Store

unfoldable pub redis_key : String → String
redis_key biz_key = "idempotent:" ++ biz_key

-- The loop of MultiExists over the results of its commands.
unfoldable pub collect :
    List String → List (Result Bool) → List (String × Bool) → Result (List (String × Bool))
unfolding put
collect [] cmds res = ok res
collect (key ∷ keys) [] res = ok res
collect (key ∷ keys) (cmd ∷ cmds) res = elim cmd [
  | err e ↦ err e
  | ok cmd_res ↦ collect keys cmds (put key (not cmd_res) res)
]

module _ (r : Redis) where
  abbrev pub seen : Result Bool × r.Store → Result Bool × r.Store
  seen (err e, s) = (err e, s)
  seen (ok res, s) = (ok (not res), s)

  unfoldable pub exists : String → r.Store → Result Bool × r.Store
  unfolding redis_key
  exists key s = seen (r.set_nx (redis_key key) s)

  abbrev pub collected :
      List String → Result (List (Result Bool)) × r.Store → Result (List (String × Bool)) × r.Store
  collected keys (err e, s) = (err e, s)
  collected keys (ok cmds, s) = (collect keys cmds [], s)

  unfoldable pub multi_exists : List String → r.Store → Result (List (String × Bool)) × r.Store
  unfolding redis_key collect
  multi_exists keys s = collected keys (r.pipeline (map redis_key keys) s)
