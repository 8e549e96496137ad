-- ===== src/BizConf/Caches.antt =====
-- internal/repository/cache/local/biz_conf.go and internal/repository/cache/redis/biz_conf.go.
use Prim.Native.String.{◌++◌}
use jotify.Prelude.{ℕ, String, Option, none, some, ◌⊎◌, inl, inr}
use jotify.Prelude.Text.{format_uint}
use jotify.Errs.{Error, Result, ok, err, other}
use jotify.BizConf.{BizConf, Cache}

unfoldable pub biz_conf_cache_key : ℕ → String
unfolding format_uint
biz_conf_cache_key biz_id = "biz_conf" ++ ":" ++ format_uint biz_id

abbrev key_not_found : Error
key_not_found = other "[jotify] biz conf cache key not found"

-- A value of go-cache: a configuration or something of another type.
pub data Stored : Type 0 where
  conf : BizConf → Stored
  something : Stored

-- go-cache with the default expiry, and redis with json; redis answers an error that is not
-- redis.Nil by its text.
pub record Gc (S : Type 0) : Type 0 where
  pub get : String → S → Option Stored
  pub set : String → Stored → S → S

pub record RedisTexts (S : Type 0) : Type 0 where
  pub get : String → S → Option String ⊎ String
  pub set : String → String → S → Result (Unit {0}) × S
  pub marshal : BizConf → Result String
  pub unmarshal : String → Result BizConf

module _ {S : Type 0} (gc : Gc S) where
  abbrev of_stored : Option Stored → Result BizConf
  of_stored none = err key_not_found
  of_stored (some something) = err (other "[jotify] wrong type of biz conf cache")
  of_stored (some (conf c)) = ok c

  unfoldable pub local_cache : Cache S
  unfolding biz_conf_cache_key
  local_cache = record {
    get = λ id s. of_stored (gc.get (biz_conf_cache_key id) s);
    set = λ id c s. (ok tt, gc.set (biz_conf_cache_key id) (conf c) s);
  }

module _ {S : Type 0} (rc : RedisTexts S) where
  abbrev of_text : Option String ⊎ String → Result BizConf
  of_text (inl none) = err key_not_found
  of_text (inl (some val)) = rc.unmarshal val
  of_text (inr message) = err (other message)

  unfoldable set_text : ℕ → Result String → S → Result (Unit {0}) × S
  unfolding biz_conf_cache_key
  set_text id (err e) s = (err e, s)
  set_text id (ok data_text) s = rc.set (biz_conf_cache_key id) data_text s

  unfoldable pub redis_cache : Cache S
  unfolding biz_conf_cache_key set_text
  redis_cache = record {
    get = λ id s. of_text (rc.get (biz_conf_cache_key id) s);
    set = λ id c s. set_text id (rc.marshal c) s;
  }
