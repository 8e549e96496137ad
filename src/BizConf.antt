-- ===== src/BizConf.antt =====
-- internal/repository/biz_conf.go with the two caches of internal/repository/cache: the
-- configuration of a business. go-cache, redis and encoding/json are parameters; a failed write
-- of a cache is only logged.
mod Tests
pub mod Caches
pub mod Coherence
use jotify.Prelude.{ℕ, Bool, if◌then◌else◌, String, List, Option, none, some}
use jotify.Prelude.Int.{ℤ}
use jotify.Errs.{Result, ok, err}
use jotify.Retry.{Config}
use jotify.Callback.{CallbackConf}

pub record ChannelItem : Type 0 where
  pub channel : String
  pub priority : ℤ
  pub enabled : Bool

pub record ChannelConf : Type 0 where
  pub channels : List ChannelItem
  pub retry_policy : Option Config

pub record TxNotifConf : Type 0 where
  pub service_name : String
  pub initial_delay : ℤ
  pub retry_policy : Option Config

-- DailyQuotaConf and MonthlyQuotaConf
pub record PeriodQuotaConf : Type 0 where
  pub sms : ℤ
  pub email : ℤ

pub record QuotaConf : Type 0 where
  pub daily : Option PeriodQuotaConf
  pub monthly : Option PeriodQuotaConf

pub record BizConf : Type 0 where
  pub id : ℕ
  pub owner_id : ℕ
  pub owner_type : String
  pub channel_conf : Option ChannelConf
  pub tx_notif_conf : Option TxNotifConf
  pub rate_limit : ℤ
  pub quota_conf : Option QuotaConf
  pub callback_conf : Option CallbackConf
  pub create_at : ℤ
  pub update_at : ℤ

-- xsql.JsonColumn
pub record JsonColumn (V : Type 0) : Type 0 where
  pub val : V
  pub valid : Bool

-- dao.BizConf
pub record Entity : Type 0 where
  pub id : ℕ
  pub owner_id : ℕ
  pub owner_type : String
  pub channel_conf : JsonColumn ChannelConf
  pub tx_notif_conf : JsonColumn TxNotifConf
  pub rate_limit : ℤ
  pub quota_conf : JsonColumn QuotaConf
  pub callback_conf : JsonColumn CallbackConf
  pub created_at : ℤ
  pub updated_at : ℤ

abbrev pub if_valid : {V : Type 0} → JsonColumn V → Option V
if_valid c = if c.valid then some c.val else none

unfoldable pub to_domain : Entity → BizConf
to_domain e = record {
  id = e.id;
  owner_id = e.owner_id;
  owner_type = e.owner_type;
  channel_conf = if_valid e.channel_conf;
  tx_notif_conf = if_valid e.tx_notif_conf;
  rate_limit = e.rate_limit;
  quota_conf = if_valid e.quota_conf;
  callback_conf = if_valid e.callback_conf;
  create_at = e.created_at;
  update_at = e.updated_at;
}

-- cache.BizConfCache
pub record Cache (S : Type 0) : Type 0 where
  pub get : ℕ → S → Result BizConf
  pub set : ℕ → BizConf → S → Result (Unit {0}) × S

module _ {L R : Type 0} (local_cache : Cache L) (redis_cache : Cache R)
    (dao : ℕ → Result Entity) where
  abbrev pub State : Type 0
  State = L × R

  -- The DAO's answer refreshes both caches, that of redis the local one.
  unfoldable pub from_dao : ℕ → State → Result Entity → Result BizConf × State
  unfolding to_domain
  from_dao id (l, r) (err e) = (err e, (l, r))
  from_dao id (l, r) (ok entity) =
      let conf = to_domain entity in
      (ok conf, ((local_cache.set id conf l).1, (redis_cache.set id conf r).1))

  unfoldable pub from_redis : ℕ → State → Result BizConf → Result BizConf × State
  unfolding from_dao
  from_redis id (l, r) (err e) = from_dao id (l, r) (dao id)
  from_redis id (l, r) (ok conf) = (ok conf, ((local_cache.set id conf l).1, r))

  unfoldable pub from_local : ℕ → State → Result BizConf → Result BizConf × State
  unfolding from_redis
  from_local id (l, r) (err e) = from_redis id (l, r) (redis_cache.get id r)
  from_local id (l, r) (ok conf) = (ok conf, (l, r))

  unfoldable pub get_by_id : ℕ → State → Result BizConf × State
  unfolding from_local
  get_by_id id st = from_local id st (local_cache.get id st.0)
