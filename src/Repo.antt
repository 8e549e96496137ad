-- ===== src/Repo.antt =====
-- internal/repository/notification.go: the notifications with the quotas that they spend.
-- The state is the store of the quotas and that of the DAO. encoding/json is a parameter; what
-- the code only logs is left out.
pub mod Params
pub mod Spend
pub mod RoundTrip
mod Tests
use Prim.Native.String.{◌++◌}
use text.Mathlib.Text.{◌==◌}
use jotify.Prelude.{
  ℕ, ◌+◌, ◌*◌, ◌-◌, ◌/◌, ◌%◌, ◌^◌, ◌≡◌, Bool, true, false, if◌then◌else◌, String, List, [], ◌∷◌,
  map, Option, none, some,
}
use jotify.Prelude.Text.{format_uint}
use jotify.Prelude.Int.{ℤ, pos, negsuc, ◌*ℤ◌}
use jotify.Errs.{Result, ok, err, Error}
use jotify.Domain.{Channel}
use jotify.Domain.Time.{Time, zero_time}
use jotify.Domain.Notification.{Notification, Template, SendStrategyConf}
use jotify.Quota.{Redis, QuotaParam, incr, decr, batch_incr, batch_decr}

-- dao.Notification of internal/repository/dao/notification.go
pub record Entity : Type 0 where
  pub id : ℕ
  pub biz_id : ℕ
  pub biz_key : String
  pub receivers : String
  pub channel : String
  pub tpl_id : ℕ
  pub tpl_version_id : ℕ
  pub tpl_params : String
  pub status : String
  pub schedule_strat : ℤ
  pub schedule_end : ℤ
  pub version : ℕ
  pub created_at : ℤ
  pub updated_at : ℤ

-- json.Marshal and json.Unmarshal on a list of texts and on a map of texts, their errors dropped.
pub record Json : Type 0 where
  pub marshal_receivers : List String → String
  pub unmarshal_receivers : String → List String
  pub marshal_params : List (String × String) → String
  pub unmarshal_params : String → List (String × String)

-- The part of dao.NotificationDAO that is used, on a state of its own. A batch returns the
-- entities and an error, both.
pub record Dao : Type 1 where
  pub State : Type 0
  pub create : Entity → State → Result Entity × State
  pub create_with_callback : Entity → State → Result Entity × State
  pub batch_create : List Entity → State → (List Entity × Option Error) × State
  pub batch_create_with_callback : List Entity → State → (List Entity × Option Error) × State
  pub batch_update_status : List Entity → List Entity → State → Result (Unit {0}) × State
  pub mark_success : Entity → State → Result (Unit {0}) × State
  pub mark_failure : Entity → State → Result (Unit {0}) × State

abbrev pub default_quota : ℕ
default_quota = 1

abbrev pub millisecond : ℕ
millisecond = 1000000

-- The milliseconds of a time, rounded down.
unfoldable pub unix_milli : Time → ℤ
unix_milli (pos n) = pos (n / millisecond)
unix_milli (negsuc n) = negsuc (n / millisecond)

unfoldable pub of_unix_milli : ℤ → Time
of_unix_milli (pos n) = pos (n * millisecond)
of_unix_milli (negsuc n) = negsuc (n * millisecond + millisecond - 1)

-- The zero value of SendStrategyConf.
abbrev pub no_config : SendStrategyConf
no_config = record {
  strategy = "";
  delay = pos 0;
  schedule_at = zero_time;
  start = zero_time;
  end = zero_time;
  deadline = zero_time;
}

unfoldable pub to_entity : Json → Notification → Entity
unfolding unix_milli
to_entity json n = record {
  id = n.id;
  biz_id = n.biz_id;
  biz_key = n.biz_key;
  receivers = json.marshal_receivers n.receivers;
  channel = n.channel;
  tpl_id = n.template.id;
  tpl_version_id = n.template.version_id;
  tpl_params = json.marshal_params n.template.params;
  status = n.status;
  schedule_strat = unix_milli n.scheduled_start;
  schedule_end = unix_milli n.scheduled_end;
  version = n.version;
  created_at = pos 0;
  updated_at = pos 0;
}

unfoldable pub to_domain : Json → Entity → Notification
unfolding of_unix_milli
to_domain json e = record {
  id = e.id;
  biz_id = e.biz_id;
  biz_key = e.biz_key;
  receivers = json.unmarshal_receivers e.receivers;
  channel = e.channel;
  template = record {
    id = e.tpl_id;
    version_id = e.tpl_version_id;
    params = json.unmarshal_params e.tpl_params;
  };
  status = e.status;
  scheduled_start = of_unix_milli e.schedule_strat;
  scheduled_end = of_unix_milli e.schedule_end;
  version = e.version;
  strategy_config = no_config;
}

abbrev pub unit_param : Notification → QuotaParam
unit_param n = record { biz_id = n.biz_id; channel = n.channel; quota = default_quota }

-- The key of the map in buildQuotaParams.
unfoldable pub map_key : ℕ → Channel → String
map_key biz_id channel = format_uint biz_id ++ ":" ++ channel

-- One round of its loop: the entry of the key gets one more, and is added where it is missing.
unfoldable pub bump : Notification → List (String × QuotaParam) → List (String × QuotaParam)
unfolding map_key
bump n [] =
    (map_key n.biz_id n.channel, record { biz_id = n.biz_id; channel = n.channel; quota = 1 }) ∷ []
bump n ((k, p) ∷ m) =
    let rest = bump n m in
    if k == map_key n.biz_id n.channel
    then (k, record p { quota = (p.quota + 1) % 2 ^ 32 }) ∷ m
    else (k, p) ∷ rest

unfoldable pub bump_all :
    List Notification → List (String × QuotaParam) → List (String × QuotaParam)
unfolding bump
bump_all [] m = m
bump_all (n ∷ ns) m = bump_all ns (bump n m)

-- xmap.Vals gives the values in the unspecified order of a Go map; here, in that of their keys'
-- first occurrences.
unfoldable pub build_quota_params : List Notification → List QuotaParam
unfolding bump_all
build_quota_params ns = map (λ e. e.1) (bump_all ns [])

module _ (r : Redis) (json : Json) (dao : Dao) where
  abbrev State : Type 0
  State = r.Store × dao.State

  -- What Create does with the answers of the quota and of the DAO, which it asks only where the
  -- quota is spent.
  created :
      Notification
      → Result (Unit {0}) × r.Store
      → dao.State
      → Result Entity × dao.State
      → Result Notification × State
  unfolding incr to_domain
  created n (err e, s) d inserted = (err e, (s, d))
  created n (ok _, s) d (err e, d₁) = (err e, ((incr r (unit_param n) s).1, d₁))
  created n (ok _, s) d (ok entity, d₁) = (ok (to_domain json entity), (s, d₁))

  -- The body that Create and CreateWithCallback share, with the call of the DAO.
  create_by :
      (Entity → dao.State → Result Entity × dao.State)
      → Notification
      → State
      → Result Notification × State
  unfolding decr to_entity created
  create_by insert n (s, d) = created n (decr r (unit_param n) s) d (insert (to_entity json n) d)

  unfoldable pub create : Notification → State → Result Notification × State
  unfolding create_by
  create = create_by dao.create

  unfoldable pub create_with_callback : Notification → State → Result Notification × State
  unfolding create_by
  create_with_callback = create_by dao.create_with_callback

  -- The same for a batch. The error of the DAO is not returned.
  batch_created :
      List QuotaParam
      → Result (Unit {0}) × r.Store
      → dao.State
      → (List Entity × Option Error) × dao.State
      → Result (List Notification) × State
  unfolding batch_incr to_domain
  batch_created ps (err e, s) d inserted = (err e, (s, d))
  batch_created ps (ok _, s) d ((entities, none), d₁) =
      (ok (map (to_domain json) entities), (s, d₁))
  batch_created ps (ok _, s) d ((entities, some e), d₁) =
      (ok (map (to_domain json) entities), ((batch_incr r ps s).1, d₁))

  batch_create_by :
      (List Entity → dao.State → (List Entity × Option Error) × dao.State)
      → List Notification
      → State
      → Result (List Notification) × State
  unfolding batch_decr build_quota_params to_entity batch_created
  batch_create_by insert [] (s, d) = (ok [], (s, d))
  batch_create_by insert (n ∷ ns) (s, d) =
      let ps = build_quota_params (n ∷ ns) in
      batch_created ps (batch_decr r ps s) d (insert (map (to_entity json) (n ∷ ns)) d)

  unfoldable pub batch_create : List Notification → State → Result (List Notification) × State
  unfolding batch_create_by
  batch_create = batch_create_by dao.batch_create

  unfoldable pub batch_create_with_callback :
      List Notification → State → Result (List Notification) × State
  unfolding batch_create_by
  batch_create_with_callback = batch_create_by dao.batch_create_with_callback

  unfoldable pub batch_update_status :
      List Notification → List Notification → State → Result (Unit {0}) × State
  unfolding batch_incr build_quota_params to_entity
  batch_update_status success_ns failure_ns (s, d) =
      let (updated, d₁) =
        dao.batch_update_status (map (to_entity json) success_ns) (map (to_entity json) failure_ns)
          d in
      elim updated [
        | err e ↦ (err e, (s, d₁))
        | ok _ ↦ (ok tt, ((batch_incr r (build_quota_params failure_ns) s).1, d₁))
      ]

  unfoldable pub mark_success : Notification → State → Result (Unit {0}) × State
  unfolding to_entity
  mark_success n (s, d) =
      let (marked, d₁) = dao.mark_success (to_entity json n) d in (marked, (s, d₁))

  -- What MarkFailure does with the answer of the DAO.
  failure_marked :
      Notification → r.Store → Result (Unit {0}) × dao.State → Result (Unit {0}) × State
  unfolding incr
  failure_marked n s (err e, d) = (err e, (s, d))
  failure_marked n s (ok _, d) = let (refunded, s₁) = incr r (unit_param n) s in (refunded, (s₁, d))

  unfoldable pub mark_failure : Notification → State → Result (Unit {0}) × State
  unfolding to_entity failure_marked
  mark_failure n (s, d) = failure_marked n s (dao.mark_failure (to_entity json n) d)
