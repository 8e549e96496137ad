-- ===== src/Repo/Tests.antt =====
-- The theorems on the stored notifications at a concrete DAO, one that fails on every batch.
use jotify.Prelude.{ℕ, ◌≡◌, suc, refl, arith, String, [], ◌∷◌, some, none}
use jotify.Prelude.Int.{ℤ, pos}
use jotify.Errs.{ok, err, other}
use jotify.Domain.{channel_sms}
use jotify.Domain.Notification.{Notification}
use jotify.Quota.{param_key}
use jotify.Quota.Cells.{cells, cells-IsRedis}
use jotify.Repo.{
  Json, Dao, to_entity, to_domain, build_quota_params, create, create_with_callback, unit_param,
  no_config,
}
use jotify.Repo.Spend.{Spends, create-Spends}
use jotify.Repo.Params.{asked, count, asked-build_quota_params}
use jotify.Repo.RoundTrip.{floor_milli, to_domain-to_entity}

abbrev order : Notification
order = record {
  id = 0;
  biz_id = 7;
  biz_key = "order-1";
  receivers = [];
  channel = channel_sms;
  template = record { id = 3; version_id = 2; params = [] };
  status = "pending";
  scheduled_start = pos 1500000;
  scheduled_end = pos 3500000;
  version = 0;
  strategy_config = no_config;
}

-- It stores every entity alone and no batch.
abbrev moody : Dao
moody = record {
  State = ℕ;
  create = λ e d. (ok e, suc d);
  create_with_callback = λ e d. (err (other "down"), d);
  batch_create = λ es d. ((es, some (other "down")), d);
  batch_create_with_callback = λ es d. ((es, none), d);
  batch_update_status = λ xs ys d. (ok tt, d);
  mark_success = λ e d. (ok tt, d);
  mark_failure = λ e d. (ok tt, d);
}

-- It is enough for lists without entries.
abbrev blank : Json
blank = record {
  marshal_receivers = λ xs. "[]";
  unmarshal_receivers = λ s. [];
  marshal_params = λ xs. "{}";
  unmarshal_params = λ s. [];
}

abbrev two_each : String → ℤ
two_each k = pos 2

create-Spends_example :
    Spends cells
      (param_key (unit_param order))
      two_each
      ((create cells blank moody order (two_each, 0)).1.0)
      ((create cells blank moody order (two_each, 0)).0)
    × Spends cells
        (param_key (unit_param order))
        two_each
        ((create_with_callback cells blank moody order (two_each, 0)).1.0)
        ((create_with_callback cells blank moody order (two_each, 0)).0)
create-Spends_example = create-Spends cells cells-IsRedis blank moody order two_each 0

asked-build_quota_params_example :
    asked "7:sms" (build_quota_params (order ∷ order ∷ [])) ≡ count "7:sms" (order ∷ order ∷ [])
asked-build_quota_params_example =
    asked-build_quota_params (order ∷ order ∷ []) "7:sms" (omega arith)

to_domain-to_entity_example : to_domain blank (to_entity blank order) ≡ record order {
  scheduled_start = floor_milli (pos 1500000);
  scheduled_end = floor_milli (pos 3500000);
  strategy_config = no_config;
}
to_domain-to_entity_example = to_domain-to_entity blank order refl refl
