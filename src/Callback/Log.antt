-- ===== src/Callback/Log.antt =====
-- internal/repository/callback_log.go: the callback logs with their notifications, over the two
-- DAOs.
use jotify.Prelude.{ℕ, ltb, List, map, Option, none, some, if◌then◌else◌, length}
use jotify.Prelude.Int.{ℤ, pos}
use jotify.Prelude.Maps.{lookup}
use jotify.Errs.{Result, ok, err}
use jotify.Repo.{Entity, Json, to_domain as to_domain_notif}
use jotify.Dao as Dao
use jotify.Callback.{CallbackLog, LogRepo}

-- The parts of dao.NotificationDAO and dao.CallbackLogDAO that are used, on one state.
pub record Daos (S : Type 0) : Type 0 where
  pub get_by_id : ℕ → S → Result Entity
  pub get_map_by_ids : List ℕ → S → Result (List (ℕ × Entity))
  pub find : ℤ → ℕ → ℕ → S → Result (List Dao.CallbackLog × ℕ)
  pub find_by_notification_ids : List ℕ → S → Result (List Dao.CallbackLog)
  pub update : List Dao.CallbackLog → S → Result (Unit {0}) × S

-- The zero value of dao.Notification, which stands for one that is not found.
abbrev pub no_notification : Entity
no_notification = record {
  id = 0;
  biz_id = 0;
  biz_key = "";
  receivers = "";
  channel = "";
  tpl_id = 0;
  tpl_version_id = 0;
  tpl_params = "";
  status = "";
  schedule_strat = pos 0;
  schedule_end = pos 0;
  version = 0;
  created_at = pos 0;
  updated_at = pos 0;
}

unfoldable pub to_domain : Json → Dao.CallbackLog → Entity → CallbackLog
unfolding to_domain_notif
to_domain json cl n = record {
  notification = to_domain_notif json n;
  retried_times = cl.retried_times;
  next_retry_at = cl.next_retry_at;
  status = cl.status;
}

unfoldable pub to_entity : CallbackLog → Dao.CallbackLog
to_entity cl = record {
  notification_id = cl.notification.id;
  retried_times = cl.retried_times;
  next_retry_at = cl.next_retry_at;
  status = cl.status;
  created_at = pos 0;
  updated_at = pos 0;
}

abbrev pub or_zero : Result Entity → Entity
or_zero (ok n) = n
or_zero (err e) = no_notification

abbrev pub present : Option Entity → Entity
present (some n) = n
present none = no_notification

module _ {S : Type 0} (json : Json) (d : Daos S) where
  unfoldable pub with_notification : S → Dao.CallbackLog → CallbackLog
  unfolding to_domain
  with_notification s row = to_domain json row (or_zero (d.get_by_id row.notification_id s))

  -- A batch that is not full sets the next id to zero.
  unfoldable pub found_batch :
      ℕ → S → Result (List Dao.CallbackLog × ℕ) → Result (List CallbackLog × ℕ)
  unfolding with_notification
  found_batch batch_size s (err e) = err e
  found_batch batch_size s (ok (rows, next_start_id)) =
      ok (map (with_notification s) rows, if ltb (length rows) batch_size then 0 else next_start_id)

  unfoldable pub find : ℤ → ℕ → ℕ → S → Result (List CallbackLog × ℕ)
  unfolding found_batch
  find start_time start_id batch_size s =
      found_batch batch_size s (d.find start_time start_id batch_size s)

  unfoldable pub find_by_notification_ids : List ℕ → S → Result (List CallbackLog)
  unfolding to_domain lookup
  find_by_notification_ids ids s = elim (d.find_by_notification_ids ids s) [
    | err e ↦ err e
    | ok rows ↦ elim (d.get_map_by_ids ids s) [
      | err e ↦ err e
      | ok ns ↦ ok (
          map
            (λ (row : Dao.CallbackLog).
              to_domain json row (present (lookup row.notification_id ns)))
            rows)
    ]
  ]

  unfoldable pub update : List CallbackLog → S → Result (Unit {0}) × S
  unfolding to_entity
  update logs s = d.update (map to_entity logs) s

  -- The repository that the callback service is made with.
  unfoldable pub log_repo : LogRepo S
  unfolding find find_by_notification_ids update
  log_repo = record {
    find = find;
    find_by_notification_ids = find_by_notification_ids;
    update = update;
  }
