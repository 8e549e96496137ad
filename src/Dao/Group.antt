-- ===== src/Dao/Group.antt =====
-- BatchUpdateStatus of internal/repository/dao/notification.go: the ids grouped by database and
-- table, and the statements that batchMark makes of them. A Go map is a list of its entries, in
-- the order of their first ids; the goroutines of the databases run one after the other.
use Prim.Native.String.{◌++◌}
use text.Mathlib.Text.{◌==◌}
use jotify.Prelude.{ℕ, if◌then◌else◌, String, List, [], ◌∷◌, Option, length, ltb, ◌==◌ as nat_eq}
use mathlib.Core.List
use jotify.Prelude.Text.{format_uint}
use jotify.Errs.{Result, ok, err, other}
use jotify.Sharding.{shard_with_id}
use jotify.Repo.{Entity}
use jotify.Dao.{Gorm, Sharded, DbError, checked, transaction}

pub record ModifyIds : Type 0 where
  pub callback_table : String
  pub success_ids : List ℕ
  pub failure_ids : List ℕ

abbrev pub Tables : Type 0
Tables = List (String × ModifyIds)

abbrev pub Groups : Type 0
Groups = List (String × Tables)

-- The entry of a table: `old` where there is one, and a new one otherwise.
unfoldable pub at_table : String → (ModifyIds → ModifyIds) → ModifyIds → Tables → Tables
at_table t old new [] = (t, new) ∷ []
at_table t old new ((u, m) ∷ rest) =
    let below = at_table t old new rest in if u == t then (u, old m) ∷ rest else (u, m) ∷ below

unfoldable pub at_db : String → (Tables → Tables) → Groups → Groups
at_db d change [] = (d, change []) ∷ []
at_db d change ((e, tables) ∷ rest) =
    let below = at_db d change rest in
    if e == d then (e, change tables) ∷ rest else (e, tables) ∷ below

abbrev pub add_success_id : ℕ → ModifyIds → ModifyIds
add_success_id id m = record m { success_ids = List.◌++◌ m.success_ids (id ∷ []) }

module _ (sh : Sharded) where
  -- One round of the first loop, and one of the second.
  unfoldable pub group_success : ℕ → Groups → Groups
  unfolding at_table at_db shard_with_id
  group_success id groups =
      let notif_dst = shard_with_id sh.notif_strategy id in
      let callback_dst = shard_with_id sh.cb_log_strategy id in
      let fresh : ModifyIds = record {
        callback_table = callback_dst.table;
        success_ids = id ∷ [];
        failure_ids = [];
      } in
      at_db notif_dst.db (at_table notif_dst.table (add_success_id id) fresh) groups

  unfoldable pub group_failure : ℕ → Groups → Groups
  unfolding at_table at_db shard_with_id
  group_failure id groups =
      let notif_dst = shard_with_id sh.notif_strategy id in
      let callback_dst = shard_with_id sh.cb_log_strategy id in
      let fresh : ModifyIds = record {
        callback_table = callback_dst.table;
        success_ids = [];
        failure_ids = id ∷ [];
      } in
      at_db notif_dst.db (at_table notif_dst.table (add_success_id id) fresh) groups

  unfoldable pub group_successes : List Entity → Groups → Groups
  unfolding group_success
  group_successes [] groups = groups
  group_successes (n ∷ ns) groups = group_successes ns (group_success n.id groups)

  unfoldable pub group_failures : List Entity → Groups → Groups
  unfolding group_failure
  group_failures [] groups = groups
  group_failures (n ∷ ns) groups = group_failures ns (group_failure n.id groups)

-- listToString
unfoldable pub list_to_string : List ℕ → String
list_to_string [] = ""
list_to_string (id ∷ []) = format_uint id
list_to_string (id ∷ i ∷ ids) = format_uint id ++ "," ++ list_to_string (i ∷ ids)

unfoldable pub success_to_string : ModifyIds → String
unfolding list_to_string
success_to_string m = list_to_string m.success_ids

abbrev notif_sql : String → String → ℕ → String → String
notif_sql tb status now ids =
    "UPDATE "
    ++ tb
    ++ " SET `version` = `version` + 1, `status` = '"
    ++ status
    ++ "', `update_at` = "
    ++ format_uint now
    ++ " WHERE `id` IN ("
    ++ ids
    ++ ")"

abbrev cb_log_sql : String → ℕ → String → String
cb_log_sql tb now ids =
    "UPDATE "
    ++ tb
    ++ " SET `status` = 'pending', `update_at` = "
    ++ format_uint now
    ++ " WHERE `notification_id` IN ("
    ++ ids
    ++ ")"

abbrev pub of_table : ℕ → String → ModifyIds → List String
of_table now tb m =
    List.◌++◌
      (if ltb 0 (length m.success_ids)
        then notif_sql tb "success" now (success_to_string m)
          ∷ cb_log_sql tb now (success_to_string m)
          ∷ []
        else [])
      (if ltb 0 (length m.failure_ids)
        then notif_sql tb "failure" now (success_to_string m) ∷ []
        else [])

unfoldable pub sqls : ℕ → Tables → List String
unfolding success_to_string
sqls now [] = []
sqls now ((tb, m) ∷ tables) = List.◌++◌ (of_table now tb m) (sqls now tables)

unfoldable pub join : List String → String
join [] = ""
join (s ∷ []) = s
join (s ∷ t ∷ ss) = s ++ "; " ++ join (t ∷ ss)

-- The databases, and gorm's Exec of a text on one of them.
pub record Execs (db : Gorm) : Type 0 where
  pub exec : String → String → db.State → Option DbError × db.State

module _ (db : Gorm) (ex : Execs db) (sh : Sharded) where
  -- batchMark in the transaction of a database.
  unfoldable pub batch_mark : String → ℕ → Tables → db.State → Result (Unit {0}) × db.State
  unfolding sqls join
  batch_mark name now tables s =
      let statements = sqls now tables in
      let (failed, s₁) = ex.exec name (join statements) s in
      if nat_eq (length statements) 0 then (checked failed, s₁) else (ok tt, s)

  -- The first error that the goroutines return.
  abbrev first_error : Result (Unit {0}) → Result (Unit {0}) → Result (Unit {0})
  first_error (ok _) b = b
  first_error (err e) b = err e

  unfoldable pub run_groups : ℕ → Groups → db.State → Result (Unit {0}) × db.State
  unfolding batch_mark transaction
  run_groups now [] s = (ok tt, s)
  run_groups now ((name, tables) ∷ groups) s =
      let marked = transaction (batch_mark name now tables) s in
      let (answer, s₁) =
        if db.loaded name then marked else (err (other ("failed to load db: " ++ name)), s) in
      let (answers, s₂) = run_groups now groups s₁ in (first_error answer answers, s₂)

  unfoldable pub batch_update_status :
      ℕ → List Entity → List Entity → db.State → Result (Unit {0}) × db.State
  unfolding group_successes group_failures run_groups
  batch_update_status now success_ns failure_ns s =
      run_groups now (group_failures sh failure_ns (group_successes sh success_ns [])) s
