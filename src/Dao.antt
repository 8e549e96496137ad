-- ===== src/Dao.antt =====
-- internal/repository/dao/notification.go: the notifications in their databases and tables.
-- gorm is the parameter `Gorm`, a state for all databases together with the calls that the code
-- makes. The id generator is part of the state; `now` is time.Now() at the call.
pub mod Marks
pub mod Find
pub mod First
pub mod Group
pub mod Create
pub mod Ids
pub mod Statements
pub mod Logs
mod Tests
use Prim.Native.String.{◌++◌}
use text.Mathlib.Text.{find?, ◌==◌}
use jotify.Prelude.{
  ℕ, ◌*◌, Bool, true, false, ◌||◌, if◌then◌else◌, String, List, [], ◌∷◌, Option, none, some, ltb,
  ◌⊎◌, inl, inr,
}
use jotify.Prelude.Text.{format_uint}
use jotify.Prelude.Int.{ℤ, pos, ltb_ℤ}
use jotify.Errs.{
  Result, ok, err, Error, duplicate_notification_id, failed_to_create_callback_log,
  notification_not_found, other,
}
use jotify.Snowflake.{Generator, next_id}
use jotify.Sharding.{HashStrategy, Dst, shard, shard_with_id}
use jotify.Repo.{Entity}

-- The errors of gorm that the code tells apart, with their messages.
pub data DbError : Type 0 where
  duplicated_key : String → DbError
  record_not_found : DbError
  db_failed : String → DbError

pub record CallbackLog : Type 0 where
  pub notification_id : ℕ
  pub retried_times : ℤ
  pub next_retry_at : ℤ
  pub status : String
  pub created_at : ℤ
  pub updated_at : ℤ

-- `update_status` sets the status and the update time and adds one to the version, in the rows
-- with the id, and with the version where one is given; it tells how many rows there were.
pub record Gorm : Type 1 where
  pub State : Type 0
  pub loaded : String → Bool
  pub insert : Dst → Entity → State → Option DbError × State
  pub insert_log : Dst → CallbackLog → State → Option DbError × State
  pub first_by_id : Dst → ℕ → State → Entity ⊎ DbError
  pub first_by_key : Dst → ℕ → String → State → Entity ⊎ DbError
  pub update_status : Dst → ℕ → Option ℕ → String → ℤ → State → (Option DbError × ℤ) × State
  pub update_log : Dst → ℕ → String → ℤ → State → Option DbError × State

unfoldable pub is_id_duplicate_err : List ℕ → String → Bool
is_id_duplicate_err [] message = false
is_id_duplicate_err (id ∷ ids) message =
    let rest = is_id_duplicate_err ids message in
    elim (find? message (format_uint id)) [ none ↦ rest | some _ ↦ true ]

abbrev pub of_db : DbError → Error
of_db (duplicated_key m) = other m
of_db record_not_found = other "record not found"
of_db (db_failed m) = other m

abbrev pub checked : Option DbError → Result (Unit {0})
checked none = ok tt
checked (some e) = err (of_db e)

-- gorm's Transaction takes back what a body did that returns an error.
abbrev pub settled {ℓ κ} : {A : Type ℓ} {S : Type κ} → S → Result A × S → Result A × S
settled s (ok a, t) = (ok a, t)
settled s (err e, t) = (err e, s)

unfoldable pub transaction {ℓ κ} : {A : Type ℓ} {S : Type κ} → (S → Result A × S) → S → Result A × S
transaction body s = settled s (body s)

-- The strategies and the hash that the DAO is made with.
pub record Sharded : Type 0 where
  pub sum64 : String → ℕ
  pub notif_strategy : HashStrategy
  pub cb_log_strategy : HashStrategy

-- The error of the insertion of a notification.
unfoldable pub insert_error : ℕ → DbError → Error
unfolding is_id_duplicate_err
insert_error id (duplicated_key m) =
    if is_id_duplicate_err (id ∷ []) m then duplicate_notification_id else other m
insert_error id e = of_db e

module _ (db : Gorm) (sh : Sharded) where
  abbrev State : Type 0
  State = Generator × db.State

  abbrev pub load_error : Dst → Error
  load_error d = other ("failed to load db: " ++ d.db)

  -- What the body of create returns for the answers of its two insertions, of which the second is
  -- made where a callback is needed and the first has succeeded.
  insert_answer :
      Bool
      → Entity
      → Option DbError × db.State
      → Option DbError × db.State
      → Result Entity × db.State
  unfolding insert_error
  insert_answer need_callback n (some e, s) logged = (err (insert_error n.id e), s)
  insert_answer false n (none, s) logged = (ok n, s)
  insert_answer true n (none, s) (some e, s₁) = (err failed_to_create_callback_log, s₁)
  insert_answer true n (none, s) (none, s₁) = (ok n, s₁)

  -- The rows that create inserts; its loop ends in the first round on every path.
  inserted : Dst → Dst → ℤ → Bool → Entity → db.State → Result Entity × db.State
  unfolding insert_answer
  inserted notif_dst cb_log_dst now need_callback n s =
      let answer = db.insert notif_dst n s in
      let log : CallbackLog = record {
        notification_id = n.id;
        retried_times = pos 0;
        next_retry_at = now;
        status = "init";
        created_at = now;
        updated_at = now;
      } in
      insert_answer need_callback n answer (db.insert_log cb_log_dst log answer.1)

  -- `now` is the time in milliseconds that the rows get, and `clock` the milliseconds that the id
  -- generator reads.
  unfoldable pub create : ℤ → ℕ → Bool → Entity → State → Result Entity × State
  unfolding shard inserted next_id transaction
  create now clock need_callback n (g, s) =
      let notif_dst = shard sh.sum64 sh.notif_strategy n.biz_id n.biz_key in
      let cb_log_dst = shard sh.sum64 sh.cb_log_strategy n.biz_id n.biz_key in
      let (g₁, id) = next_id sh.sum64 g clock n.biz_id n.biz_key in
      let row = record n { id = id; created_at = now; updated_at = now; version = 1 } in
      let (made, s₁) = transaction (inserted notif_dst cb_log_dst now need_callback row) s in
      if db.loaded notif_dst.db then (made, (g₁, s₁)) else (err (load_error notif_dst), (g, s))

  unfoldable pub get_by_id : ℕ → db.State → Result Entity
  unfolding shard_with_id
  get_by_id id s =
      let d = shard_with_id sh.notif_strategy id in
      if db.loaded d.db
      then elim (db.first_by_id d id s) [
        | inl n ↦ ok n
        | inr e ↦ elim e [
          | record_not_found ↦ err notification_not_found
          | duplicated_key m ↦ err (other m)
          | db_failed m ↦ err (other m)
        ]
      ]
      else err (load_error d)

  unfoldable pub get_by_key : ℕ → String → db.State → Result Entity
  unfolding shard
  get_by_key biz_id biz_key s =
      let d = shard sh.sum64 sh.notif_strategy biz_id biz_key in
      if db.loaded d.db
      then elim (db.first_by_key d biz_id biz_key s) [
        | inl n ↦ ok n
        | inr e ↦ err (
            other (
              "failed to get notification, bizId = "
              ++ format_uint biz_id
              ++ ", bizKey = "
              ++ biz_key))
      ]
      else err (load_error d)

  abbrev then_log : Dst → ℕ → ℤ → (Option DbError × ℤ) × db.State → Result (Unit {0}) × db.State
  then_log d id now ((some e, _), s) = (err (of_db e), s)
  then_log d id now ((none, _), s) =
      let (failed, s₁) = db.update_log d id "pending" now s in (checked failed, s₁)

  unfoldable pub mark_success : ℤ → Entity → db.State → Result (Unit {0}) × db.State
  unfolding shard_with_id transaction
  mark_success now n s =
      let d = shard_with_id sh.notif_strategy n.id in
      let cb_log_dst = shard_with_id sh.cb_log_strategy n.id in
      let marked =
        transaction
          (λ (t : db.State).
            then_log cb_log_dst n.id now (db.update_status d n.id none n.status now t))
          s in
      if db.loaded d.db then marked else (err (load_error d), s)

  abbrev no_log : (Option DbError × ℤ) × db.State → Result (Unit {0}) × db.State
  no_log ((failed, _), s) = (checked failed, s)

  unfoldable pub mark_failure : ℤ → Entity → db.State → Result (Unit {0}) × db.State
  unfolding shard_with_id transaction
  mark_failure now n s =
      let d = shard_with_id sh.notif_strategy n.id in
      let marked =
        transaction (λ (t : db.State). no_log (db.update_status d n.id none n.status now t)) s in
      if db.loaded d.db then marked else (err (load_error d), s)

  abbrev swapped : (Option DbError × ℤ) × db.State → Result (Unit {0}) × db.State
  swapped ((some e, _), s) = (err (of_db e), s)
  swapped ((none, rows_affected), s) =
      if ltb_ℤ rows_affected (pos 0)
      then (err (other "failed to concurrent competition"), s)
      else (ok tt, s)

  unfoldable pub compare_and_swap_status : ℤ → Entity → db.State → Result (Unit {0}) × db.State
  unfolding shard_with_id
  compare_and_swap_status now n s =
      let d = shard_with_id sh.notif_strategy n.id in
      let answered = swapped (db.update_status d n.id (some n.version) n.status now s) in
      if db.loaded d.db then answered else (err (load_error d), s)
