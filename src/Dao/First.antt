-- ===== src/Dao/First.antt =====
-- What GetById returns, in terms of the database and the first row of the id's table.
use jotify.Prelude.{ℕ, ◌≡◌, refl, ap, arith, Bool, true, false, if◌then◌else◌, ◌⊎◌, inl, inr}
use jotify.Errs.{ok, err, Error, notification_not_found, other}
use jotify.Sharding.{shard_with_id}
use jotify.Repo.{Entity}
use jotify.Dao.{Gorm, Sharded, DbError, duplicated_key, record_not_found, db_failed, get_by_id}

module _ (db : Gorm) (sh : Sharded) where
  pub get_by_id_lem :
      (i : ℕ) (s : db.State) (n : Entity)
      → db.loaded ((shard_with_id sh.notif_strategy i).db) ≡ true
      → db.first_by_id (shard_with_id sh.notif_strategy i) i s ≡ inl n
      → get_by_id db sh i s ≡ ok n
  unfolding get_by_id
  get_by_id_lem i s n here found = simp (here, found)

  -- GetById returns a notification only where the database is there and its first row is that.
  pub get_by_id-first :
      (i : ℕ) (s : db.State) (n : Entity)
      → get_by_id db sh i s ≡ ok n
      → (db.loaded ((shard_with_id sh.notif_strategy i).db) ≡ true)
        × (db.first_by_id (shard_with_id sh.notif_strategy i) i s ≡ inl n)
  unfolding get_by_id
  get_by_id-first i s n h =
      first (db.loaded ((shard_with_id sh.notif_strategy i).db))
        (db.first_by_id (shard_with_id sh.notif_strategy i) i s) _ h
    where
      first :
          (b : Bool) (found : Entity ⊎ DbError) (e : Error)
          → (if b
              then elim found [
                | inl x ↦ ok x
                | inr y ↦ elim y [
                  | record_not_found ↦ err notification_not_found
                  | duplicated_key t ↦ err (other t)
                  | db_failed t ↦ err (other t)
                ]
              ]
              else err e)
            ≡ ok n
          → (b ≡ true) × (found ≡ inl n)
      first true (inl x) e q = (refl, ap inl (ground arith))
      first true (inr record_not_found) e q = ground arith
      first true (inr (duplicated_key t)) e q = ground arith
      first true (inr (db_failed t)) e q = ground arith
      first false found e q = ground arith
