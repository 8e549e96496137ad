-- ===== src/Dao/Ids.antt =====
-- GetMapByIds of internal/repository/dao/notification.go: the ids grouped by database and table,
-- and the notifications that a goroutine per group finds and stores in one map under a mutex. The
-- order of the goroutines is the parameter `order`; none changes the databases.
pub mod Agree
pub mod Groups
pub mod Stored
use Prim.Native.String.{◌++◌}
use text.Mathlib.Text.{◌==◌}
use mathlib.Core.List
use jotify.Prelude.{ℕ, Bool, ◌&&◌, if◌then◌else◌, String, List, [], ◌∷◌, Option}
use jotify.Prelude.Maps.{store}
use jotify.Errs.{Result, ok, err, other}
use jotify.Sharding.{shard_with_id}
use jotify.Repo.{Entity}
use jotify.Dao.{Gorm, Sharded, DbError, checked}

abbrev pub Key : Type 0
Key = String × String

abbrev pub IdMap : Type 0
IdMap = List (Key × List ℕ)

abbrev pub NotifMap : Type 0
NotifMap = List (ℕ × Entity)

abbrev pub same : Key → Key → Bool
same j k = j.0 == k.0 && j.1 == k.1

-- One round of the loop over the ids.
unfoldable pub add_id : Key → ℕ → IdMap → IdMap
add_id k id [] = (k, id ∷ []) ∷ []
add_id k id ((j, ids) ∷ rest) =
    let below = add_id k id rest in
    if same j k then (j, List.◌++◌ ids (id ∷ [])) ∷ rest else (j, ids) ∷ below

abbrev pub key_of : Sharded → ℕ → Key
key_of sh id = let dst = shard_with_id sh.notif_strategy id in (dst.db, dst.table)

unfoldable pub group_ids : Sharded → List ℕ → IdMap → IdMap
unfolding add_id shard_with_id
group_ids sh [] m = m
group_ids sh (id ∷ ids) m = group_ids sh ids (add_id (key_of sh id) id m)

-- The assignments of a goroutine to the map.
unfoldable pub store_all : List Entity → NotifMap → NotifMap
unfolding store
store_all [] m = m
store_all (n ∷ ns) m = store_all ns (store n.id n m)

-- gorm's Find of the rows of a table whose ids are in a list.
pub record Finds (db : Gorm) : Type 0 where
  pub find_in : Key → List ℕ → db.State → List Entity × Option DbError

-- What eg.Wait() returns of two goroutines, in their order.
abbrev pub first_error : Result (Unit {0}) → Result (Unit {0}) → Result (Unit {0})
first_error (ok _) b = b
first_error (err e) b = err e

module _ (db : Gorm) (finds : Finds db) where
  -- One goroutine.
  unfoldable pub find_group : Key → List ℕ → db.State → NotifMap → Result (Unit {0}) × NotifMap
  unfolding store_all
  find_group k ids s m =
      let (ns, failed) = finds.find_in k ids s in
      if db.loaded k.0
      then (checked failed, store_all ns m)
      else (err (other ("failed to load db: " ++ k.0)), m)

  unfoldable pub find_groups : IdMap → db.State → NotifMap → Result (Unit {0}) × NotifMap
  unfolding find_group
  find_groups [] s m = (ok tt, m)
  find_groups ((k, ids) ∷ groups) s m =
      let (answer, m₁) = find_group k ids s m in
      let (answers, m₂) = find_groups groups s m₁ in (first_error answer answers, m₂)

  unfoldable pub get_map_by_ids :
      Sharded → (IdMap → IdMap) → List ℕ → db.State → Result (Unit {0}) × NotifMap
  unfolding group_ids find_groups
  get_map_by_ids sh order ids s = find_groups (order (group_ids sh ids [])) s []
