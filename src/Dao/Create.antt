-- ===== src/Dao/Create.antt =====
-- BatchCreate of internal/repository/dao/notification.go with its helpers. The pointers that the
-- goroutines share are positions in the list of the notifications; the databases come in the
-- order of their first notifications, and their goroutines run one after the other.
pub mod Ids
pub mod Groups
pub mod Rounds
pub mod Made
mod Tests
use Prim.Native.String.{◌++◌}
use text.Mathlib.Text.{◌==◌}
use mathlib.Core.List
use jotify.Prelude.{
  ℕ, ◌+◌, Bool, true, false, if◌then◌else◌, String, List, [], ◌∷◌, map, Option, none, some,
  get_elem?, set,
}
use jotify.Prelude.TextMaps.{get, put}
use jotify.Prelude.Int.{ℤ, pos}
use jotify.Errs.{ok, err, Error, Run, returned, panicked, running, other}
use jotify.Snowflake.{Generator, next_id}
use jotify.Sharding.{shard}
use jotify.Repo.{Entity}
use jotify.Dao.{
  Gorm, Sharded, DbError, duplicated_key, record_not_found, db_failed, CallbackLog,
  is_id_duplicate_err, of_db,
}

-- gorm's Create in a dry run, which answers a text with its arguments for a row of a table, and
-- Exec of a text with arguments on a database.
pub record Inserts (db : Gorm) : Type 1 where
  pub Var : Type 0
  pub create_statement : String → Entity → String × List Var
  pub create_log_statement : String → CallbackLog → String × List Var
  pub exec : String → String → List Var → db.State → Option DbError × db.State

-- m[dst.DB], where a missing list is made.
abbrev pub or_nil : Option (List ℕ) → List ℕ
or_nil none = []
or_nil (some is) = is

unfoldable pub add_pointer : String → ℕ → List (String × List ℕ) → List (String × List ℕ)
unfolding get put
add_pointer name i m = put name (List.◌++◌ (or_nil (get name m)) (i ∷ [])) m

-- The loop that groups the notifications, from position `i` on.
unfoldable pub group_pointers :
    Sharded → ℕ → List Entity → List (String × List ℕ) → List (String × List ℕ)
unfolding add_pointer shard
group_pointers sh i [] m = m
group_pointers sh i (n ∷ ns) m =
    let dst = shard sh.sum64 sh.notif_strategy n.biz_id n.biz_key in
    group_pointers sh (i + 1) ns (add_pointer dst.db i m)

-- strings.Join(sqls, ";")
unfoldable pub join : List String → String
join [] = ""
join (s ∷ []) = s
join (s ∷ t ∷ ss) = s ++ ";" ++ join (t ∷ ss)

-- The id generator and what the pointers stand for.
abbrev pub Pointed : Type 0
Pointed = Generator × List Entity

-- n.Id = id, through a pointer; a pointer always stands for one of the notifications.
unfoldable pub renewed : Sharded → ℕ → ℕ → Option Entity → Pointed → Pointed
unfolding next_id
renewed sh clock i none p = p
renewed sh clock i (some n) (g, ns) =
    let (g₁, id) = next_id sh.sum64 g clock n.biz_id n.biz_key in
    (g₁, set ns i (record n { id = id }))

abbrev pub renew : Sharded → ℕ → ℕ → Pointed → Pointed
renew sh clock i (g, ns) = renewed sh clock i (get_elem? ns i) (g, ns)

-- How the loop over the databases ends: at one that is not loaded, or with what eg.Wait() returns.
pub data Waited : Type 0 where
  load_failed : String → Waited
  waited : Run (Unit {0}) → Waited

-- eg.Wait() returns when all goroutines have, with the first error.
abbrev pub both : Run (Unit {0}) → Run (Unit {0}) → Run (Unit {0})
both panicked b = panicked
both running panicked = panicked
both running b = running
both (returned (ok _)) b = b
both (returned (err e)) panicked = panicked
both (returned (err e)) running = running
both (returned (err e)) (returned b) = returned (err e)

abbrev pub stamped : ℤ → Entity → Entity
stamped now n = record n { created_at = now; updated_at = now; version = 1 }

module _ (db : Gorm) (ins : Inserts db) (sh : Sharded) where
  -- What a round of the loop of sqlGenerate appends.
  abbrev pub Statements : Type 0
  Statements = List String × List ins.Var × List ℕ

  abbrev pub appended : Statements → Statements → Statements
  appended (sqls, args, ids) (sqls₁, args₁, ids₁) =
      (List.◌++◌ sqls sqls₁, List.◌++◌ args args₁, List.◌++◌ ids ids₁)

  abbrev pub notification_statements : Entity → Statements
  notification_statements n =
      let dst = shard sh.sum64 sh.notif_strategy n.biz_id n.biz_key in
      let (sql, vars) = ins.create_statement dst.table n in (sql ∷ [], vars, n.id ∷ [])

  abbrev pub log_statements : ℤ → Bool → Entity → Statements
  log_statements now false n = ([], [], [])
  log_statements now true n =
      let dst = shard sh.sum64 sh.cb_log_strategy n.biz_id n.biz_key in
      let log : CallbackLog = record {
        notification_id = n.id;
        retried_times = pos 0;
        next_retry_at = now;
        status = "init";
        created_at = now;
        updated_at = now;
      } in
      let (sql, vars) = ins.create_log_statement dst.table log in (sql ∷ [], vars, [])

  unfoldable pub statements_of : ℤ → Bool → Option Entity → Statements
  unfolding shard
  statements_of now need_callback none = ([], [], [])
  statements_of now need_callback (some n) =
      appended (notification_statements n) (log_statements now need_callback n)

  -- The loop of sqlGenerate, which reads the time once; `clock` is what the id generator reads for
  -- the notification of each pointer.
  unfoldable pub statements : ℤ → (ℕ → ℕ) → Bool → List ℕ → Pointed → Statements × Pointed
  unfolding renewed statements_of
  statements now clock need_callback [] p = (([], [], []), p)
  statements now clock need_callback (i ∷ is) p =
      let p₁ = renew sh (clock i) i p in
      let (rest, p₂) = statements now clock need_callback is p₁ in
      (appended (statements_of now need_callback (get_elem? p₁.1 i)) rest, p₂)

  unfoldable pub sql_generate :
      ℤ → (ℕ → ℕ) → Bool → List ℕ → Pointed → (String × List ins.Var × List ℕ) × Pointed
  unfolding statements join
  sql_generate now clock need_callback is p =
      let ((sqls, args, ids), p₁) = statements now clock need_callback is p in
      ((join sqls, args, ids), p₁)

  -- errors.Is(err, gorm.ErrDuplicatedKey) && IsIdDuplicateErr(ids, err)
  unfoldable pub is_duplicate : List ℕ → DbError → Bool
  unfolding is_id_duplicate_err
  is_duplicate ids (duplicated_key m) = is_id_duplicate_err ids m
  is_duplicate ids record_not_found = false
  is_duplicate ids (db_failed m) = false

  abbrev pub Memory : Type 0
  Memory = Pointed × db.State

  abbrev pub Ended : Type 0
  Ended = Run (Unit {0})

  -- What a round does with the answer of Exec, where `again` is what the next rounds do.
  unfoldable pub on_exec :
      List ℕ → Pointed → Option DbError × db.State → Ended × Memory → Ended × Memory
  unfolding is_duplicate
  on_exec ids p (none, s) again = (returned (ok tt), (p, s))
  on_exec ids p (some e, s) again =
      if is_duplicate ids e then again else (returned (err (of_db e)), (p, s))

  -- The goroutine of a database. Each of its rounds has a time of the list; where no time is left,
  -- it is still running.
  unfoldable pub insert_group :
      Bool → String → List ℕ → List (ℤ × (ℕ → ℕ)) → Memory → Ended × Memory
  unfolding sql_generate on_exec
  insert_group need_callback name is [] memory = (running, memory)
  insert_group need_callback name is ((now, clock) ∷ times) (p, s) =
      let ((sql, args, ids), p₁) = sql_generate now clock need_callback is p in
      let answer = ins.exec name sql args s in
      let again = insert_group need_callback name is times (p₁, answer.1) in
      if sql == "" then (returned (ok tt), (p₁, s)) else on_exec ids p₁ answer again

  -- The goroutine of a database that is loaded is started before the next database is looked at.
  abbrev pub joined : Ended → Waited → Waited
  joined a (load_failed name) = load_failed name
  joined a (waited b) = waited (both a b)

  unfoldable pub insert_groups :
      Bool → (String → List (ℤ × (ℕ → ℕ))) → List (String × List ℕ) → Memory → Waited × Memory
  unfolding insert_group
  insert_groups need_callback times [] memory = (waited (returned (ok tt)), memory)
  insert_groups need_callback times ((name, is) ∷ groups) memory =
      let (ended, memory₁) = insert_group need_callback name is (times name) memory in
      let (rest, memory₂) = insert_groups need_callback times groups memory₁ in
      if db.loaded name then (joined ended rest, memory₂) else (load_failed name, memory)

  abbrev pub collected : Waited → List Entity → Run (List Entity × Option Error)
  collected (load_failed name) ns = returned (ok ([], some (other ("failed to load db: " ++ name))))
  collected (waited panicked) ns = panicked
  collected (waited running) ns = running
  collected (waited (returned (err e))) ns = returned (ok (ns, some e))
  collected (waited (returned (ok _))) ns = returned (ok (ns, none))

  unfoldable pub try_batch_insert :
      Bool
      → (String → List (ℤ × (ℕ → ℕ)))
      → List Entity
      → Generator × db.State
      → Run (List Entity × Option Error) × (Generator × db.State)
  unfolding group_pointers insert_groups
  try_batch_insert need_callback times ns (g, s) =
      let groups = group_pointers sh 0 ns [] in
      let (ended, ((g₁, ns₁), s₁)) = insert_groups need_callback times groups ((g, ns), s) in
      (collected ended ns₁, (g₁, s₁))

  -- `now` is the time that batchCreate reads, and `times` has the times of the rounds of each
  -- database.
  unfoldable pub batch_create :
      ℤ
      → Bool
      → (String → List (ℤ × (ℕ → ℕ)))
      → List Entity
      → Generator × db.State
      → Run (List Entity × Option Error) × (Generator × db.State)
  unfolding try_batch_insert
  batch_create now need_callback times [] memory = (returned (ok ([], none)), memory)
  batch_create now need_callback times (n ∷ ns) memory =
      try_batch_insert need_callback times (map (stamped now) (n ∷ ns)) memory
