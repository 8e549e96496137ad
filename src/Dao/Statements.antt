-- ===== src/Dao/Statements.antt =====
-- What BatchUpdateStatus does to the databases, and how it groups the ids.
use Prim.Native.String.{◌++◌}
use text.Mathlib.Text.{◌==◌}
use text.Mathlib.TextEquality.{eq_iff}
use jotify.Prelude.{
  ℕ, ◌<◌, ◌+◌, ◌≡◌, refl, ap, ◌∙◌, arith, Bool, true, false, Bool-cases, ltb, inl, inr,
  if◌then◌else◌, String, List, [], ◌∷◌, length, ◌==◌ as nat_eq,
}
use mathlib.Core.List
use jotify.Errs.{Result, ok, err, other}
use jotify.Sharding.{Dst, shard_with_id}
use jotify.Repo.{Entity}
use jotify.Dao.{Gorm, Sharded, transaction, settled, checked}
use jotify.Dao.Group.{
  ModifyIds, Tables, Groups, Execs, at_table, at_db, add_success_id, group_success, group_failure,
  group_successes, group_failures, sqls, batch_mark, run_groups, batch_update_status, of_table,
  join,
}

-- Every table of the groups has an id.
data HasIds : Tables → Type 0 where
  no_table : HasIds []
  table :
      (t : String) (m : ModifyIds) (ts : Tables)
      → 0 < length m.success_ids + length m.failure_ids
      → HasIds ts
      → HasIds ((t, m) ∷ ts)

-- Every database has a table, and every table an id.
data IsFilled : Groups → Type 0 where
  no_db : IsFilled []
  filled :
      (d : String) (ts : Tables) (gs : Groups)
      → 0 < length ts
      → HasIds ts
      → IsFilled gs
      → IsFilled ((d, ts) ∷ gs)

length-append_one : (xs : List ℕ) (x : ℕ) → length (List.◌++◌ xs (x ∷ [])) ≡ length xs + 1
length-append_one [] x = refl
length-append_one (y ∷ xs) x = ground (arith, length-append_one xs x)

at_table-HasIds :
    (t : String) (id : ℕ) (new : ModifyIds) (ts : Tables)
    → 0 < length new.success_ids + length new.failure_ids
    → HasIds ts
    → HasIds (at_table t (add_success_id id) new ts)
unfolding at_table
at_table-HasIds t id new [] some_id h = table t new [] some_id no_table
at_table-HasIds t id new ((u, m) ∷ ts) some_id (table _ _ _ p h) =
    branch (at_table-HasIds t id new ts some_id h) (u == t)
  where
    branch :
        HasIds (at_table t (add_success_id id) new ts)
        → (b : Bool)
        → HasIds (
            if b
            then (u, add_success_id id m) ∷ ts
            else (u, m) ∷ at_table t (add_success_id id) new ts)
    branch rest true =
        table u (add_success_id id m) ts (ground (arith, length-append_one m.success_ids id)) h
    branch rest false = table u m _ p rest

at_table-some :
    (t : String) (old : ModifyIds → ModifyIds) (new : ModifyIds) (ts : Tables)
    → 0 < length (at_table t old new ts)
unfolding at_table
at_table-some t old new [] = ground arith
at_table-some t old new ((u, m) ∷ ts) = ground arith

at_db-IsFilled :
    (d t : String) (id : ℕ) (new : ModifyIds) (gs : Groups)
    → 0 < length new.success_ids + length new.failure_ids
    → IsFilled gs
    → IsFilled (at_db d (at_table t (add_success_id id) new) gs)
unfolding at_db
at_db-IsFilled d t id new [] some_id f =
    filled d _ [] (at_table-some t (add_success_id id) new [])
      (at_table-HasIds t id new [] some_id no_table) no_db
at_db-IsFilled d t id new ((e, ts) ∷ gs) some_id (filled _ _ _ p h f) =
    branch (at_db-IsFilled d t id new gs some_id f) (e == d)
  where
    branch :
        IsFilled (at_db d (at_table t (add_success_id id) new) gs)
        → (b : Bool)
        → IsFilled (
            if b
            then (e, at_table t (add_success_id id) new ts) ∷ gs
            else (e, ts) ∷ at_db d (at_table t (add_success_id id) new) gs)
    branch rest true =
        filled e _ gs (at_table-some t (add_success_id id) new ts)
          (at_table-HasIds t id new ts some_id h) f
    branch rest false = filled e ts _ p h rest

grouped :
    (sh : Sharded) (ns : List Entity) (gs : Groups)
    → IsFilled gs
    → IsFilled (group_successes sh ns gs)
unfolding group_successes group_success
grouped sh [] gs f = f
grouped sh (n ∷ ns) gs f = grouped sh ns _ (at_db-IsFilled _ _ n.id _ gs (ground arith) f)

grouped_too :
    (sh : Sharded) (ns : List Entity) (gs : Groups)
    → IsFilled gs
    → IsFilled (group_failures sh ns gs)
unfolding group_failures group_failure
grouped_too sh [] gs f = f
grouped_too sh (n ∷ ns) gs f = grouped_too sh ns _ (at_db-IsFilled _ _ n.id _ gs (ground arith) f)

length-append : (xs ys : List String) → length (List.◌++◌ xs ys) ≡ length xs + length ys
length-append [] ys = omega arith
length-append (x ∷ xs) ys = ground (arith, length-append xs ys)

of_table-some :
    (now : ℕ) (t : String) (m : ModifyIds)
    → 0 < length m.success_ids + length m.failure_ids
    → 0 < length (of_table now t m)
of_table-some now t m q = elim (Bool-cases (ltb 0 (length m.success_ids))) [
  | inl e ↦ ground arith
  | inr e ↦ ground arith
]

sqls-some : (now : ℕ) (ts : Tables) → 0 < length ts → HasIds ts → 0 < length (sqls now ts)
unfolding sqls
sqls-some now [] p h = ground arith
sqls-some now ((t, m) ∷ ts) p (table _ _ _ q h) =
    ground (arith, length-append (of_table now t m) (sqls now ts), of_table-some now t m q)

not_empty : (n : ℕ) → 0 < n → (nat_eq n 0) ≡ false
not_empty n p = ground arith

at_same :
    (d t : String) (old : ModifyIds → ModifyIds) (new m : ModifyIds)
    → at_db d (at_table t old new) ((d, (t, m) ∷ []) ∷ []) ≡ (d, (t, old m) ∷ []) ∷ []
unfolding at_db at_table
at_same d t old new m = simp ((eq_iff d d).1 refl, (eq_iff t t).1 refl)

-- A failed notification that falls into the same database and table as a succeeded one is grouped
-- with the succeeded ones: the group has both ids to mark as a success, and none as a failure.
group_failure-after_success :
    (sh : Sharded) (won lost : ℕ)
    → shard_with_id sh.notif_strategy lost ≡ shard_with_id sh.notif_strategy won
    → group_failure sh lost (group_success sh won [])
      ≡ (
        (shard_with_id sh.notif_strategy won).db,
        (
          (shard_with_id sh.notif_strategy won).table,
          record {
            callback_table = (shard_with_id sh.cb_log_strategy won).table;
            success_ids = won ∷ lost ∷ [];
            failure_ids = [];
          },
        )
            ∷ [],
      )
        ∷ []
unfolding group_failure group_success at_db at_table
group_failure-after_success sh won lost same =
    let w = shard_with_id sh.notif_strategy won in
    let fresh : ModifyIds = record {
      callback_table = (shard_with_id sh.cb_log_strategy lost).table;
      success_ids = [];
      failure_ids = lost ∷ [];
    } in
    ap
      (λ (x : Dst).
        at_db x.db (at_table x.table (add_success_id lost) fresh) (group_success sh won []))
      same
    ∙ at_same w.db w.table (add_success_id lost) fresh (record {
      callback_table = (shard_with_id sh.cb_log_strategy won).table;
      success_ids = won ∷ [];
      failure_ids = [];
    })

module _ (gorm : Gorm) (ex : Execs gorm) (sh : Sharded) where
  nothing_marked :
      (name : String) (now : ℕ) (ts : Tables) (s : gorm.State)
      → 0 < length (sqls now ts)
      → batch_mark gorm ex sh name now ts s ≡ (ok tt, s)
  unfolding batch_mark
  nothing_marked name now ts s p =
      ap
        (λ (b : Bool).
          if b
          then (
            checked ((ex.exec name (join (sqls now ts)) s).0),
            (ex.exec name (join (sqls now ts)) s).1,
          )
          else (ok tt, s))
        (not_empty (length (sqls now ts)) p)

  nothing_run :
      (now : ℕ) (gs : Groups) (s : gorm.State)
      → IsFilled gs
      → (run_groups gorm ex sh now gs s).1 ≡ s
  unfolding run_groups transaction
  nothing_run now [] s f = refl
  nothing_run now ((name, ts) ∷ gs) s (filled _ _ _ p h f) =
      nothing_run now gs _ f ∙ kept (gorm.loaded name)
    where
      kept :
          (b : Bool)
          → (if b
              then settled s (batch_mark gorm ex sh name now ts s)
              else (err (other ("failed to load db: " ++ name)), s)).1
            ≡ s
      kept true =
          ap (λ (x : Result (Unit {0}) × gorm.State). (settled s x).1)
            (nothing_marked name now ts s (sqls-some now ts p h))
      kept false = refl

  -- A batch update of statuses leaves every database as it is, whatever notifications it is given:
  -- where a database has statements, they are not executed.
  batch_update_status-nothing :
      (now : ℕ) (success_ns failure_ns : List Entity) (s : gorm.State)
      → (batch_update_status gorm ex sh now success_ns failure_ns s).1 ≡ s
  unfolding batch_update_status
  batch_update_status-nothing now success_ns failure_ns s =
      nothing_run now _ s (grouped_too sh failure_ns _ (grouped sh success_ns [] no_db))
