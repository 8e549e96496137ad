-- ===== src/Dao/Create/Made.antt =====
-- What BatchCreate makes of a batch, and where it still runs.
use mathlib.Core.Path.{subst}
use Prim.Native.Nat.{◌∣◌}
use jotify.Prelude.{
  ℕ, zero, suc, ◌*◌, ◌^◌, ◌<◌, ◌≡◌, refl, sym, ap, ap₂, ◌∙◌, arith, Bool, true, false,
  if◌then◌else◌, String, List, [], ◌∷◌, map, Option, none, some, get_elem?, length, ◌⊎◌, inl, inr,
}
use jotify.Prelude.Int.{ℤ}
use jotify.Errs.{Result, ok, err, Error, returned, running}
use jotify.Snowflake.{Generator}
use jotify.Sharding.{shard, shard_with_id}
use jotify.Repo.{Entity}
use jotify.Dao.{Gorm, Sharded}
use jotify.Dao.Create.{
  Inserts, Pointed, Memory, Ended, Waited, waited, insert_group, insert_groups, joined, collected,
  group_pointers, try_batch_insert, batch_create, stamped,
}
use jotify.Dao.Create.Ids.{
  Renumbered, none_left, renumbered, Renumbered-refl, RoutedAt, Improves, Improves-refl,
  Improves-trans,
}
use jotify.Dao.Create.Groups.{Groups, Grouped, here, there, group_pointers_lem}
use jotify.Dao.Create.Rounds.{
  Collides, Ends, insert_group-Ends, insert_group-Improves, insert_group-RoutedAt,
}

-- The rows of a batch: the notifications in their order, with the time and the version set, and
-- ids that lead to the databases and tables that their keys are sharded to.
pub data Made (sh : Sharded) (now : ℤ) : List Entity → List Entity → Type 0 where
  none_made : Made sh now [] []
  made :
      (n : Entity) (id : ℕ) (ns rows : List Entity)
      → shard_with_id sh.notif_strategy id ≡ shard sh.sum64 sh.notif_strategy n.biz_id n.biz_key
      → Made sh now ns rows
      → Made sh now
          (n ∷ ns)
          (record n { id = id; created_at = now; updated_at = now; version = 1 } ∷ rows)

Renumbered-Made :
    (sh : Sharded) (now : ℤ) (ns rows : List Entity)
    → Renumbered (map (stamped now) ns) rows
    → ((j : ℕ) → RoutedAt sh rows j)
    → Made sh now ns rows
Renumbered-Made sh now [] _ none_left all = none_made
Renumbered-Made sh now (n ∷ ns) _ (renumbered _ id _ rows r) all =
    made n id ns rows (all 0 _ refl) (Renumbered-Made sh now ns rows r (λ j. all (suc j)))

-- A position of the renumbered list is one of the list.
Renumbered-position :
    (ns ms : List Entity) (j : ℕ) (m : Entity)
    → Renumbered ns ms
    → get_elem? ms j ≡ some m
    → (n : Entity) × (get_elem? ns j ≡ some n)
Renumbered-position _ _ j m none_left h = ground arith
Renumbered-position _ _ zero m (renumbered n id ns ms r) h = (n, refl)
Renumbered-position _ _ (suc j) m (renumbered n id ns ms r) h = Renumbered-position ns ms j m r h

taken : {A : Type 0} (b : Bool) (x y : A) → b ≡ true → (if b then x else y) ≡ x
taken true x y h = refl
taken false x y h = ground arith

module _ (db : Gorm) (ins : Inserts db) (sh : Sharded)
    (positive : 0 < sh.notif_strategy.db_sharding)
    (divides : sh.notif_strategy.db_sharding * sh.notif_strategy.table_sharding ∣ 2 ^ 10)
    (loaded : (name : String) → db.loaded name ≡ true) (need_callback : Bool)
    (times : String → List (ℤ × (ℕ → ℕ))) where
  abbrev Run_of : Groups → Pointed → db.State → Waited × Memory db ins sh
  Run_of groups p s = insert_groups db ins sh need_callback times groups (p, s)

  -- A goroutine that the loop over the databases starts has collided in every round.
  pub data Unsettled : Groups → Memory db ins sh → Type 0 where
    this :
        (name : String) (is : List ℕ) (groups : Groups) (memory : Memory db ins sh)
        → Collides db ins sh need_callback name is (times name) memory
        → Unsettled ((name, is) ∷ groups) memory
    later :
        (name : String) (is : List ℕ) (groups : Groups) (memory : Memory db ins sh)
        → Unsettled groups ((insert_group db ins sh need_callback name is (times name) memory).1)
        → Unsettled ((name, is) ∷ groups) memory

  -- The loop over the databases has returned, or still waits for such a goroutine.
  abbrev Waits : Groups → Memory db ins sh → Waited → Type 0
  Waits groups memory w =
      ((r : Result (Unit {0})) × (w ≡ waited (returned r)))
      ⊎ ((w ≡ waited running) × Unsettled groups memory)

  joined-Waits :
      (name : String) (is : List ℕ) (groups : Groups) (memory : Memory db ins sh)
      (a : Ended db ins sh) (b : Waited)
      → Ends db ins sh (Collides db ins sh need_callback name is (times name) memory) a
      → Waits groups ((insert_group db ins sh need_callback name is (times name) memory).1) b
      → Waits ((name, is) ∷ groups) memory (joined db ins sh a b)
  joined-Waits name is groups memory a b (inl (ok _, p)) (inl (r, q)) =
      inl (r, ap₂ (joined db ins sh) p q)
  joined-Waits name is groups memory a b (inl (err e, p)) (inl (r, q)) =
      inl (err e, ap₂ (joined db ins sh) p q)
  joined-Waits name is groups memory a b (inl (ok _, p)) (inr (q, u)) =
      inr (ap₂ (joined db ins sh) p q, Unsettled.later name is groups memory u)
  joined-Waits name is groups memory a b (inl (err e, p)) (inr (q, u)) =
      inr (ap₂ (joined db ins sh) p q, Unsettled.later name is groups memory u)
  joined-Waits name is groups memory a b (inr (p, c)) (inl (r, q)) =
      inr (ap₂ (joined db ins sh) p q, Unsettled.this name is groups memory c)
  joined-Waits name is groups memory a b (inr (p, c)) (inr (q, u)) =
      inr (ap₂ (joined db ins sh) p q, Unsettled.this name is groups memory c)

  insert_groups-Waits :
      (groups : Groups) (p : Pointed) (s : db.State) → Waits groups (p, s) (Run_of groups p s).0
  unfolding insert_groups
  insert_groups-Waits [] p s = inl (ok tt, refl)
  insert_groups-Waits ((name, is) ∷ groups) p s =
      let (q, t) = (insert_group db ins sh need_callback name is (times name) (p, s)).1 in
      subst (λ (x : Waited × Memory db ins sh). Waits ((name, is) ∷ groups) (p, s) x.0)
        (sym (taken (db.loaded name) _ _ (loaded name)))
        (joined-Waits name is groups (p, s) _ _
          (insert_group-Ends db ins sh need_callback name is (times name) p s)
          (insert_groups-Waits groups q t))

  -- Their pointers after the databases, each of which only improves on them.
  insert_groups-Improves :
      (groups : Groups) (p : Pointed) (s : db.State) → Improves sh p ((Run_of groups p s).1.0)
  unfolding insert_groups
  insert_groups-Improves [] p s = Improves-refl sh p
  insert_groups-Improves ((name, is) ∷ groups) p s =
      let (q, t) = (insert_group db ins sh need_callback name is (times name) (p, s)).1 in
      subst (λ (x : Waited × Memory db ins sh). Improves sh p (x.1.0))
        (sym (taken (db.loaded name) _ _ (loaded name)))
        (Improves-trans sh p q _
          (insert_group-Improves db ins sh need_callback name is positive divides (times name) p s)
          (insert_groups-Improves groups q t))

  insert_groups-RoutedAt :
      (groups : Groups) (p : Pointed) (s : db.State) (j : ℕ)
      → ((name : String) → 0 < length (times name))
      → Grouped j groups
      → RoutedAt sh ((Run_of groups p s).1.0.1) j
  unfolding insert_groups
  insert_groups-RoutedAt [] p s j some_time g = elim g [ ]
  insert_groups-RoutedAt ((name, is) ∷ groups) p s j some_time g =
      let (q, t) = (insert_group db ins sh need_callback name is (times name) (p, s)).1 in
      subst (λ (x : Waited × Memory db ins sh). RoutedAt sh (x.1.0.1) j)
        (sym (taken (db.loaded name) _ _ (loaded name)))
        (elim g [
          | here _ _ _ m ↦ (insert_groups-Improves groups q t).kept j (
              insert_group-RoutedAt db ins sh need_callback name is positive divides (times name) p
                s j (some_time name) m)
          | there _ _ g' ↦ insert_groups-RoutedAt groups q t j some_time g'
        ])

  collected_lem :
      (r : Result (Unit {0})) (rows : List Entity)
      → (failed : Option Error) × (collected db ins sh (waited (returned r)) rows
          ≡ returned (ok (rows, failed)))
  collected_lem (ok _) rows = (none, refl)
  collected_lem (err e) rows = (some e, refl)

  -- Where all databases are loaded, each of them is given a time, and the numbers of databases and
  -- tables multiply to a divisor of 2 ^ 10: BatchCreate returns the notifications in their order,
  -- with the time and the version set and with ids from which ShardWithId finds the database and
  -- table that Shard finds from the business id and key, however often the ids were made again. Only
  -- where every round of some database, to the last of its times, is answered with a duplicate of
  -- one of its ids, has it not returned.
  pub batch_create-Made :
      (now : ℤ) (ns : List Entity) (g : Generator) (s : db.State)
      → ((name : String) → 0 < length (times name))
      → ((rows : List Entity) × (failed : Option Error) × ((batch_create db ins sh now need_callback
              times ns
              (g, s)).0
            ≡ returned (ok (rows, failed)))
          × Made sh now ns rows)
        ⊎ (((batch_create db ins sh now need_callback times ns (g, s)).0 ≡ running)
            × Unsettled
                (group_pointers sh 0 (map (stamped now) ns) [])
                ((g, map (stamped now) ns), s))
  unfolding batch_create try_batch_insert
  batch_create-Made now [] g s some_time = inl ([], none, refl, none_made)
  batch_create-Made now (n ∷ ns) g s some_time =
      let os = map (stamped now) (n ∷ ns) in
      let groups = group_pointers sh 0 os [] in
      let rows = (Run_of groups (g, os) s).1.0.1 in
      elim (insert_groups-Waits groups (g, os) s) [
        | inl (r, ended) ↦
            let (failed, answer) = collected_lem r rows in
            let same = (insert_groups-Improves groups (g, os) s).same os (Renumbered-refl os) in
            inl (
              rows,
              failed,
              ap (λ (w : Waited). collected db ins sh w rows) ended ∙ answer,
              Renumbered-Made sh now (n ∷ ns) rows same (λ j m at.
                  let (o, e) = Renumbered-position os rows j m same at in
                  insert_groups-RoutedAt groups (g, os) s j some_time
                    (subst (λ (i : ℕ). Grouped i groups) (omega arith)
                      (group_pointers_lem sh 0 j o os [] e))
                    m at),
            )
        | inr (runs, unsettled) ↦
            inr (ap (λ (w : Waited). collected db ins sh w rows) runs, unsettled)
      ]
