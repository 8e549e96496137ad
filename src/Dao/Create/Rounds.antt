-- ===== src/Dao/Create/Rounds.antt =====
-- The rounds of the goroutine of one database: how they end, and the ids that they leave.
use text.Mathlib.Text.{◌==◌}
use mathlib.Core.List.{Memᴰ}
use Prim.Native.Nat.{◌∣◌}
use jotify.Prelude.{
  ℕ, ◌*◌, ◌^◌, ◌<◌, ◌≡◌, refl, arith, Bool, true, false, if◌then◌else◌, String, List, [], ◌∷◌,
  Option, none, some, length, ◌⊎◌, inl, inr,
}
use jotify.Prelude.Int.{ℤ}
use jotify.Errs.{Result, ok, err, returned, running}
use jotify.Dao.{Gorm, Sharded, DbError, of_db}
use jotify.Dao.Create.{
  Inserts, Pointed, Memory, Ended, statements, sql_generate, is_duplicate, on_exec, insert_group,
}
use jotify.Dao.Create.Ids.{
  RoutedAt, Improves, Improves-refl, Improves-trans, statements-Improves, statements-RoutedAt,
}

module _ (db : Gorm) (ins : Inserts db) (sh : Sharded) where
  -- Every round of the goroutine, to the last of its times, was answered with a duplicated key that
  -- is one of its ids.
  pub data Collides (need_callback : Bool) (name : String) (is : List ℕ)
      : List (ℤ × (ℕ → ℕ)) → Memory db ins sh → Type 0 where
    used_up : (memory : Memory db ins sh) → Collides need_callback name is [] memory
    collided :
        (now : ℤ) (clock : ℕ → ℕ) (times : List (ℤ × (ℕ → ℕ))) (p : Pointed) (s : db.State)
        (e : DbError)
        → (ins.exec name
            (sql_generate db ins sh now clock need_callback is p).0.0
            (sql_generate db ins sh now clock need_callback is p).0.1
            s).0
          ≡ some e
        → is_duplicate db ins sh (sql_generate db ins sh now clock need_callback is p).0.2 e ≡ true
        → Collides need_callback name is times (
          (sql_generate db ins sh now clock need_callback is p).1,
          (ins.exec name
              (sql_generate db ins sh now clock need_callback is p).0.0
              (sql_generate db ins sh now clock need_callback is p).0.1
              s).1,
        )
        → Collides need_callback name is ((now, clock) ∷ times) (p, s)

  -- A round ends with its own pointers, or with those of the next rounds.
  on_exec_either :
      (M : Pointed → Type 0) (ids : List ℕ) (p : Pointed) (answer : Option DbError × db.State)
      (again : Ended db ins sh × Memory db ins sh)
      → M p
      → M (again.1.0)
      → M ((on_exec db ins sh ids p answer again).1.0)
  unfolding on_exec
  on_exec_either M ids p (none, s) again h k = h
  on_exec_either M ids p (some e, s) again h k = branch (is_duplicate db ins sh ids e)
    where
      branch : (b : Bool) → M ((if b then again else (returned (err (of_db e)), (p, s))).1.0)
      branch true = k
      branch false = h

  -- A goroutine has returned, or still runs for a reason.
  abbrev pub Ends : Type 0 → Ended db ins sh → Type 0
  Ends C x = ((r : Result (Unit {0})) × (x ≡ returned r)) ⊎ ((x ≡ running) × C)

  on_exec-Ends :
      (C : Type 0) (ids : List ℕ) (p : Pointed) (answer : Option DbError × db.State)
      (again : Ended db ins sh × Memory db ins sh)
      → ((e : DbError) → answer.0 ≡ some e → is_duplicate db ins sh ids e ≡ true → Ends C again.0)
      → Ends C (on_exec db ins sh ids p answer again).0
  unfolding on_exec
  on_exec-Ends C ids p (none, t) again k = inl (ok tt, refl)
  on_exec-Ends C ids p (some e, t) again k = branch (is_duplicate db ins sh ids e) refl
    where
      branch :
          (b : Bool)
          → is_duplicate db ins sh ids e ≡ b
          → Ends C (if b then again else (returned (err (of_db e)), (p, t))).0
      branch true same = k e refl same
      branch false same = inl (err (of_db e), refl)

  module _ (need_callback : Bool) (name : String) (is : List ℕ) where
    round_either :
        (M : Pointed → Type 0) (now : ℤ) (clock : ℕ → ℕ) (times : List (ℤ × (ℕ → ℕ))) (p : Pointed)
        (s : db.State)
        → let q = statements db ins sh now clock need_callback is p in
          let sql = sql_generate db ins sh now clock need_callback is p in
          let answer = ins.exec name sql.0.0 sql.0.1 s in
          M q.1
          → M ((insert_group db ins sh need_callback name is times (q.1, answer.1)).1.0)
          → M ((insert_group db ins sh need_callback name is ((now, clock) ∷ times) (p, s)).1.0)
    unfolding insert_group sql_generate
    round_either M now clock times p s h k =
        let q = statements db ins sh now clock need_callback is p in
        let sql = sql_generate db ins sh now clock need_callback is p in
        let answer = ins.exec name sql.0.0 sql.0.1 s in
        let again = insert_group db ins sh need_callback name is times (q.1, answer.1) in
        branch (on_exec db ins sh sql.0.2 q.1 answer again)
          (on_exec_either M sql.0.2 q.1 answer again h k) (sql.0.0 == "")
      where
        q : Pointed
        q = (statements db ins sh now clock need_callback is p).1

        branch :
            (x : Ended db ins sh × Memory db ins sh)
            → M (x.1.0)
            → (b : Bool) → M ((if b then (returned (ok tt), (q, s)) else x).1.0)
        branch x m true = h
        branch x m false = m

    -- The goroutine returns, unless every one of its rounds collides.
    pub insert_group-Ends :
        (times : List (ℤ × (ℕ → ℕ))) (p : Pointed) (s : db.State)
        → Ends
            (Collides need_callback name is times (p, s))
            (insert_group db ins sh need_callback name is times (p, s)).0
    unfolding insert_group
    insert_group-Ends [] p s = inr (refl, Collides.used_up (p, s))
    insert_group-Ends ((now, clock) ∷ times) p s =
        let sql = sql_generate db ins sh now clock need_callback is p in
        let answer = ins.exec name sql.0.0 sql.0.1 s in
        let again = insert_group db ins sh need_callback name is times (sql.1, answer.1) in
        branch sql.1 (on_exec db ins sh sql.0.2 sql.1 answer again)
          (on_exec-Ends _ sql.0.2 sql.1 answer again (λ e failed same.
            elim (insert_group-Ends times sql.1 answer.1) [
              | inl done ↦ inl done
              | inr (runs, collides) ↦
                  inr (runs, Collides.collided now clock times p s e failed same collides)
            ]))
          (sql.0.0 == "")
      where
        C : Type 0
        C = Collides need_callback name is ((now, clock) ∷ times) (p, s)

        branch :
            (q : Pointed) (x : Ended db ins sh × Memory db ins sh)
            → Ends C x.0
            → (b : Bool) → Ends C (if b then (returned (ok tt), (q, s)) else x).0
        branch q x m true = inl (ok tt, refl)
        branch q x m false = m

    module _ (positive : 0 < sh.notif_strategy.db_sharding)
        (divides : sh.notif_strategy.db_sharding * sh.notif_strategy.table_sharding ∣ 2 ^ 10) where
      pub insert_group-Improves :
          (times : List (ℤ × (ℕ → ℕ))) (p : Pointed) (s : db.State)
          → Improves sh p ((insert_group db ins sh need_callback name is times (p, s)).1.0)
      unfolding insert_group
      insert_group-Improves [] p s = Improves-refl sh p
      insert_group-Improves ((now, clock) ∷ times) p s =
          let first = statements-Improves sh positive divides db ins now clock need_callback is p in
          round_either (Improves sh p) now clock times p s first
            (Improves-trans sh p _ _ first (insert_group-Improves times _ _))

      pub insert_group-RoutedAt :
          (times : List (ℤ × (ℕ → ℕ))) (p : Pointed) (s : db.State) (j : ℕ)
          → 0 < length times
          → Memᴰ j is
          → RoutedAt sh ((insert_group db ins sh need_callback name is times (p, s)).1.0.1) j
      insert_group-RoutedAt [] p s j some_time m = ground arith
      insert_group-RoutedAt ((now, clock) ∷ times) p s j some_time m =
          let first =
            statements-RoutedAt sh positive divides db ins now clock need_callback is p j m in
          round_either (λ (q : Pointed). RoutedAt sh q.1 j) now clock times p s first
            ((insert_group-Improves times _ _).kept j first)
