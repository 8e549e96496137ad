-- ===== src/Callback/Endless.antt =====
-- Send of the callback service over its repository and the DAO of the callback logs.
use mathlib.Core.Path.{subst}
use mathlib.Core.List.{Memᴰ, Sublistᴰ}
use jotify.Prelude.{
  ℕ, zero, suc, ◌<◌, ◌⊎◌, ltb, ◌≡◌, refl, sym, ap, ◌∙◌, arith, Bool, true, String, List, [], ◌∷◌,
  map, Option, none, some, inl, if◌then◌else◌, length, length-map, lt→ltb,
}
use jotify.Prelude.Int.{ℤ, pos}
use jotify.Errs.{Error, Result, ok, err, Run, returned, panicked, running}
use jotify.Repo.{Entity, Json}
use jotify.Dao.{CallbackLog as Row, DbError, transaction, settled}
use jotify.Dao.Logs as Logs
use jotify.Dao.Logs.{LogDb, update_rows, row_updated}
use jotify.Callback.{
  Calls, NotifyRequest, CallbackLog, ConfMap, State, send_logs, updated, after_batch, batch_round,
  send_and_update_logs, send_loop, send,
}
use jotify.Callback.Log.{
  Daos, log_repo, to_entity, with_notification, or_zero, find as repo_find, found_batch,
}
use jotify.Callback.Loss.{Collects, send_logs-Collects}
use jotify.Callback.Quiet.{send_logs-keeps}

-- A row without the times of its own changes, as it is written.
abbrev pub core : Row → Row
core r = record r { created_at = pos 0; updated_at = pos 0 }

-- The call has not ended well: an error, a panic, or more rounds to go.
pub data NotDone : Run (Unit {0}) → Type 0 where
  failed : (e : Error) → NotDone (returned (err e))
  panics : NotDone panicked
  goes_on : NotDone running

module _ (db : LogDb) (start_time : ℤ) (batch_size : ℕ) where
  -- The rows that are due, but for the times of their changes.
  abbrev pub Due : List Row → db.State → Type 0
  Due rows s =
      (found : List Row) × (db.pending start_time "pending" 0 batch_size s ≡ inl found)
      × (map core found ≡ rows)

  -- Writing a due row with the values that it has leaves the rows that are due.
  abbrev pub RewritesNothing : Type 0
  RewritesNothing =
      (rows : List Row) (s s₁ : db.State) (r : Row) (now : ℤ)
      → Due rows s
      → Memᴰ (core r) rows
      → db.updates r.notification_id r.retried_times r.next_retry_at r.status now s ≡ (none, s₁)
      → Due rows s₁

  data Stays (rows : List Row) : Result (Unit {0}) × db.State → Type 0 where
    done : {s : db.State} → Due rows s → Stays rows (ok tt, s)
    failed : (e : Error) (s : db.State) → Stays rows (err e, s)

  module _ (rewrites : RewritesNothing) (now : ℤ) where
    row_updated-Stays :
        (rows : List Row) (x : Option DbError × db.State)
        (rest : db.State → Result (Unit {0}) × db.State)
        → ((s₁ : db.State) → x ≡ (none, s₁) → Stays rows (rest s₁))
        → Stays rows (row_updated db x rest)
    row_updated-Stays rows (none, s₁) rest h = h s₁ refl
    row_updated-Stays rows (some e, s₁) rest h = Stays.failed _ s₁

    update_rows-Stays :
        (rows : List Row) (logs : List CallbackLog) (s : db.State)
        → ((log : CallbackLog) → Memᴰ log logs → Memᴰ (to_entity log) rows)
        → Due rows s
        → Stays rows (update_rows db now (map to_entity logs) s)
    unfolding update_rows to_entity
    update_rows-Stays rows [] s within due = Stays.done due
    update_rows-Stays rows (log ∷ logs) s within due = row_updated-Stays rows _ _ (λ s₁ e.
        update_rows-Stays rows logs s₁ (λ l m. within l (Memᴰ.tail m))
          (rewrites rows s s₁ (to_entity log) now due (within log (Memᴰ.head refl)) e))

    -- A transaction that fails leaves the state, and one that ends well that of its body.
    settled-Stays :
        (rows : List Row) (s : db.State) (x : Result (Unit {0}) × db.State)
        → Stays rows x
        → Stays rows (settled s x)
    settled-Stays rows s _ (Stays.done due) = Stays.done due
    settled-Stays rows s _ (Stays.failed e t) = Stays.failed e s

    update-Stays :
        (rows : List Row) (logs : List CallbackLog) (s : db.State)
        → ((log : CallbackLog) → Memᴰ log logs → Memᴰ (to_entity log) rows)
        → Due rows s
        → Stays rows (Logs.update db now (map to_entity logs) s)
    unfolding Logs.update transaction
    update-Stays rows [] s within due = Stays.done due
    update-Stays rows (log ∷ logs) s within due =
        settled-Stays rows s _ (update_rows-Stays rows (log ∷ logs) s within due)

mem_of_sublist :
    {x : CallbackLog} {xs ys : List CallbackLog} → Sublistᴰ xs ys → Memᴰ x xs → Memᴰ x ys
mem_of_sublist Sublistᴰ.slnil m = m
mem_of_sublist (Sublistᴰ.cons sub) m = Memᴰ.tail (mem_of_sublist sub m)
mem_of_sublist (Sublistᴰ.cons-cons e sub) (Memᴰ.head p) = Memᴰ.head (p ∙ e)
mem_of_sublist (Sublistᴰ.cons-cons e sub) (Memᴰ.tail m) = Memᴰ.tail (mem_of_sublist sub m)

-- The service with the repository over the database `db`; `lookup_n` and `lookup_ns` are GetById
-- and GetMapByIds of the notifications, and `clock` is time.Now() in milliseconds.
module _ (db : LogDb) (c : Calls db.State) (json : Json) (lookup_n : ℕ → db.State → Result Entity)
    (lookup_ns : List ℕ → db.State → Result (List (ℕ × Entity))) (clock : db.State → ℤ) where
  abbrev pub daos : Daos db.State
  daos = record {
    get_by_id = lookup_n;
    get_map_by_ids = lookup_ns;
    find = Logs.find db;
    find_by_notification_ids = Logs.find_by_notification_ids db;
    update = λ logs s. Logs.update db (clock s) logs s;
  }

  module _ (start_time : ℤ) (batch_size : ℕ) where
    -- The calls of other services leave the rows that are due.
    pub record LeavesDue : Type 0 where
      pub asked :
          (rows : List Row) (b : ℕ) (s : db.State)
          → Due db start_time batch_size rows s
          → Due db start_time batch_size rows (c.get_by_id b s).1
      pub sent :
          (rows : List Row) (name : String) (r : NotifyRequest) (s : db.State)
          → Due db start_time batch_size rows s
          → Due db start_time batch_size rows (c.send_result_notify name r s).1

    -- The notification of each of the rows is found while they are due.
    abbrev pub FindsDue : List Row → Type 0
    FindsDue rows =
        (s : db.State) (row : Row)
        → Due db start_time batch_size rows s
        → Memᴰ (core row) rows
        → (n : Entity) × (lookup_n row.notification_id s ≡ ok n) × (n.id ≡ row.notification_id)

    module _ (rewrites : RewritesNothing db start_time batch_size) (leaves : LeavesDue) (r : Row)
        (rs : List Row) (finds : FindsDue (r ∷ rs)) (small : length (r ∷ rs) < batch_size) where
      abbrev StillDue : db.State → Type 0
      StillDue = Due db start_time batch_size (r ∷ rs)

      entity_core :
          (s : db.State) (row : Row)
          → StillDue s
          → Memᴰ (core row) (r ∷ rs)
          → to_entity (with_notification json daos s row) ≡ core row
      unfolding to_entity with_notification
      entity_core s row due m =
          let (n, e, same) = finds s row due m in
          ap (λ (id : ℕ). record (core row) { notification_id = id })
            (ap (λ (x : Result Entity). (or_zero x).id) e ∙ same)

      -- After a batch the rows are still due, or the call has not ended well.
      data AfterBatch : Run (Unit {0}) × State c → Type 0 where
        still : (m : ConfMap c) {s : db.State} → StillDue s → AfterBatch (returned (ok tt), (m, s))
        ended : {x : Run (Unit {0})} (st : State c) → NotDone x → AfterBatch (x, st)

      written :
          (m : ConfMap c) (x : Result (Unit {0}) × db.State)
          → Stays db start_time batch_size (r ∷ rs) x
          → AfterBatch (returned x.0, (m, x.1))
      written m _ (Stays.done due) = AfterBatch.still m due
      written m _ (Stays.failed e s) = AfterBatch.ended (m, s) (NotDone.failed e)

      updated-AfterBatch :
          (logs : List CallbackLog) (x : Run (List CallbackLog) × State c)
          → Collects c logs x.0
          → ((log : CallbackLog) → Memᴰ log logs → Memᴰ (to_entity log) (r ∷ rs))
          → StillDue x.1.1
          → AfterBatch (updated c (log_repo json daos) x)
      unfolding log_repo
      updated-AfterBatch logs (_, (m, s)) (Collects.collects sub) within due = written m _ (
          update-Stays db start_time batch_size rewrites (clock s) (r ∷ rs) _ s
            (λ log p. within log (mem_of_sublist sub p)) due)
      updated-AfterBatch logs (_, (m, s)) (Collects.panics _ _ _ _) within due =
          AfterBatch.ended (m, s) NotDone.panics

      -- The logs that are found are rows that are due.
      found_within :
          (s : db.State) (found : List Row) (log : CallbackLog)
          → StillDue s
          → ((row : Row) → Memᴰ (core row) (map core found) → Memᴰ (core row) (r ∷ rs))
          → Memᴰ log (map (with_notification json daos s) found)
          → Memᴰ (to_entity log) (map core found)
      found_within s [] log due within m = elim m [ ]
      found_within s (row ∷ rows) log due within (Memᴰ.head e) =
          Memᴰ.head (ap to_entity e ∙ entity_core s row due (within row (Memᴰ.head refl)))
      found_within s (row ∷ rows) log due within (Memᴰ.tail m) =
          Memᴰ.tail (found_within s rows log due (λ q n. within q (Memᴰ.tail n)) m)

      -- The batch is not full, so the next one begins at the id zero.
      find_due :
          (s : db.State) (found : List Row)
          → db.pending start_time "pending" 0 batch_size s ≡ inl found
          → map core found ≡ r ∷ rs
          → repo_find json daos start_time 0 batch_size s
            ≡ ok (map (with_notification json daos s) found, 0)
      unfolding repo_find found_batch Logs.find
      find_due s found e same =
          ap (λ (x : List Row ⊎ DbError). found_batch json daos batch_size s (Logs.with_next db x))
            e
          ∙ ap
              (λ (b : Bool).
                ok (map (with_notification json daos s) found, if b then 0 else Logs.last_id found))
              ltb_small
        where
          ltb_small : ltb (length found) batch_size ≡ true
          ltb_small =
              lt→ltb _ _
                (omega (arith, length-map found core, ap (λ (l : List Row). length l) same))

      after_batch-NotDone :
          (x : Run (Unit {0}) × State c) (again : State c → Run (Unit {0}) × State c)
          → AfterBatch x
          → ((m : ConfMap c) (s : db.State) → StillDue s → NotDone (again (m, s)).0)
          → NotDone (after_batch c (log_repo json daos) x again).0
      after_batch-NotDone _ again (AfterBatch.still m {s} due) h = h m s due
      after_batch-NotDone _ again (AfterBatch.ended st (NotDone.failed e)) h = NotDone.failed e
      after_batch-NotDone _ again (AfterBatch.ended st NotDone.panics) h = NotDone.panics
      after_batch-NotDone _ again (AfterBatch.ended st NotDone.goes_on) h = NotDone.goes_on

      round-NotDone :
          (m : ConfMap c) (s : db.State) (found : List Row)
          (again : ℕ → State c → Run (Unit {0}) × State c)
          → db.pending start_time "pending" 0 batch_size s ≡ inl found
          → map core found ≡ r ∷ rs
          → ((m : ConfMap c) (s : db.State) → StillDue s → NotDone (again 0 (m, s)).0)
          → NotDone
              (batch_round c
                (log_repo json daos)
                (ok (map (with_notification json daos s) found, 0))
                (m, s)
                again).0
      unfolding batch_round send_and_update_logs
      round-NotDone m s [] again e same h =
          absurd (length_differs (ap (λ (l : List Row). length l) same))
        where
          length_differs : 0 ≡ length (r ∷ rs) → ⊥
          length_differs p = omega arith
      round-NotDone m s (row ∷ rows) again e same h =
          let logs = map (with_notification json daos s) (row ∷ rows) in
          after_batch-NotDone _ (again 0)
            (updated-AfterBatch logs (send_logs c logs (m, s)) (send_logs-Collects c logs (m, s))
              (λ log p. subst (Memᴰ (to_entity log)) same (
                found_within s (row ∷ rows) log (row ∷ rows, e, same)
                  (λ q. subst (Memᴰ (core q)) same) p))
              (send_logs-keeps c StillDue (λ b t. leaves.asked (r ∷ rs) b t)
                (λ name req t. leaves.sent (r ∷ rs) name req t) logs (m, s) (row ∷ rows, e, same)))
            h

      loop-NotDone :
          (rounds : ℕ) (m : ConfMap c) (s : db.State)
          → StillDue s
          → NotDone (send_loop c (log_repo json daos) rounds start_time batch_size 0 (m, s)).0
      unfolding send_loop log_repo
      loop-NotDone zero m s due = NotDone.goes_on
      loop-NotDone (suc rounds) m s (found, e, same) =
          subst
            (λ (x : Result (List CallbackLog × ℕ)).
              NotDone
                (batch_round c (log_repo json daos) x (m, s)
                  (λ new_id t.
                    send_loop c (log_repo json daos) rounds start_time batch_size new_id t)).0)
            (sym (find_due s found e same))
            (round-NotDone m s found _ e same (λ m₁ t due. loop-NotDone rounds m₁ t due))

      -- Where a callback log is due, and fewer than a batch are, Send never returns nil: however
      -- many batches it sends, it has failed, panicked or is still running. This holds where
      -- writing a row with the values that it has leaves the rows that are due, where the calls of
      -- other services leave them too, and where the notifications of these rows are found by their
      -- ids while the rows are due.
      pub send-NotDone :
          (rounds : ℕ) (m : ConfMap c) (s : db.State)
          → Due db start_time batch_size (r ∷ rs) s
          → NotDone (send c (log_repo json daos) rounds start_time batch_size (m, s)).0
      unfolding send
      send-NotDone rounds m s due = loop-NotDone rounds m s due
