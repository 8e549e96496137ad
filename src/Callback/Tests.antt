-- ===== src/Callback/Tests.antt =====
-- The theorems on callbacks at a table of one row and a business that refuses its callbacks.
use mathlib.Core.List.{Memᴰ}
use mathlib.Core.Path.{subst}
use text.Mathlib.Text.{◌==◌ as text_eq}
use jotify.Prelude.{
  ◌==◌, map, ℕ, ltb, ◌≡◌, ◌⊎◌, refl, sym, ap, ◌∙◌, arith, Bool, true, false, ◌&&◌, String, List, [],
  ◌∷◌, Option, none, some, inl, inr, length, not,
}
use jotify.Prelude.Int.{ℤ, pos, ltb_ℤ}
use jotify.Errs.{Result, ok, err, other, returned}
use jotify.Domain.{channel_sms}
use jotify.Domain.Notification.{Notification}
use jotify.Repo.{Entity, Json, no_config}
use jotify.Dao.{CallbackLog as Row, DbError}
use jotify.Dao.Logs.{LogDb}
use jotify.Callback.{Calls, LogRepo, CallbackLog, CallbackConf, send, send_by_notifications}
use jotify.Callback.Missing.{written_back, send_by_notifications-missing}
use jotify.Callback.Log.{log_repo, no_notification}
use jotify.Callback.Endless.{core, NotDone, Due, RewritesNothing, daos, send-NotDone}

abbrev policy : CallbackConf
policy = record {
  service_name = "orders";
  retry_policy = some (record {
    type = "fixed_interval";
    fixed_interval = some (record { interval = pos 1000; max_times = pos 3 });
    exponential_backoff = none;
  });
}

abbrev refusing : (S : Type 0) → Calls S
refusing S = record {
  get_by_id = λ b s. (ok (some policy), s);
  send_result_notify = λ name r s. (ok false, s);
  strategies = record {
    new_fixed_interval_strategy = λ interval times. ok (λ retried. some interval);
    new_exponential_backoff_strategy = λ init most times. err (other "none");
  };
  now = λ s. pos 7;
}

abbrev shipped : Notification
shipped = record {
  id = 5;
  biz_id = 7;
  biz_key = "order-1";
  receivers = [];
  channel = channel_sms;
  template = record { id = 3; version_id = 2; params = [] };
  status = "success";
  scheduled_start = pos 0;
  scheduled_end = pos 0;
  version = 0;
  strategy_config = no_config;
}

abbrev log : CallbackLog
log = record {
  notification = shipped;
  retried_times = pos 0;
  next_retry_at = pos 0;
  status = "pending";
}

-- It finds one log for any notifications.
abbrev one_log : LogRepo ℕ
one_log = record {
  find = λ start id size s. ok ([], 0);
  find_by_notification_ids = λ is s. ok (log ∷ []);
  update = λ logs s. (ok tt, length logs);
}

send_by_notifications-missing_example :
    send_by_notifications (refusing ℕ) one_log (shipped ∷ shipped ∷ []) ([], 0) ≡ (
      returned (written_back (refusing ℕ) one_log (log ∷ []) ([], 0)).0,
      (written_back (refusing ℕ) one_log (log ∷ []) ([], 0)).1,
    )
send_by_notifications-missing_example =
    send_by_notifications-missing (refusing ℕ) one_log (shipped ∷ shipped ∷ []) ([], 0) (log ∷ [])
      refl (λ e. omega (arith, e))

-- A table of one row.
abbrev is_due : ℤ → String → ℕ → Row → Bool
is_due start status id row =
    not (ltb_ℤ start row.next_retry_at) && (text_eq row.status status && ltb id row.notification_id)

abbrev listed : Bool → Row → List Row
listed true row = row ∷ []
listed false row = []

abbrev written : Bool → ℤ → ℤ → String → ℤ → Row → Row
written true retried next status now s = record s {
  retried_times = retried;
  next_retry_at = next;
  status = status;
  updated_at = now;
}
written false retried next status now s = s

abbrev one_row : LogDb
one_row = record {
  State = Row;
  pending = λ start status id limit s. inl (listed (is_due start status id s) s);
  with_notification_ids = λ is s. inl (s ∷ []);
  updates = λ id retried next status now s.
      (none, written (id == s.notification_id) retried next status now s);
}

abbrev row : Row
row = record {
  notification_id = 5;
  retried_times = pos 0;
  next_retry_at = pos 0;
  status = "pending";
  created_at = pos 1;
  updated_at = pos 1;
}

abbrev blank : Json
blank = record {
  marshal_receivers = λ xs. "[]";
  unmarshal_receivers = λ s. [];
  marshal_params = λ xs. "{}";
  unmarshal_params = λ s. [];
}

abbrev find_any : ℕ → Row → Result Entity
find_any id s = ok (record no_notification { id = id })

abbrev find_none : List ℕ → Row → Result (List (ℕ × Entity))
find_none is s = ok []

abbrev of_inl : List Row ⊎ DbError → List Row
of_inl (inl rows) = rows
of_inl (inr e) = []

core-listed : (b : Bool) (s : Row) → map core (listed b s) ≡ listed b (core s)
core-listed true s = refl
core-listed false s = refl

core_in : (b : Bool) (s r : Row) → Memᴰ (core r) (listed b (core s)) → core r ≡ core s
core_in true s r (Memᴰ.head e) = e
core_in true s r (Memᴰ.tail m) = elim m [ ]
core_in false s r m = elim m [ ]

core-written :
    (b : Bool) (s r : Row) (now : ℤ)
    → core r ≡ core s
    → core (written b r.retried_times r.next_retry_at r.status now s) ≡ core s
core-written true s r now e = ap (λ (x : Row). record x { notification_id = s.notification_id }) e
core-written false s r now e = refl

-- The rows that are due, but for the times of their changes, by the row of the table.
abbrev due_core : Row → List Row
due_core s = listed (is_due (pos 9) "pending" 0 s) s

due_rows : (s : Row) (rows : List Row) → Due one_row (pos 9) 10 rows s → due_core (core s) ≡ rows
due_rows s rows (found, e, same) =
    sym (core-listed _ s) ∙ ap (λ (x : List Row ⊎ DbError). map core (of_inl x)) e ∙ same

rewrites_nothing : RewritesNothing one_row (pos 9) 10
rewrites_nothing rows s s₁ r now due within h =
    let here : core r ≡ core s =
      core_in _ s r (subst (Memᴰ (core r)) (sym (due_rows s rows due)) within) in
    let same : core s₁ ≡ core s =
      ap (λ (x : Option DbError × Row). core x.1) (sym h)
      ∙ core-written (r.notification_id == s.notification_id) s r now here in
    (
      listed (is_due (pos 9) "pending" 0 s₁) s₁,
      refl,
      core-listed _ s₁ ∙ ap due_core same ∙ due_rows s rows due,
    )

send-NotDone_example :
    NotDone
      (send
        (refusing Row)
        (log_repo blank (daos one_row (refusing Row) blank find_any find_none (λ s. pos 9)))
        3
        (pos 9)
        10
        ([], row)).0
send-NotDone_example =
    send-NotDone one_row (refusing Row) blank find_any find_none (λ s. pos 9) (pos 9) 10
      rewrites_nothing (record { asked = λ rows b s h. h; sent = λ rows name r s h. h }) (core row)
      [] (λ s q due m. (record no_notification { id = q.notification_id }, refl, refl))
      (omega arith) 3 [] row (row ∷ [], refl, refl)
