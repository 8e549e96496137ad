-- ===== src/Callback/Missing.antt =====
-- SendByNotifications where the logs found are not as many as the notifications.
use mathlib.Core.List.{Memᴰ}
use jotify.Prelude.{
  ℕ, ◌≡◌, ◌≢◌, refl, ap, ◌∙◌, false, true, List, [], ◌∷◌, map, length, ◌==◌, arith, if◌then◌else◌,
  Bool,
}
use jotify.Prelude.Maps.{store, delete}
use jotify.Errs.{Result, ok, Run, returned}
use jotify.Domain.Notification.{Notification}
use jotify.Callback.{
  Calls, LogRepo, CallbackLog, State, notification_map, delete_all, send_by_notifications,
  update_and_send_rest, send_rest, found_all, send_and_update_logs,
}

abbrev ids : List Notification → List ℕ
ids = map (λ (n : Notification). n.id)

-- Every key of the map is in the list.
data KeysIn (keys : List ℕ) : List (ℕ × Notification) → Type 0 where
  nil : KeysIn keys []
  cons :
      {k : ℕ} (n : Notification) {m : List (ℕ × Notification)}
      → Memᴰ k keys
      → KeysIn keys m
      → KeysIn keys ((k, n) ∷ m)

KeysIn-store :
    {keys : List ℕ} (k : ℕ) (n : Notification) (m : List (ℕ × Notification))
    → Memᴰ k keys
    → KeysIn keys m
    → KeysIn keys (store k n m)
unfolding store
KeysIn-store k n [] here h = KeysIn.cons n here h
KeysIn-store {keys} k n ((j, v) ∷ m) here (KeysIn.cons _ there h) =
    branch (j == k) (KeysIn-store k n m here h)
  where
    branch :
        (b : Bool) {rest : List (ℕ × Notification)}
        → KeysIn keys rest
        → KeysIn keys (if b then (k, n) ∷ m else (j, v) ∷ rest)
    branch true r = KeysIn.cons n here h
    branch false r = KeysIn.cons v there r

KeysIn-notification_map :
    {keys : List ℕ} (ns : List Notification) (m : List (ℕ × Notification))
    → ((k : ℕ) → Memᴰ k (ids ns) → Memᴰ k keys)
    → KeysIn keys m
    → KeysIn keys (notification_map ns m)
unfolding notification_map
KeysIn-notification_map [] m all h = h
KeysIn-notification_map (n ∷ ns) m all h =
    KeysIn-notification_map ns (store n.id n m) (λ k there. all k (Memᴰ.tail there))
      (KeysIn-store n.id n m (all n.id (Memᴰ.head refl)) h)

not_head : {j k : ℕ} {keys : List ℕ} → (j == k) ≡ false → Memᴰ j (k ∷ keys) → Memᴰ j keys
not_head {j} {k} e (Memᴰ.head p) = absurd (ground arith)
not_head e (Memᴰ.tail there) = there

KeysIn-delete :
    {keys : List ℕ} (k : ℕ) (m : List (ℕ × Notification))
    → KeysIn (k ∷ keys) m
    → KeysIn keys (delete k m)
unfolding delete
KeysIn-delete k [] h = KeysIn.nil
KeysIn-delete {keys} k ((j, v) ∷ m) (KeysIn.cons _ there h) =
    branch (j == k) refl (KeysIn-delete k m h)
  where
    branch :
        (b : Bool) {rest : List (ℕ × Notification)}
        → (j == k) ≡ b
        → KeysIn keys rest
        → KeysIn keys (if b then rest else (j, v) ∷ rest)
    branch true e r = r
    branch false e r = KeysIn.cons v (not_head e there) r

delete_all_lem :
    (ns : List Notification) (m : List (ℕ × Notification))
    → KeysIn (ids ns) m
    → delete_all ns m ≡ []
unfolding delete_all
delete_all_lem [] m KeysIn.nil = refl
delete_all_lem [] m (KeysIn.cons n there h) = elim there [ ]
delete_all_lem (n ∷ ns) m h = delete_all_lem ns (delete n.id m) (KeysIn-delete n.id m h)

module _ {S : Type 0} (c : Calls S) (repo : LogRepo S) where
  -- The logs are updated as they were found, where there are any.
  unfoldable pub written_back : List CallbackLog → State c → Result (Unit {0}) × State c
  written_back [] st = (ok tt, st)
  written_back (log ∷ logs) (m, s) = let (done, s₁) = repo.update (log ∷ logs) s in (done, (m, s₁))

  rest_empty :
      (logs : List CallbackLog) (st : State c)
      → update_and_send_rest c repo logs [] st ≡ written_back logs st
  unfolding update_and_send_rest send_rest written_back
  rest_empty [] st = refl
  rest_empty (log ∷ logs) (m, s) = refl

  -- Where the callback logs found are not as many as the notifications, SendByNotifications sends
  -- no callback at all: it updates the logs that it found as they are, and returns the answer of
  -- that, or nil where it found none.
  pub send_by_notifications-missing :
      (ns : List Notification) (st : State c) (logs : List CallbackLog)
      → repo.find_by_notification_ids (map (λ (n : Notification). n.id) ns) st.1 ≡ ok logs
      → length logs ≢ length ns
      → send_by_notifications c repo ns st
        ≡ (returned (written_back logs st).0, (written_back logs st).1)
  unfolding send_by_notifications found_all
  send_by_notifications-missing ns st logs found differ =
      ap (λ (x : Result (List CallbackLog)). found_all c repo ns x st) found
      ∙ ap (λ (b : Bool). if b then all else rest (delete_all ns (notification_map ns []))) unequal
      ∙ ap rest (delete_all_lem ns _ (KeysIn-notification_map ns [] (λ k h. h) KeysIn.nil))
      ∙ ap (λ (x : Result (Unit {0}) × State c). (returned x.0, x.1)) (rest_empty logs st)
    where
      Outcome : Type 0
      Outcome = Run (Unit {0}) × State c

      all : Outcome
      all = send_and_update_logs c repo logs st

      rest : List (ℕ × Notification) → Outcome
      rest m = let x = update_and_send_rest c repo logs m st in (returned x.0, x.1)

      unequal : (length logs == length ns) ≡ false
      unequal = ground arith
