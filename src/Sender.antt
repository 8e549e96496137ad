-- ===== src/Sender.antt =====
-- internal/service/sender/sender.go: the sending itself, with the marks of the notifications and
-- the callbacks. The channel, the repository and the callback service are the parameter `Parts`.
mod Tests
pub mod Quota
pub mod Results
use jotify.Prelude.{ℕ, Bool, List, [], ◌∷◌, ◌++◌, map, Option, none, some}
use jotify.Prelude.Maps.{lookup}
use jotify.Errs.{Result, ok, err, Error}
use jotify.Domain.{SendResult, SendStatus, send_status_success, send_status_failure}
use jotify.Domain.Notification.{Notification}

-- The calls of the sender's fields, on one state. What the callbacks answer is not looked at.
pub record Parts (S : Type 0) : Type 0 where
  pub channel_send : Notification → S → Result SendResult × S
  pub mark_success : Notification → S → Result (Unit {0}) × S
  pub mark_failure : Notification → S → Result (Unit {0}) × S
  pub get_map_by_ids : List ℕ → S → Result (List (ℕ × Notification))
  pub send_by_notification : Notification → S → S
  pub send_by_notifications : List Notification → S → S

abbrev pub with_status : SendStatus → Notification → Notification
with_status status n = record n { status = status }

-- The result for a notification, by the error of the channel.
abbrev pub result_of : Notification → Result SendResult → SendResult
result_of n (err e) = record { notification_id = n.id; status = send_status_failure }
result_of n (ok _) = record { notification_id = n.id; status = send_status_success }

-- getNsWithStatus
unfoldable pub get_ns_with_status : List SendResult → List (ℕ × Notification) → List Notification
unfolding lookup
get_ns_with_status [] n_map = []
get_ns_with_status (res ∷ results) n_map =
    let rest = get_ns_with_status results n_map in
    elim (lookup res.notification_id n_map) [
      | none ↦ rest
      | some n ↦ with_status res.status n ∷ rest
    ]

-- batchUpdateStatus, whose body is empty.
unfoldable pub batch_update_status : List Notification → List Notification → Result (Unit {0})
batch_update_status success_ns failure_ns = ok tt

module _ {S : Type 0} (p : Parts S) where
  -- The end of Send, with the notification as it was marked.
  abbrev pub marked : Notification → Result (Unit {0}) × S → Result SendResult × S
  marked n (err e, s) = (err e, s)
  marked n (ok _, s) =
      (ok (record { notification_id = n.id; status = n.status }), p.send_by_notification n s)

  abbrev pub channel_answered : Notification → Result SendResult × S → Result SendResult × S
  channel_answered n (err e, s) =
      marked (with_status send_status_failure n)
        (p.mark_failure (with_status send_status_failure n) s)
  channel_answered n (ok _, s) =
      marked (with_status send_status_success n)
        (p.mark_success (with_status send_status_success n) s)

  unfoldable pub send : Notification → S → Result SendResult × S
  send n s = channel_answered n (p.channel_send n s)

  -- One goroutine of BatchSend: the result goes to the successes or to the failures.
  abbrev pub appended :
      Notification
      → Result SendResult × S
      → List SendResult × List SendResult
      → (List SendResult × List SendResult) × S
  appended n (err e, s) (success, failure) = ((success, failure ++ result_of n (err e) ∷ []), s)
  appended n (ok resp, s) (success, failure) = ((success ++ result_of n (ok resp) ∷ [], failure), s)

  -- The goroutines, one after the other in the order of the list.
  unfoldable pub send_all :
      List Notification
      → List SendResult × List SendResult
      → S
      → (List SendResult × List SendResult) × S
  send_all [] results s = (results, s)
  send_all (n ∷ ns) results s =
      let (results₁, s₁) = appended n (p.channel_send n s) results in send_all ns results₁ s₁

  abbrev pub ids : List SendResult → List ℕ
  ids results = map (λ (res : SendResult). res.notification_id) results

  -- What BatchSend does with the notifications that it gets back.
  unfoldable pub answered :
      List SendResult
      → List SendResult
      → Result (List (ℕ × Notification))
      → S
      → Result (List SendResult) × S
  unfolding get_ns_with_status batch_update_status
  answered success failure (err e) s = (err e, s)
  answered success failure (ok m) s =
      let success_ns = get_ns_with_status success m in
      let failure_ns = get_ns_with_status failure m in
      elim (batch_update_status success_ns failure_ns) [
        | err e ↦ (err e, s)
        | ok _ ↦ (ok (success ++ failure), p.send_by_notifications (success_ns ++ failure_ns) s)
      ]

  unfoldable pub all_sent : (List SendResult × List SendResult) × S → Result (List SendResult) × S
  unfolding answered
  all_sent ((success, failure), s) =
      answered success failure (p.get_map_by_ids (ids success ++ ids failure) s) s

  -- `ns` stands in the order in which its goroutines have run.
  unfoldable pub batch_send : List Notification → S → Result (List SendResult) × S
  unfolding send_all all_sent
  batch_send [] s = (ok [], s)
  batch_send (n ∷ ns) s = all_sent (send_all (n ∷ ns) ([], []) s)
