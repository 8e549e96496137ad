-- ===== src/Send/Batch.antt =====
-- BatchSend of internal/service/sendstrategy and of
-- internal/service/notification/notification_send.go, with BatchAsyncSend.
use text.Mathlib.Text.{◌==◌}
use jotify.Prelude.{ℕ, Bool, String, List, [], ◌∷◌, ◌++◌, map, if◌then◌else◌}
use jotify.Errs.{Result, ok, err, invalid_param, failed_send_notification}
use jotify.Snowflake.{Generator, next_id}
use jotify.Domain.{SendResult}
use jotify.Domain.Time.{Time}
use jotify.Domain.Notification.{Notification, validate, set_send_time, is_immediate}

-- The calls of the repository and the sender on batches, on one state. `has_callback` tells
-- whether the configuration of the business was found and has callbacks.
pub record BatchCalls : Type 1 where
  pub State : Type 0
  pub batch_create : List Notification → State → Result (List Notification) × State
  pub batch_create_with_callback : List Notification → State → Result (List Notification) × State
  pub batch_send : List Notification → State → Result (List SendResult) × State
  pub has_callback : ℕ → Bool

module _ (c : BatchCalls) where
  abbrev pub Answer : Type 0
  Answer = Result (List SendResult) × c.State

  abbrev pub send_created : Result (List Notification) × c.State → Answer
  send_created (err e, s) = (err e, s)
  send_created (ok created_ns, s) = c.batch_send created_ns s

  unfoldable pub immediate_batch_send : Time → List Notification → c.State → Answer
  unfolding set_send_time
  immediate_batch_send now [] s = (err (invalid_param "empty notification list"), s)
  immediate_batch_send now (n ∷ ns) s =
      send_created (c.batch_create (map (set_send_time now) (n ∷ ns)) s)

  abbrev pub result_of : Notification → SendResult
  result_of n = record { notification_id = n.id; status = n.status }

  abbrev pub results_of : Result (List Notification) × c.State → Answer
  results_of (err e, s) = (err e, s)
  results_of (ok created_ns, s) = (ok (map result_of created_ns), s)

  -- DefaultSendStrategy.batchCreate, which asks for the callbacks of the first notification.
  unfoldable pub default_batch_create :
      Notification → List Notification → c.State → Result (List Notification) × c.State
  default_batch_create n ns s =
      if c.has_callback n.biz_id
      then c.batch_create_with_callback (n ∷ ns) s
      else c.batch_create (n ∷ ns) s

  unfoldable pub default_batch_send : List Notification → c.State → Answer
  unfolding default_batch_create
  default_batch_send [] s = (err (invalid_param "notifications should not be empty"), s)
  default_batch_send (n ∷ ns) s = results_of (default_batch_create n ns s)

  -- Dispatcher.BatchSend, which chooses by the first notification.
  unfoldable pub dispatch_batch : Time → List Notification → c.State → Answer
  unfolding immediate_batch_send default_batch_send is_immediate
  dispatch_batch now [] s = (err (invalid_param "no notifications to send"), s)
  dispatch_batch now (n ∷ ns) s =
      if is_immediate n then immediate_batch_send now (n ∷ ns) s else default_batch_send (n ∷ ns) s

-- strategyGroup[strategy] = append(strategyGroup[strategy], n)
unfoldable pub add_to_group :
    Notification → List (String × List Notification) → List (String × List Notification)
add_to_group n [] = (n.strategy_config.strategy, n ∷ []) ∷ []
add_to_group n ((k, group) ∷ groups) =
    let rest = add_to_group n groups in
    if k == n.strategy_config.strategy then (k, group ++ n ∷ []) ∷ groups else (k, group) ∷ rest

unfoldable pub group_by_strategy :
    List Notification → List (String × List Notification) → List (String × List Notification)
unfolding add_to_group
group_by_strategy [] groups = groups
group_by_strategy (n ∷ ns) groups = group_by_strategy ns (add_to_group n groups)

-- `clock g` are the milliseconds that NextId reads where the generator is `g`.
module _ (sum64 : String → ℕ) (clock : Generator → ℕ) {S : Type 0}
    (strategy : List Notification → S → Result (List SendResult) × S) where
  abbrev pub State : Type 0
  State = Generator × S

  abbrev pub id_after : ℕ → Result (List ℕ) × Generator → Result (List ℕ) × Generator
  id_after id (err e, g) = (err e, g)
  id_after id (ok ids, g) = (ok (id ∷ ids), g)

  abbrev pub if_valid :
      Result (Unit {0}) → Generator → Result (List ℕ) × Generator → Result (List ℕ) × Generator
  if_valid (err e) g rest = (err e, g)
  if_valid (ok _) g rest = rest

  -- The loop over the batch: the id is given to the loop's own copy of the notification, and so is
  -- the strategy that replaces an immediate one; the ids alone remain.
  unfoldable pub ids_of_valid : Time → List Notification → Generator → Result (List ℕ) × Generator
  unfolding validate next_id
  ids_of_valid now [] g = (ok [], g)
  ids_of_valid now (n ∷ ns) g =
      let (g₁, id) = next_id sum64 g (clock g) n.biz_id n.biz_key in
      let rest = ids_of_valid now ns g₁ in if_valid (validate now n) g (id_after id rest)

  abbrev pub wrapped : Result (List SendResult) → Result (List SendResult)
  wrapped (err e) = err failed_send_notification
  wrapped (ok results) = ok results

  abbrev pub sent_batch :
      List Notification → Result (List ℕ) × Generator → S → Result (List SendResult) × State
  sent_batch ns (err e, g) s = (err e, (g, s))
  sent_batch ns (ok ids, g) s = let (sent, s₁) = strategy ns s in (wrapped sent, (g, s₁))

  unfoldable pub batch_send : Time → List Notification → State → Result (List SendResult) × State
  unfolding ids_of_valid
  batch_send now [] st = (err (invalid_param "no notifications to send"), st)
  batch_send now (n ∷ ns) (g, s) = sent_batch (n ∷ ns) (ids_of_valid now (n ∷ ns) g) s

  abbrev pub first_error : Result (List SendResult) → Result (Unit {0}) → Result (Unit {0})
  first_error (err e) rest = err failed_send_notification
  first_error (ok _) rest = rest

  -- The goroutines of the groups, one after the other; Wait returns the first error.
  unfoldable pub send_groups : List (String × List Notification) → S → Result (Unit {0}) × S
  send_groups [] s = (ok tt, s)
  send_groups ((_, group) ∷ groups) s =
      let (sent, s₁) = strategy group s in
      let (rest, s₂) = send_groups groups s₁ in (first_error sent rest, s₂)

  abbrev pub ids_if_sent : List ℕ → Result (Unit {0}) → Result (List ℕ)
  ids_if_sent ids (err e) = err e
  ids_if_sent ids (ok _) = ok ids

  unfoldable pub sent_groups :
      List Notification → Result (List ℕ) × Generator → S → Result (List ℕ) × State
  unfolding group_by_strategy send_groups
  sent_groups ns (err e, g) s = (err e, (g, s))
  sent_groups ns (ok ids, g) s =
      let (sent, s₁) = send_groups (group_by_strategy ns []) s in (ids_if_sent ids sent, (g, s₁))

  unfoldable pub batch_async_send : Time → List Notification → State → Result (List ℕ) × State
  unfolding ids_of_valid sent_groups
  batch_async_send now [] st = (err (invalid_param "no notifications to send"), st)
  batch_async_send now (n ∷ ns) (g, s) = sent_groups (n ∷ ns) (ids_of_valid now (n ∷ ns) g) s
