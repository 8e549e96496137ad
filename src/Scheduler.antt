-- ===== src/Scheduler.antt =====
-- internal/service/schedule/sharding/sharding_scheduler.go: the loop that sends the ready
-- notifications of a table. The repository, the sender and the adjuster are parameters.
mod Tests
pub mod Sizes
use jotify.Prelude.{
  ℕ, zero, suc, ◌-◌, Bool, true, false, List, [], ◌∷◌, Option, none, some, length, if◌then◌else◌,
}
use jotify.Errs.{Error, Result, ok, err, Run, returned, panicked, running, event_threshold_exceeded}
use jotify.Domain.{SendResult}
use jotify.Domain.Notification.{Notification}
use jotify.BitRing.{Float64, BitRing, add, threshold_triggering}

-- The calls on the state `S`, and a batch.Adjuster with the state `A`. `clock` is the monotonic
-- clock in nanoseconds, which time.Now and time.Since read; the rests of a round belong to `wait`.
-- A search that panics, as the DAO's FindReady does, is `none`.
pub record Calls (A S : Type 0) : Type 0 where
  pub find_ready : ℕ → S → Option (Result (List Notification) × S)
  pub batch_send : List Notification → S → Result (List SendResult) × S
  pub adjust : A → ℕ → ℕ → A × Result ℕ
  pub clock : S → ℕ
  pub wait : S → S

pub record Scheduler (f : Float64) (A S : Type 0) : Type 0 where
  pub batch_size : ℕ
  pub batch_adjuster : A
  pub err_events : BitRing f
  pub outside : S

module _ {A S : Type 0} (c : Calls A S) where
  abbrev pub error_of : Result (List SendResult) → Option Error
  error_of (ok _) = none
  error_of (err e) = some e

  abbrev pub sent_ready : Result (List Notification) × S → (ℕ × Option Error) × S
  sent_ready (err e, s) = ((0, some e), s)
  sent_ready (ok [], s) = ((0, none), s)
  sent_ready (ok (n ∷ ns), s) =
      let (sent, s₁) = c.batch_send (n ∷ ns) s in ((length (n ∷ ns), error_of sent), s₁)

  -- batchSend: the number of notifications and the error, both.
  unfoldable pub batch_send : ℕ → S → Option ((ℕ × Option Error) × S)
  batch_send batch_size s = elim (c.find_ready batch_size s) [
    | none ↦ none
    | some found ↦ some (sent_ready found)
  ]

  abbrev pub has_failed : Option Error → Bool
  has_failed none = false
  has_failed (some e) = true

  -- An error of the adjuster leaves the size.
  abbrev pub new_size : ℕ → Result ℕ → ℕ
  new_size size (ok n) = n
  new_size size (err e) = size

  abbrev pub rested : ℕ → S → S
  rested zero s = c.wait s
  rested (suc cnt) s = s

  module _ (f : Float64) where
    -- The end of a round, with the number sent and the response time.
    unfoldable pub adjusted : ℕ → ℕ → BitRing f → S → Scheduler f A S → Scheduler f A S
    adjusted cnt resp_time events s sch =
        let (adjuster, size) = c.adjust sch.batch_adjuster (c.clock s) resp_time in
        record {
          batch_size = new_size sch.batch_size size;
          batch_adjuster = adjuster;
          err_events = events;
          outside = rested cnt s;
        }

    -- A round, from what batchSend gives; `again` is the rest of the loop.
    unfoldable pub round :
        Scheduler f A S
        → Option ((ℕ × Option Error) × S)
        → (Scheduler f A S → Run (Unit {0}) × Scheduler f A S)
        → Run (Unit {0}) × Scheduler f A S
    unfolding adjusted
    round sch none again = (panicked, sch)
    round sch (some (sent, s)) again =
        let resp_time = c.clock s - c.clock sch.outside in
        let events = add f sch.err_events (has_failed sent.1) in
        let rest = again (adjusted sent.0 resp_time events s sch) in
        if threshold_triggering f events
        then (
          returned (err event_threshold_exceeded),
          record sch { err_events = events; outside = s },
        )
        else rest

    -- The loop, for at most `rounds` rounds.
    unfoldable pub loop : ℕ → Scheduler f A S → Run (Unit {0}) × Scheduler f A S
    unfolding batch_send round
    loop zero sch = (running, sch)
    loop (suc rounds) sch =
        round sch (batch_send sch.batch_size sch.outside) (λ next. loop rounds next)
