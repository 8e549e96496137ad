-- ===== src/Send.antt =====
-- internal/service: how a notification is sent. The calls of the repository, of the channel and
-- of the callbacks are parameters, on a state of their own; what the code only logs is left out.
pub mod Channel
pub mod Strategy
pub mod Service
pub mod Batch
pub mod Groups
mod Tests
use jotify.Prelude.{
  ℕ, ◌+◌, ◌≡◌, ◌==◌, Bool, true, false, String, List, [], ◌∷◌, Option, none, some, length,
  get_elem?, if◌then◌else◌, suc, zero,
}
use jotify.Errs.{Result, ok, err, Error, not_available_provider}
use jotify.Domain.{SendResult}
use jotify.Domain.Notification.{Notification}

-- provider.Provider: its Send, on the state `S`.
abbrev pub Provider : Type 0 → Type 0
Provider S = Notification → S → Result SendResult × S

-- SeqSelector of provider/selector/sequential.go
pub record SeqSelector (S : Type 0) : Type 0 where
  pub index : ℕ
  pub providers : List (Provider S)

-- What a call leaves: a response or an error, a panic, or nothing within the rounds given.
pub data Outcome : Type 0 where
  returned : Result SendResult → Outcome
  panicked : Outcome
  running : Outcome

module _ {S : Type 0} where
  -- An index past the end would panic in Go; it never gets there.
  unfoldable pub next : SeqSelector S → Result (Provider S) × SeqSelector S
  next ss =
      if length ss.providers == ss.index
      then (err not_available_provider, ss)
      else elim (get_elem? ss.providers ss.index) [
        | none ↦ (err not_available_provider, ss)
        | some p ↦ (ok p, record ss { index = ss.index + 1 })
      ]

  -- SeqSelectorBuilder.Build, which never fails
  unfoldable pub build : List (Provider S) → SeqSelector S
  build providers = record { index = 0; providers = providers }

  -- A response of a provider ends the loop, and an error goes on to the next round.
  abbrev pub after_send : Result SendResult × S → (S → Outcome × S) → Outcome × S
  after_send (err e, s) again = again s
  after_send (ok resp, s) again = (returned (ok resp), s)

  -- The error that baseChannel.Send tests is that of Build, which is nil: where the selector has
  -- no provider left, the call of the nil provider panics.
  abbrev pub round : Result (Provider S) → Notification → S → (S → Outcome × S) → Outcome × S
  round (err e) n s again = (panicked, s)
  round (ok p) n s again = after_send (p n s) again

  -- The loop of baseChannel.Send in channel/sms.go.
  unfoldable pub send_loop : ℕ → Notification → SeqSelector S → S → Outcome × S
  send_loop zero n ss s = (running, s)
  send_loop (suc rounds) n ss s = round ((next ss).0) n s (λ t. send_loop rounds n ((next ss).1) t)

  -- As many rounds as there are providers, and one more.
  unfoldable pub channel_send : List (Provider S) → Notification → S → Outcome × S
  unfolding build send_loop
  channel_send providers n s = send_loop (suc (length providers)) n (build providers) s
