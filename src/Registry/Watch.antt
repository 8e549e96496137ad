-- ===== src/Registry/Watch.antt =====
-- The goroutine that Subscribe starts: what it does with each thing that its select receives. The
-- reader of its channel is taken to receive what it sends.
use mathlib.Core.List.{Memᴰ}
use jotify.Prelude.{
  ℕ, ◌+◌, ◌≤◌, ◌≡◌, refl, arith, Bool, true, false, List, [], ◌∷◌, ◌++◌, replicate, if◌then◌else◌,
  suc, zero,
}

-- A clientv3.WatchResponse, by whether Err() is not nil and by its Canceled. A receive from a
-- closed channel gives the zero response.
pub record WatchResponse : Type 0 where
  pub failed : Bool
  pub canceled : Bool

abbrev pub zero_response : WatchResponse
zero_response = record { failed = false; canceled = false }

pub data Received : Type 0 where
  ctx_done : Received
  response : WatchResponse → Received

-- What a round of the loop ends in.
pub data Round : Type 0 where
  stopped : Round
  skipped : Round
  notified : Round

unfoldable pub on_response : WatchResponse → Round
on_response resp = if resp.failed then skipped else if resp.canceled then stopped else notified

unfoldable pub round : Received → Round
unfolding on_response
round ctx_done = stopped
round (response resp) = on_response resp

-- The loop over what is received: how many notifications it sends, and whether it still runs.
unfoldable pub watch : List Received → ℕ × Bool
unfolding round
watch [] = (0, true)
watch (r ∷ rs) =
    let (sent, running) = watch rs in
    elim (round r) [
      | stopped ↦ (0, false)
      | skipped ↦ (sent, running)
      | notified ↦ (sent + 1, running)
    ]

-- A response of the client of etcd: where the watch was canceled, its Err() is not nil.
abbrev pub Lawful : Received → Type 0
Lawful ctx_done = ⊥
Lawful (response resp) = resp.canceled ≡ true → resp.failed ≡ true

watch-replicate : (n : ℕ) → watch (replicate n (response zero_response)) ≡ (n, true)
unfolding watch
watch-replicate zero = refl
watch-replicate (suc n) = ground (arith, watch-replicate n)

-- Where the context is not done, the goroutine outlives a canceled watch: it skips the response
-- that says so, since its error is tested first, and then sends a notification for every receive
-- from the channel that was closed, without end.
pub watch-closed :
    (rs : List Received) (n : ℕ)
    → ((r : Received) → Memᴰ r rs → Lawful r)
    → ((watch (rs ++ replicate n (response zero_response))).1 ≡ true)
      × (n ≤ (watch (rs ++ replicate n (response zero_response))).0)
unfolding watch
watch-closed [] n lawful = ground (arith, watch-replicate n)
watch-closed (ctx_done ∷ rs) n lawful = absurd (lawful ctx_done (Memᴰ.head refl))
watch-closed (response resp ∷ rs) n lawful =
    let first = lawful (response resp) (Memᴰ.head refl) in
    ground (arith, first, watch-closed rs n (λ r m. lawful r (Memᴰ.tail m)))
