-- ===== src/BitRing/Trigger.antt =====
-- When the threshold is reached, as a statement about the recent events.
use jotify.Prelude.{
  ℕ, zero, suc, ◌+◌, ◌≤◌, ◌≡◌, refl, ap, Bool, true, false, List, [], ◌∷◌, arith, leb, ◌==◌, ◌&&◌,
  if◌then◌else◌, get_or, take, length, ◌∙◌, ap₂,
}
use native.Mathlib.Numerals.{add-one}
use jotify.Prelude.Int.{ℤ}
use jotify.BitRing.{Float64, BitRing, add, new_bit_ring, all_recent, threshold_triggering}
use jotify.Prelude.Window.{newest_first}
use jotify.BitRing.Window.{Holds, count_true, run_adds, run_adds-Holds}

abbrev pub all_true : List Bool → Bool
all_true [] = true
all_true (b ∷ l) = if b then all_true l else false

-- The specification: some event was recorded, and either the last `c` events all happened, or the
-- rate of those that happened exceeds the limit.
pub triggers : (f : Float64) → ℕ → f.Carrier → List Bool → Bool
triggers f c rate events =
    if length events == 0
    then false
    else if leb c (length events) && all_true (take c events)
    then true
    else f.gt (f.div (f.of_int (count_true events)) (f.of_int (length events))) rate

-- Enough recent events are enough.
pub triggers-recent :
    (f : Float64) (c : ℕ) (rate : f.Carrier) (events : List Bool)
    → 1 ≤ length events
    → c ≤ length events
    → all_true (take c events) ≡ true
    → triggers f c rate events ≡ true
unfolding triggers
triggers-recent f c rate events some_event enough recent = ground (arith, recent)

-- `n` bits from the `i`-th newest on.
abbrev slice : List Bool → ℕ → ℕ → List Bool
slice l i zero = []
slice l i (suc n) = get_or l i false ∷ slice l (suc i) n

slice-cons : (x : Bool) (l : List Bool) (i n : ℕ) → slice (x ∷ l) (suc i) n ≡ slice l i n
slice-cons x l i zero = refl
slice-cons x l i (suc n) = ap (◌∷◌ (get_or l i false)) (slice-cons x l (suc i) n)

slice-take : (l : List Bool) (n : ℕ) → n ≤ length l → slice l 0 n ≡ take n l
slice-take l zero h = refl
slice-take [] (suc n) h = absurd (omega arith)
slice-take (x ∷ l) (suc n) h = ap (◌∷◌ x) (slice-cons x l 0 n ∙ slice-take l n (omega arith))

module _ {f : Float64} {br : BitRing f} {events : List Bool} (h : Holds br events) where
  all_recent_lem :
      (n i : ℕ) → i + n ≤ length events → all_recent f br n (i + 1) ≡ all_true (slice events i n)
  unfolding all_recent
  all_recent_lem zero i k = refl
  all_recent_lem (suc n) i k =
      ground (arith, add-one i, h.bits i (omega arith), all_recent_lem n (suc i) (omega arith))

  pub threshold_triggering_lem :
      threshold_triggering f br ≡ triggers f br.consecutive_threshold br.event_rate_threshold events
  unfolding threshold_triggering triggers
  threshold_triggering_lem = ground (
    arith,
    h.size,
    h.count,
    h.consecutive,
    all_recent_lem br.consecutive_threshold 0,
    slice-take events br.consecutive_threshold,
  )

-- Adding events changes neither threshold.
run_adds-thresholds :
    (f : Float64) (vs : List Bool) (br : BitRing f)
    → ((run_adds f br vs).consecutive_threshold ≡ br.consecutive_threshold)
      × ((run_adds f br vs).event_rate_threshold ≡ br.event_rate_threshold)
unfolding run_adds add
run_adds-thresholds f [] br = (refl, refl)
run_adds-thresholds f (v ∷ vs) br = run_adds-thresholds f vs (add f br v)

-- Whatever the constructor's arguments, after any sequence of events the threshold is triggered
-- exactly when the specification says so of the last `window_size` events: some event was
-- recorded, and either the last `consecutive_threshold` of them all happened, or the quotient of
-- those that happened by all in the window exceeds the rate.
pub run_adds-triggers :
    (f : Float64) (w c : ℤ) (rate : f.Carrier) (vs : List Bool)
    → let br = new_bit_ring f w c rate in
      threshold_triggering f (run_adds f br vs)
      ≡ triggers f br.consecutive_threshold br.event_rate_threshold
          (take br.window_size (newest_first vs []))
run_adds-triggers f w c rate vs =
    let br = new_bit_ring f w c rate in
    let kept = run_adds-thresholds f vs br in
    let events = take br.window_size (newest_first vs []) in
    threshold_triggering_lem (run_adds-Holds f w c rate vs)
    ∙ ap₂ (λ c' r. triggers f c' r events) kept.0 kept.1
