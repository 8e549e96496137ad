-- ===== src/Batch/SlideWindow/Bounds.antt =====
-- The batch size stays in its range, and follows the mean of the last response times.
use jotify.Prelude.{
  ℕ, ◌+◌, ◌-◌, ◌/◌, ◌^◌, ◌≤◌, ◌<◌, min, max, ◌≡◌, sym, List, [], ◌∷◌, some, arith, ltb,
  if◌then◌else◌, length,
}
use mathlib.Core.Path.{subst}
use native.Mathlib.Nat.{lt_of_le_of_lt, div-le_self}
use jotify.Prelude.Int.{ℤ}
use jotify.Prelude.Window.{push}
use jotify.Prelude.Words.{lt_i64_nonneg}
use jotify.RingBuffer.{add, avg}
use jotify.RingBuffer.Recent.{Holds, AllWords, sum, add-Holds, avg_lem, size-add}
use jotify.Batch.Fixed.{is_waiting}
use jotify.Batch.SlideWindow.{Adjuster, adjust, new_adjuster}

-- The configurations for which no addition or subtraction of sizes wraps.
pub record IsConfigured (a : Adjuster) : Type 0 where
  pub ordered : a.min_size ≤ a.max_size
  pub step_fits : a.adjust_step ≤ a.min_size
  pub no_overflow : a.max_size + a.adjust_step < 2 ^ 64

pub record InRange (a : Adjuster) : Type 0 where
  pub lower : a.min_size ≤ a.curr_size
  pub upper : a.curr_size ≤ a.max_size

-- What a call should make of the size, where `l` are the last response times, this one included.
unfoldable pub target : Adjuster → List ℕ → ℕ → ℕ → ℕ
target a l now resp_time =
    if ltb (length l) a.buffer.size
    then a.curr_size
    else if is_waiting a.last_adjust_time a.min_adjust_interval now
    then a.curr_size
    else if ltb resp_time (sum l / length l)
    then min (a.curr_size + a.adjust_step) a.max_size
    else if ltb (sum l / length l) resp_time
    then max (a.curr_size - a.adjust_step) a.min_size
    else a.curr_size

buffer-adjust :
    (a : Adjuster) (now resp_time : ℕ) → (adjust a now resp_time).0.buffer ≡ add a.buffer resp_time
unfolding adjust
buffer-adjust a now resp_time = ground arith

-- Over the average that the buffer reports.
adjust-target-avg :
    (a : Adjuster) (l : List ℕ) (now resp_time : ℕ)
    → IsConfigured a
    → InRange a
    → length l ≡ (add a.buffer resp_time).count
    → avg (add a.buffer resp_time) ≡ sum l / length l
    → sum l / length l < 2 ^ 63
    → resp_time < 2 ^ 63
    → ((adjust a now resp_time).1 ≡ target a l now resp_time)
      × ((adjust a now resp_time).0.curr_size ≡ target a l now resp_time)
unfolding adjust target
adjust-target-avg a l now resp_time c r size mean small fits =
    let m = sum l / length l in
    let kept = size-add a.buffer resp_time in
    let less = lt_i64_nonneg resp_time m fits small in
    let more = lt_i64_nonneg m resp_time small fits in
    (ground (arith, kept, less, more), ground (arith, kept, less, more))

mean-lt : (s n : ℕ) → s < 2 ^ 63 → s / n < 2 ^ 63
mean-lt s n h = lt_of_le_of_lt (div-le_self s n) h

-- Let the buffer hold the response times `l`, and let the times with this one have a sum below
-- 2 ^ 63 (so none is negative). Then a call returns the size that it keeps, which is the old one
-- until the window is full and during the minimal interval, and else one step more or less, within
-- the range, as the response was faster or slower than the mean of the window that ends with it.
pub adjust-target_window :
    (a : Adjuster) (l : List ℕ) (now resp_time : ℕ)
    → IsConfigured a
    → InRange a
    → Holds a.buffer l
    → AllWords l
    → sum (push a.buffer.size resp_time l) < 2 ^ 63
    → resp_time < 2 ^ 63
    → let l' = push a.buffer.size resp_time l in
      ((adjust a now resp_time).1 ≡ target a l' now resp_time)
      × ((adjust a now resp_time).0.curr_size ≡ target a l' now resp_time)
      × Holds (adjust a now resp_time).0.buffer l'
adjust-target_window a l now resp_time c r h words small fits =
    let l' = push a.buffer.size resp_time l in
    let h' = add-Holds h words resp_time in
    let (size, kept) =
      adjust-target-avg a l' now resp_time c r h'.size (avg_lem h' small)
        (mean-lt (sum l') (length l') small) fits in
    (size, kept, subst (λ b. Holds b l') (sym (buffer-adjust a now resp_time)) h')

adjust-InRange :
    (a : Adjuster) (now resp_time : ℕ)
    → IsConfigured a
    → InRange a
    → IsConfigured (adjust a now resp_time).0 × InRange (adjust a now resp_time).0
unfolding adjust
adjust-InRange a now resp_time c r = ground arith

unfoldable pub run : Adjuster → List (ℕ × ℕ) → Adjuster
run a [] = a
run a ((now, resp_time) ∷ calls) = run (adjust a now resp_time).0 calls

run-InRange :
    (calls : List (ℕ × ℕ)) (a : Adjuster) → IsConfigured a → InRange a → InRange (run a calls)
unfolding run
run-InRange [] a c r = r
run-InRange ((now, resp_time) ∷ calls) a c r =
    let (c', r') = adjust-InRange a now resp_time c r in
    run-InRange calls (adjust a now resp_time).0 c' r'

-- An adjuster made with a step at most the minimal size, and with room for the step above the
-- maximal size, keeps its size between the two through every sequence of calls.
new_adjuster-InRange_window :
    (buffer_size : ℤ) (init lo hi step interval : ℕ) (calls : List (ℕ × ℕ)) {a : Adjuster}
    → new_adjuster buffer_size init lo hi step interval ≡ some a
    → lo ≤ hi
    → step ≤ lo
    → hi + step < 2 ^ 64
    → InRange (run a calls)
unfolding new_adjuster
new_adjuster-InRange_window buffer_size init lo hi step interval calls {a} e h k m =
    run-InRange calls a (ground arith) (ground arith)
