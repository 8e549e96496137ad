-- ===== src/Batch/Fixed/Bounds.antt =====
-- The batch size stays in its range, and moves by the step in the direction of the response time.
use jotify.Prelude.{
  ℕ, ◌+◌, ◌-◌, ◌^◌, ◌≤◌, ◌<◌, min, max, ◌≡◌, true, false, List, [], ◌∷◌, arith, if◌then◌else◌,
}
use jotify.Prelude.Words.{lt_i64}
use jotify.Batch.Fixed.{Adjuster, adjust, is_waiting, new_adjuster}

-- The configurations for which no addition or subtraction wraps.
pub record IsConfigured (a : Adjuster) : Type 0 where
  pub ordered : a.min_size ≤ a.max_size
  pub step_fits : a.adjust_step ≤ a.min_size
  pub no_overflow : a.max_size + a.adjust_step < 2 ^ 64

pub record InRange (a : Adjuster) : Type 0 where
  pub lower : a.min_size ≤ a.curr_size
  pub upper : a.curr_size ≤ a.max_size

-- What a call should make of the size.
unfoldable pub target : Adjuster → ℕ → ℕ → ℕ
target a now resp_time =
    if is_waiting a.last_adjust_time a.min_adjust_interval now
    then a.curr_size
    else if lt_i64 resp_time a.fast_threshold
    then min (a.curr_size + a.adjust_step) a.max_size
    else if lt_i64 a.slow_threshold resp_time
    then max (a.curr_size - a.adjust_step) a.min_size
    else a.curr_size

-- In a configuration where the step is at most the minimum and the maximum leaves room for it
-- below 2 ^ 64, from a size in range, a call returns the size that it keeps, and this is the old
-- size during the minimal interval, one step more but at most the maximum after a fast response,
-- one step less but at least the minimum after a slow one, and the old size otherwise.
pub adjust-target :
    (a : Adjuster) (now resp_time : ℕ)
    → IsConfigured a
    → InRange a
    → ((adjust a now resp_time).1 ≡ target a now resp_time)
      × ((adjust a now resp_time).0.curr_size ≡ target a now resp_time)
unfolding adjust target
adjust-target a now resp_time c r = (ground arith, ground arith)

pub adjust-InRange :
    (a : Adjuster) (now resp_time : ℕ)
    → IsConfigured a
    → InRange a
    → IsConfigured (adjust a now resp_time).0 × InRange (adjust a now resp_time).0
unfolding adjust
adjust-InRange a now resp_time c r = ground arith

unfoldable pub run : Adjuster → List (ℕ × ℕ) → Adjuster
run a [] = a
run a ((now, resp_time) ∷ calls) = run (adjust a now resp_time).0 calls

run-InRange :
    (calls : List (ℕ × ℕ)) (a : Adjuster) → IsConfigured a → InRange a → InRange (run a calls)
unfolding run
run-InRange [] a c r = r
run-InRange ((now, resp_time) ∷ calls) a c r =
    let (c', r') = adjust-InRange a now resp_time c r in
    run-InRange calls (adjust a now resp_time).0 c' r'

-- An adjuster made with a step at most the minimal size, and with room for the step above the
-- maximal size, keeps its size between the two, whatever initial size it was given, and
-- through every sequence of calls.
pub new_adjuster-InRange :
    (init lo hi step interval fast slow : ℕ) (calls : List (ℕ × ℕ))
    → lo ≤ hi
    → step ≤ lo
    → hi + step < 2 ^ 64
    → InRange (run (new_adjuster init lo hi step interval fast slow) calls)
unfolding new_adjuster
new_adjuster-InRange init lo hi step interval fast slow calls h k m =
    run-InRange calls _ (omega arith) (ground arith)

-- The subtraction wraps where the step is larger than a size above the minimum: outside the
-- waiting interval, a slow response then makes the size larger by `2 ^ 64` less the step, which
-- is above the maximum if that plus the step is below `2 ^ 64`.
pub adjust_underflow :
    (a : Adjuster) (now resp_time : ℕ)
    → is_waiting a.last_adjust_time a.min_adjust_interval now ≡ false
    → lt_i64 resp_time a.fast_threshold ≡ false
    → lt_i64 a.slow_threshold resp_time ≡ true
    → a.min_size < a.curr_size
    → a.curr_size < a.adjust_step
    → a.adjust_step < 2 ^ 64
    → a.max_size + a.adjust_step < 2 ^ 64
    → ((adjust a now resp_time).1 ≡ a.curr_size + (2 ^ 64 - a.adjust_step))
      × (a.max_size < (adjust a now resp_time).1)
unfolding adjust
adjust_underflow a now resp_time w f s lo st w64 room = (ground arith, ground arith)
