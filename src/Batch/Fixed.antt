-- ===== src/Batch/Fixed.antt =====
-- internal/pkg/batch/fixed/fixed_step_adjuster.go. Sizes are uint64; a time.Duration is the bit
-- pattern of its int64. `now` is the monotonic clock in nanoseconds at the call, which time.Since
-- and time.Now read; `none` is the zero time.
pub mod Bounds
use jotify.Prelude.{
  ℕ, ◌+◌, ◌-◌, ◌%◌, ◌^◌, min, max, ◌&&◌, Bool, true, false, Option, none, some, ltb, if◌then◌else◌,
}
use jotify.Prelude.Words.{add_u64, sub_u64, lt_i64}

pub record Adjuster : Type 0 where
  pub curr_size : ℕ
  pub min_size : ℕ
  pub max_size : ℕ
  pub adjust_step : ℕ
  pub last_adjust_time : Option ℕ
  pub min_adjust_interval : ℕ
  pub fast_threshold : ℕ
  pub slow_threshold : ℕ

-- `!last.IsZero() && time.Since(last) < interval`
abbrev pub is_waiting : Option ℕ → ℕ → ℕ → Bool
is_waiting none interval now = false
is_waiting (some last) interval now = lt_i64 (now - last) interval

-- The error result is always nil; the new size is the state's `curr_size`.
unfoldable pub adjust : Adjuster → ℕ → ℕ → Adjuster × ℕ
adjust a now resp_time =
    if is_waiting a.last_adjust_time a.min_adjust_interval now
    then (a, a.curr_size)
    else if lt_i64 resp_time a.fast_threshold
    then (let a' =
          if ltb a.curr_size a.max_size
          then record a {
            curr_size = min (add_u64 a.curr_size a.adjust_step) a.max_size;
            last_adjust_time = some now;
          }
          else a in
        (a', a'.curr_size))
    else (let a' =
          if lt_i64 a.slow_threshold resp_time && ltb a.min_size a.curr_size
          then record a {
            curr_size = max (sub_u64 a.curr_size a.adjust_step) a.min_size;
            last_adjust_time = some now;
          }
          else a in
        (a', a'.curr_size))

-- The two tests that bring the initial size into the range.
abbrev pub clamp_init : ℕ → ℕ → ℕ → ℕ
clamp_init init_size min_size max_size =
    let raised = if ltb init_size min_size then min_size else init_size in
    if ltb max_size raised then max_size else raised

unfoldable pub new_adjuster : ℕ → ℕ → ℕ → ℕ → ℕ → ℕ → ℕ → Adjuster
new_adjuster init_size min_size max_size adjust_step min_adjust_interval fast_threshold
      slow_threshold =
    record {
      curr_size = clamp_init init_size min_size max_size;
      min_size = min_size;
      max_size = max_size;
      adjust_step = adjust_step;
      last_adjust_time = none;
      min_adjust_interval = min_adjust_interval;
      fast_threshold = fast_threshold;
      slow_threshold = slow_threshold;
    }
