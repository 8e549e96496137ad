-- ===== src/Batch/SlideWindow.antt =====
-- internal/pkg/batch/slidewindow/slide_window_adjuster.go, over the ring buffer of durations. The
-- conventions are those of `Batch.Fixed`; a call runs under the adjuster's mutex.
pub mod Bounds
use jotify.Prelude.{
  ℕ, ◌+◌, ◌-◌, ◌%◌, ◌^◌, min, max, ◌&&◌, Bool, true, false, Option, none, some, ltb, if◌then◌else◌,
}
use jotify.Prelude.Int.{ℤ}
use jotify.Prelude.Words.{add_u64, sub_u64, lt_i64}
use jotify.RingBuffer.{TimeDurationRingBuffer, add, avg, new_time_duration_ring_buffer}
use jotify.Batch.Fixed.{is_waiting, clamp_init}

pub record Adjuster : Type 0 where
  pub curr_size : ℕ
  pub min_size : ℕ
  pub max_size : ℕ
  pub adjust_step : ℕ
  pub last_adjust_time : Option ℕ
  pub buffer : TimeDurationRingBuffer
  pub min_adjust_interval : ℕ

-- The comparison with the average, once the window is full and the interval has passed.
abbrev pub adjust_by : Adjuster → ℕ → ℕ → ℕ → Adjuster × ℕ
adjust_by a mean now resp_time =
    if lt_i64 resp_time mean
    then (let a' =
          if ltb a.curr_size a.max_size
          then record a {
            curr_size = min (add_u64 a.curr_size a.adjust_step) a.max_size;
            last_adjust_time = some now;
          }
          else a in
        (a', a'.curr_size))
    else (let a' =
          if lt_i64 mean resp_time && ltb a.min_size a.curr_size
          then record a {
            curr_size = max (sub_u64 a.curr_size a.adjust_step) a.min_size;
            last_adjust_time = some now;
          }
          else a in
        (a', a'.curr_size))

unfoldable pub adjust : Adjuster → ℕ → ℕ → Adjuster × ℕ
adjust a now resp_time =
    let a' = record a { buffer = add a.buffer resp_time } in
    if ltb a'.buffer.count a'.buffer.size
    then (a', a'.curr_size)
    else if is_waiting a'.last_adjust_time a'.min_adjust_interval now
    then (a', a'.curr_size)
    else adjust_by a' (avg a'.buffer) now resp_time

-- `none` is the error of the buffer's constructor.
unfoldable pub new_adjuster : ℤ → ℕ → ℕ → ℕ → ℕ → ℕ → Option Adjuster
new_adjuster buffer_size init_size min_size max_size adjust_step min_adjust_interval =
    elim (new_time_duration_ring_buffer buffer_size) [
      | none ↦ none
      | some buffer ↦ some (record {
        curr_size = clamp_init init_size min_size max_size;
        min_size = min_size;
        max_size = max_size;
        adjust_step = adjust_step;
        last_adjust_time = none;
        buffer = buffer;
        min_adjust_interval = min_adjust_interval;
      })
    ]
