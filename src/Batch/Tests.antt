-- ===== src/Batch/Tests.antt =====
-- Adjusters at concrete configurations, and the theorems at them.
use jotify.Prelude.{ℕ, ◌≡◌, refl, List, [], ◌∷◌, none, arith}
use jotify.Prelude.Int.{pos}
use jotify.RingBuffer.{TimeDurationRingBuffer, add, avg, new_time_duration_ring_buffer}
use jotify.RingBuffer.Recent.{Holds, run_adds, run_adds-Holds_recent}
use jotify.Batch.Fixed
use jotify.Batch.Fixed.{is_waiting}
use jotify.Batch.Fixed.Bounds as FixedBounds
use jotify.Batch.SlideWindow

-- 30 in 10..100 by 10, interval 5, fast below 200, slow above 800
abbrev fixed : Fixed.Adjuster
fixed = record {
  curr_size = 30;
  min_size = 10;
  max_size = 100;
  adjust_step = 10;
  last_adjust_time = none;
  min_adjust_interval = 5;
  fast_threshold = 200;
  slow_threshold = 800;
}

abbrev too_wide : Fixed.Adjuster
too_wide = record fixed { adjust_step = 40 }

abbrev calls : List (ℕ × ℕ)
calls = (1, 100) ∷ (3, 100) ∷ (9, 900) ∷ (20, 100) ∷ []

fixed_runs : (FixedBounds.run fixed calls).curr_size ≡ 40
unfolding FixedBounds.run Fixed.adjust
fixed_runs = refl

abbrev window : TimeDurationRingBuffer
window =
    run_adds (record { buffer = 0 ∷ 0 ∷ 0 ∷ []; size = 3; count = 0; write_pos = 0; sum = 0 })
      (40 ∷ 20 ∷ [])

abbrev slide : SlideWindow.Adjuster
slide = record {
  curr_size = 30;
  min_size = 10;
  max_size = 100;
  adjust_step = 10;
  last_adjust_time = none;
  buffer = window;
  min_adjust_interval = 5;
}

window-Holds : Holds window (20 ∷ 40 ∷ [])
unfolding new_time_duration_ring_buffer
window-Holds = run_adds-Holds_recent (pos 3) (40 ∷ 20 ∷ []) refl (omega arith)

slide_grows : (SlideWindow.adjust slide 7 3).1 ≡ 40
unfolding SlideWindow.adjust run_adds add avg
slide_grows = refl
