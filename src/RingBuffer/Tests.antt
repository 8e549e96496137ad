-- ===== src/RingBuffer/Tests.antt =====
-- A buffer of three durations, and the theorems at it.
use jotify.Prelude.{ℕ, ◌-◌, ◌^◌, ◌≡◌, refl, List, [], ◌∷◌, some, none, arith}
use jotify.Prelude.Int.{pos, negsuc}
use jotify.RingBuffer.{TimeDurationRingBuffer, add, avg, new_time_duration_ring_buffer}
use jotify.RingBuffer.Recent.{Holds, run_adds, run_adds-Holds_recent}

abbrev three : TimeDurationRingBuffer
three = record { buffer = 0 ∷ 0 ∷ 0 ∷ []; size = 3; count = 0; write_pos = 0; sum = 0 }

abbrev durations : List ℕ
durations = 9 ∷ 2 ∷ 4 ∷ 7 ∷ []

new_three : new_time_duration_ring_buffer (pos 3) ≡ some three
unfolding new_time_duration_ring_buffer
new_three = refl

new_invalid : new_time_duration_ring_buffer (negsuc 0) ≡ none
unfolding new_time_duration_ring_buffer
new_invalid = refl

avg_runs : avg (run_adds three durations) ≡ 4
unfolding avg run_adds add
avg_runs = refl

-- -1 ns twice, so the average is -1 ns
avg_negative : avg (run_adds three ((2 ^ 64 - 1) ∷ (2 ^ 64 - 1) ∷ [])) ≡ 2 ^ 64 - 1
unfolding avg run_adds add
avg_negative = refl

run_adds-Holds_recent_example : Holds (run_adds three durations) (7 ∷ 4 ∷ 2 ∷ [])
run_adds-Holds_recent_example = run_adds-Holds_recent (pos 3) durations new_three (omega arith)
