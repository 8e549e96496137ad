-- ===== src/RingBuffer.antt =====
-- internal/pkg/ringbuffer/ringbuffer.go: a ring of durations with their running sum.
-- (internal/pkg/buffer/ring_buffer.go has the same methods and a constructor that panics.)
-- A time.Duration is the bit pattern of its int64. Each method runs under the buffer's mutex.
pub mod Recent
mod Tests
use jotify.Prelude.{
  ℕ, ◌+◌, ◌%◌, Option, none, some, List, ◌==◌, if◌then◌else◌, get_or, set, replicate,
}
use jotify.Prelude.Int.{ℤ, pos, ltb_ℤ, pos_part}
use jotify.Prelude.Words.{add_u64, sub_u64, div_i64}

pub record TimeDurationRingBuffer : Type 0 where
  pub buffer : List ℕ
  pub size : ℕ
  pub count : ℕ
  pub write_pos : ℕ
  pub sum : ℕ

-- An access past the buffer would panic; `Recent.Holds` rules it out.
unfoldable pub add : TimeDurationRingBuffer → ℕ → TimeDurationRingBuffer
add rb d =
    let is_full = rb.count == rb.size in
    let kept = if is_full then sub_u64 rb.sum (get_or rb.buffer rb.write_pos 0) else rb.sum in
    record rb {
      count = if is_full then rb.count else rb.count + 1;
      buffer = set rb.buffer rb.write_pos d;
      sum = add_u64 kept d;
      write_pos = (rb.write_pos + 1) % rb.size;
    }

unfoldable pub avg : TimeDurationRingBuffer → ℕ
avg rb = if rb.count == 0 then 0 else div_i64 rb.sum rb.count

pub reset : TimeDurationRingBuffer → TimeDurationRingBuffer
reset rb = record rb { buffer = replicate rb.size 0; sum = 0; count = 0; write_pos = 0 }

-- `none` is ErrInvalidBufferSize.
unfoldable pub new_time_duration_ring_buffer : ℤ → Option TimeDurationRingBuffer
new_time_duration_ring_buffer size =
    if ltb_ℤ (pos 0) size
    then some (record {
      buffer = replicate (pos_part size) 0;
      size = pos_part size;
      count = 0;
      write_pos = 0;
      sum = 0;
    })
    else none
