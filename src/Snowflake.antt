-- ===== src/Snowflake.antt =====
-- internal/pkg/snowflake/id_generator.go: 64-bit ids of a 41-bit time, a 10-bit hash of the
-- business id and key, and a 12-bit sequence. xxhash.Sum64String is the parameter `sum64`.
pub mod Layout
mod Tests
use Prim.Native.Nat.{bit_and, bit_or}
use Prim.Native.String.{◌++◌}
use jotify.Prelude.{ℕ, ◌+◌, ◌-◌, ◌*◌, ◌/◌, ◌%◌, ◌^◌, String}
use jotify.Prelude.Bits.{shl, shr}
use jotify.Prelude.Words.{add_u64, sub_u64, u64}
use jotify.Prelude.Text.{format_uint}

abbrev pub timestamp_bits : ℕ
timestamp_bits = 41

abbrev pub hash_bits : ℕ
hash_bits = 10

abbrev pub sequence_bits : ℕ
sequence_bits = 12

abbrev pub hash_shift : ℕ
hash_shift = sequence_bits

abbrev pub timestamp_shift : ℕ
timestamp_shift = hash_shift + hash_bits

abbrev pub sequence_mask : ℕ
sequence_mask = shl 1 sequence_bits - 1

abbrev pub hash_mask : ℕ
hash_mask = shl 1 hash_bits - 1

abbrev pub timestamp_mask : ℕ
timestamp_mask = shl 1 timestamp_bits - 1

abbrev pub epoch_millis : ℕ
epoch_millis = 1735689600000

-- `lastTime` and `epoch` of the struct are never read.
pub record Generator : Type 0 where
  pub sequence : ℕ

unfoldable pub new_generator : Generator
new_generator = record { sequence = 0 }

unfoldable pub hash_key : ℕ → String → String
unfolding format_uint
hash_key biz_id biz_key = format_uint biz_id ++ ":" ++ biz_key

-- `now` is time.Now().UnixMilli(); the counter is added to atomically.
unfoldable pub next_id : (String → ℕ) → Generator → ℕ → ℕ → String → Generator × ℕ
next_id sum64 g now biz_id biz_key =
    let timestamp = sub_u64 now epoch_millis in
    let hash_val = sum64 (hash_key biz_id biz_key) in
    let added = add_u64 g.sequence 1 in
    let seq = sub_u64 added 1 in
    (
      record { sequence = added },
      bit_or
          (bit_or (shl (bit_and timestamp timestamp_mask) timestamp_shift)
            (shl (bit_and hash_val hash_mask) hash_shift))
          (bit_and seq sequence_mask),
    )

-- Nanoseconds since 1970: the argument of time.Unix, a uint64 product.
unfoldable pub extract_timestamp : ℕ → ℕ
extract_timestamp id =
    let timestamp = bit_and (shr id timestamp_shift) timestamp_mask in
    u64 ((timestamp + epoch_millis) * 1000000)

unfoldable pub extract_hash : ℕ → ℕ
extract_hash id = bit_and (shr id hash_shift) hash_mask

unfoldable pub extract_sequence : ℕ → ℕ
extract_sequence id = bit_and id sequence_mask
