-- ===== src/BitRing.antt =====
-- internal/pkg/bitring/bitring.go: a sliding window of events, kept as a ring of bits in 64-bit
-- words. Each method runs under the ring's mutex, so it is one step on the state.
mod Bit
pub mod Window
pub mod Trigger
mod Tests
use Prim.Native.Nat.{bit_and, bit_or}
use jotify.Prelude.{
  ℕ, zero, suc, ◌+◌, ◌-◌, ◌*◌, ◌/◌, ◌%◌, ◌^◌, Bool, true, false, ◌&&◌, List, ltb, leb, ◌==◌,
  if◌then◌else◌, get_or, set, replicate,
}
use jotify.Prelude.Bits.{shl, shr, and_not}
use jotify.Prelude.Int.{ℤ, pos, ◌≤ℤ◌, ltb_ℤ, pos_part}

-- Go's float64, of which the ring uses the conversion of a count, the quotient and `>`.
pub record Float64 : Type 1 where
  pub Carrier : Type 0
  pub of_int : ℕ → Carrier
  pub div : Carrier → Carrier → Carrier
  pub gt : Carrier → Carrier → Bool

abbrev pub bits_per_word : ℕ
bits_per_word = 64

abbrev pub bits_mask : ℕ
bits_mask = bits_per_word - 1

abbrev pub bits_shift : ℕ
bits_shift = 6

abbrev pub default_window_size : ℕ
default_window_size = 128

abbrev pub default_min_consecutive : ℕ
default_min_consecutive = 3

-- The sizes are positive `int`s in every ring that the constructor makes, hence naturals.
pub record BitRing (f : Float64) : Type 0 where
  pub words : List ℕ
  pub window_size : ℕ
  pub write_pos : ℕ
  pub is_full : Bool
  pub event_count : ℕ
  pub consecutive_threshold : ℕ
  pub event_rate_threshold : f.Carrier

-- An index past the words would be a run-time panic; `Window.Holds` rules it out.
pub bit_at : List ℕ → ℕ → Bool
bit_at words index =
    let p = shr index bits_shift in
    let offset = bit_and index bits_mask in bit_and (shr (get_or words p 0) offset) 1 == 1

pub set_bit : List ℕ → ℕ → Bool → List ℕ
set_bit words index val =
    let p = shr index bits_shift in
    let offset = bit_and index bits_mask in
    if val
    then set words p (bit_or (get_or words p 0) (shl 1 offset))
    else set words p (and_not (get_or words p 0) (shl 1 offset))

-- `int` arguments of the constructor that are not positive are replaced by the defaults.
abbrev pub or_default : ℤ → ℕ → ℕ
or_default x d = if ltb_ℤ (pos 0) x then pos_part x else d

module _ (f : Float64) where
  pub new_bit_ring : ℤ → ℤ → f.Carrier → BitRing f
  new_bit_ring window_size consecutive_threshold event_rate_threshold =
      let w = or_default window_size default_window_size in
      let c = or_default consecutive_threshold default_min_consecutive in
      let one = f.of_int 1 in
      record {
        words = replicate ((w + bits_mask) / bits_per_word) 0;
        window_size = w;
        write_pos = 0;
        is_full = false;
        event_count = 0;
        consecutive_threshold = if ltb w c then w else c;
        event_rate_threshold = if f.gt event_rate_threshold one then one else event_rate_threshold;
      }

  -- The counter is decremented only where a set bit is overwritten, so it is positive there.
  pub add : BitRing f → Bool → BitRing f
  add br event_happened =
      let old_bit = bit_at br.words br.write_pos in
      let kept = if br.is_full && old_bit then br.event_count - 1 else br.event_count in
      let next = br.write_pos + 1 in
      let wraps = leb br.window_size next in
      record br {
        words = set_bit br.words br.write_pos event_happened;
        event_count = if event_happened then kept + 1 else kept;
        write_pos = if wraps then 0 else next;
        is_full = if wraps then true else br.is_full;
      }

  pub curr_window_size : BitRing f → ℕ
  curr_window_size br = if br.is_full then br.window_size else br.write_pos

  -- The loop over `i` with `n` rounds left. `write_pos - i + window_size` is not negative, since
  -- `i` is at most the threshold, which is at most the window.
  pub all_recent : BitRing f → ℕ → ℕ → Bool
  all_recent br zero i = true
  all_recent br (suc n) i =
      if bit_at br.words ((br.write_pos + br.window_size - i) % br.window_size)
      then all_recent br n (i + 1)
      else false

  pub threshold_triggering : BitRing f → Bool
  unfolding curr_window_size all_recent
  threshold_triggering br =
      let curr_size = curr_window_size br in
      if curr_size == 0
      then false
      else if leb br.consecutive_threshold curr_size && all_recent br br.consecutive_threshold 1
      then true
      else f.gt (f.div (f.of_int br.event_count) (f.of_int curr_size)) br.event_rate_threshold
