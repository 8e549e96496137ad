-- ===== src/Domain/Time.antt =====
-- time.Time as nanoseconds since 1970, and time.Duration as nanoseconds. (Go's times reach far
-- beyond those of an int64; sums of them do not wrap.)
use jotify.Prelude.{ℕ, ◌-◌, ◌*◌, ◌^◌, Bool, ltb, ◌==◌, ◌&&◌, if◌then◌else◌}
use jotify.Prelude.Int.{ℤ, pos, negsuc, ltb_ℤ, pos_part, neg_part}

abbrev pub Time : Type 0
Time = ℤ

abbrev pub Duration : Type 0
Duration = ℤ

abbrev pub second : ℕ
second = 1000000000

abbrev pub minute : ℕ
minute = 60 * second

-- The zero time.Time, January 1 of year 1.
abbrev pub zero_time : Time
zero_time = negsuc (62135596800 * second - 1)

-- time.Unix(0, 0)
abbrev pub unix_epoch : Time
unix_epoch = pos 0

abbrev pub eq_ℤ : ℤ → ℤ → Bool
eq_ℤ a b = pos_part a == pos_part b && neg_part a == neg_part b

abbrev pub is_zero : Time → Bool
is_zero t = eq_ℤ t zero_time

abbrev pub before : Time → Time → Bool
before a b = ltb_ℤ a b

abbrev pub after : Time → Time → Bool
after a b = ltb_ℤ b a

-- The int64 with a bit pattern.
abbrev pub int64_of : ℕ → ℤ
int64_of w = if ltb w (2 ^ 63) then pos w else negsuc (2 ^ 64 - w - 1)
