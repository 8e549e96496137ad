-- ===== src/Prelude/Text.antt =====
-- Texts: the decimal digits of a number, as strconv.FormatUint and `%d` print it, and
-- strings.TrimPrefix.
use Prim.Native.Nat.{ℕ, zero, suc, ◌/◌, ◌%◌}
use Prim.Native.String.{String, ◌++◌, slice, len}
use mathlib.Core.Bool.{Bool}
use mathlib.Core.Path.{◌≡◌, ap, ◌∙◌}
use text.Mathlib.Text.{starts_with}
use text.Mathlib.TextPositions.{starts_with-append, slice-append_right, len-append}
use jotify.Prelude.Tests.{ltb, if◌then◌else◌}

abbrev digit_text : ℕ → String
digit_text zero = "0"
digit_text (suc zero) = "1"
digit_text (suc (suc zero)) = "2"
digit_text (suc (suc (suc zero))) = "3"
digit_text (suc (suc (suc (suc zero)))) = "4"
digit_text (suc (suc (suc (suc (suc zero))))) = "5"
digit_text (suc (suc (suc (suc (suc (suc zero)))))) = "6"
digit_text (suc (suc (suc (suc (suc (suc (suc zero))))))) = "7"
digit_text (suc (suc (suc (suc (suc (suc (suc (suc zero)))))))) = "8"
digit_text _ = "9"

-- The digits before `tail`. A uint64 has at most 20.
decimal : ℕ → ℕ → String → String
decimal zero n tail = tail
decimal (suc fuel) n tail =
    let rest = decimal fuel (n / 10) (digit_text (n % 10) ++ tail) in
    if ltb n 10 then digit_text n ++ tail else rest

unfoldable pub format_uint : ℕ → String
unfolding decimal
format_uint n = decimal 20 n ""

-- strings.TrimPrefix
unfoldable pub trim_prefix : String → String → String
trim_prefix s prefix = if starts_with s prefix then slice s (len prefix) (len s) else s

pub trim_prefix-append : (s t : String) → trim_prefix (s ++ t) s ≡ t
unfolding trim_prefix
trim_prefix-append s t =
    ap (λ (b : Bool). if b then slice (s ++ t) (len s) (len (s ++ t)) else s ++ t)
      (starts_with-append s t)
    ∙ ap (slice (s ++ t) (len s)) (len-append s t)
    ∙ slice-append_right s t
