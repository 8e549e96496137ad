-- ===== src/Prelude/Bits.antt =====
-- Shifts and bit operations on words: one equation for each binary digit, and the laws of masks,
-- of packed fields and of single bits that follow.
use Prim.Native.Nat.{
  ℕ, zero, suc, ◌+◌, ◌-◌, ◌*◌, ◌/◌, ◌%◌, ◌^◌, ◌≤◌, ◌<◌, min, max, bit_and, bit_or, bit_xor, digits,
  bitwise, differ, bit_and-bitwise, bit_or-bitwise, bit_xor-bitwise,
}
use mathlib.Core.Path.{◌≡◌, refl, sym, ap, ◌∙◌}
use mathlib.Core.Logic.{◌≢◌}
use native.Mathlib.Omega.{arith}
use native.Mathlib.Nat.{
  le_refl, pow-suc, one-le-pow, mod-lt, mod-one, mod-eq_of_lt, div-add-mod, mul-add-mod_self_left,
  div-div-eq-div-mul, mul_comm, div-one,
}

abbrev pub shl : ℕ → ℕ → ℕ
shl x k = x * 2 ^ k

abbrev pub shr : ℕ → ℕ → ℕ
shr x k = x / 2 ^ k

-- Go's `x &^ y`: the bits of `y` are cleared in `x`.
abbrev pub and_not : ℕ → ℕ → ℕ
and_not x y = bit_xor x (bit_and x y)

module _ (rest : ℕ → ℕ) (f : ℕ → ℕ → ℕ) where
  -- The fuel of `digits` does not matter, if there is enough.
  enough : (n m a b : ℕ) → a ≤ n → a ≤ m → digits rest f n a b ≡ digits rest f m a b
  enough zero zero a b p q = refl
  enough zero (suc m) zero b p q = refl
  enough zero (suc m) (suc a) b p q = absurd (omega arith)
  enough (suc n) zero zero b p q = refl
  enough (suc n) zero (suc a) b p q = absurd (omega arith)
  enough (suc n) (suc m) zero b p q = refl
  enough (suc n) (suc m) (suc a) b p q =
      rw (enough n m (suc a / 2) (b / 2) (omega arith) (omega arith))

  lowest :
      (x y : ℕ)
      → bitwise rest f (suc x) y ≡ f (suc x % 2) (y % 2) + 2 * bitwise rest f (suc x / 2) (y / 2)
  lowest x y =
      let half = suc x / 2 in omega (arith, enough x half half (y / 2) (omega arith) (le_refl _))

or_step : (x y : ℕ) → bit_or x y ≡ max (x % 2) (y % 2) + 2 * bit_or (x / 2) (y / 2)
or_step zero y = simp bit_or-bitwise (omega arith)
or_step (suc x) y = simp bit_or-bitwise (lowest (λ y. y) max x y)

and_step : (x y : ℕ) → bit_and x y ≡ min (x % 2) (y % 2) + 2 * bit_and (x / 2) (y / 2)
and_step zero y = simp bit_and-bitwise (omega arith)
and_step (suc x) y = simp bit_and-bitwise (lowest (λ y. 0) min x y)

-- The binary digit of weight `2 ^ k`.
pub digit : ℕ → ℕ → ℕ
digit x zero = x % 2
digit x (suc k) = digit (x / 2) k

pub digit_lem : (x k : ℕ) → shr x k % 2 ≡ digit x k
unfolding digit
digit_lem x zero = rw div-one
digit_lem x (suc k) =
    ap (λ (t : ℕ). t % 2)
      (ap (λ (d : ℕ). x / d) (pow-suc 2 k ∙ mul_comm (2 ^ k) 2)
        ∙ sym (div-div-eq-div-mul x 2 (2 ^ k)))
    ∙ digit_lem (x / 2) k

pub digit-lt : (x k : ℕ) → digit x k < 2
unfolding digit
digit-lt x zero = omega arith
digit-lt x (suc k) = digit-lt (x / 2) k

-- The operations work digit by digit.
pub digit-bit_or : (a b k : ℕ) → digit (bit_or a b) k ≡ max (digit a k) (digit b k)
unfolding digit
digit-bit_or a b zero = omega (arith, or_step a b)
digit-bit_or a b (suc k) =
    ap (λ (t : ℕ). digit t k)
      (let h : bit_or a b / 2 ≡ bit_or (a / 2) (b / 2) = omega (arith, or_step a b) in h)
    ∙ digit-bit_or (a / 2) (b / 2) k

pub digit-bit_and : (a b k : ℕ) → digit (bit_and a b) k ≡ min (digit a k) (digit b k)
unfolding digit
digit-bit_and a b zero = omega (arith, and_step a b)
digit-bit_and a b (suc k) =
    ap (λ (t : ℕ). digit t k)
      (let h : bit_and a b / 2 ≡ bit_and (a / 2) (b / 2) = omega (arith, and_step a b) in h)
    ∙ digit-bit_and (a / 2) (b / 2) k

xor_step : (x y : ℕ) → bit_xor x y ≡ differ (x % 2) (y % 2) + 2 * bit_xor (x / 2) (y / 2)
xor_step zero y = simp bit_xor-bitwise (ground arith)
xor_step (suc x) y = simp bit_xor-bitwise (lowest (λ y. y) differ x y)

differ-lt : (a b : ℕ) → a < 2 → b < 2 → differ a b < 2
differ-lt zero b p q = q
differ-lt (suc zero) zero p q = p
differ-lt (suc zero) (suc zero) p q = omega arith
differ-lt (suc zero) (suc (suc b)) p q = absurd (omega arith)
differ-lt (suc (suc a)) b p q = absurd (omega arith)

pub digit-bit_xor : (a b k : ℕ) → digit (bit_xor a b) k ≡ differ (digit a k) (digit b k)
unfolding digit
digit-bit_xor a b zero =
    omega (arith, xor_step a b, differ-lt (a % 2) (b % 2) (omega arith) (omega arith))
digit-bit_xor a b (suc k) =
    ap (λ (t : ℕ). digit t k)
      (let h : bit_xor a b / 2 ≡ bit_xor (a / 2) (b / 2) =
          omega (arith, xor_step a b, differ-lt (a % 2) (b % 2) (omega arith) (omega arith)) in
        h)
    ∙ digit-bit_xor (a / 2) (b / 2) k

two_pow_half : (k : ℕ) → 2 ^ suc k / 2 ≡ 2 ^ k
two_pow_half k = omega (arith, pow-suc 2 k)

digit-zero : (k : ℕ) → digit 0 k ≡ 0
unfolding digit
digit-zero zero = refl
digit-zero (suc k) = digit-zero k

-- `1 << j` has the single bit `j`.
pub digit_one_self : (j : ℕ) → digit (2 ^ j) j ≡ 1
unfolding digit
digit_one_self zero = refl
digit_one_self (suc j) = rw (two_pow_half j) (digit_one_self j)

pub digit_one_ne : (j k : ℕ) → j ≢ k → digit (2 ^ j) k ≡ 0
unfolding digit
digit_one_ne zero zero h = absurd (h refl)
digit_one_ne zero (suc k) h = digit-zero k
digit_one_ne (suc j) zero h = omega (arith, pow-suc 2 j)
digit_one_ne (suc j) (suc k) h = rw (two_pow_half j) (digit_one_ne j k (λ e. h (ap suc e)))

-- `x & (2 ^ k - 1)` keeps the low `k` bits.
and-nil : (a : ℕ) → bit_and a 0 ≡ 0
and-nil a = go a a (le_refl a)
  where
    go : (n b : ℕ) → b ≤ n → bit_and b 0 ≡ 0
    go n zero h = refl
    go zero (suc b) h = absurd (omega arith)
    go (suc n) (suc b) h = omega (arith, and_step (suc b) 0, go n (suc b / 2) (omega arith))

or-nil : (a : ℕ) → bit_or a 0 ≡ a
or-nil a = go a a (le_refl a)
  where
    go : (n b : ℕ) → b ≤ n → bit_or b 0 ≡ b
    go n zero h = refl
    go zero (suc b) h = absurd (omega arith)
    go (suc n) (suc b) h = omega (arith, or_step (suc b) 0, go n (suc b / 2) (omega arith))

half_mask : (k : ℕ) → ((2 ^ suc k - 1) / 2 ≡ 2 ^ k - 1) × ((2 ^ suc k - 1) % 2 ≡ 1)
half_mask k = omega (arith, pow-suc 2 k, one-le-pow k 2 (omega arith))

mod-double : (x m : ℕ) → 0 < m → x % (2 * m) ≡ x / 2 % m * 2 + x % 2
mod-double x m h =
    let r = x / 2 % m * 2 + x % 2 in
    let small : r < 2 * m = omega (arith, mod-lt (x / 2) h) in
    let whole : 2 * m * (x / 2 / m) + r ≡ x =
      omega (arith, ap (λ (t : ℕ). t * 2) (div-add-mod (x / 2) m)) in
    ap (λ (t : ℕ). t % (2 * m)) (sym whole)
    ∙ mul-add-mod_self_left (2 * m) (x / 2 / m) r
    ∙ mod-eq_of_lt small

mod-two_pow-suc : (x k : ℕ) → x % 2 ^ suc k ≡ x / 2 % 2 ^ k * 2 + x % 2
mod-two_pow-suc x k =
    ap (λ (t : ℕ). x % t) (pow-suc 2 k ∙ mul_comm (2 ^ k) 2)
    ∙ mod-double x (2 ^ k) (one-le-pow k 2 (omega arith))

pub bit_and-low_mask : (x k : ℕ) → bit_and x (2 ^ k - 1) ≡ x % 2 ^ k
bit_and-low_mask x zero = and-nil x ∙ sym (mod-one x)
bit_and-low_mask x (suc k) = omega (
  arith,
  and_step x (2 ^ suc k - 1),
  half_mask k,
  bit_and-low_mask (x / 2) k,
  mod-two_pow-suc x k,
  ap (bit_and (x / 2)) (half_mask k).0,
)

-- `(q << k) | r` is a sum, when `r` fits the low `k` bits.
pub bit_or-shl : (q r k : ℕ) → r < 2 ^ k → bit_or (shl q k) r ≡ q * 2 ^ k + r
bit_or-shl q r zero h =
    let none_left : r ≡ 0 = omega arith in
    ap (λ (t : ℕ). bit_or (q * 1) t) none_left ∙ or-nil (q * 1) ∙ omega arith
bit_or-shl q r (suc k) h =
    let half : q * 2 ^ suc k / 2 ≡ q * 2 ^ k = omega (arith, ap (λ (t : ℕ). q * t) (pow-suc 2 k)) in
    let even : q * 2 ^ suc k % 2 ≡ 0 = omega (arith, ap (λ (t : ℕ). q * t) (pow-suc 2 k)) in
    omega (
      arith,
      or_step (q * 2 ^ suc k) r,
      ap (λ (t : ℕ). bit_or t (r / 2)) half,
      even,
      bit_or-shl q (r / 2) k (omega (arith, pow-suc 2 k)),
      ap (λ (t : ℕ). q * t) (pow-suc 2 k),
    )
