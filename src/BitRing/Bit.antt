-- ===== src/BitRing/Bit.antt =====
-- Reading and writing single bits of the words.
use Prim.Native.Nat.{bit_and, bit_or, differ}
use jotify.Prelude.{
  ℕ, zero, suc, ◌/◌, ◌%◌, ◌^◌, ◌<◌, min, ◌≡◌, refl, ap, ◌∙◌, Bool, true, false, List, [], ◌∷◌,
  arith, ◌==◌, if◌then◌else◌, get_or, set, length, length-set,
}
use jotify.Prelude.Bits.{
  shl, shr, and_not, digit, digit_lem, digit-lt, digit-bit_or, digit-bit_and, digit-bit_xor,
  digit_one_self, digit_one_ne, bit_and-low_mask,
}
use jotify.BitRing.{bit_at, set_bit, bits_mask}

pub get_or-set :
    (xs : List ℕ) (i j v d : ℕ)
    → i < length xs
    → get_or (set xs i v) j d ≡ (if i == j then v else get_or xs j d)
get_or-set [] i j v d h = elim h [ ]
get_or-set (x ∷ xs) zero zero v d h = refl
get_or-set (x ∷ xs) zero (suc j) v d h = ground arith
get_or-set (x ∷ xs) (suc i) zero v d h = ground arith
get_or-set (x ∷ xs) (suc i) (suc j) v d h = ground (arith, get_or-set xs i j v d)

-- A bit of the ring as a binary digit of its word.
pub bit_at-digit :
    (xs : List ℕ) (i : ℕ) → bit_at xs i ≡ (digit (get_or xs (i / 64) 0) (i % 64) == 1)
unfolding bit_at
bit_at-digit xs i =
    ap (λ (t : ℕ). t == 1)
      (bit_and-low_mask (shr (get_or xs (i / 64) 0) (bit_and i 63)) 1
        ∙ ap (λ (o : ℕ). shr (get_or xs (i / 64) 0) o % 2) (bit_and-low_mask i 6)
        ∙ digit_lem (get_or xs (i / 64) 0) (i % 64))

digit_one : (k j : ℕ) → digit (2 ^ k) j ≡ (if k == j then 1 else 0)
digit_one k j = ground (arith, digit_one_self k, digit_one_ne k j)

one_shl : (k : ℕ) → shl 1 k ≡ 2 ^ k
one_shl k = omega arith

or_one : (w k j : ℕ) → digit (bit_or w (shl 1 k)) j ≡ (if k == j then 1 else digit w j)
or_one w k j =
    ap (λ (t : ℕ). digit (bit_or w t) j) (one_shl k)
    ∙ ground (arith, digit-bit_or w (2 ^ k) j, digit_one k j, digit-lt w j)

differ_bits : (a b : ℕ) → a < 2 → b < 2 → differ a (min a b) ≡ (if b == 1 then 0 else a)
differ_bits zero zero p q = refl
differ_bits zero (suc zero) p q = refl
differ_bits (suc zero) zero p q = refl
differ_bits (suc zero) (suc zero) p q = refl
differ_bits zero (suc (suc b)) p q = absurd (omega arith)
differ_bits (suc zero) (suc (suc b)) p q = absurd (omega arith)
differ_bits (suc (suc a)) b p q = absurd (omega arith)

clear_one : (w k j : ℕ) → digit (and_not w (shl 1 k)) j ≡ (if k == j then 0 else digit w j)
clear_one w k j =
    ap (λ (t : ℕ). digit (and_not w t) j) (one_shl k)
    ∙ digit-bit_xor w (bit_and w (2 ^ k)) j
    ∙ ap (λ (t : ℕ). differ (digit w j) t) (digit-bit_and w (2 ^ k) j)
    ∙ differ_bits (digit w j) (digit (2 ^ k) j) (digit-lt w j) (digit-lt (2 ^ k) j)
    ∙ ground (arith, digit_one k j)

-- A word written back with one digit changed changes one bit.
bit_at-set :
    (xs : List ℕ) (i j w : ℕ) (v : Bool)
    → i / 64 < length xs
    → digit w (j % 64)
      ≡ (if i % 64 == j % 64 then (if v then 1 else 0) else digit (get_or xs (i / 64) 0) (j % 64))
    → bit_at (set xs (i / 64) w) j ≡ (if i == j then v else bit_at xs j)
bit_at-set xs i j w v h e =
    rw (bit_at-digit (set xs (i / 64) w) j, bit_at-digit xs j)
      (ground (arith, get_or-set xs (i / 64) (j / 64) w 0 h))

offset_lem : (i : ℕ) → bit_and i bits_mask ≡ i % 64
offset_lem i = bit_and-low_mask i 6

-- The bit that `set_bit` writes, and the bits that it leaves.
pub bit_at-set_bit :
    (xs : List ℕ) (i j : ℕ) (v : Bool)
    → i / 64 < length xs
    → bit_at (set_bit xs i v) j ≡ (if i == j then v else bit_at xs j)
unfolding set_bit
bit_at-set_bit xs i j true h =
    rw (offset_lem i) (bit_at-set xs i j _ true h (or_one (get_or xs (i / 64) 0) (i % 64) (j % 64)))
bit_at-set_bit xs i j false h =
    rw (offset_lem i)
      (bit_at-set xs i j _ false h (clear_one (get_or xs (i / 64) 0) (i % 64) (j % 64)))

pub length-set_bit : (xs : List ℕ) (i : ℕ) (v : Bool) → length (set_bit xs i v) ≡ length xs
unfolding set_bit
length-set_bit xs i true = length-set xs _ _
length-set_bit xs i false = length-set xs _ _
