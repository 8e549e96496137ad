-- ===== src/Prelude/Window.antt =====
-- A ring of `w` cells with the next write at `p`, seen as the list of its last writes, newest first.
use Prim.Native.Nat.{ℕ, zero, suc, ◌+◌, ◌-◌, ◌%◌, ◌≤◌, ◌<◌, min}
use mathlib.Core.Path.{◌≡◌, refl, ap}
use mathlib.Core.Logic.{◌≢◌}
use mathlib.Core.List.{List, [], ◌∷◌}
use native.Mathlib.Nat.{mod-eq_of_lt, mod-eq-sub-mod}
use native.Mathlib.Decide.{dec_lt}
use native.Mathlib.Omega.{arith}
use jotify.Prelude.Tests.{leb, ltb, if◌then◌else◌}
use jotify.Prelude.Lists.{get_or, take, length, length-take}

-- The index of the cell that `i` later writes follow.
abbrev pub index_of : ℕ → ℕ → ℕ → ℕ
index_of w p i = (p + w - suc i) % w

module _ {ℓ} {A : Type ℓ} where
  -- The last `w` values after one more.
  abbrev pub push : ℕ → A → List A → List A
  push w v l = take w (v ∷ l)

  -- A sequence with its last value first, put before `l`.
  abbrev pub newest_first : List A → List A → List A
  newest_first [] l = l
  newest_first (v ∷ vs) l = newest_first vs (v ∷ l)

  pub length-push : (w : ℕ) (v : A) (l : List A) → length (push w v l) ≡ min w (suc (length l))
  length-push w v l = length-take w (v ∷ l)

  pub get_or-push_zero : (w : ℕ) (v d : A) (l : List A) → 0 < w → get_or (push w v l) 0 d ≡ v
  get_or-push_zero zero v d l h = elim h [ ]
  get_or-push_zero (suc w) v d l h = refl

  pub get_or-take : (w i : ℕ) (d : A) (l : List A) → i < w → get_or (take w l) i d ≡ get_or l i d
  get_or-take zero i d l h = elim h [ ]
  get_or-take (suc w) i d [] h = refl
  get_or-take (suc w) zero d (x ∷ l) h = refl
  get_or-take (suc w) (suc i) d (x ∷ l) h = get_or-take w i d l (omega arith)

  pub take_all : (n : ℕ) (l : List A) → length l ≤ n → take n l ≡ l
  take_all zero [] h = refl
  take_all zero (x ∷ l) h = absurd (omega arith)
  take_all (suc n) [] h = refl
  take_all (suc n) (x ∷ l) h = ap (◌∷◌ x) (take_all n l (omega arith))

  take-take-suc : (n : ℕ) (l : List A) → take n (take (suc n) l) ≡ take n l
  take-take-suc zero l = refl
  take-take-suc (suc n) [] = refl
  take-take-suc (suc n) (x ∷ l) = ap (◌∷◌ x) (take-take-suc n l)

  pub push-take : (w : ℕ) (v : A) (l : List A) → push w v (take w l) ≡ take w (v ∷ l)
  push-take zero v l = refl
  push-take (suc n) v l = ap (◌∷◌ v) (take-take-suc n l)

pub mod_once : (x w : ℕ) → x < w + w → x % w ≡ (if ltb x w then x else x - w)
mod_once x w h = elim (dec_lt x w) [
  | yes p ↦ ground (arith, mod-eq_of_lt p)
  | no p ↦ ground (
    arith,
    mod-eq-sub-mod {n = x} {m = w} (omega arith),
    mod-eq_of_lt {n = x - w} {m = w} (omega arith),
  )
]

pub index_of_newest : (w p : ℕ) → p < w → index_of w (if leb w (p + 1) then 0 else p + 1) 0 ≡ p
index_of_newest w p h = ground (arith, mod_once (p + 1 + w - 1) w, mod_once (0 + w - 1) w)

pub index_of_older :
    (w p i : ℕ)
    → p < w
    → suc i < w
    → index_of w (if leb w (p + 1) then 0 else p + 1) (suc i) ≡ index_of w p i
index_of_older w p i h k = ground (
  arith,
  mod_once (p + 1 + w - suc (suc i)) w,
  mod_once (0 + w - suc (suc i)) w,
  mod_once (p + w - suc i) w,
)

pub index_of_ne : (w p i : ℕ) → p < w → suc i < w → p ≢ index_of w p i
index_of_ne w p i h k = ground (arith, mod_once (p + w - suc i) w)

pub index_of_oldest : (w p : ℕ) → p < w → index_of w p (w - 1) ≡ p
index_of_oldest w p h = ground (arith, mod_once (p + w - suc (w - 1)) w)
