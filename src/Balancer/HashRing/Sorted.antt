-- ===== src/Balancer/HashRing/Sorted.antt =====
-- The ring stays in the order of its hashes.
use mathlib.Core.List.{Memᴰ}
use text.Mathlib.Text.{◌==◌}
use jotify.Prelude.{ℕ, ◌≤◌, ◌⊎◌, inl, inr, Bool, true, false, not, String, [], ◌∷◌, if◌then◌else◌}
use jotify.Balancer.HashRing.{Ring, without, append}

-- The hash is at most those of the ring.
abbrev pub IsBelow : ℕ → Ring → Type 0
IsBelow k ring = (x : ℕ × String) → Memᴰ x ring → k ≤ x.0

-- A ring in the order of its hashes.
pub data IsSorted : Ring → Type 0 where
  nil : IsSorted []
  cons :
      (node : ℕ × String) {ring : Ring}
      → IsBelow node.0 ring
      → IsSorted ring
      → IsSorted (node ∷ ring)

-- What sort.Slice by the hashes promises: the ring in the order of its hashes, with its nodes.
pub record Sorts (sort : Ring → Ring) : Type 0 where
  pub in_order : (ring : Ring) → IsSorted (sort ring)
  pub keeps : (ring : Ring) (x : ℕ × String) → Memᴰ x ring → Memᴰ x (sort ring)
  pub adds_none : (ring : Ring) (x : ℕ × String) → Memᴰ x (sort ring) → Memᴰ x ring

pub mem-append : (a : Ring) (b : Ring) (x : ℕ × String) → Memᴰ x (append a b) → Memᴰ x a ⊎ Memᴰ x b
mem-append [] b x m = inr m
mem-append (y ∷ a) b x (Memᴰ.head e) = inl (Memᴰ.head e)
mem-append (y ∷ a) b x (Memᴰ.tail m) = elim (mem-append a b x m) [
  | inl p ↦ inl (Memᴰ.tail p)
  | inr p ↦ inr p
]

pub mem-append_left : (a b : Ring) (x : ℕ × String) → Memᴰ x a → Memᴰ x (append a b)
mem-append_left [] b x m = elim m [ ]
mem-append_left (y ∷ a) b x (Memᴰ.head e) = Memᴰ.head e
mem-append_left (y ∷ a) b x (Memᴰ.tail m) = Memᴰ.tail (mem-append_left a b x m)

mem-without :
    (addr : String) (ring : Ring) (x : ℕ × String) → Memᴰ x (without addr ring) → Memᴰ x ring
unfolding without
mem-without addr [] x m = m
mem-without addr ((h, a) ∷ ring) x m =
    branch (not (a == addr)) (λ (p : Memᴰ x (without addr ring)). mem-without addr ring x p) m
  where
    branch :
        (b : Bool)
        → (Memᴰ x (without addr ring) → Memᴰ x ring)
        → Memᴰ x (if b then (h, a) ∷ without addr ring else without addr ring)
        → Memᴰ x ((h, a) ∷ ring)
    branch true rest (Memᴰ.head e) = Memᴰ.head e
    branch true rest (Memᴰ.tail p) = Memᴰ.tail (rest p)
    branch false rest p = Memᴰ.tail (rest p)

pub without-IsSorted : (addr : String) (ring : Ring) → IsSorted ring → IsSorted (without addr ring)
unfolding without
without-IsSorted addr [] s = s
without-IsSorted addr ((h, a) ∷ ring) (IsSorted.cons _ below s) =
    branch (not (a == addr)) (without-IsSorted addr ring s)
  where
    branch :
        (b : Bool)
        → IsSorted (without addr ring)
        → IsSorted (if b then (h, a) ∷ without addr ring else without addr ring)
    branch true r = IsSorted.cons (h, a) (λ x m. below x (mem-without addr ring x m)) r
    branch false r = r
