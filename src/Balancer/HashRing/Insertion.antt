-- ===== src/Balancer/HashRing/Insertion.antt =====
-- A sort by insertion, which does what the ring relies on.
use mathlib.Core.List.{Memᴰ}
use jotify.Prelude.{
  ℕ, ◌≤◌, ◌≡◌, ◌⊎◌, inl, inr, refl, ap, arith, Bool, true, false, ltb, String, [], ◌∷◌,
  if◌then◌else◌,
}
use jotify.Balancer.HashRing.{Ring}
use jotify.Balancer.HashRing.Sorted.{IsBelow, IsSorted, Sorts}

insert : ℕ × String → Ring → Ring
insert node [] = node ∷ []
insert node (other ∷ ring) =
    let rest = insert node ring in if ltb node.0 other.0 then node ∷ other ∷ ring else other ∷ rest

unfoldable pub insertion_sort : Ring → Ring
unfolding insert
insertion_sort [] = []
insertion_sort (node ∷ ring) = insert node (insertion_sort ring)

mem-insert :
    (node x : ℕ × String) (ring : Ring) → Memᴰ x (insert node ring) → (x ≡ node) ⊎ Memᴰ x ring
unfolding insert
mem-insert node x [] (Memᴰ.head e) = inl e
mem-insert node x [] (Memᴰ.tail m) = inr m
mem-insert node x (other ∷ ring) m =
    branch (ltb node.0 other.0) (λ (p : Memᴰ x (insert node ring)). mem-insert node x ring p) m
  where
    branch :
        (b : Bool)
        → (Memᴰ x (insert node ring) → (x ≡ node) ⊎ Memᴰ x ring)
        → Memᴰ x (if b then node ∷ other ∷ ring else other ∷ insert node ring)
        → (x ≡ node) ⊎ Memᴰ x (other ∷ ring)
    branch true rest (Memᴰ.head e) = inl e
    branch true rest (Memᴰ.tail p) = inr p
    branch false rest (Memᴰ.head e) = inr (Memᴰ.head e)
    branch false rest (Memᴰ.tail p) = elim (rest p) [ inl e ↦ inl e | inr q ↦ inr (Memᴰ.tail q) ]

IsBelow-insert :
    (k : ℕ) (node : ℕ × String) (ring : Ring)
    → k ≤ node.0
    → IsBelow k ring
    → IsBelow k (insert node ring)
IsBelow-insert k node ring lower below x m = elim (mem-insert node x ring m) [
  | inl e ↦ omega (arith, ap (λ (y : ℕ × String). y.0) e)
  | inr p ↦ below x p
]

IsBelow-head :
    (k : ℕ) (node : ℕ × String) (ring : Ring)
    → k ≤ node.0
    → IsBelow node.0 ring
    → IsBelow k (node ∷ ring)
IsBelow-head k node ring lower below x (Memᴰ.head e) = omega (arith, ap (λ (y : ℕ × String). y.0) e)
IsBelow-head k node ring lower below x (Memᴰ.tail m) = omega (arith, below x m)

insert-IsSorted : (node : ℕ × String) (ring : Ring) → IsSorted ring → IsSorted (insert node ring)
unfolding insert
insert-IsSorted node [] s = IsSorted.cons node (λ x m. elim m [ ]) s
insert-IsSorted node (other ∷ ring) (IsSorted.cons _ below s) =
    branch (ltb node.0 other.0) refl (insert-IsSorted node ring s)
  where
    branch :
        (b : Bool)
        → ltb node.0 other.0 ≡ b
        → IsSorted (insert node ring)
        → IsSorted (if b then node ∷ other ∷ ring else other ∷ insert node ring)
    branch true e h =
        IsSorted.cons node (IsBelow-head node.0 other ring (ground arith) below)
          (IsSorted.cons other below s)
    branch false e h = IsSorted.cons other (IsBelow-insert other.0 node ring (ground arith) below) h

keeps-insert :
    (node x : ℕ × String) (ring : Ring) → (x ≡ node) ⊎ Memᴰ x ring → Memᴰ x (insert node ring)
unfolding insert
keeps-insert node x [] (inl e) = Memᴰ.head e
keeps-insert node x [] (inr m) = Memᴰ.tail m
keeps-insert node x (other ∷ ring) h = branch (ltb node.0 other.0) h (keeps-insert node x ring)
  where
    branch :
        (b : Bool)
        → (x ≡ node) ⊎ Memᴰ x (other ∷ ring)
        → ((x ≡ node) ⊎ Memᴰ x ring → Memᴰ x (insert node ring))
        → Memᴰ x (if b then node ∷ other ∷ ring else other ∷ insert node ring)
    branch true (inl e) rest = Memᴰ.head e
    branch true (inr m) rest = Memᴰ.tail m
    branch false (inl e) rest = Memᴰ.tail (rest (inl e))
    branch false (inr (Memᴰ.head e)) rest = Memᴰ.head e
    branch false (inr (Memᴰ.tail m)) rest = Memᴰ.tail (rest (inr m))

insertion_sort-IsSorted : (ring : Ring) → IsSorted (insertion_sort ring)
unfolding insertion_sort
insertion_sort-IsSorted [] = IsSorted.nil
insertion_sort-IsSorted (node ∷ ring) =
    insert-IsSorted node (insertion_sort ring) (insertion_sort-IsSorted ring)

insertion_sort_keeps : (ring : Ring) (x : ℕ × String) → Memᴰ x ring → Memᴰ x (insertion_sort ring)
unfolding insertion_sort
insertion_sort_keeps [] x m = elim m [ ]
insertion_sort_keeps (node ∷ ring) x (Memᴰ.head e) = keeps-insert node x _ (inl e)
insertion_sort_keeps (node ∷ ring) x (Memᴰ.tail m) =
    keeps-insert node x _ (inr (insertion_sort_keeps ring x m))

insertion_sort_sound : (ring : Ring) (x : ℕ × String) → Memᴰ x (insertion_sort ring) → Memᴰ x ring
unfolding insertion_sort
insertion_sort_sound [] x m = m
insertion_sort_sound (node ∷ ring) x m = elim (mem-insert node x (insertion_sort ring) m) [
  | inl e ↦ Memᴰ.head e
  | inr p ↦ Memᴰ.tail (insertion_sort_sound ring x p)
]

pub insertion_sort-Sorts : Sorts insertion_sort
insertion_sort-Sorts = record {
  in_order = insertion_sort-IsSorted;
  keeps = insertion_sort_keeps;
  adds_none = insertion_sort_sound;
}
