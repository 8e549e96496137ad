-- ===== src/Balancer/Tests.antt =====
-- The balancers at two or three nodes.
use mathlib.Core.List.{Memᴰ}
use mathlib.Core.Option.{map as map_option}
use text.Mathlib.Text.{◌==◌}
use text.Mathlib.TextEquality.{eq_iff}
use jotify.Prelude.{
  true, some, refl, sym, ◌∙◌, ℕ, ◌^◌, ◌≤◌, ◌<◌, ◌≡◌, ap, arith, String, List, [], ◌∷◌,
  if◌then◌else◌,
}
use jotify.Balancer.WeightRandom as WeightRandom
use jotify.Balancer.WeightRandom.{Lands, weights, pick-Lands}
use jotify.Balancer.RwWeight as RwWeight
use jotify.Balancer.RwWeight.{RwWeightServiceNode, new_weights}
use jotify.Balancer.HashRing.Insertion.{insertion_sort, insertion_sort-Sorts}
use jotify.Balancer.HashRing.{ChBalancer, search, get_node_addr, add_node, remove_node}
use jotify.Balancer.HashRing.Sorted.{IsSorted}
use jotify.Balancer.HashRing.Moves.{Moves, HasOwnHashes, add_node-Moves, remove_node-get_node_addr}
use jotify.Balancer.{Node}

abbrev before : List Node
before =
    record { cc = 1; weight = 3; current_weight = 3; efficient_weight = 3 }
    ∷ record { cc = 2; weight = 1; current_weight = 1; efficient_weight = 1 }
    ∷ []

abbrev after : List Node
after =
    record { cc = 1; weight = 3; current_weight = 2; efficient_weight = 3 }
    ∷ record { cc = 2; weight = 1; current_weight = 2; efficient_weight = 1 }
    ∷ []

abbrev heavy : WeightRandom.Node
heavy = record { cc = 1; weight = 3 }

pick-Lands_example :
    Lands 0 2 (heavy ∷ heavy ∷ []) (WeightRandom.pick 2 (WeightRandom.build (heavy ∷ heavy ∷ [])))
    × (weights (heavy ∷ heavy ∷ []) < 2 ^ 32
        → WeightRandom.pick
            ((WeightRandom.build (heavy ∷ heavy ∷ [])).total_weight)
            (WeightRandom.build (heavy ∷ heavy ∷ []))
          ≡ WeightRandom.unreachable)
pick-Lands_example = pick-Lands 2 heavy (heavy ∷ [])

abbrev two_nodes : List RwWeightServiceNode
two_nodes =
    record { cc = 1; read = new_weights 3; write = new_weights 1; group = "core" }
    ∷ record { cc = 2; read = new_weights 1; write = new_weights 2; group = "core" }
    ∷ []

-- The second node stands for two connections: it is raised twice and chosen.
shared_is_chosen :
    map_option
      (λ (x : ℕ × List RwWeightServiceNode). x.0)
      (RwWeight.pick true "core" (0 ∷ 1 ∷ 1 ∷ []) two_nodes)
    ≡ some 1
unfolding RwWeight.pick
shared_is_chosen = refl

-- A hash with three values.
abbrev size_hash : String → ℕ
size_hash s = if s == "a#0" then 10 else if s == "b#0" then 20 else 30

abbrev ring_ab : ChBalancer
ring_ab = record {
  ccs = ("a", 1) ∷ ("b", 2) ∷ [];
  ring = (10, "a") ∷ (20, "b") ∷ [];
  virtual_node_cnt = 1;
}

remove_node-get_node_addr_example :
    get_node_addr 5 (remove_node "b" ring_ab).ring ≡ get_node_addr 5 ring_ab.ring
unfolding get_node_addr search
remove_node-get_node_addr_example =
    remove_node-get_node_addr 5 "b" ring_ab (λ e. ground (arith, (eq_iff "a" "b").1 e))

ring_ab-IsSorted : IsSorted ring_ab.ring
ring_ab-IsSorted =
    IsSorted.cons (10, "a") above_a (IsSorted.cons (20, "b") (λ x m. elim m [ ]) IsSorted.nil)
  where
    above_a : (x : ℕ × String) → Memᴰ x ((20, "b") ∷ []) → 10 ≤ x.0
    above_a x (Memᴰ.head e) = omega (arith, ap (λ (y : ℕ × String). y.0) e)
    above_a x (Memᴰ.tail m) = elim m [ ]

ring_ab-HasOwnHashes : HasOwnHashes ring_ab.ring
ring_ab-HasOwnHashes x y (Memᴰ.head e) (Memᴰ.head f) h =
    ap (λ (z : ℕ × String). z.1) e ∙ sym (ap (λ (z : ℕ × String). z.1) f)
ring_ab-HasOwnHashes x y (Memᴰ.head e) (Memᴰ.tail (Memᴰ.head f)) h =
    absurd (omega (arith, h, ap (λ (z : ℕ × String). z.0) e, ap (λ (z : ℕ × String). z.0) f))
ring_ab-HasOwnHashes x y (Memᴰ.tail (Memᴰ.head e)) (Memᴰ.head f) h =
    absurd (omega (arith, h, ap (λ (z : ℕ × String). z.0) e, ap (λ (z : ℕ × String). z.0) f))
ring_ab-HasOwnHashes x y (Memᴰ.tail (Memᴰ.head e)) (Memᴰ.tail (Memᴰ.head f)) h =
    ap (λ (z : ℕ × String). z.1) e ∙ sym (ap (λ (z : ℕ × String). z.1) f)
ring_ab-HasOwnHashes x y (Memᴰ.head e) (Memᴰ.tail (Memᴰ.tail m)) h = elim m [ ]
ring_ab-HasOwnHashes x y (Memᴰ.tail (Memᴰ.head e)) (Memᴰ.tail (Memᴰ.tail m)) h = elim m [ ]
ring_ab-HasOwnHashes x y (Memᴰ.tail (Memᴰ.tail m)) n h = elim m [ ]

add_node-Moves_example :
    Moves "c"
      (get_node_addr 25 ring_ab.ring)
      (get_node_addr 25 (add_node size_hash insertion_sort 3 "c" ring_ab).ring)
add_node-Moves_example =
    add_node-Moves size_hash insertion_sort insertion_sort-Sorts 3 25 "c" ring_ab ring_ab-IsSorted
      ring_ab-HasOwnHashes
