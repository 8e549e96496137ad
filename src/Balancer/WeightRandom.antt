-- ===== src/Balancer/WeightRandom.antt =====
-- internal/pkg/client/balancer/weight_random_balancer.go: a random choice by weights. What
-- rand.Intn answers is an argument.
use mathlib.Core.Path.{subst}
use jotify.Prelude.{
  zero, ℕ, suc, ◌+◌, ◌-◌, ◌^◌, ◌≤◌, ◌<◌, ◌≡◌, refl, arith, Bool, true, false, ltb, List, [], ◌∷◌,
  if◌then◌else◌, take, length,
}
use jotify.Prelude.Words.{add_u32}

pub record Node : Type 0 where
  pub cc : ℕ
  pub weight : ℕ

pub record WeightRandomBalancer : Type 0 where
  pub nodes : List Node
  pub total_weight : ℕ

unfoldable pub sum_weights : ℕ → List Node → ℕ
sum_weights total [] = total
sum_weights total (n ∷ ns) = sum_weights (add_u32 total n.weight) ns

unfoldable pub build : List Node → WeightRandomBalancer
unfolding sum_weights
build nodes = record { nodes = nodes; total_weight = sum_weights 0 nodes }

-- The index of the chosen node, an error where there is no node, or the panic at the end of Pick.
pub data Choice : Type 0 where
  chosen : ℕ → Choice
  unavailable : Choice
  unreachable : Choice

-- The loop from the node with the index `i` on: a target below the node's weight is below zero
-- once the weight is taken from it.
unfoldable pub choose : ℕ → ℕ → List Node → Choice
choose i target [] = unreachable
choose i target (n ∷ ns) =
    let rest = choose (i + 1) (target - n.weight) ns in
    if ltb target n.weight then chosen i else rest

unfoldable pub pick : ℕ → WeightRandomBalancer → Choice
unfolding choose
pick target p = available (p.nodes)
  where
    available : List Node → Choice
    available [] = unavailable
    available (n ∷ ns) = choose 0 target (n ∷ ns)

-- The sum of weights, without a bound.
unfoldable pub weights : List Node → ℕ
weights [] = 0
weights (n ∷ ns) = n.weight + weights ns

-- Where a target lands from the index `j` on: in the node before whose end and not before whose
-- start it lies, when the weights are laid end to end, or past the end of all.
pub data Lands (j target : ℕ) (ns : List Node) : Choice → Type 0 where
  lands :
      (i : ℕ)
      → i < length ns
      → weights (take i ns) ≤ target
      → target < weights (take (suc i) ns)
      → Lands j target ns (chosen (j + i))
  past_end : weights ns ≤ target → Lands j target ns unreachable

later :
    (j target : ℕ) (n : Node) (ns : List Node) (c : Choice)
    → n.weight ≤ target
    → Lands (j + 1) (target - n.weight) ns c
    → Lands j target (n ∷ ns) c
unfolding weights
later j target n ns _ above (Lands.lands i lt low high) =
    subst (λ (k : ℕ). Lands j target (n ∷ ns) (chosen k)) (omega arith)
      (Lands.lands (suc i) (omega arith) (omega arith) (omega arith))
later j target n ns _ above (Lands.past_end all) = Lands.past_end (omega arith)

choose-Lands : (j target : ℕ) (ns : List Node) → Lands j target ns (choose j target ns)
unfolding choose weights
choose-Lands j target [] = Lands.past_end (omega arith)
choose-Lands j target (n ∷ ns) =
    branch (ltb target n.weight) refl (choose-Lands (j + 1) (target - n.weight) ns)
  where
    branch :
        (b : Bool)
        → ltb target n.weight ≡ b
        → Lands (j + 1) (target - n.weight) ns (choose (j + 1) (target - n.weight) ns)
        → Lands j target (n ∷ ns) (if b then chosen j else choose (j + 1) (target - n.weight) ns)
    branch true e h =
        subst (λ (k : ℕ). Lands j target (n ∷ ns) (chosen k)) (omega arith)
          (Lands.lands 0 (omega arith) (omega arith) (ground arith))
    branch false e h = later j target n ns _ (ground arith) h

sum_weights_lem :
    (t : ℕ) (ns : List Node) → t + weights ns < 2 ^ 32 → sum_weights t ns ≡ t + weights ns
unfolding sum_weights weights
sum_weights_lem t [] h = omega arith
sum_weights_lem t (n ∷ ns) h = omega (arith, sum_weights_lem (add_u32 t n.weight) ns (omega arith))

weights-take : (i : ℕ) (ns : List Node) → weights (take i ns) ≤ weights ns
unfolding weights
weights-take zero ns = omega arith
weights-take (suc i) [] = omega arith
weights-take (suc i) (n ∷ ns) = omega (arith, weights-take i ns)

above_all :
    (target : ℕ) (ns : List Node) (c : Choice)
    → Lands 0 target ns c
    → weights ns ≤ target
    → c ≡ unreachable
above_all target ns _ (Lands.lands i lt low high) all =
    absurd (omega (arith, weights-take (suc i) ns))
above_all target ns _ (Lands.past_end all) h = refl

-- A target of rand.Intn chooses the node in whose stretch it lies when the weights are laid end to
-- end; the largest target that it can answer, the total weight, lies past the end, so Pick panics
-- on it where the weights do not overflow.
pub pick-Lands :
    (target : ℕ) (n : Node) (ns : List Node)
    → Lands 0 target (n ∷ ns) (pick target (build (n ∷ ns)))
      × (weights (n ∷ ns) < 2 ^ 32
          → pick ((build (n ∷ ns)).total_weight) (build (n ∷ ns)) ≡ unreachable)
unfolding pick build
pick-Lands target n ns = (
  choose-Lands 0 target (n ∷ ns),
  λ small.
      above_all (sum_weights 0 (n ∷ ns)) (n ∷ ns) _
        (choose-Lands 0 (sum_weights 0 (n ∷ ns)) (n ∷ ns))
        (omega (arith, sum_weights_lem 0 (n ∷ ns) (omega (arith, small)))),
)
