-- ===== src/Balancer.antt =====
-- internal/pkg/client/balancer/weight_balancer.go and dynamic_weight_balancer.go: the smooth
-- weighted choice of a connection, with weights that are uint32 values. A node of the list has its
-- connection as a number; the order of the nodes is that of the ready connections.
pub mod Sum
pub mod RoundRobin
pub mod RwWeight
pub mod Attributes
pub mod Random
pub mod HashRing
pub mod WeightRandom
mod Tests
use jotify.Prelude.{
  ℕ, ◌+◌, ◌-◌, ◌*◌, ◌%◌, ◌^◌, Bool, true, false, if◌then◌else◌, ltb, List, [], ◌∷◌, map, Option,
  none, some, zero, suc,
}
use jotify.Prelude.Words.{add_u32, sub_u32}
use jotify.Prelude.{max}

pub record Node : Type 0 where
  pub cc : ℕ
  pub weight : ℕ
  pub current_weight : ℕ
  pub efficient_weight : ℕ

-- The nodes that the builders make of a connection and its weight: the WeightBalancer leaves the
-- efficient weight at zero.
unfoldable pub new_weight_node : ℕ → ℕ → Node
new_weight_node cc weight = record {
  cc = cc;
  weight = weight;
  current_weight = weight;
  efficient_weight = 0;
}

unfoldable pub new_dynamic_node : ℕ → ℕ → Node
new_dynamic_node cc weight = record {
  cc = cc;
  weight = weight;
  current_weight = weight;
  efficient_weight = weight;
}

-- What the loop of Pick does to a node, and the sum that it computes.
abbrev pub raise : Node → Node
raise n = record n { current_weight = add_u32 n.current_weight n.efficient_weight }

unfoldable pub total_weight : ℕ → List Node → ℕ
total_weight total [] = total
total_weight total (n ∷ ns) = total_weight (add_u32 total n.efficient_weight) ns

-- The index and the current weight of the selected node; `i` is the index of the next one.
unfoldable pub select : ℕ → Option (ℕ × ℕ) → List Node → Option (ℕ × ℕ)
select i selected [] = selected
select i none (n ∷ ns) = select (i + 1) (some (i, n.current_weight)) ns
select i (some (j, best)) (n ∷ ns) =
    select (i + 1)
      (if ltb best n.current_weight then some (i, n.current_weight) else some (j, best)) ns

unfoldable pub at_node : ℕ → (Node → Node) → List Node → List Node
at_node i change [] = []
at_node zero change (n ∷ ns) = change n ∷ ns
at_node (suc i) change (n ∷ ns) = n ∷ at_node i change ns

abbrev pub lower : ℕ → Node → Node
lower total n = record n { current_weight = sub_u32 n.current_weight total }

-- The end of Pick, for the selected node.
unfoldable pub picked : ℕ → List Node → Option (ℕ × ℕ) → Option (ℕ × List Node)
unfolding at_node
picked total raised none = none
picked total raised (some (i, best)) = some (i, at_node i (lower total) raised)

-- Pick: the index of the chosen node and the nodes that it leaves; `none` is
-- ErrNoSubConnAvailable.
unfoldable pub pick : List Node → Option (ℕ × List Node)
unfolding total_weight select picked
pick ns = picked (total_weight 0 ns) (map raise ns) (select 0 none (map raise ns))

-- How a call ended: well, with a deadline or the end of the stream, as unavailable, or with
-- another error.
pub data CallEnd : Type 0 where
  well : CallEnd
  deadline_or_eof : CallEnd
  unavailable : CallEnd
  other_error : CallEnd

abbrev decreased : Node → Node
decreased n =
    if ltb 1 n.efficient_weight then record n { efficient_weight = n.efficient_weight - 1 } else n

abbrev succeeded : Node → Node
succeeded n = record n {
  efficient_weight = max (add_u32 n.efficient_weight 1) (n.weight * 2 % 2 ^ 32);
}

-- Done of the two balancers.
unfoldable pub weight_done : CallEnd → Node → Node
weight_done well n = succeeded n
weight_done deadline_or_eof n = decreased n
weight_done unavailable n = n
weight_done other_error n = n

unfoldable pub dynamic_done : CallEnd → Node → Node
dynamic_done well n = succeeded n
dynamic_done deadline_or_eof n = record n { efficient_weight = 1 }
dynamic_done unavailable n = record n { efficient_weight = 1 }
dynamic_done other_error n = decreased n
