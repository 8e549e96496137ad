-- ===== src/Balancer/RwWeight.antt =====
-- internal/pkg/client/balancer/rw_weight_balancer.go: the weighted choice among the nodes of a
-- group, by one weight for reads and one for writes. The weights are uint32 values and a connection
-- is a number. The nodes of a balancer are pointers, positions in a list of all nodes: one pointer
-- may stand there for several connections.
use text.Mathlib.Text.{◌==◌}
use jotify.Prelude.{
  ℕ, ◌-◌, ◌*◌, ◌%◌, ◌^◌, max, Bool, true, false, ◌&&◌, not, ltb, ◌==◌ as nat_eq, String, List, [],
  ◌∷◌, Option, none, some, if◌then◌else◌, get_elem?, set,
}
use jotify.Prelude.Words.{add_u32, sub_u32}
use jotify.Balancer.{CallEnd, well, deadline_or_eof, unavailable, other_error}

-- One of the two triples of weights of a node.
pub record Weights : Type 0 where
  pub weight : ℕ
  pub current_weight : ℕ
  pub efficient_weight : ℕ

pub record RwWeightServiceNode : Type 0 where
  pub cc : ℕ
  pub read : Weights
  pub write : Weights
  pub group : String

abbrev pub new_weights : ℕ → Weights
new_weights weight = record { weight = weight; current_weight = weight; efficient_weight = weight }

unfoldable pub new_rw_weight_service_node : ℕ → ℕ → ℕ → String → RwWeightServiceNode
new_rw_weight_service_node cc read_weight write_weight group = record {
  cc = cc;
  read = new_weights read_weight;
  write = new_weights write_weight;
  group = group;
}

-- A ready connection whose attributes are all there.
pub record Ready : Type 0 where
  pub cc : ℕ
  pub read_weight : ℕ
  pub write_weight : ℕ
  pub group : String
  pub node : String

abbrev pub NodeCache : Type 0
NodeCache = List (String × RwWeightServiceNode)

unfoldable pub cached : String → NodeCache → Option RwWeightServiceNode
cached k [] = none
cached k ((j, n) ∷ m) = let rest = cached k m in if j == k then some n else rest

unfoldable pub cache : String → RwWeightServiceNode → NodeCache → NodeCache
cache k n [] = (k, n) ∷ []
cache k n ((j, o) ∷ m) = let rest = cache k n m in if j == k then (k, n) ∷ m else (j, o) ∷ rest

-- The node for a ready connection: a cached one keeps its weights and its connection and gets the
-- group, unless its weights have changed.
unfoldable pub node_for : Ready → Option RwWeightServiceNode → RwWeightServiceNode
unfolding new_rw_weight_service_node
node_for r none = new_rw_weight_service_node r.cc r.read_weight r.write_weight r.group
node_for r (some n) =
    if not (nat_eq n.read.weight r.read_weight && nat_eq n.write.weight r.write_weight)
    then new_rw_weight_service_node r.cc r.read_weight r.write_weight r.group
    else record n { group = r.group }

-- The loop of Build. The balancer's nodes are the cached ones, so they are given by their names.
unfoldable pub build_cache : List Ready → NodeCache → NodeCache
unfolding cached cache node_for
build_cache [] m = m
build_cache (r ∷ ready) m = build_cache ready (cache r.node (node_for r (cached r.node m)) m)

unfoldable pub is_ready : String → List Ready → Bool
is_ready k [] = false
is_ready k (r ∷ ready) = let rest = is_ready k ready in if r.node == k then true else rest

-- The nodes that are gone leave the cache.
unfoldable pub purge : List Ready → NodeCache → NodeCache
unfolding is_ready
purge ready [] = []
purge ready ((k, n) ∷ m) =
    let rest = purge ready m in if is_ready k ready then (k, n) ∷ rest else rest

-- The cache after Build.
unfoldable pub build : List Ready → NodeCache → NodeCache
unfolding build_cache purge
build ready m = purge ready (build_cache ready m)

-- The weights that a request uses: the branches of the source for reads and for writes are alike.
abbrev pub weights_of : Bool → RwWeightServiceNode → Weights
weights_of true n = n.write
weights_of false n = n.read

abbrev pub with_weights : Bool → (Weights → Weights) → RwWeightServiceNode → RwWeightServiceNode
with_weights true change n = record n { write = change n.write }
with_weights false change n = record n { read = change n.read }

abbrev pub raised : Weights → Weights
raised w = record w { current_weight = add_u32 w.current_weight w.efficient_weight }

abbrev pub lowered : ℕ → Weights → Weights
lowered total w = record w { current_weight = sub_u32 w.current_weight total }

-- slice.FilterMap by the group of the context.
unfoldable pub candidates : String → List RwWeightServiceNode → List ℕ → List ℕ
candidates group heap [] = []
candidates group heap (i ∷ is) =
    let rest = candidates group heap is in
    elim (get_elem? heap i) [ none ↦ rest | some n ↦ if group == n.group then i ∷ rest else rest ]

-- A change of the node that a pointer stands for.
abbrev pub at_pointer :
    ℕ
    → (RwWeightServiceNode → RwWeightServiceNode)
    → List RwWeightServiceNode
    → List RwWeightServiceNode
at_pointer i change heap = elim (get_elem? heap i) [ none ↦ heap | some n ↦ set heap i (change n) ]

abbrev pub weights_at : Bool → List RwWeightServiceNode → ℕ → Option Weights
weights_at is_write heap i = elim (get_elem? heap i) [
  | none ↦ none
  | some n ↦ some (weights_of is_write n)
]

abbrev pub current_at : Bool → List RwWeightServiceNode → ℕ → ℕ
current_at is_write heap i = elim (weights_at is_write heap i) [
  | none ↦ 0
  | some w ↦ w.current_weight
]

abbrev pub efficient_at : Bool → List RwWeightServiceNode → ℕ → ℕ
efficient_at is_write heap i = elim (weights_at is_write heap i) [
  | none ↦ 0
  | some w ↦ w.efficient_weight
]

-- The selected node, of which the current weight is read when it is compared.
abbrev pub better : Bool → List RwWeightServiceNode → ℕ → Option ℕ → Option ℕ
better is_write heap i none = some i
better is_write heap i (some j) =
    if ltb (current_at is_write heap j) (current_at is_write heap i) then some i else some j

-- The loop over the candidates, with the total weight, the selected node and the nodes.
unfoldable pub weigh :
    Bool
    → List ℕ
    → ℕ
    → Option ℕ
    → List RwWeightServiceNode
    → ℕ × Option ℕ × List RwWeightServiceNode
weigh is_write [] total selected heap = (total, selected, heap)
weigh is_write (i ∷ is) total selected heap =
    let raised_heap = at_pointer i (with_weights is_write raised) heap in
    weigh is_write is (add_u32 total (efficient_at is_write heap i))
      (better is_write raised_heap i selected) raised_heap

-- The end of Pick for the selected node.
abbrev pub picked :
    Bool → ℕ × Option ℕ × List RwWeightServiceNode → Option (ℕ × List RwWeightServiceNode)
picked is_write (total, none, heap) = none
picked is_write (total, some i, heap) =
    some (i, at_pointer i (with_weights is_write (lowered total)) heap)

-- Pick, for a request with the group: the pointer of the chosen node and the nodes as it leaves
-- them; `none` is ErrNoSubConnAvailable. A context without a group has no candidates.
unfoldable pub pick :
    Bool → String → List ℕ → List RwWeightServiceNode → Option (ℕ × List RwWeightServiceNode)
unfolding candidates weigh
pick is_write group is heap =
    picked is_write (weigh is_write (candidates group heap is) 0 none heap)

-- Done, for the weights of the request. After a success the current weight is set, not the
-- efficient one.
unfoldable pub done_weights : CallEnd → Weights → Weights
done_weights well w =
    let efficient = add_u32 w.efficient_weight 1 in
    record w {
      efficient_weight = efficient;
      current_weight = max efficient (w.weight * 2 % 2 ^ 32);
    }
done_weights deadline_or_eof w =
    if ltb 1 w.efficient_weight then record w { efficient_weight = w.efficient_weight - 1 } else w
done_weights unavailable w = w
done_weights other_error w = w

unfoldable pub done : Bool → CallEnd → RwWeightServiceNode → RwWeightServiceNode
unfolding done_weights
done is_write end = with_weights is_write (done_weights end)
