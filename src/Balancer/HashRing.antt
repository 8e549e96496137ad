-- ===== src/Balancer/HashRing.antt =====
-- internal/pkg/client/balancer/consistent_hash_balancer.go: consistent hashing. The ring and the
-- nodes of the source, two slices of the same length, are one list of pairs; a connection is a
-- number. xxhash.Sum64String is the parameter `sum64`, and sort.Slice by the hashes the parameter
-- `sort`, which sortRing calls: it leaves the order of equal hashes open.
pub mod Sorted
pub mod Moves
pub mod Insertion
use Prim.Native.String.{◌++◌}
use text.Mathlib.Text.{◌==◌}
use jotify.Prelude.{
  ℕ, zero, suc, ◌+◌, Bool, true, false, not, leb, ltb, String, List, [], ◌∷◌, Option, none, some,
  if◌then◌else◌,
}
use jotify.Prelude.Words.{u32}
use jotify.Prelude.Text.{format_uint}
use jotify.Snowflake.{hash_key}

abbrev pub Ring : Type 0
Ring = List (ℕ × String)

pub record ChBalancer : Type 0 where
  pub ccs : List (String × ℕ)
  pub ring : Ring
  pub virtual_node_cnt : ℕ

-- ccs[addr] = cc
unfoldable pub put : String → ℕ → List (String × ℕ) → List (String × ℕ)
put addr cc [] = (addr, cc) ∷ []
put addr cc ((a, c) ∷ ccs) =
    let rest = put addr cc ccs in if a == addr then (addr, cc) ∷ ccs else (a, c) ∷ rest

unfoldable pub get : String → List (String × ℕ) → Option ℕ
get addr [] = none
get addr ((a, c) ∷ ccs) = let rest = get addr ccs in if a == addr then some c else rest

unfoldable pub drop_key : String → List (String × ℕ) → List (String × ℕ)
drop_key addr [] = []
drop_key addr ((a, c) ∷ ccs) =
    let rest = drop_key addr ccs in if a == addr then rest else (a, c) ∷ rest

-- The nodes of removeNode's loop.
unfoldable pub without : String → Ring → Ring
without addr [] = []
without addr ((h, a) ∷ ring) =
    let rest = without addr ring in if not (a == addr) then (h, a) ∷ rest else rest

unfoldable pub remove_node : String → ChBalancer → ChBalancer
unfolding drop_key without
remove_node addr p = record p { ccs = drop_key addr p.ccs; ring = without addr p.ring }

-- sort.Search on the sorted ring: the node at the first index whose hash is at least `hash`.
unfoldable pub search : ℕ → Ring → Option String
search hash [] = none
search hash ((h, a) ∷ ring) = let rest = search hash ring in if leb hash h then some a else rest

abbrev pub first_node : Ring → String
first_node [] = ""
first_node ((h, a) ∷ ring) = a

abbrev pub or_first : Ring → Option String → String
or_first ring none = first_node ring
or_first ring (some a) = a

unfoldable pub get_node_addr : ℕ → Ring → String
unfolding search
get_node_addr hash ring = or_first ring (search hash ring)

abbrev pub append : Ring → Ring → Ring
append [] ring = ring
append (node ∷ nodes) ring = node ∷ append nodes ring

module _ (sum64 : String → ℕ) where
  unfoldable pub hash : String → ℕ
  hash src = u32 (sum64 src)

  -- The virtual nodes of an address from the number `i` on.
  unfoldable pub virtual_nodes : String → ℕ → ℕ → Ring
  unfolding hash
  virtual_nodes addr i zero = []
  virtual_nodes addr i (suc cnt) =
      (hash (addr ++ "#" ++ format_uint i), addr) ∷ virtual_nodes addr (i + 1) cnt

module _ (sum64 : String → ℕ) (sort : Ring → Ring) where
  -- addNode, which sorts the ring again with the new virtual nodes behind it.
  unfoldable pub add_node : ℕ → String → ChBalancer → ChBalancer
  unfolding put virtual_nodes
  add_node cc addr p = record p {
    ccs = put addr cc p.ccs;
    ring = sort (append p.ring (virtual_nodes sum64 addr 0 p.virtual_node_cnt));
  }

  unfoldable pub add_nodes : List (ℕ × String) → ChBalancer → ChBalancer
  unfolding add_node
  add_nodes [] p = p
  add_nodes ((cc, addr) ∷ ready) p = add_nodes ready (add_node cc addr p)

  -- Build, where there is a connection and a positive number of virtual nodes; `none` is the
  -- picker that answers an error.
  unfoldable pub build : ℕ → List (ℕ × String) → Option ChBalancer
  unfolding add_nodes
  build zero ready = none
  build (suc cnt) [] = none
  build (suc cnt) (cc ∷ ready) =
      some (add_nodes (cc ∷ ready) (record { ccs = []; ring = []; virtual_node_cnt = suc cnt }))

module _ (sum64 : String → ℕ) where
  -- What Pick does with the address of the node: `none` is ErrNoSubConnAvailable.
  abbrev pub connected : String → List (String × ℕ) → Option ℕ
  unfolding get
  connected addr ccs = if addr == "" then none else get addr ccs

  -- Pick, for the business id and key of the context.
  unfoldable pub pick : ℕ → String → ChBalancer → Option ℕ
  unfolding hash hash_key get_node_addr connected
  pick biz_id biz_key p =
      let found = connected (get_node_addr (hash sum64 (hash_key biz_id biz_key)) p.ring) p.ccs in
      elim (p.ccs) [ [] ↦ none | _ ∷ _ ↦ found ]
