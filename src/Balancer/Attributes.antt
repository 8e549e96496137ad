-- ===== src/Balancer/Attributes.antt =====
-- The attributes of an address, which a resolver sets and the balancers of internal/pkg/client read
-- by type assertions; grpc's attributes.Attributes is a parameter.
use text.Mathlib.Text.{◌==◌}
use jotify.Prelude.{ℕ, ◌≡◌, String, List, [], ◌∷◌, Option, none, some, if◌then◌else◌}
use jotify.Prelude.Options.{◌>>=◌}
use jotify.Prelude.Int.{ℤ}
use jotify.Balancer.RwWeight.{Ready}

abbrev pub attr_weight : String
attr_weight = "attr_weight"

abbrev pub attr_read_weight : String
attr_read_weight = "attr_read_weight"

abbrev pub attr_write_weight : String
attr_write_weight = "attr_write_weight"

abbrev pub attr_group : String
attr_group = "attr_group"

abbrev pub attr_node : String
attr_node = "attr_node"

-- A value of the type any, by its dynamic type.
pub data Any : Type 0 where
  int : ℤ → Any
  uint32 : ℕ → Any
  str : String → Any

-- Value answers nil, here `none`, for a key that was not set.
pub record Attributes : Type 1 where
  pub Set : Type 0
  pub new : String → Any → Set
  pub with_value : String → Any → Set → Set
  pub value : String → Set → Option Any

pub record IsAttributes (a : Attributes) : Type 0 where
  pub value-new :
      (k j : String) (v : Any) → a.value k (a.new j v) ≡ (if j == k then some v else none)
  pub value-with_value :
      (k j : String) (v : Any) (s : a.Set)
      → a.value k (a.with_value j v s) ≡ (if j == k then some v else a.value k s)

-- The type assertions `.(uint32)` and `.(string)`.
unfoldable pub as_uint32 : Option Any → Option ℕ
as_uint32 (some (uint32 n)) = some n
as_uint32 _ = none

unfoldable pub as_string : Option Any → Option String
as_string (some (str t)) = some t
as_string _ = none

-- `weight, _ := v.(uint32)`
unfoldable pub weight_or_zero : Option Any → ℕ
weight_or_zero (some (uint32 n)) = n
weight_or_zero _ = 0

module _ (a : Attributes) where
  -- The weight that the weighted builders read.
  unfoldable pub weight_of : a.Set → ℕ
  unfolding weight_or_zero
  weight_of s = weight_or_zero (a.value attr_weight s)

  -- What the loop of RwWeightBalancerBuilder.Build reads of a connection; `none` is a `continue`.
  unfoldable pub ready_of : ℕ → a.Set → Option Ready
  unfolding as_uint32 as_string
  ready_of conn s = do
    read_weight ← as_uint32 (a.value attr_read_weight s)
    write_weight ← as_uint32 (a.value attr_write_weight s)
    group ← as_string (a.value attr_group s)
    node ← as_string (a.value attr_node s)
    some (record {
      cc = conn;
      read_weight = read_weight;
      write_weight = write_weight;
      group = group;
      node = node;
    })

  unfoldable pub all_ready : List (ℕ × a.Set) → List Ready
  unfolding ready_of
  all_ready [] = []
  all_ready ((conn, s) ∷ conns) = elim (ready_of conn s) [
    | none ↦ all_ready conns
    | some r ↦ r ∷ all_ready conns
  ]
