-- ===== src/Resolver/Types.antt =====
-- What the balancers read of the attributes that the resolver sets.
use text.Mathlib.Text.{◌==◌}
use jotify.Prelude.{ℕ, ◌≡◌, refl, ap, ◌∙◌, String, List, [], ◌∷◌, map, none, some, if◌then◌else◌}
use jotify.Registry.{ServiceInstance}
use jotify.Balancer.RwWeight.{Ready, NodeCache, build, purge, build_cache}
use jotify.Balancer.Attributes.{
  Attributes, IsAttributes, int, str, attr_weight, attr_read_weight, attr_write_weight, attr_group,
  attr_node, as_uint32, weight_of, weight_or_zero, ready_of, all_ready,
}
use jotify.Resolver.{attributes_of}

module _ (a : Attributes) (laws : IsAttributes a) where
  -- The attributes, one under the other.
  value-attributes_of :
      (k : String) (si : ServiceInstance)
      → a.value k (attributes_of a si) ≡ (
          if attr_node == k
          then some (str si.name)
          else if attr_group == k
          then some (str si.group)
          else if attr_write_weight == k
          then some (int si.write_weight)
          else if attr_read_weight == k
          then some (int si.read_weight)
          else none)
  unfolding attributes_of
  value-attributes_of k si = simp (laws.value-with_value, laws.value-new)

  ready_of-attributes_of :
      (conn : ℕ) (si : ServiceInstance) → ready_of a conn (attributes_of a si) ≡ none
  unfolding ready_of as_uint32
  ready_of-attributes_of conn si = rw (value-attributes_of attr_read_weight si) refl

  weight_of-attributes_of : (si : ServiceInstance) → weight_of a (attributes_of a si) ≡ 0
  unfolding weight_of weight_or_zero
  weight_of-attributes_of si = rw (value-attributes_of attr_weight si) refl

  -- The connections to instances, with the attributes that the resolver gave their addresses.
  abbrev pub resolved : List (ℕ × ServiceInstance) → List (ℕ × a.Set)
  resolved = map (λ (c : ℕ × ServiceInstance). (c.0, attributes_of a c.1))

  all_ready-resolved : (conns : List (ℕ × ServiceInstance)) → all_ready a (resolved conns) ≡ []
  unfolding all_ready
  all_ready-resolved [] = refl
  all_ready-resolved ((conn, si) ∷ conns) =
      rw (ready_of-attributes_of conn si, all_ready) (all_ready-resolved conns)

  purge-none : (m : NodeCache) → purge [] m ≡ []
  unfolding purge
  purge-none [] = refl
  purge-none ((k, n) ∷ m) = purge-none m

  -- The weights that the resolver sets have the type int, and the balancers assert uint32: whatever
  -- the instances, the balancer with read and write weights takes none of their connections and
  -- empties its cache, and the balancers with one weight, whose attribute is never set, take the
  -- weight 0.
  pub build-resolved :
      (conns : List (ℕ × ServiceInstance)) (m : NodeCache)
      → (build (all_ready a (resolved conns)) m ≡ [])
        × ((si : ServiceInstance) → weight_of a (attributes_of a si) ≡ 0)
  unfolding build build_cache
  build-resolved conns m = (
    ap (λ (r : List Ready). build r m) (all_ready-resolved conns) ∙ purge-none m,
    weight_of-attributes_of,
  )
