-- ===== src/Resolver/Tests.antt =====
-- The theorem on the resolver at attributes that are the list of what was set.
use text.Mathlib.Text.{◌==◌}
use jotify.Prelude.{◌≡◌, refl, String, List, [], ◌∷◌, Option, none, some, if◌then◌else◌}
use jotify.Prelude.Int.{pos}
use jotify.Registry.{ServiceInstance}
use jotify.Balancer.RwWeight.{build, new_rw_weight_service_node}
use jotify.Balancer.Attributes.{Attributes, IsAttributes, Any, weight_of, all_ready}
use jotify.Resolver.{attributes_of}
use jotify.Resolver.Types.{resolved, build-resolved}

abbrev value : String → List (String × Any) → Option Any
value k [] = none
value k ((j, v) ∷ s) = if j == k then some v else value k s

abbrev listed : Attributes
listed = record {
  Set = List (String × Any);
  new = λ k v. (k, v) ∷ [];
  with_value = λ k v s. (k, v) ∷ s;
  value = value;
}

listed-IsAttributes : IsAttributes listed
listed-IsAttributes = record { value-new = λ k j v. refl; value-with_value = λ k j v s. refl }

abbrev orders : ServiceInstance
orders = record {
  name = "orders";
  addr = "10.0.0.7:9000";
  group = "core";
  read_weight = pos 3;
  write_weight = pos 1;
}

build-resolved_example :
    (build
        (all_ready listed (resolved listed listed-IsAttributes ((1, orders) ∷ [])))
        (("orders", new_rw_weight_service_node 1 3 1 "core") ∷ [])
      ≡ [])
    × ((si : ServiceInstance) → weight_of listed (attributes_of listed si) ≡ 0)
build-resolved_example =
    build-resolved listed listed-IsAttributes ((1, orders) ∷ [])
      (("orders", new_rw_weight_service_node 1 3 1 "core") ∷ [])
