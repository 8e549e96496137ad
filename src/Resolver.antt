-- ===== src/Resolver.antt =====
-- internal/pkg/client/resolver/grpc_resolver.go: the addresses of a service, from the registry to
-- grpc. The connection of grpc is a parameter; what ListService answers is an argument.
pub mod Types
mod Tests
use jotify.Prelude.{String, List, [], ◌∷◌, map}
use jotify.Errs.{Result, ok, err, Error}
use jotify.Registry.{ServiceInstance}
use jotify.Balancer.Attributes.{
  Attributes, int, str, attr_read_weight, attr_write_weight, attr_group, attr_node,
}

module _ (a : Attributes) where
  -- resolver.Address
  pub record Address : Type 0 where
    pub addr : String
    pub server_name : String
    pub attributes : a.Set

  -- resolver.ClientConn
  pub record ClientConn : Type 1 where
    pub State : Type 0
    pub update_state : List Address → State → Result (Unit {0}) × State
    pub report_error : Error → State → State

  -- The attributes carry the weights with the type int of ServiceInstance.
  unfoldable pub attributes_of : ServiceInstance → a.Set
  attributes_of si = a.with_value attr_node (str si.name) (
      a.with_value attr_group (str si.group) (
        a.with_value attr_write_weight (int si.write_weight)
          (a.new attr_read_weight (int si.read_weight))))

  unfoldable pub address_of : ServiceInstance → Address
  unfolding attributes_of
  address_of si = record { addr = si.addr; server_name = si.name; attributes = attributes_of si }

-- What the select of watch receives: an event of the registry, with what ListService answers then,
-- or the end of the resolver.
pub data Received : Type 0 where
  event : Result (List ServiceInstance) → Received
  closed : Received

module _ (a : Attributes) (conn : ClientConn a) where
  abbrev updated : Result (Unit {0}) × conn.State → conn.State
  updated (ok _, s) = s
  updated (err e, s) = conn.report_error e s

  unfoldable pub resolve : Result (List ServiceInstance) → conn.State → conn.State
  unfolding address_of
  resolve (err e) s = conn.report_error e s
  resolve (ok instances) s = updated (conn.update_state (map (address_of a) instances) s)

  unfoldable pub watch : List Received → conn.State → conn.State
  unfolding resolve
  watch [] s = s
  watch (event listing ∷ rs) s = watch rs (resolve listing s)
  watch (closed ∷ rs) s = s

  -- Build, whose goroutine runs watch.
  unfoldable pub build : Result (List ServiceInstance) → List Received → conn.State → conn.State
  unfolding watch
  build listing rs s = watch rs (resolve listing s)
