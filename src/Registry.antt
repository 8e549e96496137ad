-- ===== src/Registry.antt =====
-- internal/pkg/registry/types.go and internal/pkg/registry/etcd/etcd_registry.go: the instances of
-- the services, in etcd. The client of etcd and encoding/json are parameters; a context is a
-- number, and `watch_cancel` has those that Close cancels.
pub mod Entries
pub mod Listing
pub mod Watch
mod Tests
use Prim.Native.String.{◌++◌}
use text.Mathlib.Text.{starts_with}
use mathlib.Core.List
use jotify.Prelude.{ℕ, ◌≡◌, ◌≢◌, ◌↔◌, Bool, true, false, String, List, [], ◌∷◌, Option, none, some}
use jotify.Prelude.Int.{ℤ, pos, ltb_ℤ}
use jotify.Prelude.{not, if◌then◌else◌}
use jotify.Errs.{Result, ok, err, Error, other}
use mathlib.Core.List.{Memᴰ}

pub record ServiceInstance : Type 0 where
  pub name : String
  pub addr : String
  pub group : String
  pub read_weight : ℤ
  pub write_weight : ℤ

-- The calls of clientv3, whose puts carry the lease of the session, and of encoding/json. `value`
-- is what is stored at a key; the code does not call it.
pub record Etcd : Type 1 where
  pub Store : Type 0
  pub value : Store → String → Option String
  pub put : String → String → Store → Result (Unit {0}) × Store
  pub delete : String → Store → Result (Unit {0}) × Store
  pub get_with_prefix : String → Store → Result (List (String × String))

pub record Json : Type 0 where
  pub marshal : ServiceInstance → Result String
  pub unmarshal : String → Result ServiceInstance

unfoldable pub service_key : String → String
service_key service_name = "/notification/" ++ service_name

unfoldable pub instance_key : ServiceInstance → String
instance_key si = "/notification/" ++ si.name ++ "/" ++ si.addr

-- The loop of ListService over the entries of the answer.
unfoldable pub unmarshal_all : Json → List (String × String) → Result (List ServiceInstance)
unmarshal_all json [] = ok []
unmarshal_all json ((k, v) ∷ kvs) =
    let rest = unmarshal_all json kvs in
    elim (json.unmarshal v) [
      | err e ↦ err e
      | ok si ↦ elim rest [ err e ↦ err e | ok instances ↦ ok (si ∷ instances) ]
    ]

module _ (etcd : Etcd) (json : Json) where
  unfoldable pub register : ServiceInstance → etcd.Store → Result (Unit {0}) × etcd.Store
  unfolding instance_key
  register si s =
      let put = λ (val : String). etcd.put (instance_key si) val s in
      elim (json.marshal si) [ err e ↦ (err e, s) | ok val ↦ put val ]

  unfoldable pub unregister : ServiceInstance → etcd.Store → Result (Unit {0}) × etcd.Store
  unfolding instance_key
  unregister si s = etcd.delete (instance_key si) s

  unfoldable pub list_service : String → etcd.Store → Result (List ServiceInstance)
  unfolding service_key unmarshal_all
  list_service service_name s = elim (etcd.get_with_prefix (service_key service_name) s) [
    | err e ↦ err e
    | ok kvs ↦ unmarshal_all json kvs
  ]

-- The Registry's own state; `cancelled` has the contexts that were cancelled, and `session_open`
-- tells whether its session is.
pub record Registry : Type 0 where
  pub watch_cancel : List ℕ
  pub cancelled : List ℕ
  pub session_open : Bool

-- What Subscribe does before it starts its goroutine, with the new context `ctx`.
unfoldable pub subscribe : ℕ → Registry → Registry
subscribe ctx r = record r { watch_cancel = List.◌++◌ r.watch_cancel (ctx ∷ []) }

unfoldable pub cancel_all : List ℕ → List ℕ → List ℕ
cancel_all [] cancelled = cancelled
cancel_all (ctx ∷ ctxs) cancelled = cancel_all ctxs (ctx ∷ cancelled)

-- Close; the answer of the session's Close is that of the session.
unfoldable pub close : Registry → Registry
unfolding cancel_all
close r = record r { cancelled = cancel_all r.watch_cancel r.cancelled; session_open = false }

pub record RegistryBuilder : Type 0 where
  pub lease_ttl : ℤ

unfoldable pub new_registry_builder : RegistryBuilder
new_registry_builder = record { lease_ttl = pos 30 }

unfoldable pub lease_ttl : ℤ → RegistryBuilder → RegistryBuilder
lease_ttl ttl rb = record rb { lease_ttl = ttl }

-- Build, with the answer of concurrency.NewSession for a time to live.
unfoldable pub build : (ℤ → Result (Unit {0})) → RegistryBuilder → Result Registry
build new_session rb =
    if not (ltb_ℤ (pos 0) rb.lease_ttl)
    then err (other "[jotify] etcd lease TTL must be greater than 0")
    else elim (new_session rb.lease_ttl) [
      | err e ↦ err e
      | ok _ ↦ ok (record { watch_cancel = []; cancelled = []; session_open = true })
    ]
