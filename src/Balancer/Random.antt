-- ===== src/Balancer/Random.antt =====
-- internal/pkg/client/balancer/random_balancer.go: a random choice. What rand.IntN answers is an
-- argument.
use jotify.Prelude.{ℕ, ◌==◌, List, Option, none, if◌then◌else◌, get_elem?}

pub record RandomBalancer : Type 0 where
  pub nodes : List ℕ
  pub length : ℕ

-- Build leaves the length at zero.
unfoldable pub build : List ℕ → RandomBalancer
build nodes = record { nodes = nodes; length = 0 }

-- `none` is ErrNoSubConnAvailable.
unfoldable pub pick : ℕ → RandomBalancer → Option ℕ
pick index p = if p.length == 0 then none else get_elem? p.nodes index
