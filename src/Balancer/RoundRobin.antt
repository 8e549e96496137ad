-- ===== src/Balancer/RoundRobin.antt =====
-- internal/pkg/client/balancer/round_robin_balancer.go: the connections in turn. A connection is
-- a number, and the order of the connections is that in which Build met them.
use jotify.Prelude.{
  ℕ, zero, suc, ◌%◌, ◌^◌, ◌≡◌, refl, ap, ◌∙◌, arith, List, [], ◌∷◌, Option, none, length, get_elem?,
}
use jotify.Prelude.Words.{add_u64, sub_u64}

pub record RoundRobinBalancer : Type 0 where
  pub ccs : List ℕ
  pub index : ℕ
  pub length : ℕ

unfoldable pub build : List ℕ → RoundRobinBalancer
build ccs = record { ccs = ccs; index = 0; length = length ccs }

-- The connection, none for ErrNoSubConnAvailable, and the balancer after the call. The index is
-- added to atomically; one past the end would panic in Go, and never is.
unfoldable pub pick : RoundRobinBalancer → Option ℕ × RoundRobinBalancer
pick p = picked (p.ccs)
  where
    picked : List ℕ → Option ℕ × RoundRobinBalancer
    picked [] = (none, p)
    picked (cc ∷ ccs) =
        let index = add_u64 p.index 1 in
        (get_elem? p.ccs (sub_u64 index 1 % p.length), record p { index = index })

-- The balancer after a number of calls.
unfoldable pub after_picks : ℕ → RoundRobinBalancer → RoundRobinBalancer
unfolding pick
after_picks zero p = p
after_picks (suc k) p = (pick (after_picks k p)).1

state_after :
    (k cc : ℕ) (ccs : List ℕ)
    → after_picks k (build (cc ∷ ccs))
      ≡ record { ccs = cc ∷ ccs; index = k % 2 ^ 64; length = length (cc ∷ ccs) }
unfolding after_picks build pick
state_after zero cc ccs = refl
state_after (suc k) cc ccs =
    ap (λ (p : RoundRobinBalancer). (pick p).1) (state_after k cc ccs)
    ∙ ap (λ (i : ℕ). record { ccs = cc ∷ ccs; index = i; length = length (cc ∷ ccs) }) (omega arith)

-- The call after k calls on a new balancer answers the connection at k modulo 2 ^ 64 modulo their
-- number, so they come in turn; only where the index wraps the turn may be broken.
pub pick-in_turn :
    (k cc : ℕ) (ccs : List ℕ)
    → (pick (after_picks k (build (cc ∷ ccs)))).0
      ≡ get_elem? (cc ∷ ccs) (k % 2 ^ 64 % length (cc ∷ ccs))
unfolding pick
pick-in_turn k cc ccs =
    ap (λ (p : RoundRobinBalancer). (pick p).0) (state_after k cc ccs)
    ∙ ap (λ (i : ℕ). get_elem? (cc ∷ ccs) (i % length (cc ∷ ccs))) (omega arith)
