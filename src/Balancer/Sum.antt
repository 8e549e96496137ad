-- ===== src/Balancer/Sum.antt =====
-- What a choice keeps.
use jotify.Prelude.{
  ℕ, zero, suc, ◌+◌, ◌-◌, ◌%◌, ◌^◌, ◌<◌, ◌≡◌, refl, ap, ◌∙◌, sym, arith, if◌then◌else◌, ltb, Bool,
  true, false, List, [], ◌∷◌, map, Option, none, some, length,
}
use jotify.Prelude.Words.{add_u32}
use jotify.Balancer.{Node, raise, lower, total_weight, select, at_node, pick, picked}

-- The sums of the current and of the efficient weights.
unfoldable pub sum_current : List Node → ℕ
sum_current [] = 0
sum_current (n ∷ ns) = n.current_weight + sum_current ns

abbrev sum_efficient : List Node → ℕ
sum_efficient [] = 0
sum_efficient (n ∷ ns) = n.efficient_weight + sum_efficient ns

total_weight_lem :
    (t : ℕ) (ns : List Node) → total_weight t ns % 2 ^ 32 ≡ (t + sum_efficient ns) % 2 ^ 32
unfolding total_weight
total_weight_lem t [] = omega arith
total_weight_lem t (n ∷ ns) = omega (arith, total_weight_lem (add_u32 t n.efficient_weight) ns)

total_weight-lt : (t : ℕ) (ns : List Node) → t < 2 ^ 32 → total_weight t ns < 2 ^ 32
unfolding total_weight
total_weight-lt t [] h = h
total_weight-lt t (n ∷ ns) h = total_weight-lt (add_u32 t n.efficient_weight) ns (omega arith)

sum_raised :
    (ns : List Node)
    → sum_current (map raise ns) % 2 ^ 32 ≡ (sum_current ns + sum_efficient ns) % 2 ^ 32
unfolding sum_current
sum_raised [] = refl
sum_raised (n ∷ ns) = omega (arith, sum_raised ns)

sum_lowered :
    (total i : ℕ) (ns : List Node)
    → total < 2 ^ 32
    → i < length ns
    → sum_current (at_node i (lower total) ns) % 2 ^ 32
      ≡ (sum_current ns + (2 ^ 32 - total)) % 2 ^ 32
unfolding sum_current at_node
sum_lowered total i [] small lt = ground arith
sum_lowered total zero (n ∷ ns) small lt = omega arith
sum_lowered total (suc i) (n ∷ ns) small lt =
    omega (arith, sum_lowered total i ns small (omega arith))

second :
    {i j : ℕ} {xs ys : List Node}
    → Path (Option (ℕ × List Node)) (some (i, xs)) (some (j, ys))
    → xs ≡ ys
second {xs} p = ap (λ o. elim o [ none ↦ xs | some x ↦ x.1 ]) p

select-lt_from :
    (i j b k best : ℕ) (ns : List Node)
    → j < i
    → select i (some (j, b)) ns ≡ some (k, best)
    → k < i + length ns
unfolding select
select-lt_from i j b k best [] lt h = ground (arith, h)
select-lt_from i j b k best (n ∷ ns) lt h =
    branch (λ i' b'. select-lt_from (i + 1) i' b' k best ns) (ltb b n.current_weight) h
  where
    branch :
        ((i' b' : ℕ)
          → i' < i + 1
          → select (i + 1) (some (i', b')) ns ≡ some (k, best)
          → k < i + 1 + length ns)
        → (c : Bool)
        → select (i + 1) (if c then some (i, n.current_weight) else some (j, b)) ns ≡ some (k, best)
        → k < i + length (n ∷ ns)
    branch rest true g = omega (arith, rest i n.current_weight (omega arith) g)
    branch rest false g = omega (arith, rest j b (omega arith) g)

select-lt : (k best : ℕ) (ns : List Node) → select 0 none ns ≡ some (k, best) → k < length ns
unfolding select
select-lt k best [] h = ground arith
select-lt k best (n ∷ ns) h =
    omega (arith, select-lt_from 1 0 n.current_weight k best ns (omega arith) h)

length-map-raise : (ns : List Node) → length (map raise ns) ≡ length ns
length-map-raise [] = refl
length-map-raise (n ∷ ns) = ap suc (length-map-raise ns)

picked_sum :
    (ns ms : List Node) (i : ℕ) (o : Option (ℕ × ℕ))
    → select 0 none (map raise ns) ≡ o
    → picked (total_weight 0 ns) (map raise ns) o ≡ some (i, ms)
    → sum_current ms % 2 ^ 32 ≡ sum_current ns % 2 ^ 32
unfolding picked
picked_sum ns ms i none e h = ground arith
picked_sum ns ms i (some (k, best)) e h =
    let total = total_weight 0 ns in
    let small = total_weight-lt 0 ns (omega arith) in
    let same : at_node k (lower total) (map raise ns) ≡ ms = second h in
    ap (λ (x : List Node). sum_current x % 2 ^ 32) (sym same)
    ∙ sum_lowered total k (map raise ns) small (select-lt k best (map raise ns) e)
    ∙ omega (arith, small, sum_raised ns, total_weight_lem 0 ns)

-- A choice keeps the sum of the current weights modulo 2 ^ 32: what the loop adds to all nodes is
-- taken from the chosen one.
pick-sum_current :
    (ns ms : List Node) (i : ℕ)
    → pick ns ≡ some (i, ms)
    → sum_current ms % 2 ^ 32 ≡ sum_current ns % 2 ^ 32
unfolding pick
pick-sum_current ns ms i h = picked_sum ns ms i (select 0 none (map raise ns)) refl h
