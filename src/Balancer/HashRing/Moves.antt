-- ===== src/Balancer/HashRing/Moves.antt =====
-- Which keys change their node when a node joins or leaves.
use text.Mathlib.Text.{◌==◌}
use text.Mathlib.TextEquality.{eq_iff}
use jotify.Prelude.{
  ℕ, ◌+◌, ◌≤◌, ◌<◌, zero, suc, ◌≡◌, ◌≢◌, ◌⊎◌, inl, inr, refl, sym, ap, ◌∙◌, arith, Bool, true,
  false, not, leb, String, [], ◌∷◌, Option, none, some, if◌then◌else◌,
}
use mathlib.Core.List.{Memᴰ}
use jotify.Balancer.HashRing.{
  Ring, ChBalancer, without, remove_node, search, first_node, or_first, get_node_addr,
  virtual_nodes, append, add_node,
}
use jotify.Balancer.HashRing.Sorted.{IsSorted, Sorts, mem-append, mem-append_left, without-IsSorted}

-- The node of a key is the one that it was, or the new one.
abbrev pub Moves : String → String → String → Type 0
Moves addr before after = (after ≡ before) ⊎ (after ≡ addr)

-- Clockwise from a hash, the first hash is at or before the second.
data Before (hash : ℕ) (x y : ℕ) : Type 0 where
  ahead : hash ≤ x → x ≤ y → Before hash x y
  wraps : hash ≤ x → y < hash → Before hash x y
  behind : x < hash → y < hash → x ≤ y → Before hash x y

Before-antisym : (hash x y : ℕ) → Before hash x y → Before hash y x → x ≡ y
Before-antisym hash x y (Before.ahead a b) (Before.ahead c d) = omega arith
Before-antisym hash x y (Before.ahead a b) (Before.wraps c d) = absurd (omega arith)
Before-antisym hash x y (Before.ahead a b) (Before.behind c d e) = absurd (omega arith)
Before-antisym hash x y (Before.wraps a b) (Before.ahead c d) = absurd (omega arith)
Before-antisym hash x y (Before.wraps a b) (Before.wraps c d) = absurd (omega arith)
Before-antisym hash x y (Before.wraps a b) (Before.behind c d e) = absurd (omega arith)
Before-antisym hash x y (Before.behind a b c) (Before.ahead d e) = absurd (omega arith)
Before-antisym hash x y (Before.behind a b c) (Before.wraps d e) = absurd (omega arith)
Before-antisym hash x y (Before.behind a b c) (Before.behind d e f) = omega arith

-- The outcome of a search in a sorted ring: the first node that is not below the hash, if any.
data Finds (hash : ℕ) (ring : Ring) : Option String → Type 0 where
  finds :
      (x : ℕ × String)
      → Memᴰ x ring
      → hash ≤ x.0
      → ((y : ℕ × String) → Memᴰ y ring → Before hash x.0 y.0)
      → Finds hash ring (some x.1)
  finds_none : ((y : ℕ × String) → Memᴰ y ring → y.0 < hash) → Finds hash ring none

search-Finds : (hash : ℕ) (ring : Ring) → IsSorted ring → Finds hash ring (search hash ring)
unfolding search
search-Finds hash [] s = Finds.finds_none (λ y m. elim m [ ])
search-Finds hash (x ∷ ring) (IsSorted.cons _ below s) =
    branch (leb hash x.0) refl (search hash ring) (search-Finds hash ring s)
  where
    at_or_after : hash ≤ x.0 → (y : ℕ × String) → Memᴰ y (x ∷ ring) → Before hash x.0 y.0
    at_or_after up y (Memᴰ.head p) = Before.ahead up (omega (arith, ap (λ (z : ℕ × String). z.0) p))
    at_or_after up y (Memᴰ.tail m) = Before.ahead up (below y m)

    later :
        (z : ℕ)
        → x.0 < hash
        → hash ≤ z
        → ((y : ℕ × String) → Memᴰ y ring → Before hash z y.0)
        → (y : ℕ × String) → Memᴰ y (x ∷ ring)
        → Before hash z y.0
    later z low up first y (Memᴰ.tail m) = first y m
    later z low up first y (Memᴰ.head p) =
        Before.wraps up (omega (arith, low, ap (λ (w : ℕ × String). w.0) p))

    all_low :
        x.0 < hash
        → ((y : ℕ × String) → Memᴰ y ring → y.0 < hash)
        → (y : ℕ × String) → Memᴰ y (x ∷ ring)
        → y.0 < hash
    all_low low rest y (Memᴰ.head p) = omega (arith, low, ap (λ (z : ℕ × String). z.0) p)
    all_low low rest y (Memᴰ.tail m) = rest y m

    branch :
        (b : Bool)
        → leb hash x.0 ≡ b
        → (o : Option String) → Finds hash ring o
        → Finds hash (x ∷ ring) (if b then some x.1 else o)
    branch true e o h =
        let up : hash ≤ x.0 = ground arith in Finds.finds x (Memᴰ.head refl) up (at_or_after up)
    branch false e _ (Finds.finds z m up first) =
        Finds.finds z (Memᴰ.tail m) up (later z.0 (ground arith) up first)
    branch false e _ (Finds.finds_none low) = Finds.finds_none (all_low (ground arith) low)

-- The address of the node that comes first clockwise from the hash.
abbrev Chosen : ℕ → Ring → String → Type 0
Chosen hash ring addr =
    (x : ℕ × String) × Memᴰ x ring
    × (addr ≡ x.1)
    × ((y : ℕ × String) → Memᴰ y ring → Before hash x.0 y.0)

get_node_addr-Chosen :
    (hash : ℕ) (x : ℕ × String) (ring : Ring)
    → IsSorted (x ∷ ring)
    → Chosen hash (x ∷ ring) (get_node_addr hash (x ∷ ring))
unfolding get_node_addr
get_node_addr-Chosen hash x ring s = of_found _ (search-Finds hash (x ∷ ring) s)
  where
    lowest : IsSorted (x ∷ ring) → (y : ℕ × String) → Memᴰ y (x ∷ ring) → x.0 ≤ y.0
    lowest (IsSorted.cons _ below t) y (Memᴰ.head p) = omega (arith, ap (λ (z : ℕ × String). z.0) p)
    lowest (IsSorted.cons _ below t) y (Memᴰ.tail m) = below y m

    of_found :
        (o : Option String)
        → Finds hash (x ∷ ring) o
        → Chosen hash (x ∷ ring) (or_first (x ∷ ring) o)
    of_found _ (Finds.finds z m up first) = (z, m, refl, first)
    of_found _ (Finds.finds_none low) = (
      x,
      Memᴰ.head refl,
      refl,
      λ y m. Before.behind (low x (Memᴰ.head refl)) (low y m) (lowest s y m),
    )

-- Equal hashes of the ring belong to one address.
abbrev pub HasOwnHashes : Ring → Type 0
HasOwnHashes ring = (x y : ℕ × String) → Memᴰ x ring → Memᴰ y ring → x.0 ≡ y.0 → x.1 ≡ y.1

-- A ring that has all nodes of another one, and beside them nodes of the address only.
grown-Moves :
    (hash : ℕ) (addr : String) (before after : Ring)
    → IsSorted before
    → IsSorted after
    → HasOwnHashes before
    → ((x : ℕ × String) → Memᴰ x before → Memᴰ x after)
    → ((x : ℕ × String) → Memᴰ x after → Memᴰ x before ⊎ (x.1 ≡ addr))
    → Moves addr (get_node_addr hash before) (get_node_addr hash after)
unfolding get_node_addr search
grown-Moves hash addr [] [] s t own grows new = inl refl
grown-Moves hash addr (x ∷ before) [] s t own grows new = elim (grows x (Memᴰ.head refl)) [ ]
grown-Moves hash addr [] (y ∷ after) s t own grows new =
    let (z, m, e, first) = get_node_addr-Chosen hash y after t in
    elim (new z m) [ inl none_there ↦ elim none_there [ ] | inr same ↦ inr (e ∙ same) ]
grown-Moves hash addr (x ∷ before) (y ∷ after) s t own grows new =
    let (w, k, d, before_first) = get_node_addr-Chosen hash x before s in
    let (z, m, e, after_first) = get_node_addr-Chosen hash y after t in
    elim (new z m) [
      | inl old ↦ inl (
          e
          ∙ own z w old k
              (Before-antisym hash z.0 w.0 (after_first w (grows w k)) (before_first z old))
          ∙ sym d)
      | inr same ↦ inr (e ∙ same)
    ]

virtual_nodes-address :
    (sum64 : String → ℕ) (addr : String) (i cnt : ℕ) (x : ℕ × String)
    → Memᴰ x (virtual_nodes sum64 addr i cnt)
    → x.1 ≡ addr
unfolding virtual_nodes
virtual_nodes-address sum64 addr i zero x m = elim m [ ]
virtual_nodes-address sum64 addr i (suc cnt) x (Memᴰ.head e) = ap (λ (z : ℕ × String). z.1) e
virtual_nodes-address sum64 addr i (suc cnt) x (Memᴰ.tail m) =
    virtual_nodes-address sum64 addr (i + 1) cnt x m

-- Adding a node moves keys to the new node only: on a sorted ring, in which no two addresses have a
-- hash in common, every hash has the address that it had before or the new one, however the sort
-- orders equal hashes.
pub add_node-Moves :
    (sum64 : String → ℕ) (sort : Ring → Ring)
    → Sorts sort
    → (cc hash : ℕ) (addr : String) (p : ChBalancer) → IsSorted p.ring
    → HasOwnHashes p.ring
    → Moves addr
        (get_node_addr hash p.ring)
        (get_node_addr hash (add_node sum64 sort cc addr p).ring)
unfolding add_node
add_node-Moves sum64 sort laws cc hash addr p s own =
    let nodes = virtual_nodes sum64 addr 0 p.virtual_node_cnt in
    grown-Moves hash addr p.ring (sort (append p.ring nodes)) s (laws.in_order _) own
      (λ x m. laws.keeps _ x (mem-append_left p.ring nodes x m))
      (λ x m. elim (mem-append p.ring nodes x (laws.adds_none _ x m)) [
        | inl old ↦ inl old
        | inr new ↦ inr (virtual_nodes-address sum64 addr 0 p.virtual_node_cnt x new)
      ])

-- Adding a node puts the ring into the order of its hashes, and removing one keeps it there.
add_remove-IsSorted :
    (sum64 : String → ℕ) (sort : Ring → Ring)
    → Sorts sort
    → (cc : ℕ) (addr : String) (p : ChBalancer)
    → IsSorted (add_node sum64 sort cc addr p).ring
      × (IsSorted p.ring → IsSorted (remove_node addr p).ring)
unfolding add_node remove_node
add_remove-IsSorted sum64 sort laws cc addr p = (
  laws.in_order (append p.ring (virtual_nodes sum64 addr 0 p.virtual_node_cnt)),
  without-IsSorted addr p.ring,
)

search-without :
    (hash : ℕ) (addr a : String) (ring : Ring)
    → search hash ring ≡ some a
    → a ≢ addr
    → search hash (without addr ring) ≡ some a
unfolding search without
search-without hash addr a [] e ne = e
search-without hash addr a ((h, b) ∷ ring) e ne =
    branch (leb hash h) (b == addr) refl refl e
      (λ (q : search hash ring ≡ some a). search-without hash addr a ring q ne)
  where
    branch :
        (le is_addr : Bool)
        → leb hash h ≡ le
        → (b == addr) ≡ is_addr
        → (if le then some b else search hash ring) ≡ some a
        → (search hash ring ≡ some a → search hash (without addr ring) ≡ some a)
        → search hash (if not is_addr then (h, b) ∷ without addr ring else without addr ring)
          ≡ some a
    branch true true p q e rest = absurd (ne (sym (ap (or_first []) e) ∙ (eq_iff b addr).0 q))
    branch true false p q e rest =
        ap (λ (c : Bool). if c then some b else search hash (without addr ring)) p ∙ e
    branch false true p q e rest = rest e
    branch false false p q e rest =
        ap (λ (c : Bool). if c then some b else search hash (without addr ring)) p ∙ rest e

search-without-none :
    (hash : ℕ) (addr : String) (ring : Ring)
    → search hash ring ≡ none
    → search hash (without addr ring) ≡ none
unfolding search without
search-without-none hash addr [] e = e
search-without-none hash addr ((h, b) ∷ ring) e =
    branch (leb hash h) (not (b == addr)) refl e
      (λ (q : search hash ring ≡ none). search-without-none hash addr ring q)
  where
    branch :
        (le keep : Bool)
        → leb hash h ≡ le
        → (if le then some b else search hash ring) ≡ none
        → (search hash ring ≡ none → search hash (without addr ring) ≡ none)
        → search hash (if keep then (h, b) ∷ without addr ring else without addr ring) ≡ none
    branch true keep p e rest = ground arith
    branch false true p e rest =
        ap (λ (c : Bool). if c then some b else search hash (without addr ring)) p ∙ rest e
    branch false false p e rest = rest e

first-without :
    (addr : String) (ring : Ring)
    → first_node ring ≢ addr
    → first_node (without addr ring) ≡ first_node ring
unfolding without
first-without addr [] ne = refl
first-without addr ((h, b) ∷ ring) ne = branch (b == addr) refl
  where
    branch :
        (c : Bool)
        → (b == addr) ≡ c
        → first_node (if not c then (h, b) ∷ without addr ring else without addr ring) ≡ b
    branch true e = absurd (ne ((eq_iff b addr).0 e))
    branch false e = refl

-- Removing a node moves its own keys only: a hash whose node is another one keeps it.
pub remove_node-get_node_addr :
    (hash : ℕ) (addr : String) (p : ChBalancer)
    → get_node_addr hash p.ring ≢ addr
    → get_node_addr hash (remove_node addr p).ring ≡ get_node_addr hash p.ring
unfolding get_node_addr remove_node
remove_node-get_node_addr hash addr p ne = branch (search hash p.ring) refl ne
  where
    branch :
        (o : Option String)
        → search hash p.ring ≡ o
        → or_first p.ring o ≢ addr
        → or_first (without addr p.ring) (search hash (without addr p.ring)) ≡ or_first p.ring o
    branch none e ne =
        ap (or_first (without addr p.ring)) (search-without-none hash addr p.ring e)
        ∙ first-without addr p.ring ne
    branch (some a) e ne =
        ap (or_first (without addr p.ring)) (search-without hash addr a p.ring e ne)
