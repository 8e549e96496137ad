-- ===== src/Dao/Ids/Stored.antt =====
-- The map that the goroutines of GetMapByIds store rows in.
use mathlib.Core.List.{Memᴰ}
use mathlib.Core.Path.{subst}
use jotify.Prelude.{
  ℕ, ◌≡◌, refl, sym, ap, ◌∙◌, Bool, true, false, if◌then◌else◌, List, [], ◌∷◌, Option, none, some,
  ◌==◌, ==_iff, arith,
}
use jotify.Prelude.Maps.{lookup, store, lookup-store, lookup-store_any}
use jotify.Repo.{Entity}
use jotify.Dao.Ids.{NotifMap, store_all}

-- A property of all that is found in the map.
unfoldable pub Holds : (ℕ → Entity → Type 0) → NotifMap → Type 0
Holds P m = (i : ℕ) (n : Entity) → lookup i m ≡ some n → P i n

pub empty_Holds : (P : ℕ → Entity → Type 0) → Holds P []
unfolding lookup Holds
empty_Holds P i n e = ground arith

store-Holds :
    (P : ℕ → Entity → Type 0) (x : Entity) (m : NotifMap)
    → P x.id x
    → Holds P m
    → Holds P (store x.id x m)
unfolding Holds
store-Holds P x m p h i n e = stored (x.id == i) refl (sym (lookup-store_any i x.id x m) ∙ e)
  where
    stored : (b : Bool) → (x.id == i) ≡ b → (if b then some x else lookup i m) ≡ some n → P i n
    stored true q f =
        subst (λ (k : ℕ). P k n) ((==_iff x.id i).0 q)
          (subst (λ (y : Entity). P x.id y)
            (ap (λ (o : Option Entity). elim o [ none ↦ x | some y ↦ y ]) f) p)
    stored false q f = h i n f

pub store_all-Holds :
    (P : ℕ → Entity → Type 0) (ns : List Entity) (m : NotifMap)
    → ((n : Entity) → Memᴰ n ns → P n.id n)
    → Holds P m
    → Holds P (store_all ns m)
unfolding store_all
store_all-Holds P [] m all h = h
store_all-Holds P (x ∷ ns) m all h =
    store_all-Holds P ns (store x.id x m) (λ n p. all n (Memᴰ.tail p))
      (store-Holds P x m (all x (Memᴰ.head refl)) h)

-- A key that is in the map.
unfoldable pub Has : ℕ → NotifMap → Type 0
Has i m = (n : Entity) × (lookup i m ≡ some n)

Has-store : (i j : ℕ) (v : Entity) (m : NotifMap) → Has i m → Has i (store j v m)
unfolding Has
Has-store i j v m (n, e) = let (x, f) = branch (j == i) in (x, lookup-store_any i j v m ∙ f)
  where
    branch : (b : Bool) → (x : Entity) × ((if b then some v else lookup i m) ≡ some x)
    branch true = (v, refl)
    branch false = (n, e)

pub Has-store_all : (i : ℕ) (ns : List Entity) (m : NotifMap) → Has i m → Has i (store_all ns m)
unfolding store_all
Has-store_all i [] m h = h
Has-store_all i (n ∷ ns) m h = Has-store_all i ns (store n.id n m) (Has-store i n.id n m h)

pub Has-mem : (n : Entity) (ns : List Entity) (m : NotifMap) → Memᴰ n ns → Has n.id (store_all ns m)
unfolding store_all Has
Has-mem n [] m p = elim p [ ]
Has-mem n (x ∷ ns) m (Memᴰ.head e) =
    Has-store_all n.id ns (store x.id x m)
      (subst (λ (y : Entity). Has y.id (store x.id x m)) (sym e) (x, lookup-store x.id x m))
Has-mem n (x ∷ ns) m (Memᴰ.tail p) = Has-mem n ns (store x.id x m) p
