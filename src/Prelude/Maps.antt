-- ===== src/Prelude/Maps.antt =====
-- A Go map with keys uint64, as the list of its entries.
use mathlib.Core.Bool.{Bool, true, false}
use mathlib.Core.Path.{◌≡◌, refl, sym, ap, ◌∙◌}
use mathlib.Core.List.{List, [], ◌∷◌}
use mathlib.Core.Option.{Option, none, some}
use Prim.Native.Nat.{ℕ}
use native.Mathlib.Omega.{arith}
use jotify.Prelude.Tests.{◌==◌, ==_iff, if◌then◌else◌}

module _ {ℓ} {V : Type ℓ} where
  -- m[k], with the test for its presence
  unfoldable pub lookup : ℕ → List (ℕ × V) → Option V
  lookup k [] = none
  lookup k ((j, v) ∷ m) = let rest = lookup k m in if j == k then some v else rest

  -- m[k] = v
  unfoldable pub store : ℕ → V → List (ℕ × V) → List (ℕ × V)
  store k v [] = (k, v) ∷ []
  store k v ((j, w) ∷ m) = let rest = store k v m in if j == k then (k, v) ∷ m else (j, w) ∷ rest

  -- delete(m, k)
  unfoldable pub delete : ℕ → List (ℕ × V) → List (ℕ × V)
  delete k [] = []
  delete k ((j, v) ∷ m) = let rest = delete k m in if j == k then rest else (j, v) ∷ rest

module _ {ℓ} {V : Type ℓ} where
  lookup_head : (k : ℕ) (v : V) (m : List (ℕ × V)) → lookup k ((k, v) ∷ m) ≡ some v
  unfolding lookup
  lookup_head k v m = ap (λ (b : Bool). if b then some v else lookup k m) ((==_iff k k).1 refl)

  lookup_tail :
      (k j : ℕ) (v : V) (m : List (ℕ × V)) → (j == k) ≡ false → lookup k ((j, v) ∷ m) ≡ lookup k m
  unfolding lookup
  lookup_tail k j v m e = ap (λ (b : Bool). if b then some v else lookup k m) e

  store_branch :
      (k j : ℕ) (v w : V) (m rest : List (ℕ × V)) (b : Bool)
      → (j == k) ≡ b
      → lookup k rest ≡ some v
      → lookup k (if b then (k, v) ∷ m else (j, w) ∷ rest) ≡ some v
  store_branch k j v w m rest true e h = lookup_head k v m
  store_branch k j v w m rest false e h = lookup_tail k j w rest e ∙ h

  -- A value that is stored is found.
  pub lookup-store : (k : ℕ) (v : V) (m : List (ℕ × V)) → lookup k (store k v m) ≡ some v
  unfolding store
  lookup-store k v [] = lookup_head k v []
  lookup-store k v ((j, w) ∷ m) =
      store_branch k j v w m (store k v m) (j == k) refl (lookup-store k v m)

  shadowed :
      (c d : Bool) (v w : V) (rest : Option V)
      → d ≡ c
      → (if c then some v else rest) ≡ (if c then some v else if d then some w else rest)
  shadowed true d v w rest e = refl
  shadowed false d v w rest e = ap (λ (x : Bool). if x then some w else rest) (sym e)

  beside :
      (c d : Bool) (v w : V) (below rest : Option V)
      → below ≡ (if c then some v else rest)
      → (d ≡ true → c ≡ false)
      → (if d then some w else below) ≡ (if c then some v else if d then some w else rest)
  beside c true v w below rest h apart =
      ap (λ (x : Bool). if x then some v else some w) (sym (apart refl))
  beside c false v w below rest h apart = h

  -- What a map holds after an assignment.
  pub lookup-store_any :
      (k j : ℕ) (v : V) (m : List (ℕ × V))
      → lookup k (store j v m) ≡ (if j == k then some v else lookup k m)
  unfolding lookup store
  lookup-store_any k j v [] = refl
  lookup-store_any k j v ((i, w) ∷ m) = whole (i == j) (store j v m) (lookup-store_any k j v m) refl
    where
      whole :
          (b : Bool) (below : List (ℕ × V))
          → lookup k below ≡ (if j == k then some v else lookup k m)
          → (i == j) ≡ b
          → lookup k (if b then (j, v) ∷ m else (i, w) ∷ below)
            ≡ (if j == k then some v else if i == k then some w else lookup k m)
      whole true below h e =
          shadowed (j == k) (i == k) v w (lookup k m) (ap (λ (x : ℕ). x == k) ((==_iff i j).0 e))
      whole false below h e = beside (j == k) (i == k) v w _ (lookup k m) h (λ d. ground arith)
