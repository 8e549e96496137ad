-- ===== src/Prelude/TextMaps.antt =====
-- A Go map with keys of text, as the list of its entries.
use text.Mathlib.Text.{◌==◌}
use text.Mathlib.TextEquality.{eq_iff}
use mathlib.Core.Path.{◌≡◌, refl, ap, ◌∙◌}
use mathlib.Core.Bool.{Bool, true, false}
use mathlib.Core.List.{List, [], ◌∷◌}
use mathlib.Core.Option.{Option, none, some}
use native.Mathlib.Omega.{arith}
use Prim.Native.String.{String}
use jotify.Prelude.Tests.{if◌then◌else◌}

module _ {ℓ} {V : Type ℓ} where
  -- m[k], with the test for its presence
  unfoldable pub get : String → List (String × V) → Option V
  get k [] = none
  get k ((j, v) ∷ m) = if j == k then some v else get k m

  -- m[k] = v
  unfoldable pub put : String → V → List (String × V) → List (String × V)
  put k v [] = (k, v) ∷ []
  put k v ((j, w) ∷ m) = if j == k then (k, v) ∷ m else (j, w) ∷ put k v m

  pub get-put :
      (k j : String) (v : V) (m : List (String × V))
      → get j (put k v m) ≡ (if k == j then some v else get j m)
  unfolding get put
  get-put k j v [] = refl
  get-put k j v ((i, w) ∷ m) = ground (arith, eq_iff i k, eq_iff k j, eq_iff i j, get-put k j v m)

  -- maps.Copy(dst, src)
  unfoldable pub copy : List (String × V) → List (String × V) → List (String × V)
  unfolding put
  copy [] dst = dst
  copy ((k, v) ∷ src) dst = put k v (copy src dst)

  abbrev pub or_else : Option V → Option V → Option V
  or_else none o = o
  or_else (some v) o = some v

  pub get-copy :
      (k : String) (src dst : List (String × V))
      → get k (copy src dst) ≡ or_else (get k src) (get k dst)
  unfolding copy get
  get-copy k [] dst = refl
  get-copy k ((j, v) ∷ src) dst =
      get-put j k v (copy src dst) ∙ branch (j == k) (get-copy k src dst)
    where
      branch :
          (b : Bool) {rest : Option V}
          → rest ≡ or_else (get k src) (get k dst)
          → (if b then some v else rest) ≡ or_else (if b then some v else get k src) (get k dst)
      branch true e = refl
      branch false e = e

module _ {ℓ κ} {V : Type ℓ} {W : Type κ} where
  -- The map with every value changed.
  unfoldable pub map_values : (V → W) → List (String × V) → List (String × W)
  map_values f [] = []
  map_values f ((k, v) ∷ m) = (k, f v) ∷ map_values f m

  pub get-map_values :
      (k : String) (f : V → W) (m : List (String × V)) (v : V)
      → get k m ≡ some v
      → get k (map_values f m) ≡ some (f v)
  unfolding get map_values
  get-map_values k f [] v h = ground arith
  get-map_values k f ((j, w) ∷ m) v h = branch (j == k) (get-map_values k f m v) h
    where
      branch :
          (b : Bool) {rest : Option W}
          → (get k m ≡ some v → rest ≡ some (f v))
          → (if b then some w else get k m) ≡ some v
          → (if b then some (f w) else rest) ≡ some (f v)
      branch true ih e = ap (λ (o : Option V). elim o [ none ↦ some (f w) | some x ↦ some (f x) ]) e
      branch false ih e = ih e
