-- ===== src/BitRing/Tests.antt =====
-- A ring of five events, and the theorems at it.
use Prim.Native.Nat.{ℕ, ◌*◌}
use jotify.Prelude.{◌≡◌, refl, Bool, true, false, List, [], ◌∷◌, ltb}
use jotify.Prelude.Int.{pos, negsuc}
use jotify.BitRing.{Float64, BitRing, bit_at, set_bit, new_bit_ring, add, threshold_triggering}
use jotify.BitRing.Window.{run_adds}
use jotify.BitRing.Trigger.{triggers, run_adds-triggers}

-- Exact fractions in place of float64.
abbrev fractions : Float64
fractions = record {
  Carrier = ℕ × ℕ;
  of_int = λ n. (n, 1);
  div = λ a b. (a.0 * b.1, a.1 * b.0);
  gt = λ a b. ltb (b.0 * a.1) (a.0 * b.1);
}

abbrev ring : BitRing fractions
unfolding new_bit_ring
ring = new_bit_ring fractions (pos 5) (pos 2) (1, 2)

-- seven events, of which the last five count
abbrev events : List Bool
events = true ∷ true ∷ false ∷ true ∷ false ∷ true ∷ false ∷ []

after_seven : (run_adds fractions ring events).event_count ≡ 2
unfolding run_adds add bit_at set_bit ring
after_seven = refl

quiet : threshold_triggering fractions (run_adds fractions ring events) ≡ false
unfolding run_adds add bit_at set_bit ring threshold_triggering
quiet = refl

triggered :
    threshold_triggering fractions (run_adds fractions ring (true ∷ false ∷ true ∷ true ∷ []))
    ≡ true
unfolding run_adds add bit_at set_bit ring threshold_triggering
triggered = refl

defaults : (new_bit_ring fractions (negsuc 3) (pos 0) (7, 2)).window_size ≡ 128
unfolding new_bit_ring
defaults = refl

run_adds-triggers_example :
    threshold_triggering fractions
      (run_adds fractions (new_bit_ring fractions (pos 5) (pos 2) (1, 2)) events)
    ≡ triggers fractions 2 (1, 2) (false ∷ true ∷ false ∷ true ∷ false ∷ [])
unfolding new_bit_ring
run_adds-triggers_example = run_adds-triggers fractions (pos 5) (pos 2) (1, 2) events
