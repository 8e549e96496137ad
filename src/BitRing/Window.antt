-- ===== src/BitRing/Window.antt =====
-- The ring holds the most recent events, at most `window_size` of them, newest first.
use jotify.Prelude.Window.{
  index_of, push, newest_first, length-push, get_or-push_zero, get_or-take, take_all, push-take,
  index_of_newest, index_of_older, index_of_ne, index_of_oldest,
}
use jotify.Prelude.{
  ℕ, zero, suc, ◌+◌, ◌-◌, ◌*◌, ◌/◌, ◌≤◌, ◌<◌, ◌≡◌, refl, sym, ap, ◌∙◌, Bool, true, false, List, [],
  ◌∷◌, arith, ◌==◌, if◌then◌else◌, get_or, take, length, Bool-cases, inl, inr, length-replicate,
  ℕ_discrete, ◌&&◌,
}
use jotify.Prelude.Int.{ℤ}
use jotify.BitRing.{
  Float64, BitRing, bit_at, new_bit_ring, add, or_default, default_window_size, bits_mask,
  bits_per_word,
}
use jotify.BitRing.Bit.{bit_at-set_bit, length-set_bit}

abbrev pub count_true : List Bool → ℕ
count_true [] = 0
count_true (true ∷ l) = suc (count_true l)
count_true (false ∷ l) = count_true l

module _ {f : Float64} where
  pub record Holds (br : BitRing f) (events : List Bool) : Type 0 where
    pub room : br.window_size ≤ 64 * length br.words
    pub positive : 0 < br.window_size
    pub in_range : br.write_pos < br.window_size
    pub size : length events ≡ (if br.is_full then br.window_size else br.write_pos)
    pub bits :
        (i : ℕ)
        → i < length events
        → bit_at br.words (index_of br.window_size br.write_pos i) ≡ get_or events i false
    pub count : br.event_count ≡ count_true events
    pub consecutive : (1 ≤ br.consecutive_threshold) × (br.consecutive_threshold ≤ br.window_size)

-- A full window drops its oldest event.
count_true-drop_last :
    (n : ℕ) (l : List Bool)
    → length l ≡ suc n
    → count_true (take n l) + (if get_or l n false then 1 else 0) ≡ count_true l
count_true-drop_last n [] h = cc
count_true-drop_last zero (true ∷ []) h = refl
count_true-drop_last zero (false ∷ []) h = refl
count_true-drop_last zero (b ∷ c ∷ l) h = absurd (omega arith)
count_true-drop_last (suc n) (true ∷ l) h = omega (arith, count_true-drop_last n l (omega arith))
count_true-drop_last (suc n) (false ∷ l) h = omega (arith, count_true-drop_last n l (omega arith))

count_true-pos : (n : ℕ) (l : List Bool) → get_or l n false ≡ true → 0 < count_true l
count_true-pos n [] h = cc
count_true-pos n (true ∷ l) h = omega arith
count_true-pos zero (false ∷ l) h = cc
count_true-pos (suc n) (false ∷ l) h = count_true-pos n l h

count_true-cons :
    (v : Bool) (l : List Bool) → count_true (v ∷ l) ≡ (if v then 1 else 0) + count_true l
count_true-cons true l = omega arith
count_true-cons false l = omega arith

count_true-push :
    (w : ℕ) (v : Bool) (l : List Bool)
    → 0 < w
    → length l ≤ w
    → count_true (push w v l) + (if length l == w && get_or l (w - 1) false then 1 else 0)
      ≡ (if v then 1 else 0) + count_true l
count_true-push zero v l h k = elim h [ ]
count_true-push (suc n) v l h k = elim (ℕ_discrete (length l) (suc n)) [
  | yes full ↦ ground (
    arith,
    count_true-cons v (take n l),
    count_true-drop_last n l full,
    ap (λ (t : ℕ). get_or l t false) (let e : suc n - 1 ≡ n = omega arith in e),
  )
  | no short ↦ ground (arith, count_true-cons v (take n l), take_all n l (omega arith))
]

module _ {f : Float64} {br : BitRing f} {events : List Bool} (h : Holds br events) where
  -- The bit about to be overwritten is the oldest event, if the window is full.
  old_bit_lem :
      br.is_full ≡ true → bit_at br.words br.write_pos ≡ get_or events (br.window_size - 1) false
  old_bit_lem full =
      ap (bit_at br.words) (sym (index_of_oldest br.window_size br.write_pos h.in_range))
      ∙ h.bits (br.window_size - 1) (ground arith)

  add_bits :
      (v : Bool) (i : ℕ)
      → i < length (push br.window_size v events)
      → bit_at (add f br v).words (index_of br.window_size (add f br v).write_pos i)
        ≡ get_or (push br.window_size v events) i false
  unfolding add
  add_bits v zero k = ground (
    arith,
    get_or-push_zero br.window_size v false events,
    index_of_newest br.window_size br.write_pos h.in_range,
    bit_at-set_bit br.words br.write_pos br.write_pos v,
  )
  add_bits v (suc i) k =
      let (k', l') : (suc i < br.window_size) × (i < length events) =
        omega (arith, length-push br.window_size v events) in
      ground (
        arith,
        index_of_older br.window_size br.write_pos i h.in_range k',
        index_of_ne br.window_size br.write_pos i h.in_range k',
        bit_at-set_bit br.words br.write_pos (index_of br.window_size br.write_pos i) v,
        h.bits i l',
        get_or-take br.window_size (suc i) false (v ∷ events) k',
      )

  add_count : (v : Bool) → (add f br v).event_count ≡ count_true (push br.window_size v events)
  unfolding add
  add_count v =
      let counted = count_true-push br.window_size v events h.positive (ground arith) in
      elim (Bool-cases br.is_full) [
        | inl full ↦ ground (
          arith,
          counted,
          old_bit_lem full,
          count_true-pos (br.window_size - 1) events,
          h.count,
          h.size,
        )
        | inr not_full ↦ ground (arith, counted, h.count, h.size, h.in_range)
      ]

  -- Adding an event keeps the most recent `window_size` events.
  pub add-Holds : (v : Bool) → Holds (add f br v) (push br.window_size v events)
  unfolding add
  add-Holds v = record {
    room = ground (arith, length-set_bit br.words br.write_pos v);
    positive = h.positive;
    in_range = ground arith;
    size = ground (arith, length-push br.window_size v events);
    bits = add_bits v;
    count = add_count v;
    consecutive = h.consecutive;
  }

new-Holds : (f : Float64) (w c : ℤ) (rate : f.Carrier) → Holds (new_bit_ring f w c rate) []
unfolding new_bit_ring
new-Holds f w c rate = record {
  room = ground (
    arith,
    length-replicate {A = ℕ} ((or_default w default_window_size + bits_mask) / bits_per_word) 0,
  );
  positive = ground arith;
  in_range = ground arith;
  size = refl;
  bits = λ i k. absurd (omega arith);
  count = refl;
  consecutive = (ground arith, ground arith);
}

-- The ring after a sequence of events.
unfoldable pub run_adds : (f : Float64) → BitRing f → List Bool → BitRing f
run_adds f br [] = br
run_adds f br (v ∷ vs) = run_adds f (add f br v) vs

run_adds-Holds_from :
    (f : Float64) (vs : List Bool) (br : BitRing f) (l : List Bool)
    → Holds br (take br.window_size l)
    → Holds (run_adds f br vs) (take br.window_size (newest_first vs l))
unfolding run_adds add
run_adds-Holds_from f [] br l h = h
run_adds-Holds_from f (v ∷ vs) br l h =
    run_adds-Holds_from f vs (add f br v) (v ∷ l)
      (rw (← push-take br.window_size v l) (add-Holds h v))

-- Whatever the constructor's arguments, after any sequence of events the ring holds exactly the
-- last `window_size` of them, newest first: the bits, their number, and the count of those that
-- happened.
pub run_adds-Holds :
    (f : Float64) (w c : ℤ) (rate : f.Carrier) (vs : List Bool)
    → Holds
        (run_adds f (new_bit_ring f w c rate) vs)
        (take (new_bit_ring f w c rate).window_size (newest_first vs []))
run_adds-Holds f w c rate vs = run_adds-Holds_from f vs (new_bit_ring f w c rate) [] (
    rw (take_all {A = Bool} (new_bit_ring f w c rate).window_size [] (omega arith))
      (new-Holds f w c rate))
