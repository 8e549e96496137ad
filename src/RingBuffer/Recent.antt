-- ===== src/RingBuffer/Recent.antt =====
-- The buffer holds the last `size` durations, and their sum.
use jotify.Prelude.{
  ℕ, zero, suc, ◌+◌, ◌-◌, ◌/◌, ◌%◌, ◌^◌, ◌≤◌, ◌<◌, ◌≡◌, refl, sym, ap, ◌∙◌, List, [], ◌∷◌, some,
  arith, leb, ◌==◌, if◌then◌else◌, get_or, set, take, length, length-set, length-replicate,
  replicate, ℕ_discrete,
}
use mathlib.Core.Path.{subst}
use native.Mathlib.Nat.{div-zero}
use jotify.Prelude.Int.{ℤ, pos_part}
use jotify.Prelude.Window.{
  index_of, push, newest_first, length-push, get_or-push_zero, get_or-take, take_all, push-take,
  index_of_newest, index_of_older, index_of_ne, index_of_oldest, mod_once,
}
use jotify.Prelude.Words.{add_u64, sub_u64}
use jotify.RingBuffer.{TimeDurationRingBuffer, add, avg, reset, new_time_duration_ring_buffer}

abbrev pub sum : List ℕ → ℕ
sum [] = 0
sum (d ∷ l) = d + sum l

-- Every duration is an int64 pattern.
abbrev pub AllWords : List ℕ → Type 0
AllWords [] = Unit {0}
AllWords (d ∷ l) = (d < 2 ^ 64) × AllWords l

pub record Holds (rb : TimeDurationRingBuffer) (l : List ℕ) : Type 0 where
  pub room : length rb.buffer ≡ rb.size
  pub positive : 0 < rb.size
  pub in_range : rb.write_pos < rb.size
  pub size : length l ≡ rb.count
  pub bounded : rb.count ≤ rb.size
  pub filling : rb.count < rb.size → rb.write_pos ≡ rb.count
  pub cells :
      (i : ℕ) → i < length l → get_or rb.buffer (index_of rb.size rb.write_pos i) 0 ≡ get_or l i 0
  pub total : rb.sum ≡ sum l % 2 ^ 64

get_or-set :
    (xs : List ℕ) (i j v : ℕ)
    → i < length xs
    → get_or (set xs i v) j 0 ≡ (if i == j then v else get_or xs j 0)
get_or-set [] i j v h = elim h [ ]
get_or-set (x ∷ xs) zero zero v h = refl
get_or-set (x ∷ xs) zero (suc j) v h = ground arith
get_or-set (x ∷ xs) (suc i) zero v h = ground arith
get_or-set (x ∷ xs) (suc i) (suc j) v h = ground (arith, get_or-set xs i j v)

sum-drop_last : (n : ℕ) (l : List ℕ) → length l ≡ suc n → sum (take n l) + get_or l n 0 ≡ sum l
sum-drop_last n [] h = absurd (omega arith)
sum-drop_last zero (d ∷ []) h = omega arith
sum-drop_last zero (d ∷ e ∷ l) h = absurd (omega arith)
sum-drop_last (suc n) (d ∷ l) h = omega (arith, sum-drop_last n l (omega arith))

sum-push :
    (w d : ℕ) (l : List ℕ)
    → 0 < w
    → length l ≤ w
    → sum (push w d l) + (if length l == w then get_or l (w - 1) 0 else 0) ≡ d + sum l
sum-push zero d l h k = elim h [ ]
sum-push (suc n) d l h k = elim (ℕ_discrete (length l) (suc n)) [
  | yes full ↦ ground (
    arith,
    sum-drop_last n l full,
    ap (λ (t : ℕ). get_or l t 0) (let e : suc n - 1 ≡ n = omega arith in e),
  )
  | no short ↦ ground (arith, take_all n l (omega arith))
]

-- `(p + 1) % w` is the increment that starts again at 0.
next_lem : (w p : ℕ) → p < w → (p + 1) % w ≡ (if leb w (p + 1) then 0 else p + 1)
next_lem w p h = ground (arith, mod_once (p + 1) w (omega arith))

-- Taking the oldest duration out of the wrapped sum and putting a new one in.
replace_in_total :
    (s t o d : ℕ) → o < 2 ^ 64 → s + o ≡ d + t → add_u64 (sub_u64 (t % 2 ^ 64) o) d ≡ s % 2 ^ 64
replace_in_total s t o d small e = omega arith

pub size-add : (rb : TimeDurationRingBuffer) (d : ℕ) → (add rb d).size ≡ rb.size
unfolding add
size-add rb d = refl

AllWords-take : (n : ℕ) (l : List ℕ) → AllWords l → AllWords (take n l)
AllWords-take zero l h = tt
AllWords-take (suc n) [] h = tt
AllWords-take (suc n) (d ∷ l) h = (h.0, AllWords-take n l h.1)

AllWords-get_or : (l : List ℕ) (i : ℕ) → AllWords l → get_or l i 0 < 2 ^ 64
AllWords-get_or [] i h = omega arith
AllWords-get_or (d ∷ l) zero h = h.0
AllWords-get_or (d ∷ l) (suc i) h = AllWords-get_or l i h.1

module _ {rb : TimeDurationRingBuffer} {l : List ℕ} (h : Holds rb l) (words : AllWords l) where
  oldest_lem : rb.count ≡ rb.size → get_or rb.buffer rb.write_pos 0 ≡ get_or l (rb.size - 1) 0
  oldest_lem full =
      ap (λ (t : ℕ). get_or rb.buffer t 0) (sym (index_of_oldest rb.size rb.write_pos h.in_range))
      ∙ h.cells (rb.size - 1) (let e = h.size in let p = h.positive in omega arith)

  add_cells :
      (d i : ℕ)
      → i < length (push rb.size d l)
      → get_or (add rb d).buffer (index_of rb.size (add rb d).write_pos i) 0
        ≡ get_or (push rb.size d l) i 0
  unfolding add
  add_cells d zero k = ground (
    arith,
    next_lem rb.size rb.write_pos h.in_range,
    get_or-push_zero rb.size d 0 l,
    index_of_newest rb.size rb.write_pos h.in_range,
    get_or-set rb.buffer rb.write_pos rb.write_pos d,
  )
  add_cells d (suc i) k =
      let (k', l') : (suc i < rb.size) × (i < length l) = omega (arith, length-push rb.size d l) in
      ground (
        arith,
        next_lem rb.size rb.write_pos h.in_range,
        index_of_older rb.size rb.write_pos i h.in_range k',
        index_of_ne rb.size rb.write_pos i h.in_range k',
        get_or-set rb.buffer rb.write_pos (index_of rb.size rb.write_pos i) d,
        h.cells i l',
        get_or-take rb.size (suc i) 0 (d ∷ l) k',
      )

  add_total : (d : ℕ) → (add rb d).sum ≡ sum (push rb.size d l) % 2 ^ 64
  unfolding add
  add_total d =
      let summed =
        sum-push rb.size d l h.positive (let e = h.size in let b = h.bounded in omega arith) in
      let o = get_or l (rb.size - 1) 0 in
      elim (ℕ_discrete rb.count rb.size) [
        | yes full ↦ ground (
          arith,
          summed,
          oldest_lem full,
          h.size,
          h.total,
          replace_in_total (sum (push rb.size d l)) (sum l) o d
              (AllWords-get_or l (rb.size - 1) words),
        )
        | no short ↦ ground (arith, summed, h.size, h.total)
      ]

  pub add-Holds : (d : ℕ) → Holds (add rb d) (push rb.size d l)
  unfolding add
  add-Holds d = record {
    room = length-set rb.buffer rb.write_pos d ∙ h.room;
    positive = h.positive;
    in_range = ground (arith, next_lem rb.size rb.write_pos h.in_range);
    size = ground (arith, length-push rb.size d l);
    bounded = ground arith;
    filling = ground (arith, next_lem rb.size rb.write_pos h.in_range);
    cells = add_cells d;
    total = add_total d;
  }

fresh : ℕ → TimeDurationRingBuffer
fresh n = record { buffer = replicate n 0; size = n; count = 0; write_pos = 0; sum = 0 }

fresh-Holds : (n : ℕ) → 0 < n → Holds (fresh n) []
unfolding fresh
fresh-Holds n h = record {
  room = length-replicate {A = ℕ} n 0;
  positive = h;
  in_range = h;
  size = refl;
  bounded = omega arith;
  filling = λ _. refl;
  cells = λ i k. absurd (omega arith);
  total = refl;
}

new_lem :
    (size : ℤ) {rb : TimeDurationRingBuffer}
    → new_time_duration_ring_buffer size ≡ some rb
    → (n : ℕ) × (0 < n) × (fresh n ≡ rb)
unfolding new_time_duration_ring_buffer fresh
new_lem size e = (pos_part size, ground arith, ground arith)

new-Holds :
    (size : ℤ) {rb : TimeDurationRingBuffer}
    → new_time_duration_ring_buffer size ≡ some rb
    → Holds rb []
new-Holds size e =
    let (n, h, same) = new_lem size e in subst (λ r. Holds r []) same (fresh-Holds n h)

reset-Holds : {rb : TimeDurationRingBuffer} {l : List ℕ} → Holds rb l → Holds (reset rb) []
unfolding reset
reset-Holds {rb} h = record {
  room = length-replicate rb.size 0;
  positive = h.positive;
  in_range = h.positive;
  size = refl;
  bounded = omega arith;
  filling = λ _. refl;
  cells = λ i k. absurd (omega arith);
  total = refl;
}

-- The buffer after a sequence of durations.
unfoldable pub run_adds : TimeDurationRingBuffer → List ℕ → TimeDurationRingBuffer
run_adds rb [] = rb
run_adds rb (d ∷ ds) = run_adds (add rb d) ds

run_adds-Holds_from :
    (ds : List ℕ) (rb : TimeDurationRingBuffer) (l : List ℕ)
    → AllWords ds
    → AllWords l
    → Holds rb (take rb.size l)
    → Holds (run_adds rb ds) (take rb.size (newest_first ds l))
unfolding run_adds add
run_adds-Holds_from [] rb l hs hl h = h
run_adds-Holds_from (d ∷ ds) rb l hs hl h =
    run_adds-Holds_from ds (add rb d) (d ∷ l) hs.1 (hs.0, hl)
      (rw (← push-take rb.size d l) (add-Holds h (AllWords-take rb.size l hl) d))

-- A new buffer, after any sequence of durations, holds exactly the last `size` of them, newest
-- first: the cells, their number, and their sum as an int64.
pub run_adds-Holds_recent :
    (size : ℤ) (ds : List ℕ) {rb : TimeDurationRingBuffer}
    → new_time_duration_ring_buffer size ≡ some rb
    → AllWords ds
    → Holds (run_adds rb ds) (take rb.size (newest_first ds []))
run_adds-Holds_recent size ds {rb} e words =
    run_adds-Holds_from ds rb [] words tt
      (rw (take_all {A = ℕ} rb.size [] (omega arith)) (new-Holds size e))

pub avg_lem :
    {rb : TimeDurationRingBuffer} {l : List ℕ}
    → Holds rb l
    → sum l < 2 ^ 63
    → avg rb ≡ sum l / length l
unfolding avg
avg_lem {rb} {l} h small =
    ground (arith, h.total, h.size, div-zero (sum l), ap (λ (t : ℕ). sum l / t) h.size)

-- After any sequence of durations that are int64 patterns, if those still in the buffer have a
-- sum below `2 ^ 63`, `avg` is their mean rounded down (0 if there is none).
pub run_adds-avg :
    (size : ℤ) (ds : List ℕ) {rb : TimeDurationRingBuffer}
    → new_time_duration_ring_buffer size ≡ some rb
    → AllWords ds
    → sum (take rb.size (newest_first ds [])) < 2 ^ 63
    → let l = take rb.size (newest_first ds []) in avg (run_adds rb ds) ≡ sum l / length l
run_adds-avg size ds e words small = avg_lem (run_adds-Holds_recent size ds e words) small

reset-run_adds_from :
    (ds : List ℕ) (rb : TimeDurationRingBuffer) → reset (run_adds rb ds) ≡ reset rb
unfolding run_adds reset add
reset-run_adds_from [] rb = refl
reset-run_adds_from (d ∷ ds) rb = reset-run_adds_from ds (add rb d)

reset-fresh : (n : ℕ) → reset (fresh n) ≡ fresh n
unfolding reset fresh
reset-fresh n = refl

-- Resetting a new buffer, after any sequence of durations, gives back the new buffer.
pub reset-run_adds :
    (size : ℤ) (ds : List ℕ) {rb : TimeDurationRingBuffer}
    → new_time_duration_ring_buffer size ≡ some rb
    → reset (run_adds rb ds) ≡ rb
reset-run_adds size ds {rb} e =
    let (n, h, same) = new_lem size e in
    reset-run_adds_from ds rb ∙ subst (λ r. reset r ≡ r) same (reset-fresh n)
