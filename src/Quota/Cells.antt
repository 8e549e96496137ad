-- ===== src/Quota/Cells.antt =====
-- A store of numbers that meets what the code relies on: a function from keys to numbers.
use text.Mathlib.Text.{◌==◌}
use text.Mathlib.TextEquality.{eq_iff}
use jotify.Prelude.{◌≡◌, ◌≢◌, refl, arith, Bool-cases, inl, inr, if◌then◌else◌, String}
use jotify.Prelude.Int.{ℤ, ◌+ℤ◌, ◌-ℤ◌}
use jotify.Quota.{Redis, IsRedis, answers}

abbrev write : String → ℤ → (String → ℤ) → String → ℤ
write k v s j = if j == k then v else s j

abbrev pub cells : Redis
cells = record {
  Store = String → ℤ;
  value = λ s k. s k;
  set = write;
  incr_by = λ k q s. write k (s k +ℤ q) s;
  decr_by = λ k q s. write k (s k -ℤ q) s;
  reply = λ s. answers;
}

write_same : (k : String) (v : ℤ) (s : String → ℤ) → write k v s k ≡ v
write_same k v s = ground (arith, (eq_iff k k).1 refl)

write_other : (j k : String) (v : ℤ) (s : String → ℤ) → j ≢ k → write k v s j ≡ s j
write_other j k v s ne = elim (Bool-cases (j == k)) [
  | inl e ↦ elim (ne ((eq_iff j k).0 e)) [ ]
  | inr e ↦ ground arith
]

pub cells-IsRedis : IsRedis cells
cells-IsRedis = record {
  value-set = λ s k v. write_same k v s;
  value-incr_by = λ s k q. write_same k (s k +ℤ q) s;
  value-decr_by = λ s k q. write_same k (s k -ℤ q) s;
  value-set_other = λ s j k v ne. write_other j k v s ne;
  value-incr_by_other = λ s j k q ne. write_other j k (s k +ℤ q) s ne;
  value-decr_by_other = λ s j k q ne. write_other j k (s k -ℤ q) s ne;
}
