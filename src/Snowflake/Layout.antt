-- ===== src/Snowflake/Layout.antt =====
-- What the three fields of an id hold, and that ids of one generator differ.
use Prim.Native.Nat.{bit_and, bit_or}
use jotify.Prelude.{
  ℕ, zero, suc, ◌+◌, ◌-◌, ◌*◌, ◌%◌, ◌^◌, ◌≤◌, ◌<◌, ◌≡◌, ◌≢◌, refl, ap, ◌∙◌, String, List, [], ◌∷◌,
  arith, get_or, length,
}
use jotify.Prelude.Bits.{shl, shr, bit_and-low_mask, bit_or-shl}
use jotify.Prelude.Words.{add_u64, sub_u64}
use jotify.Snowflake.{
  Generator, hash_key, next_id, extract_timestamp, extract_hash, extract_sequence, epoch_millis,
}

-- Three fields packed by shifts and `|` are a sum.
pack :
    (t h s : ℕ)
    → h < 2 ^ 10
    → s < 2 ^ 12
    → bit_or (bit_or (shl t 22) (shl h 12)) s ≡ t * 2 ^ 22 + h * 2 ^ 12 + s
pack t h s ph ps =
    let high : bit_or (shl t 22) (shl h 12) ≡ shl (t * 2 ^ 10 + h) 12 =
      bit_or-shl t (shl h 12) 22 (omega arith) ∙ omega arith in
    ap (λ (x : ℕ). bit_or x s) high ∙ bit_or-shl (t * 2 ^ 10 + h) s 12 ps ∙ omega arith

module _ (sum64 : String → ℕ) (g : Generator) (now biz_id : ℕ) (biz_key : String) where
  next_id_sum :
      (next_id sum64 g now biz_id biz_key).1
      ≡ sub_u64 now epoch_millis % 2 ^ 41 * 2 ^ 22
        + sum64 (hash_key biz_id biz_key) % 2 ^ 10 * 2 ^ 12
        + g.sequence % 2 ^ 12
  unfolding next_id
  next_id_sum =
      let t = sub_u64 now epoch_millis in
      let h = sum64 (hash_key biz_id biz_key) in
      let q = sub_u64 (add_u64 g.sequence 1) 1 in
      ap (λ (x : ℕ). bit_or (bit_or (shl x 22) (shl (bit_and h 1023) 12)) (bit_and q 4095))
        (bit_and-low_mask t 41)
      ∙ ap (λ (x : ℕ). bit_or (bit_or (shl (t % 2 ^ 41) 22) (shl x 12)) (bit_and q 4095))
          (bit_and-low_mask h 10)
      ∙ ap (λ (x : ℕ). bit_or (bit_or (shl (t % 2 ^ 41) 22) (shl (h % 2 ^ 10) 12)) x)
          (bit_and-low_mask q 12)
      ∙ pack (t % 2 ^ 41) (h % 2 ^ 10) (q % 2 ^ 12) (omega arith) (omega arith)
      ∙ omega arith

  -- The hash field of an id is the low 10 bits of the hash of its business id and key, and the
  -- sequence field is the low 12 bits of the counter; the id is below 2 ^ 63.
  pub next_id_fields :
      let id = (next_id sum64 g now biz_id biz_key).1 in
      (extract_hash id ≡ sum64 (hash_key biz_id biz_key) % 2 ^ 10)
      × (extract_sequence id ≡ g.sequence % 2 ^ 12)
      × (id < 2 ^ 63)
  unfolding extract_hash extract_sequence
  next_id_fields =
      let id = (next_id sum64 g now biz_id biz_key).1 in
      (
        bit_and-low_mask (shr id 12) 10 ∙ omega (arith, next_id_sum),
        bit_and-low_mask id 12 ∙ omega (arith, next_id_sum),
        omega (arith, next_id_sum),
      )

  -- At a time from the epoch on, for 2 ^ 41 milliseconds, the time of an id is the millisecond of
  -- its making, in nanoseconds, which an int64 can hold.
  pub next_id_timestamp :
      epoch_millis ≤ now
      → now < epoch_millis + 2 ^ 41
      → (extract_timestamp (next_id sum64 g now biz_id biz_key).1 ≡ now * 1000000)
        × (now * 1000000 < 2 ^ 63)
  unfolding extract_timestamp
  next_id_timestamp lo hi =
      let id = (next_id sum64 g now biz_id biz_key).1 in
      let field : bit_and (shr id 22) (2 ^ 41 - 1) ≡ now - epoch_millis =
        bit_and-low_mask (shr id 22) 41 ∙ omega (arith, next_id_sum) in
      (omega (arith, field), omega arith)

-- A request for an id: the time, the business id and the key.
pub record Request : Type 0 where
  pub now : ℕ
  pub biz_id : ℕ
  pub biz_key : String

unfoldable pub next_ids : (String → ℕ) → Generator → List Request → List ℕ
next_ids sum64 g [] = []
next_ids sum64 g (r ∷ rs) =
    let (g', id) = next_id sum64 g r.now r.biz_id r.biz_key in id ∷ next_ids sum64 g' rs

sequence-next_id :
    (sum64 : String → ℕ) (g : Generator) (r : Request)
    → (next_id sum64 g r.now r.biz_id r.biz_key).0.sequence ≡ add_u64 g.sequence 1
unfolding next_id
sequence-next_id sum64 g r = refl

next_ids_sequence :
    (sum64 : String → ℕ) (g : Generator) (rs : List Request) (i : ℕ)
    → i < length rs
    → get_or (next_ids sum64 g rs) i 0 % 2 ^ 12 ≡ (g.sequence + i) % 2 ^ 12
unfolding next_ids
next_ids_sequence sum64 g [] i h = absurd (omega arith)
next_ids_sequence sum64 g (r ∷ rs) zero h =
    omega (arith, next_id_sum sum64 g r.now r.biz_id r.biz_key)
next_ids_sequence sum64 g (r ∷ rs) (suc i) h =
    let g' = (next_id sum64 g r.now r.biz_id r.biz_key).0 in
    omega (arith, next_ids_sequence sum64 g' rs i (omega arith), sequence-next_id sum64 g r)

-- Among ids that one generator makes in a row, two less than 4096 apart differ, whatever the
-- clock does and whatever the business ids and keys are.
pub next_ids_distinct :
    (sum64 : String → ℕ) (g : Generator) (rs : List Request) (i j : ℕ)
    → i < j
    → j < length rs
    → j < i + 2 ^ 12
    → get_or (next_ids sum64 g rs) i 0 ≢ get_or (next_ids sum64 g rs) j 0
next_ids_distinct sum64 g rs i j lt bound near =
    omega
      (arith, next_ids_sequence sum64 g rs i (omega arith), next_ids_sequence sum64 g rs j bound)
