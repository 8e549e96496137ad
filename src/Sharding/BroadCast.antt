-- ===== src/Sharding/BroadCast.antt =====
-- The broadcast list has every database and table once, and so every shard.
use native.Mathlib.Nat.{mod-lt, add-zero, zero-add}
use jotify.Prelude.{
  ℕ, zero, suc, ◌+◌, ◌*◌, ◌/◌, ◌%◌, ◌<◌, ◌≡◌, refl, sym, ap, ap₂, ◌∙◌, String, List, [], ◌∷◌, ◌++◌,
  some, arith, get_elem?, length, length-append,
}
use jotify.Snowflake.{hash_key}
use jotify.Sharding.{HashStrategy, Dst, dst, shard, broad_cast, broad_cast_dbs, broad_cast_tables}

get_elem?-append_left :
    (xs ys : List Dst) (i : ℕ) → i < length xs → get_elem? (xs ++ ys) i ≡ get_elem? xs i
get_elem?-append_left [] ys i h = elim h [ ]
get_elem?-append_left (x ∷ xs) ys zero h = refl
get_elem?-append_left (x ∷ xs) ys (suc i) h = get_elem?-append_left xs ys i (omega arith)

get_elem?-append_right :
    (xs ys : List Dst) (i : ℕ) → get_elem? (xs ++ ys) (length xs + i) ≡ get_elem? ys i
get_elem?-append_right [] ys i = ap (get_elem? ys) (omega arith)
get_elem?-append_right (x ∷ xs) ys i =
    ap (get_elem? (x ∷ xs ++ ys))
      (let e : suc (length xs) + i ≡ suc (length xs + i) = omega arith in e)
    ∙ get_elem?-append_right xs ys i

module _ (h : HashStrategy) where
  length-tables : (i j n : ℕ) → length (broad_cast_tables h i j n) ≡ n
  unfolding broad_cast_tables
  length-tables i j zero = refl
  length-tables i j (suc n) = ap suc (length-tables i (j + 1) n)

  get_elem?-tables :
      (i j n k : ℕ) → k < n → get_elem? (broad_cast_tables h i j n) k ≡ some (dst h i (j + k))
  unfolding broad_cast_tables
  get_elem?-tables i j zero k lt = elim lt [ ]
  get_elem?-tables i j (suc n) zero lt = ap (λ (x : ℕ). some (dst h i x)) (omega arith)
  get_elem?-tables i j (suc n) (suc k) lt =
      get_elem?-tables i (j + 1) n k (omega arith) ∙ ap (λ (x : ℕ). some (dst h i x)) (omega arith)

  length-dbs : (i n : ℕ) → length (broad_cast_dbs h i n) ≡ n * h.table_sharding
  unfolding broad_cast_dbs
  length-dbs i zero = omega arith
  length-dbs i (suc n) = omega (
    arith,
    length-append (broad_cast_tables h i 0 h.table_sharding) (broad_cast_dbs h (i + 1) n),
    length-tables i 0 h.table_sharding,
    length-dbs (i + 1) n,
  )

  get_elem?-dbs :
      (i n k j : ℕ)
      → k < n
      → j < h.table_sharding
      → get_elem? (broad_cast_dbs h i n) (k * h.table_sharding + j) ≡ some (dst h (i + k) j)
  unfolding broad_cast_dbs
  get_elem?-dbs i zero k j lt small = elim lt [ ]
  get_elem?-dbs i (suc n) zero j lt small =
      let tables = broad_cast_tables h i 0 h.table_sharding in
      let rest = broad_cast_dbs h (i + 1) n in
      let inside : j < length tables = omega (arith, length-tables i 0 h.table_sharding) in
      ap (get_elem? (tables ++ rest)) (let e : 0 * h.table_sharding + j ≡ j = omega arith in e)
      ∙ get_elem?-append_left tables rest j inside
      ∙ get_elem?-tables i 0 h.table_sharding j small
      ∙ ap₂ (λ (x y : ℕ). some (dst h x y)) (sym (add-zero i)) (zero-add j)
  get_elem?-dbs i (suc n) (suc k) j lt small =
      let tables = broad_cast_tables h i 0 h.table_sharding in
      let rest = broad_cast_dbs h (i + 1) n in
      let past : suc k * h.table_sharding + j ≡ length tables + (k * h.table_sharding + j) =
        omega (arith, length-tables i 0 h.table_sharding) in
      ap (get_elem? (tables ++ rest)) past
      ∙ get_elem?-append_right tables rest (k * h.table_sharding + j)
      ∙ get_elem?-dbs (i + 1) n k j (omega arith) small
      ∙ ap (λ (x : ℕ). some (dst h x j)) (omega arith)

  -- The broadcast lists as many destinations as there are tables in all databases, and table `j`
  -- of database `i` stands at `i * table_sharding + j`.
  pub broad_cast_lem :
      (i j : ℕ)
      → i < h.db_sharding
      → j < h.table_sharding
      → (length (broad_cast h) ≡ h.db_sharding * h.table_sharding)
        × (get_elem? (broad_cast h) (i * h.table_sharding + j) ≡ some (dst h i j))
  unfolding broad_cast
  broad_cast_lem i j p q = (
    length-dbs 0 h.db_sharding,
    get_elem?-dbs 0 h.db_sharding i j p q ∙ ap (λ (x : ℕ). some (dst h x j)) (zero-add i),
  )

  -- The shard of every business id and key is listed by the broadcast, at its place.
  pub broad_cast-shard :
      (sum64 : String → ℕ) (biz_id : ℕ) (biz_key : String)
      → 0 < h.db_sharding
      → 0 < h.table_sharding
      → let d = shard sum64 h biz_id biz_key in
        get_elem? (broad_cast h) (d.db_suffix * h.table_sharding + d.table_suffix) ≡ some d
  unfolding shard
  broad_cast-shard sum64 biz_id biz_key p q =
      let v = sum64 (hash_key biz_id biz_key) in
      (broad_cast_lem (v % h.db_sharding) (v / h.db_sharding % h.table_sharding) (mod-lt v p)
        (mod-lt (v / h.db_sharding) q)).1
