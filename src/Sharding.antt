-- ===== src/Sharding.antt =====
-- internal/pkg/sharding: the database and table that a notification is stored in, by the hash of
-- its business id and key or by its id. A strategy with 0 databases or tables would divide by
-- zero; the theorems take positive numbers.
pub mod Agree
pub mod BroadCast
mod Tests
use Prim.Native.Char.{code}
use Prim.Native.String.{◌++◌}
use jotify.Prelude.{ℕ, zero, suc, ◌+◌, ◌*◌, ◌/◌, ◌%◌, String, List, [], ◌∷◌, ◌==◌, if◌then◌else◌}
use mathlib.Core.List
use jotify.Prelude.Text.{format_uint}
use jotify.Snowflake.{hash_key, extract_hash}

pub record HashStrategy : Type 0 where
  pub db_prefix : String
  pub table_prefix : String
  pub db_sharding : ℕ
  pub table_sharding : ℕ

pub record Dst : Type 0 where
  pub db_suffix : ℕ
  pub table_suffix : ℕ
  pub db : String
  pub table : String

-- The Sprintf of both names: "%s_%d".
abbrev pub numbered : String → ℕ → String
numbered name n = name ++ "_" ++ format_uint n

abbrev pub dst : HashStrategy → ℕ → ℕ → Dst
dst h db_suffix table_suffix = record {
  db_suffix = db_suffix;
  table_suffix = table_suffix;
  db = numbered h.db_prefix db_suffix;
  table = numbered h.table_prefix table_suffix;
}

unfoldable pub shard : (String → ℕ) → HashStrategy → ℕ → String → Dst
shard sum64 h biz_id biz_key =
    let hash_val = sum64 (hash_key biz_id biz_key) in
    dst h (hash_val % h.db_sharding) (hash_val / h.db_sharding % h.table_sharding)

unfoldable pub shard_with_id : HashStrategy → ℕ → Dst
shard_with_id h id =
    let hash_val = extract_hash id in
    dst h (hash_val % h.db_sharding) (hash_val / h.db_sharding % h.table_sharding)

-- The inner loop from table `j` on, with `n` rounds left.
broad_cast_tables : HashStrategy → ℕ → ℕ → ℕ → List Dst
broad_cast_tables h i j zero = []
broad_cast_tables h i j (suc n) = dst h i j ∷ broad_cast_tables h i (j + 1) n

-- The outer loop from database `i` on, with `n` rounds left.
broad_cast_dbs : HashStrategy → ℕ → ℕ → List Dst
broad_cast_dbs h i zero = []
broad_cast_dbs h i (suc n) =
    List.◌++◌ (broad_cast_tables h i 0 h.table_sharding) (broad_cast_dbs h (i + 1) n)

unfoldable pub broad_cast : HashStrategy → List Dst
unfolding broad_cast_tables broad_cast_dbs
broad_cast h = broad_cast_dbs h 0 h.db_sharding

-- The last piece of strings.Split by "_", where `piece` is what the current piece has so far.
last_piece : String → String → String
last_piece piece String.[] = piece
last_piece piece (String.◌∷◌ c s) =
    last_piece (if code c == b'_' then "" else piece ++ (String.◌∷◌ c "")) s

unfoldable pub extract_suffix_and_format : HashStrategy → String → String
unfolding last_piece
extract_suffix_and_format h table_name = h.table_prefix ++ "_" ++ last_piece "" table_name

unfoldable pub new_hash_strategy : String → String → ℕ → ℕ → HashStrategy
new_hash_strategy db_prefix table_prefix db_sharding table_sharding = record {
  db_prefix = db_prefix;
  table_prefix = table_prefix;
  db_sharding = db_sharding;
  table_sharding = table_sharding;
}
