-- ===== src/Sharding/Tests.antt =====
-- Two databases of four tables, and the theorems at them.
use jotify.Prelude.{ℕ, ◌≡◌, refl, String, arith, length}
use jotify.Prelude.Text.{format_uint}
use jotify.Snowflake.{Generator, next_id}
use jotify.Sharding.{HashStrategy, dst, shard, shard_with_id, broad_cast, extract_suffix_and_format}
use jotify.Sharding.Agree.{shard_with_id-next_id}

-- a stand-in for the hash
abbrev hash : String → ℕ
hash s = 5003

abbrev two_by_four : HashStrategy
two_by_four = record {
  db_prefix = "jotify";
  table_prefix = "notification";
  db_sharding = 2;
  table_sharding = 4;
}

abbrev generator : Generator
generator = record { sequence = 7 }

eight : length (broad_cast two_by_four) ≡ 8
unfolding broad_cast
eight = refl

names : (dst two_by_four 1 3).table ≡ "notification_3"
unfolding format_uint
names = refl

table_of : extract_suffix_and_format two_by_four "callback_log_3" ≡ "notification_3"
unfolding extract_suffix_and_format
table_of = refl

shard_with_id-next_id_example :
    shard_with_id two_by_four (next_id hash generator 1735689600005 42 "order").1
    ≡ shard hash two_by_four 42 "order"
shard_with_id-next_id_example =
    shard_with_id-next_id hash two_by_four generator 1735689600005 42 "order" (omega arith)
      ∣ (128, refl) ∣₁
