-- ===== src/Sharding/Agree.antt =====
-- The shard found from an id is the shard that its notification was stored in.
use Prim.Native.Nat.{◌∣◌}
use native.Mathlib.Nat.{
  mod-mod_of_dvd, div-add-mod, mul-add-div, dvd_trans, dvd-mul_right, mul-div_cancel',
  mul-add-mod_self_left,
}
use jotify.Prelude.{ℕ, ◌+◌, ◌*◌, ◌/◌, ◌%◌, ◌^◌, ◌<◌, ◌≡◌, ◌≢◌, sym, ap, ap₂, ◌∙◌, String, arith}
use jotify.Snowflake.{Generator, hash_key, next_id}
use jotify.Snowflake.Layout.{next_id_fields}
use jotify.Sharding.{HashStrategy, dst, shard, shard_with_id}

-- The digit of weight `d` in base `t` survives reduction by `d * t * k`.
middle_digit : (h d t k : ℕ) → 0 < d → h % (d * (t * k)) / d % t ≡ h / d % t
middle_digit h d t k pos =
    let m = d * (t * k) in
    let whole : h ≡ d * (t * (k * (h / m))) + h % m = omega (arith, div-add-mod h m) in
    sym (
      ap (λ (x : ℕ). x / d % t) whole
      ∙ ap (λ (x : ℕ). x % t) (mul-add-div pos (t * (k * (h / m))) (h % m))
      ∙ mul-add-mod_self_left t (k * (h / m)) (h % m / d))

suffixes :
    (h d t : ℕ)
    → 0 < d
    → d * t ∣ 2 ^ 10
    → (h % 2 ^ 10 % d ≡ h % d) × (h % 2 ^ 10 / d % t ≡ h / d % t)
suffixes h d t pos dvd =
    let k = 2 ^ 10 / (d * t) in
    let whole : 2 ^ 10 ≡ d * (t * k) = omega (arith, mul-div_cancel' (d * t) dvd) in
    (
      mod-mod_of_dvd d h (dvd_trans d (dvd-mul_right d t) dvd),
      ap (λ (x : ℕ). h % x / d % t) whole ∙ middle_digit h d t k pos,
    )

-- Where the number of databases times the number of tables divides 2 ^ 10, the shard computed
-- from a generated id is the shard computed from the business id and key that it was made for.
pub shard_with_id-next_id :
    (sum64 : String → ℕ) (s : HashStrategy) (g : Generator) (now biz_id : ℕ) (biz_key : String)
    → 0 < s.db_sharding
    → s.db_sharding * s.table_sharding ∣ 2 ^ 10
    → shard_with_id s (next_id sum64 g now biz_id biz_key).1 ≡ shard sum64 s biz_id biz_key
unfolding shard_with_id shard
shard_with_id-next_id sum64 s g now biz_id biz_key pos dvd =
    let h = sum64 (hash_key biz_id biz_key) in
    let (field, _, _) = next_id_fields sum64 g now biz_id biz_key in
    let (db, table) = suffixes h s.db_sharding s.table_sharding pos dvd in
    ap (λ (x : ℕ). dst s (x % s.db_sharding) (x / s.db_sharding % s.table_sharding)) field
    ∙ ap₂ (dst s) db table

-- For a business id and key whose hash and the low 10 bits of it have different remainders by the
-- number of databases, the id points to another database than the one of the business id and key.
pub shard_with_id_wrong :
    (sum64 : String → ℕ) (s : HashStrategy) (g : Generator) (now biz_id : ℕ) (biz_key : String)
    → sum64 (hash_key biz_id biz_key) % 2 ^ 10 % s.db_sharding
      ≢ sum64 (hash_key biz_id biz_key) % s.db_sharding
    → (shard_with_id s (next_id sum64 g now biz_id biz_key).1).db_suffix
      ≢ (shard sum64 s biz_id biz_key).db_suffix
unfolding shard_with_id shard
shard_with_id_wrong sum64 s g now biz_id biz_key differ same =
    let (field, _, _) = next_id_fields sum64 g now biz_id biz_key in
    differ (ap (λ (x : ℕ). x % s.db_sharding) (sym field) ∙ same)
