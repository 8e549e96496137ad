-- ===== src/Quota.antt =====
-- internal/repository/cache/redis/quota.go with its scripts quota_incr.lua, quota_bach_incr.lua
-- and quota_bach_decr.lua: the quota of each business and channel, kept in redis. `Redis` is the
-- store as the code relies on it, with what becomes of a call of Incr or Decr in a state; the errors
-- of the connection are left out of the operations on batches.
pub mod Units
pub mod Batch
pub mod Cells
mod Tests
use Prim.Native.String.{◌++◌}
use jotify.Prelude.{
  ℕ, ◌+◌, ◌-◌, ◌^◌, ◌≡◌, ◌≢◌, Bool, if◌then◌else◌, ltb, String, List, [], ◌∷◌, Option, none, some,
}
use jotify.Prelude.Text.{format_uint}
use jotify.Prelude.Int.{ℤ, pos, negsuc, ◌+ℤ◌, ◌-ℤ◌, ltb_ℤ}
use jotify.Errs.{Result, ok, err, Error, insufficient_quota, other}
use jotify.Domain.{Channel}

-- What becomes of a call: redis runs it and answers, it does not reach redis, or redis runs it and
-- the answer is lost. The client answers the error in the last two.
pub data Reply : Type 0 where
  answers : Reply
  unreached : Error → Reply
  lost : Error → Reply

-- The commands of redis on the keys that hold numbers. `value` is `GET key or 0`: a key that is
-- missing counts as 0 for DECRBY and INCRBY as well.
pub record Redis : Type 1 where
  pub Store : Type 0
  pub value : Store → String → ℤ
  pub set : String → ℤ → Store → Store
  pub incr_by : String → ℤ → Store → Store
  pub decr_by : String → ℤ → Store → Store
  pub reply : Store → Reply

-- What the commands do to the key that they name, and to the others.
pub record IsRedis (r : Redis) : Type 0 where
  pub value-set : (s : r.Store) (k : String) (v : ℤ) → r.value (r.set k v s) k ≡ v
  pub value-incr_by :
      (s : r.Store) (k : String) (q : ℤ) → r.value (r.incr_by k q s) k ≡ r.value s k +ℤ q
  pub value-decr_by :
      (s : r.Store) (k : String) (q : ℤ) → r.value (r.decr_by k q s) k ≡ r.value s k -ℤ q
  pub value-set_other :
      (s : r.Store) (j k : String) (v : ℤ) → j ≢ k → r.value (r.set k v s) j ≡ r.value s j
  pub value-incr_by_other :
      (s : r.Store) (j k : String) (q : ℤ) → j ≢ k → r.value (r.incr_by k q s) j ≡ r.value s j
  pub value-decr_by_other :
      (s : r.Store) (j k : String) (q : ℤ) → j ≢ k → r.value (r.decr_by k q s) j ≡ r.value s j

-- `quota` is the int32 as its 32 bits.
pub record QuotaParam : Type 0 where
  pub biz_id : ℕ
  pub channel : Channel
  pub quota : ℕ

abbrev pub int32_of : ℕ → ℤ
int32_of w = if ltb w (2 ^ 31) then pos w else negsuc (2 ^ 32 - w - 1)

unfoldable pub redis_key : ℕ → Channel → String
redis_key biz_id channel = "quota:" ++ format_uint biz_id ++ ":" ++ channel

abbrev pub param_key : QuotaParam → String
param_key p = redis_key p.biz_id p.channel

-- What the client gives, from what the call does where it runs.
abbrev pub replied : {S : Type 0} → Reply → S → Result (Unit {0}) × S → Result (Unit {0}) × S
replied answers s x = x
replied (unreached e) s x = (err e, s)
replied (lost e) s (_, t) = (err e, t)

module _ (r : Redis) where
  -- quota_incr.lua
  unfoldable pub incr_script : QuotaParam → r.Store → r.Store
  unfolding redis_key
  incr_script p s =
      let key = param_key p in
      let quota = int32_of p.quota in
      let current = r.value s key in
      if ltb_ℤ current (pos 0)
      then r.set key quota s
      else if ltb_ℤ (pos 0) current
      then r.incr_by key quota s
      else r.set key quota s

  unfoldable pub incr : QuotaParam → r.Store → Result (Unit {0}) × r.Store
  unfolding incr_script
  incr p s = replied (r.reply s) s (ok tt, incr_script p s)

  -- The amount is taken away before it is compared.
  unfoldable pub decr : QuotaParam → r.Store → Result (Unit {0}) × r.Store
  unfolding redis_key
  decr p s =
      let key = param_key p in
      let after = r.decr_by key (int32_of p.quota) s in
      replied (r.reply s) s (
        if ltb_ℤ (r.value after key) (pos 0)
        then (err insufficient_quota, after)
        else (ok tt, after))

  -- The loop of quota_bach_incr.lua.
  batch_incr_loop : List QuotaParam → r.Store → r.Store
  batch_incr_loop [] s = s
  batch_incr_loop (p ∷ ps) s =
      let key = param_key p in
      let quota = int32_of p.quota in
      batch_incr_loop ps
        (if ltb_ℤ (r.value s key) (pos 0) then r.set key quota s else r.incr_by key quota s)

  unfoldable pub batch_incr : List QuotaParam → r.Store → Result (Unit {0}) × r.Store
  unfolding batch_incr_loop
  batch_incr ps s = (ok tt, batch_incr_loop ps s)

  -- The two loops of quota_bach_decr.lua: the first key whose quota is not enough, and the
  -- subtractions.
  lacking : List QuotaParam → r.Store → Option String
  unfolding redis_key
  lacking [] s = none
  lacking (p ∷ ps) s =
      let rest = lacking ps s in
      if ltb_ℤ (r.value s (param_key p)) (int32_of p.quota) then some (param_key p) else rest

  batch_decr_loop : List QuotaParam → r.Store → r.Store
  batch_decr_loop [] s = s
  batch_decr_loop (p ∷ ps) s = batch_decr_loop ps (r.decr_by (param_key p) (int32_of p.quota) s)

  unfoldable pub batch_decr : List QuotaParam → r.Store → Result (Unit {0}) × r.Store
  unfolding lacking batch_decr_loop
  batch_decr ps s = elim (lacking ps s) [
    | none ↦ (ok tt, batch_decr_loop ps s)
    | some key ↦ (err (other ("[jotify] the quota of " ++ key ++ " is not enough")), s)
  ]
