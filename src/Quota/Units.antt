-- ===== src/Quota/Units.antt =====
-- The quota of one business and channel as a counter: what can still be spent is the stored
-- number, or nothing when that is negative.
use jotify.Prelude.{if◌then◌else◌, ℕ, suc, ◌≡◌, refl, arith, Bool, true, false, String}
use jotify.Prelude.Int.{pos, pos_part, ◌+ℤ◌, ◌-ℤ◌, ltb_ℤ}
use jotify.Errs.{Result, ok, err, Error, insufficient_quota}
use jotify.Quota.{
  Redis, IsRedis, Reply, answers, unreached, lost, replied, QuotaParam, param_key, int32_of,
  incr_script, incr, decr,
}

module _ (r : Redis) where
  -- What is left to spend.
  unfoldable pub left : r.Store → String → ℕ
  left s k = pos_part (r.value s k)

  -- An operation that takes one unit where one is left, and refuses otherwise, where it is
  -- answered; a call that does not reach redis takes none, and one whose answer is lost takes one
  -- where one is left.
  pub data TakesOne (k : String) (s : r.Store) : Result (Unit {0}) × r.Store → Type 0 where
    taken :
        (t : r.Store) → r.reply s ≡ answers → left s k ≡ suc (left t k) → TakesOne k s (ok tt, t)
    refused :
        (t : r.Store)
        → r.reply s ≡ answers
        → left s k ≡ 0
        → left t k ≡ 0
        → TakesOne k s (err insufficient_quota, t)
    not_reached : (e : Error) → r.reply s ≡ unreached e → TakesOne k s (err e, s)
    taken_lost :
        (t : r.Store) (e : Error)
        → r.reply s ≡ lost e
        → left s k ≡ suc (left t k)
        → TakesOne k s (err e, t)
    refused_lost :
        (t : r.Store) (e : Error)
        → r.reply s ≡ lost e
        → left s k ≡ 0
        → left t k ≡ 0
        → TakesOne k s (err e, t)

  -- An operation that gives one unit, where its call reaches redis.
  pub data GivesOne (k : String) (s : r.Store) : Result (Unit {0}) × r.Store → Type 0 where
    given :
        (t : r.Store) → r.reply s ≡ answers → left t k ≡ suc (left s k) → GivesOne k s (ok tt, t)
    not_reached : (e : Error) → r.reply s ≡ unreached e → GivesOne k s (err e, s)
    given_lost :
        (t : r.Store) (e : Error)
        → r.reply s ≡ lost e
        → left t k ≡ suc (left s k)
        → GivesOne k s (err e, t)

module _ (r : Redis) (laws : IsRedis r) where
  -- Taking one unit, where redis answers, succeeds exactly when one is left, and leaves one less;
  -- otherwise it reports the missing quota, and nothing was left and nothing is. Where the call
  -- does not reach redis it changes nothing, and where the answer is lost it has done the same.
  pub decr-TakesOne :
      (p : QuotaParam) (s : r.Store) → p.quota ≡ 1 → TakesOne r (param_key p) s (decr r p s)
  unfolding decr left ◌-ℤ◌
  decr-TakesOne p s one = branch (r.reply s) refl (ltb_ℤ (r.value after key) (pos 0)) refl
    where
      key : String
      key = param_key p

      after : r.Store
      after = r.decr_by key (int32_of p.quota) s

      branch :
          (q : Reply)
          → r.reply s ≡ q
          → (b : Bool) → ltb_ℤ (r.value after key) (pos 0) ≡ b
          → TakesOne r key s
              (replied q s (if b then (err insufficient_quota, after) else (ok tt, after)))
      branch answers q true e =
          TakesOne.refused after q (ground (arith, laws.value-decr_by s key (int32_of p.quota)))
            (ground (arith, laws.value-decr_by s key (int32_of p.quota)))
      branch answers q false e =
          TakesOne.taken after q (ground (arith, laws.value-decr_by s key (int32_of p.quota)))
      branch (unreached x) q b e = TakesOne.not_reached x q
      branch (lost x) q true e =
          TakesOne.refused_lost after x q
            (ground (arith, laws.value-decr_by s key (int32_of p.quota)))
            (ground (arith, laws.value-decr_by s key (int32_of p.quota)))
      branch (lost x) q false e =
          TakesOne.taken_lost after x q
            (ground (arith, laws.value-decr_by s key (int32_of p.quota)))

  -- The script that gives one unit back leaves one more than before.
  incr_script-left :
      (p : QuotaParam) (s : r.Store)
      → p.quota ≡ 1
      → left r (incr_script r p s) (param_key p) ≡ suc (left r s (param_key p))
  unfolding incr_script left ◌+ℤ◌
  incr_script-left p s one = ground (
    arith,
    laws.value-set s (param_key p) (int32_of p.quota),
    laws.value-incr_by s (param_key p) (int32_of p.quota),
  )

  -- So does the call, where it reaches redis, also where its answer is lost.
  pub incr-GivesOne :
      (p : QuotaParam) (s : r.Store) → p.quota ≡ 1 → GivesOne r (param_key p) s (incr r p s)
  unfolding incr
  incr-GivesOne p s one = branch (r.reply s) refl
    where
      branch :
          (q : Reply)
          → r.reply s ≡ q
          → GivesOne r (param_key p) s (replied q s (ok tt, incr_script r p s))
      branch answers q = GivesOne.given _ q (incr_script-left p s one)
      branch (unreached e) q = GivesOne.not_reached e q
      branch (lost e) q = GivesOne.given_lost _ e q (incr_script-left p s one)
