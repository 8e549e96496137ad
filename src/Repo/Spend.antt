-- ===== src/Repo/Spend.antt =====
-- How the operations on single notifications spend the quota and give it back.
use jotify.Prelude.{suc, ◌≡◌, refl, sym, ◌∙◌, ap, arith, String, List, ◌∷◌, map, some}
use jotify.Errs.{Result, ok, err, Error}
use jotify.Domain.Notification.{Notification}
use jotify.Quota.{Redis, IsRedis, unreached, lost, QuotaParam, param_key, decr, batch_decr}
use jotify.Quota.Units.{left, TakesOne, GivesOne, decr-TakesOne, incr-GivesOne}
use jotify.Repo.{
  batch_create, batch_create_by, batch_created, build_quota_params, Json, Dao, Entity, unit_param,
  to_entity, to_domain, created, create_by, create, create_with_callback, mark_failure,
  failure_marked,
}

-- What a creation has spent. An error has spent a unit only where redis has failed: the answer to
-- the spending was lost, or the call that gives the unit back did not reach redis.
pub data Spends (r : Redis) (k : String) (before after : r.Store)
    : Result Notification → Type 0 where
  spent :
      (n : Notification) → left r before k ≡ suc (left r after k) → Spends r k before after (ok n)
  kept : (e : Error) → left r before k ≡ left r after k → Spends r k before after (err e)
  spending_lost :
      (e : Error)
      → r.reply before ≡ lost e
      → left r before k ≡ suc (left r after k)
      → Spends r k before after (err e)
  not_given_back :
      (e refund_err : Error)
      → r.reply after ≡ unreached refund_err
      → left r before k ≡ suc (left r after k)
      → Spends r k before after (err e)

-- What marking a failure gives back, by the answer of the DAO.
pub data Refunds (r : Redis) (k : String) (before after : r.Store)
    : Result (Unit {0}) → Result (Unit {0}) → Type 0 where
  refunded : left r after k ≡ suc (left r before k) → Refunds r k before after (ok tt) (ok tt)
  not_marked : (e : Error) → before ≡ after → Refunds r k before after (err e) (err e)
  refund_unreached :
      (e : Error)
      → r.reply before ≡ unreached e
      → before ≡ after
      → Refunds r k before after (ok tt) (err e)
  refund_lost :
      (e : Error)
      → r.reply before ≡ lost e
      → left r after k ≡ suc (left r before k)
      → Refunds r k before after (ok tt) (err e)

module _ (r : Redis) (laws : IsRedis r) (json : Json) (dao : Dao) where
  refused-Spends :
      (k : String) (s : r.Store) (x : Error) (t : r.Store) (answer : Result (Unit {0}) × r.Store)
      → left r s k ≡ suc (left r t k)
      → GivesOne r k t answer
      → Spends r k s answer.1 (err x)
  refused-Spends k s x t _ e (GivesOne.given u q g) = Spends.kept x (e ∙ sym g)
  refused-Spends k s x t _ e (GivesOne.not_reached y q) = Spends.not_given_back x y q e
  refused-Spends k s x t _ e (GivesOne.given_lost u y q g) = Spends.kept x (e ∙ sym g)

  created-Spends :
      (n : Notification) (s : r.Store) (answer : Result (Unit {0}) × r.Store)
      → TakesOne r (param_key (unit_param n)) s answer
      → (d : dao.State) (inserted : Result Entity × dao.State)
      → Spends r
          (param_key (unit_param n))
          s
          ((created r json dao n answer d inserted).1.0)
          ((created r json dao n answer d inserted).0)
  unfolding created
  created-Spends n s _ (TakesOne.taken t q e) d (ok entity, d₁) = Spends.spent _ e
  created-Spends n s _ (TakesOne.taken t q e) d (err x, d₁) =
      refused-Spends (param_key (unit_param n)) s x t _ e
        (incr-GivesOne r laws (unit_param n) t refl)
  created-Spends n s _ (TakesOne.refused t q e f) d inserted = Spends.kept _ (e ∙ sym f)
  created-Spends n s _ (TakesOne.not_reached x q) d inserted = Spends.kept x refl
  created-Spends n s _ (TakesOne.taken_lost t x q e) d inserted = Spends.spending_lost x q e
  created-Spends n s _ (TakesOne.refused_lost t x q e f) d inserted = Spends.kept x (e ∙ sym f)

  -- A creation, with or without a callback, that succeeds has spent one unit of the quota of its
  -- business and channel; one that fails, because no unit was left or because the DAO failed, has
  -- spent none, unless redis failed: it has spent one where the answer to the spending was lost, or
  -- where the call that gives the unit back did not reach redis.
  pub create-Spends :
      (n : Notification) (s : r.Store) (d : dao.State)
      → Spends r
          (param_key (unit_param n))
          s
          ((create r json dao n (s, d)).1.0)
          ((create r json dao n (s, d)).0)
        × Spends r
            (param_key (unit_param n))
            s
            ((create_with_callback r json dao n (s, d)).1.0)
            ((create_with_callback r json dao n (s, d)).0)
  unfolding create create_with_callback create_by
  create-Spends n s d =
      let spent = decr-TakesOne r laws (unit_param n) s refl in
      (
        created-Spends n s (decr r (unit_param n) s) spent d (dao.create (to_entity json n) d),
        created-Spends n s (decr r (unit_param n) s) spent d
            (dao.create_with_callback (to_entity json n) d),
      )

  given-Refunds :
      (k : String) (s : r.Store) (answer : Result (Unit {0}) × r.Store)
      → GivesOne r k s answer
      → Refunds r k s answer.1 (ok tt) answer.0
  given-Refunds k s _ (GivesOne.given t q g) = Refunds.refunded g
  given-Refunds k s _ (GivesOne.not_reached e q) = Refunds.refund_unreached e q refl
  given-Refunds k s _ (GivesOne.given_lost t e q g) = Refunds.refund_lost e q g

  marked-Refunds :
      (n : Notification) (s : r.Store) (marked : Result (Unit {0}) × dao.State)
      → Refunds r
          (param_key (unit_param n))
          s
          ((failure_marked r json dao n s marked).1.0)
          marked.0
          ((failure_marked r json dao n s marked).0)
  unfolding failure_marked
  marked-Refunds n s (err e, d) = Refunds.not_marked e refl
  marked-Refunds n s (ok _, d) =
      given-Refunds (param_key (unit_param n)) s _ (incr-GivesOne r laws (unit_param n) s refl)

  -- Marking a failure gives one unit back where the DAO succeeds and the call reaches redis, and
  -- leaves the quotas as they are otherwise.
  pub mark_failure-Refunds :
      (n : Notification) (s : r.Store) (d : dao.State)
      → Refunds r
          (param_key (unit_param n))
          s
          ((mark_failure r json dao n (s, d)).1.0)
          (dao.mark_failure (to_entity json n) d).0
          ((mark_failure r json dao n (s, d)).0)
  unfolding mark_failure
  mark_failure-Refunds n s d = marked-Refunds n s (dao.mark_failure (to_entity json n) d)

  -- A batch whose quotas could be spent is reported as created, whatever error the DAO returned.
  batch_create-hides_error :
      (n : Notification) (ns : List Notification) (s : r.Store) (d : dao.State)
      (entities : List Entity) (e : Error) (d₁ : dao.State)
      → (batch_decr r (build_quota_params (n ∷ ns)) s).0 ≡ ok tt
      → dao.batch_create (map (to_entity json) (n ∷ ns)) d ≡ ((entities, some e), d₁)
      → (batch_create r json dao (n ∷ ns) (s, d)).0 ≡ ok (map (to_domain json) entities)
  unfolding batch_create batch_create_by batch_created
  batch_create-hides_error n ns s d entities e d₁ h k =
      ap (λ x. (batch_created r json dao ps (batch_decr r ps s) d x).0) k
      ∙ answered (batch_decr r ps s) h
    where
      ps : List QuotaParam
      ps = build_quota_params (n ∷ ns)

      answered :
          (answer : Result (Unit {0}) × r.Store)
          → answer.0 ≡ ok tt
          → (batch_created r json dao ps answer d ((entities, some e), d₁)).0
            ≡ ok (map (to_domain json) entities)
      answered (ok _, t) q = refl
      answered (err x, t) q = ground arith
