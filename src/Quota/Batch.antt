-- ===== src/Quota/Batch.antt =====
-- The batch operations on the quotas.
use Prim.Native.String.{◌++◌}
use mathlib.Core.List.{Memᴰ}
use mathlib.Core.Path.{subst}
use jotify.Prelude.{
  ◌≡◌, ◌≢◌, refl, ap, sym, ◌∙◌, arith, true, false, Bool-cases, inl, inr, String, List, [], ◌∷◌,
  Option, none, some,
}
use jotify.Prelude.Int.{ltb_ℤ, ◌-ℤ◌}
use jotify.Errs.{Result, Error, ok, err, other}
use jotify.Quota.{
  Redis, IsRedis, QuotaParam, param_key, int32_of, batch_decr, batch_decr_loop, lacking,
}

-- The parameter's key is no key of the others, and so on down the list.
pub data HaveDistinctKeys : List QuotaParam → Type 0 where
  none_left : HaveDistinctKeys []
  another :
      (p : QuotaParam) (ps : List QuotaParam)
      → ((q : QuotaParam) → Memᴰ q ps → param_key p ≢ param_key q)
      → HaveDistinctKeys ps
      → HaveDistinctKeys (p ∷ ps)

-- What a batch decrement gives: either each key loses its quota, which it had, and the other keys
-- keep theirs, or some key had too little and the store is as it was.
pub data AllOrNothing (r : Redis) (ps : List QuotaParam) (s : r.Store)
    : Result (Unit {0}) × r.Store → Type 0 where
  all :
      (t : r.Store)
      → ((p : QuotaParam)
          → Memᴰ p ps
          → (ltb_ℤ (r.value s (param_key p)) (int32_of p.quota) ≡ false)
            × (r.value t (param_key p) ≡ r.value s (param_key p) -ℤ int32_of p.quota))
      → ((k : String)
          → ((p : QuotaParam) → Memᴰ p ps → k ≢ param_key p)
          → r.value t k ≡ r.value s k)
      → AllOrNothing r ps s (ok tt, t)
  nothing :
      (e : Error) (p : QuotaParam)
      → Memᴰ p ps
      → ltb_ℤ (r.value s (param_key p)) (int32_of p.quota) ≡ true
      → AllOrNothing r ps s (err e, s)

module _ (r : Redis) (laws : IsRedis r) where
  decr_loop_other :
      (ps : List QuotaParam) (s : r.Store) (k : String)
      → ((q : QuotaParam) → Memᴰ q ps → k ≢ param_key q)
      → r.value (batch_decr_loop r ps s) k ≡ r.value s k
  unfolding batch_decr_loop
  decr_loop_other [] s k ne = refl
  decr_loop_other (p ∷ ps) s k ne =
      decr_loop_other ps (r.decr_by (param_key p) (int32_of p.quota) s) k
        (λ q m. ne q (Memᴰ.tail m))
      ∙ laws.value-decr_by_other s k (param_key p) (int32_of p.quota) (ne p (Memᴰ.head refl))

  decr_loop_own :
      (ps : List QuotaParam) (s : r.Store) (p : QuotaParam)
      → HaveDistinctKeys ps
      → Memᴰ p ps
      → r.value (batch_decr_loop r ps s) (param_key p) ≡ r.value s (param_key p) -ℤ int32_of p.quota
  unfolding batch_decr_loop
  decr_loop_own [] s p d m = elim m [ ]
  decr_loop_own (q ∷ ps) s p (another _ _ ne d) (Memᴰ.head e) =
      subst
        (λ x.
          r.value (batch_decr_loop r (q ∷ ps) s) (param_key x)
          ≡ r.value s (param_key x) -ℤ int32_of x.quota)
        (sym e)
        (decr_loop_other ps (r.decr_by (param_key q) (int32_of q.quota) s) (param_key q) ne
          ∙ laws.value-decr_by s (param_key q) (int32_of q.quota))
  decr_loop_own (q ∷ ps) s p (another _ _ ne d) (Memᴰ.tail m) =
      decr_loop_own ps (r.decr_by (param_key q) (int32_of q.quota) s) p d m
      ∙ ap (λ v. v -ℤ int32_of p.quota)
          (laws.value-decr_by_other s (param_key p) (param_key q) (int32_of q.quota)
            (λ e. ne p m (sym e)))

  lacking-none :
      (ps : List QuotaParam) (s : r.Store) (p : QuotaParam)
      → lacking r ps s ≡ none
      → Memᴰ p ps
      → ltb_ℤ (r.value s (param_key p)) (int32_of p.quota) ≡ false
  unfolding lacking
  lacking-none [] s p h m = elim m [ ]
  lacking-none (q ∷ ps) s p h (Memᴰ.head e) =
      subst (λ x. ltb_ℤ (r.value s (param_key x)) (int32_of x.quota) ≡ false) (sym e) (ground arith)
  lacking-none (q ∷ ps) s p h (Memᴰ.tail m) = lacking-none ps s p (ground arith) m

  lacking-some :
      (ps : List QuotaParam) (s : r.Store) (k : String)
      → lacking r ps s ≡ some k
      → (p : QuotaParam) × Memᴰ p ps × (ltb_ℤ (r.value s (param_key p)) (int32_of p.quota) ≡ true)
  unfolding lacking
  lacking-some [] s k h = ground arith
  lacking-some (q ∷ ps) s k h =
      elim (Bool-cases (ltb_ℤ (r.value s (param_key q)) (int32_of q.quota))) [
        | inl e ↦ (q, Memᴰ.head refl, e)
        | inr e ↦ let (p, m, lt) = lacking-some ps s k (ground arith) in (p, Memᴰ.tail m, lt)
      ]

  -- A batch decrement of different keys is all or nothing: it takes every quota where each key
  -- has its quota, and changes nothing where some key has less.
  pub batch_decr-AllOrNothing :
      (ps : List QuotaParam) (s : r.Store)
      → HaveDistinctKeys ps
      → AllOrNothing r ps s (batch_decr r ps s)
  unfolding batch_decr
  batch_decr-AllOrNothing ps s d = branch (lacking r ps s) refl
    where
      branch :
          (o : Option String)
          → lacking r ps s ≡ o
          → AllOrNothing r ps s (elim o [
            | none ↦ (ok tt, batch_decr_loop r ps s)
            | some key ↦ (err (other ("[jotify] the quota of " ++ key ++ " is not enough")), s)
          ])
      branch none e =
          all (batch_decr_loop r ps s) (λ p m. (lacking-none ps s p e m, decr_loop_own ps s p d m))
            (decr_loop_other ps s)
      branch (some k) e = let (p, m, lt) = lacking-some ps s k e in nothing _ p m lt
