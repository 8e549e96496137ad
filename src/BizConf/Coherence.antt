-- ===== src/BizConf/Coherence.antt =====
-- The caches hold what the database holds.
use jotify.Prelude.{ℕ, ◌≡◌, ◌⊎◌, inl, inr, refl, ap, ◌∙◌}
use jotify.Errs.{Error, Result, ok, err}
use jotify.BizConf.{BizConf, Entity, Cache, to_domain, from_dao, from_redis, from_local, get_by_id}

module _ (dao : ℕ → Result Entity) where
  -- The configuration that the database has for the id.
  pub record IsStored (id : ℕ) (conf : BizConf) : Type 0 where
    pub entity : Entity
    pub found : dao id ≡ ok entity
    pub same : conf ≡ to_domain entity

  -- Whatever a cache answers is stored.
  abbrev pub Coherent : {S : Type 0} → Cache S → S → Type 0
  Coherent cache s = (id : ℕ) (conf : BizConf) → cache.get id s ≡ ok conf → IsStored id conf

-- What is read after a write is what was written or what was there before.
abbrev pub IsCache : {S : Type 0} → Cache S → Type 0
IsCache {S} cache =
    (id j : ℕ) (conf read : BizConf) (s : S)
    → cache.get j (cache.set id conf s).1 ≡ ok read
    → ((j ≡ id) × (read ≡ conf)) ⊎ (cache.get j s ≡ ok read)

set-Coherent :
    (dao : ℕ → Result Entity) {S : Type 0} (cache : Cache S)
    → IsCache cache
    → (id : ℕ) (conf : BizConf) (s : S) → IsStored dao id conf
    → Coherent dao cache s
    → Coherent dao cache (cache.set id conf s).1
set-Coherent dao cache laws id conf s stored coherent j read e = elim (laws id j conf read s e) [
  | inl (same_id, same_conf) ↦ record {
    entity = stored.entity;
    found = ap dao same_id ∙ stored.found;
    same = same_conf ∙ stored.same;
  }
  | inr before ↦ coherent j read before
]

module _ {L R : Type 0} (local_cache : Cache L) (redis_cache : Cache R)
    (dao : ℕ → Result Entity) where
  -- An answer that is stored or an error, and caches that are coherent still.
  pub data Answers (id : ℕ) : Result BizConf × (L × R) → Type 0 where
    answered :
        {conf : BizConf} {l : L} {r : R}
        → IsStored dao id conf
        → Coherent dao local_cache l
        → Coherent dao redis_cache r
        → Answers id (ok conf, (l, r))
    failed :
        (e : Error) {l : L} {r : R}
        → dao id ≡ err e
        → Coherent dao local_cache l
        → Coherent dao redis_cache r
        → Answers id (err e, (l, r))

  module _ (local_laws : IsCache local_cache) (redis_laws : IsCache redis_cache) where
    from_dao-Answers :
        (id : ℕ) (l : L) (r : R) (x : Result Entity)
        → dao id ≡ x
        → Coherent dao local_cache l
        → Coherent dao redis_cache r
        → Answers id (from_dao local_cache redis_cache dao id (l, r) x)
    unfolding from_dao
    from_dao-Answers id l r (err e) found cl cr = failed e found cl cr
    from_dao-Answers id l r (ok entity) found cl cr =
        let stored : IsStored dao id (to_domain entity) = record {
          entity = entity;
          found = found;
          same = refl;
        } in
        answered stored (set-Coherent dao local_cache local_laws id _ l stored cl)
          (set-Coherent dao redis_cache redis_laws id _ r stored cr)

    from_redis-Answers :
        (id : ℕ) (l : L) (r : R) (x : Result BizConf)
        → redis_cache.get id r ≡ x
        → Coherent dao local_cache l
        → Coherent dao redis_cache r
        → Answers id (from_redis local_cache redis_cache dao id (l, r) x)
    unfolding from_redis
    from_redis-Answers id l r (err e) found cl cr = from_dao-Answers id l r (dao id) refl cl cr
    from_redis-Answers id l r (ok conf) found cl cr =
        let stored = cr id conf found in
        answered stored (set-Coherent dao local_cache local_laws id conf l stored cl) cr

    from_local-Answers :
        (id : ℕ) (l : L) (r : R) (x : Result BizConf)
        → local_cache.get id l ≡ x
        → Coherent dao local_cache l
        → Coherent dao redis_cache r
        → Answers id (from_local local_cache redis_cache dao id (l, r) x)
    unfolding from_local
    from_local-Answers id l r (err e) found cl cr =
        from_redis-Answers id l r (redis_cache.get id r) refl cl cr
    from_local-Answers id l r (ok conf) found cl cr = answered (cl id conf found) cl cr

    -- Over caches of which a read answers what was written last or before, and which hold nothing
    -- but what the database holds, GetById answers the configuration of the database, from
    -- whichever cache, or the database's error, and leaves the caches so.
    pub get_by_id-Answers :
        (id : ℕ) (l : L) (r : R)
        → Coherent dao local_cache l
        → Coherent dao redis_cache r
        → Answers id (get_by_id local_cache redis_cache dao id (l, r))
    unfolding get_by_id
    get_by_id-Answers id l r cl cr = from_local-Answers id l r (local_cache.get id l) refl cl cr
