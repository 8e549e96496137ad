-- ===== src/Dao/Find.antt =====
-- A notification that is created is found again.
use Prim.Native.Nat.{◌∣◌}
use jotify.Prelude.{
  ℕ, ◌*◌, ◌^◌, ◌<◌, ◌≡◌, refl, sym, ap, ◌∙◌, arith, Bool, if◌then◌else◌, true, false, Option, none,
  some, inl,
}
use jotify.Prelude.Int.{ℤ}
use jotify.Errs.{Result, ok, err, Error}
use jotify.Snowflake.{Generator, next_id}
use jotify.Sharding.{Dst, shard, shard_with_id}
use jotify.Sharding.Agree.{shard_with_id-next_id}
use jotify.Repo.{Entity}
use jotify.Dao.{
  Gorm, Sharded, DbError, CallbackLog, transaction, insert_answer, settled, inserted, create,
  get_by_id,
}

-- An inserted notification is the one with its id, also after a callback log is inserted.
pub record Stores (db : Gorm) : Type 0 where
  pub first-insert :
      (d : Dst) (n : Entity) (s : db.State)
      → (db.insert d n s).0 ≡ none
      → db.first_by_id d n.id ((db.insert d n s).1) ≡ inl n
  pub first-insert_log :
      (d e : Dst) (l : CallbackLog) (id : ℕ) (s : db.State)
      → db.first_by_id d id ((db.insert_log e l s).1) ≡ db.first_by_id d id s

ok_inj : {a b : Entity} → Path (Result Entity) (ok a) (ok b) → a ≡ b
ok_inj {a} p = ap (λ r. elim r [ ok x ↦ x | err e ↦ a ]) p

module _ (db : Gorm) (sh : Sharded) (stores : Stores db) where
  answer_found :
      (d : Dst) (need_callback : Bool) (n m : Entity) (a l : Option DbError × db.State)
      → (a.0 ≡ none → db.first_by_id d n.id a.1 ≡ inl n)
      → db.first_by_id d n.id l.1 ≡ db.first_by_id d n.id a.1
      → (insert_answer db sh need_callback n a l).0 ≡ ok m
      → (m ≡ n) × (db.first_by_id d n.id ((insert_answer db sh need_callback n a l).1) ≡ inl n)
  unfolding insert_answer
  answer_found d need_callback n m (some e, s) l found kept h = ground arith
  answer_found d false n m (none, s) l found kept h = (sym (ok_inj h), found refl)
  answer_found d true n m (none, s) (some e, t) found kept h = ground arith
  answer_found d true n m (none, s) (none, t) found kept h = (sym (ok_inj h), kept ∙ found refl)

  inserted_found :
      (d e : Dst) (now : ℤ) (need_callback : Bool) (n m : Entity) (s : db.State)
      → (inserted db sh d e now need_callback n s).0 ≡ ok m
      → (m ≡ n) × (db.first_by_id d n.id ((inserted db sh d e now need_callback n s).1) ≡ inl n)
  unfolding inserted
  inserted_found d e now need_callback n m s h =
      answer_found d need_callback n m (db.insert d n s) _ (stores.first-insert d n s)
        (stores.first-insert_log d e _ n.id ((db.insert d n s).1)) h

  committed :
      (s : db.State) (x : Result Entity × db.State) (m : Entity)
      → (settled s x).0 ≡ ok m
      → (x.0 ≡ ok m) × ((settled s x).1 ≡ x.1)
  committed s (ok a, t) m h = (h, refl)
  committed s (err e, t) m h = ground arith

  get_by_id_lem :
      (id : ℕ) (s : db.State) (d : Dst) (n : Entity)
      → shard_with_id sh.notif_strategy id ≡ d
      → db.loaded d.db ≡ true
      → db.first_by_id d id s ≡ inl n
      → get_by_id db sh id s ≡ ok n
  unfolding get_by_id
  get_by_id_lem id s d n route here found = simp (
    ap (λ (x : Dst). db.loaded x.db) route ∙ here,
    ap (λ (x : Dst). db.first_by_id x id s) route ∙ found,
  )

  chosen :
      {S : Type 0} (b : Bool) (x : Result Entity × S) (e : Error) (s : S) (m : Entity)
      → (if b then x else (err e, s)).0 ≡ ok m
      → (b ≡ true) × (x.0 ≡ ok m) × ((if b then x else (err e, s)).1 ≡ x.1)
  chosen true x e s m h = (refl, h, refl)
  chosen false x e s m h = ground arith

  -- A notification that is created, with or without a callback, is the one that was given with
  -- the id that NextId made, the time as its times and 1 as its version, and it is found by its id
  -- in the state that the creation leaves; this holds where the numbers of databases and tables
  -- multiply to a divisor of 2 ^ 10.
  pub create-get_by_id :
      (now : ℤ) (clock : ℕ) (need_callback : Bool) (n m : Entity) (g : Generator) (s : db.State)
      → 0 < sh.notif_strategy.db_sharding
      → sh.notif_strategy.db_sharding * sh.notif_strategy.table_sharding ∣ 2 ^ 10
      → (create db sh now clock need_callback n (g, s)).0 ≡ ok m
      → (m ≡ record n {
        id = (next_id sh.sum64 g clock n.biz_id n.biz_key).1;
        created_at = now;
        updated_at = now;
        version = 1;
      })
        × (get_by_id db sh m.id ((create db sh now clock need_callback n (g, s)).1.1) ≡ ok m)
  unfolding create get_by_id transaction
  create-get_by_id now clock need_callback n m g s pos dvd h =
      let d = shard sh.sum64 sh.notif_strategy n.biz_id n.biz_key in
      let e = shard sh.sum64 sh.cb_log_strategy n.biz_id n.biz_key in
      let (g₁, id) = next_id sh.sum64 g clock n.biz_id n.biz_key in
      let row : Entity = record n { id = id; created_at = now; updated_at = now; version = 1 } in
      let body = inserted db sh d e now need_callback row s in
      let (here, made, after) =
        chosen (db.loaded d.db) ((settled s body).0, (g₁, (settled s body).1)) _ (g, s) m h in
      let (answer, kept) = committed s body m made in
      let (same, found) = inserted_found d e now need_callback row m s answer in
      let route =
        ap (λ (x : Entity). shard_with_id sh.notif_strategy x.id) same
        ∙ shard_with_id-next_id sh.sum64 sh.notif_strategy g clock n.biz_id n.biz_key pos dvd in
      (
        same,
        get_by_id_lem m.id _ d m route here (
            ap (λ (t : db.State). db.first_by_id d m.id t)
              (ap (λ (t : Generator × db.State). t.1) after ∙ kept)
            ∙ ap (λ (x : Entity). db.first_by_id d x.id body.1) same
            ∙ found
            ∙ ap inl (sym same)),
      )
