-- ===== src/Dao/Ids/Agree.antt =====
-- GetMapByIds answers what GetById answers.
use mathlib.Core.List.{Memᴰ}
use mathlib.Core.Path.{subst}
use jotify.Prelude.{
  ℕ, ◌≡◌, refl, sym, ap, ◌∙◌, arith, Bool, true, false, if◌then◌else◌, List, [], ◌∷◌, Option, none,
  some, inl,
}
use jotify.Prelude.Maps.{lookup}
use jotify.Errs.{Result, ok, err}
use jotify.Sharding.{Dst, shard_with_id}
use jotify.Repo.{Entity}
use jotify.Dao.{Gorm, Sharded, DbError, get_by_id, checked}
use jotify.Dao.Ids.{
  Key, IdMap, NotifMap, key_of, group_ids, store_all, Finds, find_group, find_groups, first_error,
  get_map_by_ids,
}
use jotify.Dao.First.{get_by_id_lem, get_by_id-first}
use jotify.Dao.Ids.Stored.{empty_Holds, Holds, store_all-Holds, Has, Has-store_all, Has-mem}
use jotify.Dao.Ids.Groups.{Routed, In, group_ids-Routed, group_ids-In}

abbrev key : Dst → Key
key d = (d.db, d.table)

-- What Find answers on a table, in terms of the First of a single id: it gives rows with the ids
-- that were asked for, each the one that First gives, and all of these where it has no error.
pub record Reads (db : Gorm) (finds : Finds db) : Type 0 where
  pub asked :
      (k : Key) (ids : List ℕ) (s : db.State) (n : Entity)
      → Memᴰ n (finds.find_in k ids s).0
      → Memᴰ n.id ids
  pub first-found :
      (d : Dst) (ids : List ℕ) (s : db.State) (n : Entity)
      → Memᴰ n (finds.find_in (key d) ids s).0
      → db.first_by_id d n.id s ≡ inl n
  pub found-first :
      (d : Dst) (ids : List ℕ) (s : db.State) (i : ℕ) (n : Entity)
      → Memᴰ i ids
      → db.first_by_id d i s ≡ inl n
      → (finds.find_in (key d) ids s).1 ≡ none
      → Memᴰ n (finds.find_in (key d) ids s).0 × (n.id ≡ i)

-- The orders in which goroutines can run: none is lost and none is added.
pub record Reorders (order : IdMap → IdMap) : Type 0 where
  pub keeps : (i : ℕ) (m : IdMap) → In i m → In i (order m)
  pub adds_none : (sh : Sharded) (m : IdMap) → Routed sh m → Routed sh (order m)

if_elim :
    {A : Type 0} (P : A → Type 0) (b : Bool) (x y : A)
    → (b ≡ true → P x)
    → (b ≡ false → P y)
    → P (if b then x else y)
if_elim P true x y f g = f refl
if_elim P false x y f g = g refl

abbrev Answer : Type 0
Answer = Result (Unit {0}) × NotifMap

ok_inj : {a b : Entity} → Path (Result Entity) (ok a) (ok b) → a ≡ b
ok_inj {a} p = ap (λ r. elim r [ ok x ↦ x | err e ↦ a ]) p

both_ok : (a b : Result (Unit {0})) → first_error a b ≡ ok tt → (a ≡ ok tt) × (b ≡ ok tt)
both_ok (ok _) b h = (refl, h)
both_ok (err e) b h = ground arith

checked_ok : (failed : Option DbError) → checked failed ≡ ok tt → failed ≡ none
checked_ok none h = refl
checked_ok (some e) h = ground arith

module _ (db : Gorm) (finds : Finds db) (reads : Reads db finds) (sh : Sharded) where
  abbrev Answers : db.State → ℕ → Entity → Type 0
  Answers s i n = get_by_id db sh i s ≡ ok n

  abbrev dst_of : ℕ → Dst
  dst_of i = shard_with_id sh.notif_strategy i

  row_Answers :
      (k : Key) (ids : List ℕ) (s : db.State) (n : Entity)
      → db.loaded k.0 ≡ true
      → key_of sh n.id ≡ k
      → Memᴰ n (finds.find_in k ids s).0
      → Answers s n.id n
  row_Answers k ids s n here e p =
      get_by_id_lem db sh n.id s n (ap (λ (x : Key). db.loaded x.0) e ∙ here) (
        reads.first-found (dst_of n.id) ids s n
          (subst (λ (x : Key). Memᴰ n (finds.find_in x ids s).0) (sym e) p))

  find_group-Holds :
      (k : Key) (ids : List ℕ) (s : db.State) (m : NotifMap)
      → ((i : ℕ) → Memᴰ i ids → key_of sh i ≡ k)
      → Holds (Answers s) m
      → Holds (Answers s) (find_group db finds k ids s m).1
  unfolding find_group
  find_group-Holds k ids s m all h =
      if_elim (λ (r : Answer). Holds (Answers s) r.1) (db.loaded k.0) _ _
        (λ here.
          store_all-Holds (Answers s) _ m
            (λ n p. row_Answers k ids s n here (all n.id (reads.asked k ids s n p)) p) h)
        (λ away. h)

  find_groups-Holds :
      (groups : IdMap) (s : db.State) (m : NotifMap)
      → Routed sh groups
      → Holds (Answers s) m
      → Holds (Answers s) (find_groups db finds groups s m).1
  unfolding find_groups
  find_groups-Holds [] s m r h = h
  find_groups-Holds ((k, ids) ∷ groups) s m (Routed.cons all r) h =
      find_groups-Holds groups s _ r (find_group-Holds k ids s m all h)

  find_group-Has :
      (k : Key) (ids : List ℕ) (s : db.State) (i : ℕ) (m : NotifMap)
      → Has i m
      → Has i (find_group db finds k ids s m).1
  unfolding find_group
  find_group-Has k ids s i m h =
      if_elim (λ (r : Answer). Has i r.1) (db.loaded k.0) _ _
        (λ here. Has-store_all i (finds.find_in k ids s).0 m h) (λ away. h)

  find_groups-keeps :
      (groups : IdMap) (s : db.State) (i : ℕ) (m : NotifMap)
      → Has i m
      → Has i (find_groups db finds groups s m).1
  unfolding find_groups
  find_groups-keeps [] s i m h = h
  find_groups-keeps ((k, ids) ∷ groups) s i m h =
      find_groups-keeps groups s i _ (find_group-Has k ids s i m h)

  row_found :
      (k : Key) (ids : List ℕ) (s : db.State) (i : ℕ) (n : Entity)
      → key_of sh i ≡ k
      → Memᴰ i ids
      → db.first_by_id (dst_of i) i s ≡ inl n
      → (finds.find_in k ids s).1 ≡ none
      → Memᴰ n (finds.find_in k ids s).0 × (n.id ≡ i)
  row_found k ids s i n e p found whole =
      subst
        (λ (x : Key).
          (finds.find_in x ids s).1 ≡ none → Memᴰ n (finds.find_in x ids s).0 × (n.id ≡ i))
        e (reads.found-first (dst_of i) ids s i n p found) whole

  find_group-finds :
      (k : Key) (ids : List ℕ) (s : db.State) (i : ℕ) (n : Entity) (m : NotifMap)
      → key_of sh i ≡ k
      → Memᴰ i ids
      → db.first_by_id (dst_of i) i s ≡ inl n
      → (find_group db finds k ids s m).0 ≡ ok tt
      → Has i (find_group db finds k ids s m).1
  unfolding find_group
  find_group-finds k ids s i n m e p found =
      if_elim (λ (r : Answer). r.0 ≡ ok tt → Has i r.1) (db.loaded k.0) _ _
        (λ here whole.
          let (row, same) = row_found k ids s i n e p found (checked_ok _ whole) in
          subst (λ (j : ℕ). Has j (store_all (finds.find_in k ids s).0 m)) same
            (Has-mem n (finds.find_in k ids s).0 m row))
        (λ away whole. ground arith)

  find_groups-finds :
      (groups : IdMap) (s : db.State) (i : ℕ) (n : Entity) (m : NotifMap)
      → Routed sh groups
      → In i groups
      → db.first_by_id (dst_of i) i s ≡ inl n
      → (find_groups db finds groups s m).0 ≡ ok tt
      → Has i (find_groups db finds groups s m).1
  unfolding find_groups
  find_groups-finds [] s i n m r p found h = elim p [ ]
  find_groups-finds ((k, ids) ∷ groups) s i n m (Routed.cons all r) (In.here p) found h =
      let (first, rest) = both_ok _ _ h in
      find_groups-keeps groups s i _ (find_group-finds k ids s i n m (all i p) p found first)
  find_groups-finds ((k, ids) ∷ groups) s i n m (Routed.cons all r) (In.there p) found h =
      let (first, rest) = both_ok _ _ h in find_groups-finds groups s i n _ r p found rest

  -- Where GetMapByIds returns no error, whatever the order of its goroutines, its map holds a
  -- notification at an id that was asked for exactly when GetById returns it for that id.
  pub get_map_by_ids-get_by_id :
      (order : IdMap → IdMap) (reorders : Reorders order) (ids : List ℕ) (s : db.State)
      → (get_map_by_ids db finds sh order ids s).0 ≡ ok tt
      → (i : ℕ) (n : Entity) → Memᴰ i ids
      → (lookup i (get_map_by_ids db finds sh order ids s).1 ≡ some n → get_by_id db sh i s ≡ ok n)
        × (get_by_id db sh i s ≡ ok n
            → lookup i (get_map_by_ids db finds sh order ids s).1 ≡ some n)
  unfolding get_map_by_ids Holds Has
  get_map_by_ids-get_by_id order reorders ids s whole i n p =
      let routed = reorders.adds_none sh _ (group_ids-Routed sh ids [] Routed.nil) in
      let sound =
        find_groups-Holds (order (group_ids sh ids [])) s [] routed (empty_Holds (Answers s)) in
      (
        sound i n,
        λ (h : get_by_id db sh i s ≡ ok n).
            let (x, e) =
              find_groups-finds (order (group_ids sh ids [])) s i n [] routed
                (reorders.keeps i _ (group_ids-In sh ids i [] p))
                ((get_by_id-first db sh i s n h).1) whole in
            e ∙ ap some (ok_inj (sym (sound i x e) ∙ h)),
      )
