-- ===== src/Dao/Tests.antt =====
-- The theorems on the DAO at a concrete gorm: one list of rows, each with the destination it was
-- inserted at, and no failures.
use Prim.Native.Nat.{◌∣◌}
use mathlib.Core.List.{Memᴰ}
use jotify.Prelude.{
  ℕ, ◌≡◌, refl, sym, ap, ◌∙◌, arith, Bool, true, false, ==_iff, if◌then◌else◌, List, [], ◌∷◌, none,
  some, ◌⊎◌, inl, inr, ◌==◌,
}
use jotify.Prelude.Int.{pos}
use jotify.Errs.{ok}
use jotify.Prelude.Text.{format_uint}
use jotify.Snowflake.{Generator, next_id, extract_hash}
use jotify.Repo.{Entity}
use jotify.Dao.{Gorm, Sharded, DbError, record_not_found, create, get_by_id}
use jotify.Dao.Find.{Stores, create-get_by_id}
use jotify.Dao.Group.{Execs}
use jotify.Prelude.Maps.{lookup}
use jotify.Dao.Ids.{Finds, IdMap, get_map_by_ids, find_groups, find_group}
use jotify.Dao.Ids.Agree.{Reads, Reorders, get_map_by_ids-get_by_id}

-- The last row with an id; a table does not matter to it.
abbrev find : ℕ → List Entity → Entity ⊎ DbError
find id [] = inr record_not_found
find id (n ∷ ns) = let rest = find id ns in if n.id == id then inl n else rest

abbrev rows : Gorm
rows = record {
  State = List Entity;
  loaded = λ name. true;
  insert = λ d n s. (none, n ∷ s);
  insert_log = λ d l s. (none, s);
  first_by_id = λ d id s. find id s;
  first_by_key = λ d biz_id key s. inr record_not_found;
  update_status = λ d id version status now s. ((none, pos 0), s);
  update_log = λ d id status now s. (some record_not_found, []);
}

rows-Stores : Stores rows
rows-Stores = record {
  first-insert = λ d n s h. ground arith;
  first-insert_log = λ d e l id s. refl;
}

abbrev sharded : Sharded
sharded = record {
  sum64 = λ key. 12345;
  notif_strategy = record {
    db_prefix = "jotify";
    table_prefix = "notification";
    db_sharding = 2;
    table_sharding = 4;
  };
  cb_log_strategy = record {
    db_prefix = "jotify";
    table_prefix = "callback_log";
    db_sharding = 2;
    table_sharding = 4;
  };
}

abbrev order : Entity
order = record {
  id = 0;
  biz_id = 7;
  biz_key = "order-1";
  receivers = "[]";
  channel = "sms";
  tpl_id = 3;
  tpl_version_id = 2;
  tpl_params = "{}";
  status = "pending";
  schedule_strat = pos 1;
  schedule_end = pos 3;
  version = 0;
  created_at = pos 0;
  updated_at = pos 0;
}

abbrev start : Generator
start = record { sequence = 0 }

abbrev stored : Entity
stored = record order {
  id = (next_id sharded.sum64 start 1750000000000 7 "order-1").1;
  version = 1;
  created_at = pos 1750000000000;
  updated_at = pos 1750000000000;
}

create-get_by_id_example :
    (stored ≡ record order {
      id = (next_id sharded.sum64 start 1750000000000 7 "order-1").1;
      created_at = pos 1750000000000;
      updated_at = pos 1750000000000;
      version = 1;
    })
    × (get_by_id rows sharded stored.id
          ((create rows sharded (pos 1750000000000) 1750000000000 true order (start, [])).1.1)
        ≡ ok stored)
unfolding create
create-get_by_id_example =
    create-get_by_id rows sharded rows-Stores (pos 1750000000000) 1750000000000 true order stored
      start [] (omega arith) (∣ (128, refl) ∣₁) refl

abbrev execs : Execs rows
execs = record { exec = λ name sql s. (none, []) }

-- The rows of the list whose ids are asked for, the last one of each id.
abbrev found : List ℕ → List Entity → List Entity
found [] s = []
found (i ∷ ids) s = let rest = found ids s in elim (find i s) [ inl n ↦ n ∷ rest | inr e ↦ rest ]

abbrev selects : Finds rows
selects = record { find_in = λ k ids s. (found ids s, none) }

find_id : (i : ℕ) (s : List Entity) (n : Entity) → find i s ≡ inl n → n.id ≡ i
find_id i [] n h = ground arith
find_id i (x ∷ s) n h = branch (x.id == i) refl (find_id i s n) h
  where
    branch :
        (b : Bool)
        → (x.id == i) ≡ b
        → (find i s ≡ inl n → n.id ≡ i)
        → (if b then inl x else find i s) ≡ inl n
        → n.id ≡ i
    branch true e below q =
        ap (λ (r : Entity ⊎ DbError). elim r [ inl y ↦ y.id | inr d ↦ n.id ]) (sym q)
        ∙ (==_iff x.id i).0 e
    branch false e below q = below q

found_lem :
    (ids : List ℕ) (s : List Entity) (n : Entity)
    → Memᴰ n (found ids s)
    → Memᴰ n.id ids × (find n.id s ≡ inl n)
found_lem [] s n p = elim p [ ]
found_lem (i ∷ ids) s n p = branch (find i s) refl (found_lem ids s n) p
  where
    branch :
        (r : Entity ⊎ DbError)
        → find i s ≡ r
        → (Memᴰ n (found ids s) → Memᴰ n.id ids × (find n.id s ≡ inl n))
        → Memᴰ n (elim r [ inl m ↦ m ∷ found ids s | inr e ↦ found ids s ])
        → Memᴰ n.id (i ∷ ids) × (find n.id s ≡ inl n)
    branch (inl m) e below (Memᴰ.head q) =
        let same : n.id ≡ i = ap (λ (x : Entity). x.id) q ∙ find_id i s m e in
        (Memᴰ.head same, ap (λ (j : ℕ). find j s) same ∙ e ∙ ap inl (sym q))
    branch (inl m) e below (Memᴰ.tail q) = let (there, first) = below q in (Memᴰ.tail there, first)
    branch (inr d) e below q = let (there, first) = below q in (Memᴰ.tail there, first)

mem_found :
    (ids : List ℕ) (s : List Entity) (i : ℕ) (n : Entity)
    → Memᴰ i ids
    → find i s ≡ inl n
    → Memᴰ n (found ids s)
mem_found [] s i n p h = elim p [ ]
mem_found (j ∷ ids) s i n (Memᴰ.head e) h = branch (find j s) (ap (λ (k : ℕ). find k s) (sym e) ∙ h)
  where
    branch :
        (r : Entity ⊎ DbError)
        → r ≡ inl n
        → Memᴰ n (elim r [ inl m ↦ m ∷ found ids s | inr e ↦ found ids s ])
    branch (inl m) q =
        Memᴰ.head (sym (ap (λ (r : Entity ⊎ DbError). elim r [ inl y ↦ y | inr d ↦ m ]) q))
    branch (inr d) q = ground arith
mem_found (j ∷ ids) s i n (Memᴰ.tail p) h = branch (find j s) (mem_found ids s i n p h)
  where
    branch :
        (r : Entity ⊎ DbError)
        → Memᴰ n (found ids s)
        → Memᴰ n (elim r [ inl m ↦ m ∷ found ids s | inr e ↦ found ids s ])
    branch (inl m) q = Memᴰ.tail q
    branch (inr d) q = q

selects-Reads : Reads rows selects
selects-Reads = record {
  asked = λ k ids s n p. (found_lem ids s n p).0;
  first-found = λ d ids s n p. (found_lem ids s n p).1;
  found-first = λ d ids s i n p h e. (mem_found ids s i n p h, find_id i s n h);
}

abbrev as_made : IdMap → IdMap
as_made m = m

as_made-Reorders : Reorders as_made
as_made-Reorders = record { keeps = λ i m p. p; adds_none = λ sh m r. r }

get_map_by_ids-get_by_id_example :
    (lookup 0 (get_map_by_ids rows selects sharded as_made (4098 ∷ 0 ∷ []) (order ∷ [])).1
        ≡ some order
      → get_by_id rows sharded 0 (order ∷ []) ≡ ok order)
    × (get_by_id rows sharded 0 (order ∷ []) ≡ ok order
        → lookup 0 (get_map_by_ids rows selects sharded as_made (4098 ∷ 0 ∷ []) (order ∷ [])).1
          ≡ some order)
unfolding get_map_by_ids find_groups find_group format_uint extract_hash
get_map_by_ids-get_by_id_example =
    get_map_by_ids-get_by_id rows selects selects-Reads sharded as_made as_made-Reorders
      (4098 ∷ 0 ∷ []) (order ∷ []) refl 0 order (Memᴰ.tail (Memᴰ.head refl))
