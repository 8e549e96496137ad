-- ===== src/Dao/Ids/Groups.antt =====
-- The groups of GetMapByIds: every id is in one, and only in that of its database and table.
use mathlib.Core.List.{Memᴰ}
use mathlib.Core.List.Memᴰ as Member
use mathlib.Core.Path.{subst}
use text.Mathlib.TextEquality.{eq_iff}
use jotify.Prelude.{
  ℕ, ◌≡◌, refl, sym, ap, ◌∙◌, arith, Bool, true, false, if◌then◌else◌, List, [], ◌∷◌, ◌++◌,
}
use jotify.Dao.{Sharded}
use jotify.Dao.Ids.{Key, IdMap, key_of, same, add_id, group_ids}

-- Every id of a group goes to the database and table of the group.
pub data Routed (sh : Sharded) : IdMap → Type 0 where
  nil : Routed sh []
  cons :
      {k : Key} {ids : List ℕ} {groups : IdMap}
      → ((i : ℕ) → Memᴰ i ids → key_of sh i ≡ k)
      → Routed sh groups
      → Routed sh ((k, ids) ∷ groups)

-- The id is in a group.
pub data In (i : ℕ) : IdMap → Type 0 where
  here : {k : Key} {ids : List ℕ} {groups : IdMap} → Memᴰ i ids → In i ((k, ids) ∷ groups)
  there : {g : Key × List ℕ} {groups : IdMap} → In i groups → In i (g ∷ groups)

same_key : (j k : Key) → same j k ≡ true → j ≡ k
same_key (a, b) (c, d) e = ground (arith, eq_iff a c, eq_iff b d)

module _ (sh : Sharded) where
  routed_snoc :
      {k : Key} (ids : List ℕ) (id : ℕ)
      → ((i : ℕ) → Memᴰ i ids → key_of sh i ≡ k)
      → key_of sh id ≡ k
      → (i : ℕ) → Memᴰ i (ids ++ id ∷ [])
      → key_of sh i ≡ k
  routed_snoc [] id all e i (Memᴰ.head p) = ap (key_of sh) p ∙ e
  routed_snoc [] id all e i (Memᴰ.tail m) = elim m [ ]
  routed_snoc (j ∷ ids) id all e i (Memᴰ.head p) = all i (Memᴰ.head p)
  routed_snoc (j ∷ ids) id all e i (Memᴰ.tail m) =
      routed_snoc ids id (λ x n. all x (Memᴰ.tail n)) e i m

  add_id-Routed : (id : ℕ) (m : IdMap) → Routed sh m → Routed sh (add_id (key_of sh id) id m)
  unfolding add_id
  add_id-Routed id [] r = Routed.cons (λ i n. routed_snoc [] id (λ j p. elim p [ ]) refl i n) r
  add_id-Routed id ((j, ids) ∷ m) (Routed.cons all r) =
      branch (same j (key_of sh id)) refl (add_id-Routed id m r)
    where
      branch :
          (b : Bool)
          → same j (key_of sh id) ≡ b
          → {below : IdMap} → Routed sh below
          → Routed sh (if b then (j, ids ++ id ∷ []) ∷ m else (j, ids) ∷ below)
      branch true e s = Routed.cons (routed_snoc ids id all (sym (same_key _ _ e))) r
      branch false e s = Routed.cons all s

  add_id-In_self : (k : Key) (id : ℕ) (m : IdMap) → In id (add_id k id m)
  unfolding add_id
  add_id-In_self k id [] = In.here (Memᴰ.head refl)
  add_id-In_self k id ((j, ids) ∷ m) = branch (same j k) (add_id-In_self k id m)
    where
      branch :
          (b : Bool) {below : IdMap}
          → In id below
          → In id (if b then (j, ids ++ id ∷ []) ∷ m else (j, ids) ∷ below)
      branch true p = In.here (Member.append_right ids (Memᴰ.head refl))
      branch false p = In.there p

  add_id-In : (k : Key) (id i : ℕ) (m : IdMap) → In i m → In i (add_id k id m)
  unfolding add_id
  add_id-In k id i [] p = elim p [ ]
  add_id-In k id i ((j, ids) ∷ m) (here p) = branch (same j k) (add_id k id m)
    where
      branch :
          (b : Bool) (below : IdMap)
          → In i (if b then (j, ids ++ id ∷ []) ∷ m else (j, ids) ∷ below)
      branch true below = In.here (Member.append_left (id ∷ []) p)
      branch false below = here p
  add_id-In k id i ((j, ids) ∷ m) (In.there p) = branch (same j k) (add_id-In k id i m p)
    where
      branch :
          (b : Bool) {below : IdMap}
          → In i below
          → In i (if b then (j, ids ++ id ∷ []) ∷ m else (j, ids) ∷ below)
      branch true q = In.there p
      branch false q = In.there q

  pub group_ids-Routed : (ids : List ℕ) (m : IdMap) → Routed sh m → Routed sh (group_ids sh ids m)
  unfolding group_ids
  group_ids-Routed [] m r = r
  group_ids-Routed (id ∷ ids) m r = group_ids-Routed ids _ (add_id-Routed id m r)

  group_ids-keeps : (ids : List ℕ) (i : ℕ) (m : IdMap) → In i m → In i (group_ids sh ids m)
  unfolding group_ids
  group_ids-keeps [] i m p = p
  group_ids-keeps (id ∷ ids) i m p = group_ids-keeps ids i _ (add_id-In _ id i m p)

  pub group_ids-In : (ids : List ℕ) (i : ℕ) (m : IdMap) → Memᴰ i ids → In i (group_ids sh ids m)
  unfolding group_ids
  group_ids-In [] i m p = elim p [ ]
  group_ids-In (id ∷ ids) i m (Memᴰ.head p) =
      subst (λ (x : ℕ). In x (group_ids sh (id ∷ ids) m)) (sym p)
        (group_ids-keeps ids id _ (add_id-In_self (key_of sh id) id m))
  group_ids-In (id ∷ ids) i m (Memᴰ.tail p) = group_ids-In ids i _ p
