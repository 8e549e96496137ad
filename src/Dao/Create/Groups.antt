-- ===== src/Dao/Create/Groups.antt =====
-- Every notification of a batch has its pointer in the group of a database.
use text.Mathlib.Text.{◌==◌}
use mathlib.Core.List.{Memᴰ}
use mathlib.Core.List.Memᴰ
use mathlib.Core.Path.{subst}
use jotify.Prelude.{
  ℕ, zero, suc, ◌+◌, ◌≡◌, refl, arith, Bool, true, false, if◌then◌else◌, String, List, [], ◌∷◌,
  some, get_elem?,
}
use jotify.Prelude.TextMaps.{get, put}
use jotify.Sharding.{shard}
use jotify.Repo.{Entity}
use jotify.Dao.{Sharded}
use jotify.Dao.Create.{or_nil, add_pointer, group_pointers}

abbrev pub Groups : Type 0
Groups = List (String × List ℕ)

pub data Grouped (i : ℕ) : Groups → Type 0 where
  here : (name : String) (is : List ℕ) (m : Groups) → Memᴰ i is → Grouped i ((name, is) ∷ m)
  there : (group : String × List ℕ) (m : Groups) → Grouped i m → Grouped i (group ∷ m)

put-Grouped :
    (name : String) (i : ℕ) (is : List ℕ) (m : Groups) → Memᴰ i is → Grouped i (put name is m)
unfolding put
put-Grouped name i is [] h = here name is [] h
put-Grouped name i is ((k, js) ∷ m) h = branch (put-Grouped name i is m h) (k == name)
  where
    branch :
        Grouped i (put name is m)
        → (b : Bool) → Grouped i (if b then (name, is) ∷ m else (k, js) ∷ put name is m)
    branch rest true = here name is m h
    branch rest false = there (k, js) _ rest

-- A group that takes the place of another one and has its pointers.
put-Grouped_too :
    (name : String) (i : ℕ) (is : List ℕ) (m : Groups)
    → Grouped i m
    → (Memᴰ i (or_nil (get name m)) → Memᴰ i is)
    → Grouped i (put name is m)
unfolding get put
put-Grouped_too name i is [] h keeps = elim h [ ]
put-Grouped_too name i is ((k, js) ∷ m) h keeps =
    branch h (λ g. put-Grouped_too name i is m g) (k == name) keeps
  where
    branch :
        Grouped i ((k, js) ∷ m)
        → (Grouped i m → (Memᴰ i (or_nil (get name m)) → Memᴰ i is) → Grouped i (put name is m))
        → (b : Bool) → (Memᴰ i (or_nil (if b then some js else get name m)) → Memᴰ i is)
        → Grouped i (if b then (name, is) ∷ m else (k, js) ∷ put name is m)
    branch (here _ _ _ mem) rest true keeps = here name is m (keeps mem)
    branch (there _ _ g) rest true keeps = there (name, is) m g
    branch (here _ _ _ mem) rest false keeps = here k js _ mem
    branch (there _ _ g) rest false keeps = there (k, js) _ (rest g keeps)

add_pointer-Grouped : (name : String) (i : ℕ) (m : Groups) → Grouped i (add_pointer name i m)
unfolding add_pointer
add_pointer-Grouped name i m =
    put-Grouped name i _ m (Memᴰ.append_right (or_nil (get name m)) (Memᴰ.head refl))

add_pointer-Grouped_too :
    (name : String) (j i : ℕ) (m : Groups) → Grouped i m → Grouped i (add_pointer name j m)
unfolding add_pointer
add_pointer-Grouped_too name j i m g =
    put-Grouped_too name i _ m g (λ h. Memᴰ.append_left (j ∷ []) h)

group_pointers-Grouped :
    (sh : Sharded) (i j : ℕ) (ns : List Entity) (m : Groups)
    → Grouped j m
    → Grouped j (group_pointers sh i ns m)
unfolding group_pointers
group_pointers-Grouped sh i j [] m g = g
group_pointers-Grouped sh i j (n ∷ ns) m g =
    let dst = shard sh.sum64 sh.notif_strategy n.biz_id n.biz_key in
    group_pointers-Grouped sh (i + 1) j ns _ (add_pointer-Grouped_too dst.db i j m g)

-- The pointer of the notification at a position of the list.
pub group_pointers_lem :
    (sh : Sharded) (i k : ℕ) (n : Entity) (ns : List Entity) (m : Groups)
    → get_elem? ns k ≡ some n
    → Grouped (i + k) (group_pointers sh i ns m)
unfolding group_pointers
group_pointers_lem sh i k n [] m h = ground arith
group_pointers_lem sh i zero n (o ∷ ns) m h =
    let dst = shard sh.sum64 sh.notif_strategy o.biz_id o.biz_key in
    subst (λ (x : ℕ). Grouped x (group_pointers sh (i + 1) ns (add_pointer dst.db i m)))
      (omega arith) (group_pointers-Grouped sh (i + 1) i ns _ (add_pointer-Grouped dst.db i m))
group_pointers_lem sh i (suc k) n (o ∷ ns) m h =
    let dst = shard sh.sum64 sh.notif_strategy o.biz_id o.biz_key in
    subst (λ (x : ℕ). Grouped x (group_pointers sh (i + 1) ns (add_pointer dst.db i m)))
      (omega arith) (group_pointers_lem sh (i + 1) k n ns _ h)
