-- ===== src/Dao/Create/Ids.antt =====
-- The ids of a batch: what sqlGenerate does to the notifications that its pointers stand for.
use mathlib.Core.List.{Memᴰ}
use mathlib.Core.Path.{subst}
use Prim.Native.Nat.{◌∣◌}
use jotify.Prelude.{
  ℕ, zero, suc, ◌*◌, ◌^◌, ◌<◌, ◌≡◌, ◌⊎◌, inl, inr, refl, sym, ap, ◌∙◌, arith, Bool, List, [], ◌∷◌,
  Option, none, some, get_elem?, set,
}
use jotify.Prelude.Int.{ℤ}
use jotify.Snowflake.{Generator, next_id}
use jotify.Sharding.{shard, shard_with_id}
use jotify.Sharding.Agree.{shard_with_id-next_id}
use jotify.Repo.{Entity}
use jotify.Dao.{Gorm, Sharded}
use jotify.Dao.Create.{Inserts, Pointed, renew, renewed, statements}

-- The notifications of a list up to their ids.
pub data Renumbered : List Entity → List Entity → Type 0 where
  none_left : Renumbered [] []
  renumbered :
      (n : Entity) (id : ℕ) (ns ms : List Entity)
      → Renumbered ns ms
      → Renumbered (n ∷ ns) (record n { id = id } ∷ ms)

pub Renumbered-refl : (ns : List Entity) → Renumbered ns ns
Renumbered-refl [] = none_left
Renumbered-refl (n ∷ ns) = renumbered n n.id ns ns (Renumbered-refl ns)

some_inj : {a b : Entity} → Path (Option Entity) (some a) (some b) → a ≡ b
some_inj {a} p = ap (λ o. elim o [ none ↦ a | some x ↦ x ]) p

set-Renumbered :
    (ns ms : List Entity) (i id : ℕ) (m : Entity)
    → Renumbered ns ms
    → get_elem? ms i ≡ some m
    → Renumbered ns (set ms i (record m { id = id }))
set-Renumbered _ _ i id m none_left at = none_left
set-Renumbered _ _ zero id m (renumbered n old ns ms h) at =
    subst (λ (x : Entity). Renumbered (n ∷ ns) (record x { id = id } ∷ ms)) (some_inj at)
      (renumbered n id ns ms h)
set-Renumbered _ _ (suc i) id m (renumbered n old ns ms h) at =
    renumbered n old ns _ (set-Renumbered ns ms i id m h at)

-- What a list has at the position of an assignment, and at any position after it.
get_elem?-set_there :
    (ns : List Entity) (i : ℕ) (v w : Entity) → get_elem? (set ns i v) i ≡ some w → w ≡ v
get_elem?-set_there [] i v w h = ground arith
get_elem?-set_there (n ∷ ns) zero v w h = sym (some_inj h)
get_elem?-set_there (n ∷ ns) (suc i) v w h = get_elem?-set_there ns i v w h

get_elem?-set_any :
    (ns : List Entity) (i j : ℕ) (v w : Entity)
    → get_elem? (set ns i v) j ≡ some w
    → (w ≡ v) ⊎ (get_elem? ns j ≡ some w)
get_elem?-set_any [] i j v w h = inr h
get_elem?-set_any (n ∷ ns) zero zero v w h = inl (sym (some_inj h))
get_elem?-set_any (n ∷ ns) zero (suc j) v w h = inr h
get_elem?-set_any (n ∷ ns) (suc i) zero v w h = inr h
get_elem?-set_any (n ∷ ns) (suc i) (suc j) v w h = get_elem?-set_any ns i j v w h

module _ (sh : Sharded) where
  -- The id of a notification leads to the database and table that its key is sharded to.
  abbrev pub Routed : Entity → Type 0
  Routed n =
      shard_with_id sh.notif_strategy n.id ≡ shard sh.sum64 sh.notif_strategy n.biz_id n.biz_key

  -- So does the id of what stands at a position, if anything does.
  abbrev pub RoutedAt : List Entity → ℕ → Type 0
  RoutedAt ns i = (n : Entity) → get_elem? ns i ≡ some n → Routed n

  module _ (positive : 0 < sh.notif_strategy.db_sharding)
      (divides : sh.notif_strategy.db_sharding * sh.notif_strategy.table_sharding ∣ 2 ^ 10)
      (clock i : ℕ) (g : Generator) (ns : List Entity) where
    new_id-Routed :
        (n : Entity) → Routed (record n { id = (next_id sh.sum64 g clock n.biz_id n.biz_key).1 })
    new_id-Routed n =
        shard_with_id-next_id sh.sum64 sh.notif_strategy g clock n.biz_id n.biz_key positive divides

    pub renew-RoutedAt : RoutedAt ((renew sh clock i (g, ns)).1) i
    unfolding renewed
    renew-RoutedAt = go (get_elem? ns i) refl
      where
        go :
            (o : Option Entity) → get_elem? ns i ≡ o → RoutedAt ((renewed sh clock i o (g, ns)).1) i
        go none at m h = ground (arith, sym at ∙ h)
        go (some n) at m h = subst Routed (sym (get_elem?-set_there ns i _ m h)) (new_id-Routed n)

    pub renew-RoutedAt_too : (j : ℕ) → RoutedAt ns j → RoutedAt ((renew sh clock i (g, ns)).1) j
    unfolding renewed
    renew-RoutedAt_too j kept = go (get_elem? ns i)
      where
        go : (o : Option Entity) → RoutedAt ((renewed sh clock i o (g, ns)).1) j
        go none m h = kept m h
        go (some n) m h = elim (get_elem?-set_any ns i j _ m h) [
          | inl new ↦ subst Routed (sym new) (new_id-Routed n)
          | inr old ↦ kept m old
        ]

  renew-Renumbered :
      (os : List Entity) (clock i : ℕ) (g : Generator) (ns : List Entity)
      → Renumbered os ns
      → Renumbered os ((renew sh clock i (g, ns)).1)
  unfolding renewed
  renew-Renumbered os clock i g ns r = go (get_elem? ns i) refl
    where
      go :
          (o : Option Entity)
          → get_elem? ns i ≡ o
          → Renumbered os ((renewed sh clock i o (g, ns)).1)
      go none at = r
      go (some n) at = set-Renumbered os ns i _ n r at

  -- What a step does to the notifications that the pointers stand for: it changes only ids, and
  -- what was routed stays so.
  pub record Improves (p q : Pointed) : Type 0 where
    pub same : (os : List Entity) → Renumbered os p.1 → Renumbered os q.1
    pub kept : (j : ℕ) → RoutedAt p.1 j → RoutedAt q.1 j

  pub Improves-refl : (p : Pointed) → Improves p p
  Improves-refl p = record { same = λ os r. r; kept = λ j r. r }

  pub Improves-trans : (p q r : Pointed) → Improves p q → Improves q r → Improves p r
  Improves-trans p q r h k = record {
    same = λ os x. k.same os (h.same os x);
    kept = λ j x. k.kept j (h.kept j x);
  }

  module _ (positive : 0 < sh.notif_strategy.db_sharding)
      (divides : sh.notif_strategy.db_sharding * sh.notif_strategy.table_sharding ∣ 2 ^ 10) where
    renew-Improves : (clock i : ℕ) (p : Pointed) → Improves p (renew sh clock i p)
    renew-Improves clock i (g, ns) = record {
      same = λ os r. renew-Renumbered os clock i g ns r;
      kept = λ j r. renew-RoutedAt_too positive divides clock i g ns j r;
    }

    module _ (db : Gorm) (ins : Inserts db) (now : ℤ) (clock : ℕ → ℕ) (need_callback : Bool) where
      pub statements-Improves :
          (is : List ℕ) (p : Pointed)
          → Improves p ((statements db ins sh now clock need_callback is p).1)
      unfolding statements
      statements-Improves [] p = Improves-refl p
      statements-Improves (i ∷ is) p =
          Improves-trans p (renew sh (clock i) i p) _ (renew-Improves (clock i) i p)
            (statements-Improves is (renew sh (clock i) i p))

      pub statements-RoutedAt :
          (is : List ℕ) (p : Pointed) (j : ℕ)
          → Memᴰ j is
          → RoutedAt ((statements db ins sh now clock need_callback is p).1.1) j
      unfolding statements
      statements-RoutedAt [] p j m = elim m [ ]
      statements-RoutedAt (i ∷ is) p j (Memᴰ.head e) =
          (statements-Improves is (renew sh (clock i) i p)).kept j (
            subst (RoutedAt ((renew sh (clock i) i p).1)) (sym e)
              (renew-RoutedAt positive divides (clock i) i p.0 p.1))
      statements-RoutedAt (i ∷ is) p j (Memᴰ.tail m) =
          statements-RoutedAt is (renew sh (clock i) i p) j m
