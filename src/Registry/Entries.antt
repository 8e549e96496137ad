-- ===== src/Registry/Entries.antt =====
-- What the code relies on of etcd and of encoding/json, and what unmarshalling a list of entries
-- gives.
use mathlib.Core.List.{Memᴰ}
use mathlib.Core.Path.{subst}
use text.Mathlib.Text.{◌==◌, starts_with}
use text.Mathlib.TextEquality.{eq_iff}
use jotify.Prelude.{
  ◌≡◌, ◌≢◌, ◌⊎◌, refl, sym, ap, ◌∙◌, arith, true, false, String, List, [], ◌∷◌, Option, none, some,
}
use jotify.Errs.{Result, ok, err}
use jotify.Registry.{ServiceInstance, Etcd, Json, unmarshal_all}

-- A put stores its value or fails, then perhaps having stored it; a deletion likewise; neither
-- touches another key. A Get with a prefix answers the entries whose keys begin with it.
pub record IsEtcd (etcd : Etcd) : Type 0 where
  pub put_lem :
      (k v : String) (s : etcd.Store)
      → (etcd.put k v s).0 ≡ ok tt
      → etcd.value ((etcd.put k v s).1) k ≡ some v
  pub put_either :
      (k v : String) (s : etcd.Store)
      → (etcd.value ((etcd.put k v s).1) k ≡ some v)
        ⊎ (etcd.value ((etcd.put k v s).1) k ≡ etcd.value s k)
  pub put_other :
      (k v j : String) (s : etcd.Store) → k ≢ j → etcd.value ((etcd.put k v s).1) j ≡ etcd.value s j
  pub delete_lem :
      (k : String) (s : etcd.Store)
      → (etcd.delete k s).0 ≡ ok tt
      → etcd.value ((etcd.delete k s).1) k ≡ none
  pub delete_either :
      (k : String) (s : etcd.Store)
      → (etcd.value ((etcd.delete k s).1) k ≡ none)
        ⊎ (etcd.value ((etcd.delete k s).1) k ≡ etcd.value s k)
  pub delete_other :
      (k j : String) (s : etcd.Store) → k ≢ j → etcd.value ((etcd.delete k s).1) j ≡ etcd.value s j
  pub get_sound :
      (p : String) (s : etcd.Store) (kvs : List (String × String)) (k v : String)
      → etcd.get_with_prefix p s ≡ ok kvs
      → Memᴰ (k, v) kvs
      → (etcd.value s k ≡ some v) × (starts_with k p ≡ true)
  pub get_complete :
      (p : String) (s : etcd.Store) (kvs : List (String × String)) (k v : String)
      → etcd.get_with_prefix p s ≡ ok kvs
      → etcd.value s k ≡ some v
      → starts_with k p ≡ true
      → Memᴰ (k, v) kvs

pub record IsJson (json : Json) : Type 0 where
  pub unmarshal-marshal :
      (si : ServiceInstance) (v : String) → json.marshal si ≡ ok v → json.unmarshal v ≡ ok si

pub ok_inj {ℓ} : {A : Type ℓ} {a b : A} → Path (Result A) (ok a) (ok b) → a ≡ b
ok_inj {a} p = ap (λ r. elim r [ ok x ↦ x | err e ↦ a ]) p

pub some_inj {ℓ} : {A : Type ℓ} {a b : A} → Path (Option A) (some a) (some b) → a ≡ b
some_inj {a} p = ap (λ o. elim o [ none ↦ a | some x ↦ x ]) p

pub apart : {s t : String} → (s == t) ≡ false → s ≢ t
apart {s} {t} e = λ (p : s ≡ t). ground (arith, (eq_iff s t).1 p)

-- The entries and the instances that they are unmarshalled to.
pub unmarshal_all_sound :
    (json : Json) (kvs : List (String × String)) (l : List ServiceInstance) (si : ServiceInstance)
    → unmarshal_all json kvs ≡ ok l
    → Memᴰ si l
    → (k : String) × (v : String) × Memᴰ (k, v) kvs × (json.unmarshal v ≡ ok si)
unfolding unmarshal_all
unmarshal_all_sound json [] l si h p = elim (subst (Memᴰ si) (sym (ok_inj h)) p) [ ]
unmarshal_all_sound json ((k, v) ∷ kvs) l si h p =
    go (json.unmarshal v) (unmarshal_all json kvs) refl
      (λ l₁ q m. unmarshal_all_sound json kvs l₁ si q m) h
  where
    go :
        (u : Result ServiceInstance) (r : Result (List ServiceInstance))
        → json.unmarshal v ≡ u
        → ((l₁ : List ServiceInstance)
            → r ≡ ok l₁
            → Memᴰ si l₁
            → (j : String) × (w : String) × Memᴰ (j, w) kvs × (json.unmarshal w ≡ ok si))
        → elim u [ err e ↦ err e | ok x ↦ elim r [ err e ↦ err e | ok xs ↦ ok (x ∷ xs) ] ] ≡ ok l
        → (j : String) × (w : String) × Memᴰ (j, w) ((k, v) ∷ kvs) × (json.unmarshal w ≡ ok si)
    go (err e) r q ih f = ground arith
    go (ok x) (err e) q ih f = ground arith
    go (ok x) (ok xs) q ih f = elim (subst (Memᴰ si) (sym (ok_inj f)) p) [
      | Memᴰ.head same ↦ (k, v, Memᴰ.head refl, q ∙ ap ok (sym same))
      | Memᴰ.tail m ↦ let (j, w, n, e) = ih xs refl m in (j, w, Memᴰ.tail n, e)
    ]

pub unmarshal_all-complete :
    (json : Json) (kvs : List (String × String)) (l : List ServiceInstance) (k v : String)
    (si : ServiceInstance)
    → unmarshal_all json kvs ≡ ok l
    → Memᴰ (k, v) kvs
    → json.unmarshal v ≡ ok si
    → Memᴰ si l
unfolding unmarshal_all
unmarshal_all-complete json [] l k v si h m e = elim m [ ]
unmarshal_all-complete json ((j, w) ∷ kvs) l k v si h m e =
    go (json.unmarshal w) (unmarshal_all json kvs) refl
      (λ l₁ q n. unmarshal_all-complete json kvs l₁ k v si q n e) h m
  where
    go :
        (u : Result ServiceInstance) (r : Result (List ServiceInstance))
        → json.unmarshal w ≡ u
        → ((l₁ : List ServiceInstance) → r ≡ ok l₁ → Memᴰ (k, v) kvs → Memᴰ si l₁)
        → elim u [ err e ↦ err e | ok x ↦ elim r [ err e ↦ err e | ok xs ↦ ok (x ∷ xs) ] ] ≡ ok l
        → Memᴰ (k, v) ((j, w) ∷ kvs)
        → Memᴰ si l
    go (err x) r q ih f n = ground arith
    go (ok x) (err y) q ih f n = ground arith
    go (ok x) (ok xs) q ih f n = subst (Memᴰ si) (ok_inj f) (elim n [
      | Memᴰ.head same ↦
          Memᴰ.head (ok_inj (sym e ∙ ap (λ (p : String × String). json.unmarshal p.1) same ∙ q))
      | Memᴰ.tail t ↦ Memᴰ.tail (ih xs refl t)
    ])
