-- ===== src/Registry/Listing.antt =====
-- Which instances ListService finds.
use Prim.Native.String.{◌++◌}
use mathlib.Core.List.{Memᴰ}
use text.Mathlib.Text.{◌==◌, starts_with}
use text.Mathlib.TextEquality.{eq_iff}
use text.Mathlib.TextLemmas.{append_assoc}
use text.Mathlib.TextPositions.{starts_with-append}
use jotify.Prelude.{◌≡◌, inl, inr, refl, sym, ap, ◌∙◌, arith, true, Bool-cases, String, List, some}
use jotify.Errs.{Result, ok, err}
use jotify.Registry.{
  ServiceInstance, Etcd, Json, service_key, instance_key, unmarshal_all, register, unregister,
  list_service,
}
use jotify.Registry.Entries.{
  IsEtcd, IsJson, ok_inj, some_inj, apart, unmarshal_all_sound, unmarshal_all-complete,
}

module _ (etcd : Etcd) (json : Json) where
  -- The instance is what the entry at its key unmarshals to.
  abbrev pub Stored : etcd.Store → ServiceInstance → Type 0
  Stored s si =
      (v : String) × (etcd.value s (instance_key si) ≡ some v) × (json.unmarshal v ≡ ok si)

  -- Every entry is an instance at its own key.
  abbrev pub Consistent : etcd.Store → Type 0
  Consistent s =
      (k v : String)
      → etcd.value s k ≡ some v
      → (si : ServiceInstance) × (json.unmarshal v ≡ ok si) × (k ≡ instance_key si)

module _ (etcd : Etcd) (json : Json) (laws : IsEtcd etcd) (codec : IsJson json) where
  listed :
      (kvs : List (String × String)) (name : String) (s : etcd.Store) (l : List ServiceInstance)
      → etcd.get_with_prefix (service_key name) s ≡ ok kvs
      → unmarshal_all json kvs ≡ ok l
      → Consistent etcd json s
      → (si : ServiceInstance)
      → (Memᴰ si l
          → Stored etcd json s si × (starts_with (instance_key si) (service_key name) ≡ true))
        × (Stored etcd json s si
            → starts_with (instance_key si) (service_key name) ≡ true
            → Memᴰ si l)
  listed kvs name s l got h all si = (
    λ (m : Memᴰ si l).
        let (k, v, n, e) = unmarshal_all_sound json kvs l si h m in
        let (at, begins) = laws.get_sound (service_key name) s kvs k v got n in
        let (x, f, own) = all k v at in
        let same : k ≡ instance_key si = own ∙ ap instance_key (ok_inj (sym f ∙ e)) in
        (
          (v, ap (etcd.value s) (sym same) ∙ at, e),
          ap (λ (j : String). starts_with j (service_key name)) (sym same) ∙ begins,
        ),
    λ (stored : Stored etcd json s si)
          (begins : starts_with (instance_key si) (service_key name) ≡ true).
        let (v, at, e) = stored in
        unmarshal_all-complete json kvs l (instance_key si) v si h
          (laws.get_complete (service_key name) s kvs (instance_key si) v got at begins) e,
  )

  -- In a store whose entries are instances at their own keys, ListService finds exactly the stored
  -- instances whose keys begin with the key of the service.
  pub list_service-Stored :
      (name : String) (s : etcd.Store) (l : List ServiceInstance)
      → Consistent etcd json s
      → list_service etcd json name s ≡ ok l
      → (si : ServiceInstance)
      → (Memᴰ si l
          → Stored etcd json s si × (starts_with (instance_key si) (service_key name) ≡ true))
        × (Stored etcd json s si
            → starts_with (instance_key si) (service_key name) ≡ true
            → Memᴰ si l)
  unfolding list_service
  list_service-Stored name s l all h si = go (etcd.get_with_prefix (service_key name) s) refl h
    where
      go :
          (g : Result (List (String × String)))
          → etcd.get_with_prefix (service_key name) s ≡ g
          → elim g [ err e ↦ err e | ok kvs ↦ unmarshal_all json kvs ] ≡ ok l
          → (Memᴰ si l
              → Stored etcd json s si × (starts_with (instance_key si) (service_key name) ≡ true))
            × (Stored etcd json s si
                → starts_with (instance_key si) (service_key name) ≡ true
                → Memᴰ si l)
      go (err e) q f = ground arith
      go (ok kvs) q f = listed kvs name s l q f all si

  begins_lem :
      (name rest : String) (si : ServiceInstance)
      → si.name ≡ name ++ rest
      → starts_with (instance_key si) (service_key name) ≡ true
  unfolding instance_key service_key
  begins_lem name rest si e =
      ap (λ (t : String). starts_with t ("/notification/" ++ name)) (simp (e, append_assoc))
      ∙ starts_with-append ("/notification/" ++ name) (rest ++ "/" ++ si.addr)

  register_lem :
      (si : ServiceInstance) (s : etcd.Store)
      → (register etcd json si s).0 ≡ ok tt
      → Stored etcd json ((register etcd json si s).1) si
  unfolding register
  register_lem si s h = go (json.marshal si) refl h
    where
      go :
          (m : Result String)
          → json.marshal si ≡ m
          → (elim m as (λ _. Result (Unit {0}) × etcd.Store) [
            | err e ↦ (err e, s)
            | ok val ↦ etcd.put (instance_key si) val s
          ]).0
            ≡ ok tt
          → Stored etcd json
              ((elim m as (λ _. Result (Unit {0}) × etcd.Store) [
                | err e ↦ (err e, s)
                | ok val ↦ etcd.put (instance_key si) val s
              ]).1)
              si
      go (err e) q f = ground arith
      go (ok val) q f =
          (val, laws.put_lem (instance_key si) val s f, codec.unmarshal-marshal si val q)

  after_put :
      (si : ServiceInstance) (val : String) (s : etcd.Store)
      → json.marshal si ≡ ok val
      → Consistent etcd json s
      → Consistent etcd json ((etcd.put (instance_key si) val s).1)
  after_put si val s q all k v e = elim (Bool-cases (instance_key si == k)) [
    | inl here ↦
        let same = (eq_iff (instance_key si) k).0 here in
        elim (laws.put_either (instance_key si) val s) [
          | inl stored ↦ (
            si,
            codec.unmarshal-marshal si v
                (q ∙ ap ok (some_inj (sym stored ∙ ap (etcd.value _) same ∙ e))),
            sym same,
          )
          | inr kept ↦
              all k v (ap (etcd.value s) (sym same) ∙ sym kept ∙ ap (etcd.value _) same ∙ e)
        ]
    | inr away ↦ all k v (sym (laws.put_other (instance_key si) val k s (apart away)) ∙ e)
  ]

  -- Register keeps the store consistent, whether it succeeds or not.
  pub register-Consistent :
      (si : ServiceInstance) (s : etcd.Store)
      → Consistent etcd json s
      → Consistent etcd json ((register etcd json si s).1)
  unfolding register
  register-Consistent si s all = go (json.marshal si) refl
    where
      go :
          (m : Result String)
          → json.marshal si ≡ m
          → Consistent etcd json (
              (elim m as (λ _. Result (Unit {0}) × etcd.Store) [
                | err e ↦ (err e, s)
                | ok val ↦ etcd.put (instance_key si) val s
              ]).1)
      go (err e) q = all
      go (ok val) q = after_put si val s q all

  -- Unregister keeps the store consistent, whether it succeeds or not.
  pub unregister-Consistent :
      (si : ServiceInstance) (s : etcd.Store)
      → Consistent etcd json s
      → Consistent etcd json ((unregister etcd json si s).1)
  unfolding unregister
  unregister-Consistent si s all k v e = elim (Bool-cases (instance_key si == k)) [
    | inl here ↦
        let same = (eq_iff (instance_key si) k).0 here in
        elim (laws.delete_either (instance_key si) s) [
          | inl gone ↦ absurd (ground (arith, sym gone ∙ ap (etcd.value _) same ∙ e))
          | inr kept ↦
              all k v (ap (etcd.value s) (sym same) ∙ sym kept ∙ ap (etcd.value _) same ∙ e)
        ]
    | inr away ↦ all k v (sym (laws.delete_other (instance_key si) k s (apart away)) ∙ e)
  ]

  -- An instance that was registered is listed under its name, and also under every text that its
  -- name begins with: ListService of one service answers the instances of another one whose name
  -- is longer.
  pub list_service-register :
      (si : ServiceInstance) (name rest : String) (s : etcd.Store) (l : List ServiceInstance)
      → Consistent etcd json s
      → si.name ≡ name ++ rest
      → (register etcd json si s).0 ≡ ok tt
      → list_service etcd json name ((register etcd json si s).1) ≡ ok l
      → Memᴰ si l
  list_service-register si name rest s l all e h listing =
      (list_service-Stored name _ l (register-Consistent si s all) listing si).1
        (register_lem si s h) (begins_lem name rest si e)

  -- An instance that was unregistered is not listed under any name, nor is any with its key.
  pub list_service-unregister :
      (si other : ServiceInstance) (name : String) (s : etcd.Store) (l : List ServiceInstance)
      → Consistent etcd json s
      → instance_key other ≡ instance_key si
      → (unregister etcd json si s).0 ≡ ok tt
      → list_service etcd json name ((unregister etcd json si s).1) ≡ ok l
      → Memᴰ other l
      → ⊥
  unfolding unregister
  list_service-unregister si other name s l all same h listing m =
      let (stored, begins) =
        (list_service-Stored name _ l (unregister-Consistent si s all) listing other).0 m in
      let (v, at, e) = stored in
      ground
        (arith, sym (laws.delete_lem (instance_key si) s h) ∙ ap (etcd.value _) (sym same) ∙ at)
