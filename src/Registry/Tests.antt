-- ===== src/Registry/Tests.antt =====
-- The theorems on the registry at a store that is the list of its puts, and instances that are
-- marshalled to their names and addresses, with the rest fixed.
use mathlib.Core.List.{Memᴰ}
use mathlib.Core.Path.{subst}
use text.Mathlib.Text.{◌==◌, starts_with}
use text.Mathlib.TextEquality.{eq_iff}
use jotify.Prelude.{
  ◌≡◌, ◌≢◌, refl, sym, ap, ◌∙◌, arith, Bool, true, false, ◌&&◌, inl, ◌≤◌, replicate, String, List,
  [], ◌∷◌, Option, none, some, if◌then◌else◌, ◌++◌ as append,
}
use jotify.Prelude.Int.{pos}
use jotify.Errs.{Result, ok, err, other}
use jotify.Domain.Time.{eq_ℤ}
use jotify.Registry.{
  ServiceInstance, Etcd, Json, register, unregister, list_service, instance_key, service_key,
}
use jotify.Registry.Entries.{IsEtcd, IsJson}
use jotify.Registry.Listing.{
  Stored, Consistent, list_service-Stored, list_service-register, list_service-unregister,
  register-Consistent,
}
use jotify.Registry.Watch.{Received, ctx_done, response, zero_response, watch, Lawful, watch-closed}

abbrev Entries : Type 0
Entries = List (String × String)

value : Entries → String → Option String
value [] j = none
value ((k, v) ∷ s) j = if k == j then some v else value s j

without : String → Entries → Entries
without j [] = []
without j ((k, v) ∷ s) = if k == j then without j s else (k, v) ∷ without j s

with_prefix : String → Entries → Entries
with_prefix p [] = []
with_prefix p ((k, v) ∷ s) =
    if starts_with k p then (k, v) ∷ without k (with_prefix p s) else without k (with_prefix p s)

value-without :
    (k j : String) (s : Entries) → value (without k s) j ≡ (if k == j then none else value s j)
unfolding value without
value-without k j [] = ground arith
value-without k j ((i, v) ∷ s) =
    ground (arith, eq_iff k j, eq_iff i k, eq_iff i j, value-without k j s)

mem-without :
    (k j v : String) (s : Entries) → Memᴰ (j, v) (without k s) → Memᴰ (j, v) s × ((k == j) ≡ false)
unfolding without
mem-without k j v [] m = elim m [ ]
mem-without k j v ((i, w) ∷ s) m = go (i == k) refl (mem-without k j v s) m
  where
    go :
        (b : Bool)
        → (i == k) ≡ b
        → (Memᴰ (j, v) (without k s) → Memᴰ (j, v) s × ((k == j) ≡ false))
        → Memᴰ (j, v) (if b then without k s else (i, w) ∷ without k s)
        → Memᴰ (j, v) ((i, w) ∷ s) × ((k == j) ≡ false)
    go true e ih n = let (below, away) = ih n in (Memᴰ.tail below, away)
    go false e ih (Memᴰ.head same) = (
      Memᴰ.head same,
      let key : j ≡ i = ap (λ (p : String × String). p.0) same in
          ground (arith, eq_iff i k, eq_iff k j),
    )
    go false e ih (Memᴰ.tail n) = let (below, away) = ih n in (Memᴰ.tail below, away)

without-mem :
    (k j v : String) (s : Entries) → (k == j) ≡ false → Memᴰ (j, v) s → Memᴰ (j, v) (without k s)
unfolding without
without-mem k j v [] away m = elim m [ ]
without-mem k j v ((i, w) ∷ s) away m = go (i == k) refl (without-mem k j v s away) m
  where
    go :
        (b : Bool)
        → (i == k) ≡ b
        → (Memᴰ (j, v) s → Memᴰ (j, v) (without k s))
        → Memᴰ (j, v) ((i, w) ∷ s)
        → Memᴰ (j, v) (if b then without k s else (i, w) ∷ without k s)
    go true e ih (Memᴰ.head same) =
        let key : j ≡ i = ap (λ (p : String × String). p.0) same in
        absurd (ground (arith, eq_iff i k, eq_iff k j))
    go true e ih (Memᴰ.tail n) = ih n
    go false e ih (Memᴰ.head same) = Memᴰ.head same
    go false e ih (Memᴰ.tail n) = Memᴰ.tail (ih n)

with_prefix_sound :
    (p k v : String) (s : Entries)
    → Memᴰ (k, v) (with_prefix p s)
    → (value s k ≡ some v) × (starts_with k p ≡ true)
unfolding with_prefix value
with_prefix_sound p k v [] m = elim m [ ]
with_prefix_sound p k v ((j, w) ∷ s) m =
    go (starts_with j p) refl (λ n. mem-without j k v (with_prefix p s) n)
      (with_prefix_sound p k v s) m
  where
    go :
        (b : Bool)
        → starts_with j p ≡ b
        → (Memᴰ (k, v) (without j (with_prefix p s))
            → Memᴰ (k, v) (with_prefix p s) × ((j == k) ≡ false))
        → (Memᴰ (k, v) (with_prefix p s) → (value s k ≡ some v) × (starts_with k p ≡ true))
        → Memᴰ
            (k, v)
            (if b then (j, w) ∷ without j (with_prefix p s) else without j (with_prefix p s))
        → ((if j == k then some w else value s k) ≡ some v) × (starts_with k p ≡ true)
    go true e below ih (Memᴰ.head same) =
        let key : k ≡ j = ap (λ (q : String × String). q.0) same in
        let val : v ≡ w = ap (λ (q : String × String). q.1) same in
        (ground (arith, eq_iff j k), ap (λ (t : String). starts_with t p) key ∙ e)
    go true e below ih (Memᴰ.tail n) =
        let (there, away) = below n in
        let (found, begins) = ih there in (ground (arith, away), begins)
    go false e below ih n =
        let (there, away) = below n in
        let (found, begins) = ih there in (ground (arith, away), begins)

with_prefix-complete :
    (p k v : String) (s : Entries)
    → value s k ≡ some v
    → starts_with k p ≡ true
    → Memᴰ (k, v) (with_prefix p s)
unfolding with_prefix value
with_prefix-complete p k v [] h b = ground arith
with_prefix-complete p k v ((j, w) ∷ s) h begins =
    go (j == k) refl (starts_with j p) refl h
      (λ e away. without-mem j k v (with_prefix p s) away (with_prefix-complete p k v s e begins))
  where
    go :
        (c : Bool)
        → (j == k) ≡ c
        → (b : Bool) → starts_with j p ≡ b
        → (if c then some w else value s k) ≡ some v
        → (value s k ≡ some v → (j == k) ≡ false → Memᴰ (k, v) (without j (with_prefix p s)))
        → Memᴰ
            (k, v)
            (if b then (j, w) ∷ without j (with_prefix p s) else without j (with_prefix p s))
    go true e true f q ih =
        let key : j ≡ k = (eq_iff j k).0 e in
        let val : w ≡ v = ground arith in Memᴰ.head (λ i. (sym key i, sym val i))
    go true e false f q ih =
        let key : j ≡ k = (eq_iff j k).0 e in
        absurd (ground (arith, sym f ∙ ap (λ (t : String). starts_with t p) key ∙ begins))
    go false e true f q ih = Memᴰ.tail (ih q e)
    go false e false f q ih = ih q e

entries_inj : {a b : Entries} → Path (Result Entries) (ok a) (ok b) → a ≡ b
entries_inj {a} p = ap (λ r. elim r [ ok x ↦ x | err e ↦ a ]) p

abbrev entries : Etcd
entries = record {
  Store = Entries;
  value = value;
  put = λ k v s. (ok tt, (k, v) ∷ s);
  delete = λ k s. (ok tt, without k s);
  get_with_prefix = λ p s. ok (with_prefix p s);
}

put_value : (k v : String) (s : Entries) → value ((k, v) ∷ s) k ≡ some v
unfolding value
put_value k v s = ground (arith, eq_iff k k)

put_else : (k v j : String) (s : Entries) → k ≢ j → value ((k, v) ∷ s) j ≡ value s j
unfolding value
put_else k v j s h = ground (arith, eq_iff k j)

entries-IsEtcd : IsEtcd entries
entries-IsEtcd = record {
  put_lem = λ k v s h. put_value k v s;
  put_either = λ k v s. inl (put_value k v s);
  put_other = λ k v j s h. put_else k v j s h;
  delete_lem = λ k s h. ground (arith, value-without k k s, eq_iff k k);
  delete_either = λ k s. inl (ground (arith, value-without k k s, eq_iff k k));
  delete_other = λ k j s h. ground (arith, value-without k j s, eq_iff k j);
  get_sound = λ p s kvs k v h m.
      with_prefix_sound p k v s (subst (λ (l : Entries). Memᴰ (k, v) l) (sym (entries_inj h)) m);
  get_complete = λ p s kvs k v h e b.
      subst (λ (l : Entries). Memᴰ (k, v) l) (entries_inj h) (with_prefix-complete p k v s e b);
}

-- An instance of the group "core" at one address.
abbrev core_instance : String → ServiceInstance
core_instance name = record {
  name = name;
  addr = "10.0.0.7:9000";
  group = "core";
  read_weight = pos 3;
  write_weight = pos 1;
}

abbrev names : Json
names = record {
  marshal = λ si.
      if si.addr == "10.0.0.7:9000"
        && si.group == "core"
        && eq_ℤ si.read_weight (pos 3)
        && eq_ℤ si.write_weight (pos 1)
      then ok si.name
      else err (other "not an instance of the core");
  unmarshal = λ name. ok (core_instance name);
}

marshalled : (si : ServiceInstance) (v : String) → names.marshal si ≡ ok v → core_instance v ≡ si
marshalled si v h = ground (arith, eq_iff si.addr "10.0.0.7:9000", eq_iff si.group "core")

names-IsJson : IsJson names
names-IsJson = record { unmarshal-marshal = λ si v h. ap ok (marshalled si v h) }

empty-Consistent : Consistent entries names []
unfolding value
empty-Consistent k v h = ground arith

abbrev one : Entries
one = ("/notification/orders/10.0.0.7:9000", "orders") ∷ []

one-Consistent : Consistent entries names one
unfolding register
one-Consistent =
    register-Consistent entries names entries-IsEtcd names-IsJson (core_instance "orders") []
      empty-Consistent

list_service-Stored_example :
    (Memᴰ (core_instance "orders") (core_instance "orders" ∷ [])
      → Stored entries names one (core_instance "orders")
        × (starts_with (instance_key (core_instance "orders")) (service_key "ord") ≡ true))
    × (Stored entries names one (core_instance "orders")
        → starts_with (instance_key (core_instance "orders")) (service_key "ord") ≡ true
        → Memᴰ (core_instance "orders") (core_instance "orders" ∷ []))
unfolding list_service with_prefix without
list_service-Stored_example =
    list_service-Stored entries names entries-IsEtcd names-IsJson "ord" one
      (core_instance "orders" ∷ []) one-Consistent refl (core_instance "orders")

-- The service "ord" gets the instance of the service "orders".
list_service-register_example : Memᴰ (core_instance "orders") (core_instance "orders" ∷ [])
unfolding list_service register with_prefix without
list_service-register_example =
    list_service-register entries names entries-IsEtcd names-IsJson (core_instance "orders") "ord"
      "ers" [] (core_instance "orders" ∷ []) empty-Consistent refl refl refl

list_service-unregister_example : Memᴰ (core_instance "orders") [] → ⊥
unfolding list_service unregister with_prefix without
list_service-unregister_example =
    list_service-unregister entries names entries-IsEtcd names-IsJson (core_instance "orders")
      (core_instance "orders") "orders" one [] one-Consistent refl refl refl

watch-closed_example :
    ((watch (
        append
          (response (record { failed = true; canceled = true }) ∷ [])
          (replicate 3 (response zero_response)))).1
      ≡ true)
    × (3
        ≤ (watch (
            append
              (response (record { failed = true; canceled = true }) ∷ [])
              (replicate 3 (response zero_response)))).0)
watch-closed_example =
    watch-closed (response (record { failed = true; canceled = true }) ∷ []) 3 lawful
  where
    lawful :
        (r : Received)
        → Memᴰ r (response (record { failed = true; canceled = true }) ∷ [])
        → Lawful r
    lawful ctx_done (Memᴰ.head e) = ground arith
    lawful ctx_done (Memᴰ.tail m) = elim m [ ]
    lawful (response resp) (Memᴰ.head e) = λ (h : resp.canceled ≡ true). ground arith
    lawful (response resp) (Memᴰ.tail m) = elim m [ ]
