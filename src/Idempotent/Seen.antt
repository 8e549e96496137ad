-- ===== src/Idempotent/Seen.antt =====
-- What MultiExists answers for the keys of a batch.
use Prim.Native.String.{◌++◌}
use text.Mathlib.Text.{◌==◌}
use text.Mathlib.TextEquality.{eq_iff}
use text.Mathlib.TextPositions.{eq_refl}
use text.Mathlib.TextLemmas.{append_cancel_left}
use jotify.Prelude.{
  ◌≡◌, refl, sym, ap, ap₂, ◌∙◌, arith, Bool, true, false, ◌||◌, not, if◌then◌else◌, String, List,
  [], ◌∷◌, map, Option, none, some,
}
use jotify.Prelude.TextMaps.{get, put, get-put}
use jotify.Errs.{Result, ok, err}
use jotify.Idempotent.{Redis, redis_key, collect, collected, multi_exists, exists, seen}

-- The keys that are set, with one more.
abbrev pub with_key : String → (String → Bool) → String → Bool
with_key k has j = if k == j then true else has j

-- What SETNX answers for each key in turn, where `has` tells which keys are set.
unfoldable pub fresh : List String → (String → Bool) → List Bool
fresh [] has = []
fresh (k ∷ ks) has = not (has k) ∷ fresh ks (with_key k has)

-- Where the commands do not fail, SETNX tells whether its key was new and sets it, and a pipeline
-- does so for its keys in their order.
pub record IsRedis (r : Redis) (has : r.Store → String → Bool) : Type 0 where
  pub set_nx_lem :
      (k : String) (s : r.Store) (b : Bool)
      → (r.set_nx k s).0 ≡ ok b
      → (b ≡ not (has s k)) × ((j : String) → has ((r.set_nx k s).1) j ≡ with_key k (has s) j)
  pub pipeline_lem :
      (ks : List String) (s : r.Store) (cmds : List (Result Bool))
      → (r.pipeline ks s).0 ≡ ok cmds
      → cmds ≡ map ok (fresh ks (has s))

unfoldable pub occurs : String → List String → Bool
occurs k [] = false
occurs k (j ∷ js) = if j == k then true else occurs k js

-- The key stands in the list more than once.
unfoldable pub repeats : String → List String → Bool
unfolding occurs
repeats k [] = false
repeats k (j ∷ js) = if j == k then occurs k js else repeats k js

fresh_ext :
    (ks : List String) (has also : String → Bool)
    → ((j : String) → has j ≡ also j)
    → fresh ks has ≡ fresh ks also
unfolding fresh
fresh_ext [] has also h = refl
fresh_ext (k ∷ ks) has also h =
    ap₂ (λ (b : Bool) (l : List Bool). not b ∷ l) (h k)
      (fresh_ext ks (with_key k has) (with_key k also)
        (λ j. ap (λ (b : Bool). if k == j then true else b) (h j)))

redis_key-same : (j k : String) → (redis_key j == redis_key k) ≡ (j == k)
unfolding redis_key
redis_key-same j k = ground (
  arith,
  eq_iff j k,
  eq_iff ("idempotent:" ++ j) ("idempotent:" ++ k),
  append_cancel_left "idempotent:" j k,
)

fresh-map :
    (ks : List String) (has : String → Bool)
    → fresh (map redis_key ks) has ≡ fresh ks (λ k. has (redis_key k))
unfolding fresh
fresh-map [] has = refl
fresh-map (k ∷ ks) has =
    ap (λ (l : List Bool). not (has (redis_key k)) ∷ l)
      (fresh-map ks (with_key (redis_key k) has)
        ∙ fresh_ext ks _ (with_key k (λ j. has (redis_key j)))
            (λ j. ap (λ (b : Bool). if b then true else has (redis_key j)) (redis_key-same k j)))

collected_branch :
    (same later : Bool) (was twice rep : Bool) (o : Option Bool)
    → (same ≡ true → was ≡ twice)
    → (if later then some ((if same then true else twice) || rep) else if same then some was else o)
      ≡ (if (if same then true else later)
          then some (twice || (if same then later else rep))
          else o)
collected_branch true true was true rep o e = refl
collected_branch true true was false rep o e = refl
collected_branch true false was true rep o e = ap some (e refl)
collected_branch true false was false rep o e = ap some (e refl)
collected_branch false true was twice rep o e = refl
collected_branch false false was twice rep o e = refl

ok_inj {ℓ} : {A : Type ℓ} {a b : A} → Path (Result A) (ok a) (ok b) → a ≡ b
ok_inj {a} p = ap (λ r. elim r [ ok x ↦ x | err e ↦ a ]) p

not-not : (b : Bool) → not (not b) ≡ b
not-not true = refl
not-not false = refl

get-collect :
    (k : String) (ks : List String) (has : String → Bool) (res all : List (String × Bool))
    → collect ks (map ok (fresh ks has)) res ≡ ok all
    → get k all ≡ (if occurs k ks then some (has k || repeats k ks) else get k res)
unfolding collect fresh occurs repeats
get-collect k [] has res all h = ap (get k) (sym (ok_inj h))
get-collect k (j ∷ js) has res all h =
    get-collect k js (with_key j has) (put j (not (not (has j))) res) all h
    ∙ ap (λ (o : Option Bool). if occurs k js then some (with_key j has k || repeats k js) else o)
        (get-put j k (not (not (has j))) res)
    ∙ collected_branch (j == k) (occurs k js) (not (not (has j))) (has k) (repeats k js) (get k res)
        (λ e. not-not (has j) ∙ ap has ((eq_iff j k).0 e))

module _ (r : Redis) (has : r.Store → String → Bool) (laws : IsRedis r has) where
  -- Where MultiExists succeeds, it has an answer for exactly the keys that it was asked for: a key
  -- exists if it was set before, and also if it is new but stands more than once in the batch.
  pub multi_exists-repeats :
      (keys : List String) (s : r.Store) (all : List (String × Bool))
      → (multi_exists r keys s).0 ≡ ok all
      → (k : String)
      → get k all ≡ (if occurs k keys then some (has s (redis_key k) || repeats k keys) else none)
  unfolding multi_exists get
  multi_exists-repeats keys s all h k =
      go (r.pipeline (map redis_key keys) s) (laws.pipeline_lem (map redis_key keys) s) h
    where
      go :
          (x : Result (List (Result Bool)) × r.Store)
          → ((cmds : List (Result Bool))
              → x.0 ≡ ok cmds
              → cmds ≡ map ok (fresh (map redis_key keys) (has s)))
          → (collected r keys x).0 ≡ ok all
          → get k all
            ≡ (if occurs k keys then some (has s (redis_key k) || repeats k keys) else none)
      go (err e, t) law f = ground arith
      go (ok cmds, t) law f =
          get-collect k keys (λ j. has s (redis_key j)) [] all
            (ap (λ (l : List (Result Bool)). collect keys l [])
                (sym (law cmds refl ∙ ap (map ok) (fresh-map keys (has s))))
              ∙ f)

  seen_ok :
      (x : Result Bool × r.Store) (b : Bool)
      → (seen r x).0 ≡ ok b
      → (x.0 ≡ ok (not b)) × ((seen r x).1 ≡ x.1)
  seen_ok (err e, t) b h = ground arith
  seen_ok (ok q, t) b h = (ap ok (sym (not-not q) ∙ ap not (ok_inj h)), refl)

  exists_lem :
      (key : String) (s : r.Store) (b : Bool)
      → (exists r key s).0 ≡ ok b
      → (b ≡ has s (redis_key key)) × (has ((exists r key s).1) (redis_key key) ≡ true)
  unfolding exists
  exists_lem key s b h =
      let (answer, state) = seen_ok (r.set_nx (redis_key key) s) b h in
      let (new, after) = laws.set_nx_lem (redis_key key) s (not b) answer in
      (
        sym (not-not b) ∙ ap not new ∙ not-not (has s (redis_key key)),
        ap (λ (t : r.Store). has t (redis_key key)) state
            ∙ after (redis_key key)
            ∙ ap (λ (q : Bool). if q then true else has s (redis_key key))
                (eq_refl (redis_key key)),
      )

  -- Exists tells whether the key was set, and a key that was asked for exists from then on.
  exists_again :
      (key : String) (s : r.Store) (b c : Bool)
      → (exists r key s).0 ≡ ok b
      → (exists r key ((exists r key s).1)).0 ≡ ok c
      → (b ≡ has s (redis_key key)) × (c ≡ true)
  exists_again key s b c h g =
      let (first, set) = exists_lem key s b h in
      let (second, still) = exists_lem key ((exists r key s).1) c g in (first, second ∙ set)
