-- ===== src/Idempotent/Tests.antt =====
-- The theorems on idempotency at a store that is the function which tells the keys that are set.
use jotify.Prelude.{
  ◌≡◌, refl, sym, Bool, true, false, ◌||◌, not, if◌then◌else◌, String, List, [], ◌∷◌, map, none,
  some, ap,
}
use jotify.Prelude.TextMaps.{get}
use jotify.Errs.{Result, ok, err}
use jotify.Idempotent.{Redis, multi_exists}
use jotify.Idempotent.Seen.{IsRedis, with_key, fresh, occurs, repeats, multi_exists-repeats}

abbrev with_keys : List String → (String → Bool) → String → Bool
with_keys [] has = has
with_keys (k ∷ ks) has = with_keys ks (with_key k has)

abbrev sets : Redis
sets = record {
  Store = String → Bool;
  set_nx = λ k has. (ok (not (has k)), with_key k has);
  pipeline = λ ks has. (ok (map ok (fresh ks has)), with_keys ks has);
}

abbrev has : (String → Bool) → String → Bool
has s = s

result_inj {ℓ} : {A : Type ℓ} {a b : A} → Path (Result A) (ok a) (ok b) → a ≡ b
result_inj {a} p = ap (λ r. elim r [ ok x ↦ x | err e ↦ a ]) p

sets-IsRedis : IsRedis sets has
sets-IsRedis = record {
  set_nx_lem = λ k s b h. (sym (result_inj h), λ j. refl);
  pipeline_lem = λ ks s cmds h. sym (result_inj h);
}

abbrev nothing : String → Bool
nothing k = false

-- A new key that a batch has twice is answered as existing.
multi_exists-repeats_example : get "pay-1" (("pay-1", true) ∷ ("pay-2", false) ∷ []) ≡ (
    if occurs "pay-1" ("pay-1" ∷ "pay-2" ∷ "pay-1" ∷ [])
    then some (false || repeats "pay-1" ("pay-1" ∷ "pay-2" ∷ "pay-1" ∷ []))
    else none)
unfolding multi_exists fresh
multi_exists-repeats_example =
    multi_exists-repeats sets has sets-IsRedis ("pay-1" ∷ "pay-2" ∷ "pay-1" ∷ []) nothing
      (("pay-1", true) ∷ ("pay-2", false) ∷ []) refl "pay-1"
