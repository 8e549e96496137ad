-- ===== src/Repo/Params.antt =====
-- The quotas that a batch of notifications asks for.
use text.Mathlib.Text.{◌==◌}
use text.Mathlib.TextEquality.{eq_iff}
use text.Mathlib.TextLemmas.{append_cancel_left}
use mathlib.Core.List.{Memᴰ}
use jotify.Prelude.{
  ℕ, ◌+◌, ◌%◌, ◌^◌, ◌<◌, ◌≤◌, ◌≡◌, refl, sym, ap, ◌∙◌, arith, Bool, true, false, Bool-cases, inl,
  inr, if◌then◌else◌, ◌||◌, String, List, [], ◌∷◌, map, length,
}
use jotify.Domain.Notification.{Notification}
use jotify.Quota.{QuotaParam, param_key, redis_key}
use jotify.Quota.Batch.{HaveDistinctKeys, none_left, another}
use jotify.Repo.{map_key, bump, bump_all, build_quota_params}

abbrev one_if : Bool → ℕ
one_if true = 1
one_if false = 0

-- The sum of the quotas that the map has under a key.
abbrev amount : String → List (String × QuotaParam) → ℕ
amount j [] = 0
amount j ((k, p) ∷ m) = (if k == j then p.quota else 0) + amount j m

-- The notifications of a business and channel, as their key in the map.
unfoldable pub count : String → List Notification → ℕ
count j [] = 0
count j (n ∷ ns) = one_if (map_key n.biz_id n.channel == j) + count j ns

-- The quota asked for by the parameters of a key.
unfoldable pub asked : String → List QuotaParam → ℕ
asked j [] = 0
asked j (p ∷ ps) = (if map_key p.biz_id p.channel == j then p.quota else 0) + asked j ps

amount-bump :
    (n : Notification) (m : List (String × QuotaParam)) (j : String)
    → amount (map_key n.biz_id n.channel) m + 1 < 2 ^ 32
    → amount j (bump n m) ≡ one_if (map_key n.biz_id n.channel == j) + amount j m
unfolding bump
amount-bump n [] j small = ground arith
amount-bump n ((k, p) ∷ m) j small = elim (Bool-cases (k == map_key n.biz_id n.channel)) [
  | inl e ↦ ground (arith, ap (λ x. x == j) ((eq_iff _ _).0 e))
  | inr e ↦ ground (arith, amount-bump n m j (ground arith))
]

amount-bump_all :
    (ns : List Notification) (m : List (String × QuotaParam)) (bound : ℕ)
    → ((j : String) → amount j m ≤ bound)
    → bound + length ns < 2 ^ 32
    → (j : String) → amount j (bump_all ns m) ≡ count j ns + amount j m
unfolding bump_all count
amount-bump_all [] m bound small fits j = omega arith
amount-bump_all (n ∷ ns) m bound small fits j =
    let bumped =
      λ (i : String). amount-bump n m i (ground (arith, small (map_key n.biz_id n.channel))) in
    ground (
      arith,
      bumped j,
      amount-bump_all ns (bump n m) (bound + 1) (λ i. ground (arith, bumped i, small i))
          (ground arith) j,
    )

has_key : String → List (String × QuotaParam) → Bool
has_key j [] = false
has_key j ((k, p) ∷ m) = k == j || has_key j m

-- Every entry of the map has the key of its parameter, and the keys are different.
data IsKeyed : List (String × QuotaParam) → Type 0 where
  no_entry : IsKeyed []
  entry :
      (k : String) (p : QuotaParam) (m : List (String × QuotaParam))
      → k ≡ map_key p.biz_id p.channel
      → has_key k m ≡ false
      → IsKeyed m
      → IsKeyed ((k, p) ∷ m)

has_key-bump :
    (n : Notification) (m : List (String × QuotaParam)) (j : String)
    → has_key j (bump n m) ≡ (has_key j m || map_key n.biz_id n.channel == j)
unfolding bump has_key
has_key-bump n [] j = ground arith
has_key-bump n ((k, p) ∷ m) j = elim (Bool-cases (k == map_key n.biz_id n.channel)) [
  | inl e ↦ ground (arith, ap (λ x. x == j) ((eq_iff _ _).0 e))
  | inr e ↦ ground (arith, has_key-bump n m j)
]

eq_sym : (s t : String) → (s == t) ≡ false → (t == s) ≡ false
eq_sym s t h = elim (Bool-cases (t == s)) [
  | inl e ↦ ground (arith, (eq_iff s t).1 (sym ((eq_iff t s).0 e)))
  | inr e ↦ e
]

bump-IsKeyed : (n : Notification) (m : List (String × QuotaParam)) → IsKeyed m → IsKeyed (bump n m)
unfolding bump has_key
bump-IsKeyed n [] no_entry = entry _ _ [] refl refl no_entry
bump-IsKeyed n ((k, p) ∷ m) (entry _ _ _ e f g) =
    branch (bump-IsKeyed n m g) (k == map_key n.biz_id n.channel) refl
  where
    branch :
        IsKeyed (bump n m)
        → (b : Bool) → (k == map_key n.biz_id n.channel) ≡ b
        → IsKeyed
            (if b then (k, record p { quota = (p.quota + 1) % 2 ^ 32 }) ∷ m else (k, p) ∷ bump n m)
    branch rest true h = entry k (record p { quota = (p.quota + 1) % 2 ^ 32 }) m e f g
    branch rest false h =
        entry k p (bump n m) e
          (ground (arith, has_key-bump n m k, eq_sym k (map_key n.biz_id n.channel) h)) rest

bump_all-IsKeyed :
    (ns : List Notification) (m : List (String × QuotaParam)) → IsKeyed m → IsKeyed (bump_all ns m)
unfolding bump_all
bump_all-IsKeyed [] m k = k
bump_all-IsKeyed (n ∷ ns) m k = bump_all-IsKeyed ns (bump n m) (bump-IsKeyed n m k)

has_key-member :
    (m : List (String × QuotaParam)) (q : QuotaParam)
    → IsKeyed m
    → Memᴰ q (map (λ e. e.1) m)
    → has_key (map_key q.biz_id q.channel) m ≡ true
unfolding has_key
has_key-member [] q k h = elim h [ ]
has_key-member ((k, p) ∷ m) q (entry _ _ _ e f g) (Memᴰ.head same) = ground (
  arith,
  (eq_iff k (map_key q.biz_id q.channel)).1
      (e ∙ sym (ap (λ (x : QuotaParam). map_key x.biz_id x.channel) same)),
)
has_key-member ((k, p) ∷ m) q (entry _ _ _ e f g) (Memᴰ.tail h) =
    ground (arith, has_key-member m q g h)

redis_key_inj :
    (p q : QuotaParam)
    → param_key p ≡ param_key q
    → map_key p.biz_id p.channel ≡ map_key q.biz_id q.channel
unfolding redis_key map_key
redis_key_inj p q h = append_cancel_left "quota:" _ _ h

distinct : (m : List (String × QuotaParam)) → IsKeyed m → HaveDistinctKeys (map (λ e. e.1) m)
distinct [] no_entry = none_left
distinct ((k, p) ∷ m) (entry _ _ _ e f g) =
    another p (map (λ x. x.1) m)
      (λ q h same.
        ground (arith, has_key-member m q g h, ap (λ x. has_key x m) (e ∙ redis_key_inj p q same)))
      (distinct m g)

-- The parameters of a batch have different keys.
pub build_quota_params-HaveDistinctKeys :
    (ns : List Notification) → HaveDistinctKeys (build_quota_params ns)
unfolding build_quota_params
build_quota_params-HaveDistinctKeys ns = distinct (bump_all ns []) (bump_all-IsKeyed ns [] no_entry)

asked-amount :
    (m : List (String × QuotaParam)) (j : String)
    → IsKeyed m
    → asked j (map (λ e. e.1) m) ≡ amount j m
unfolding asked
asked-amount [] j no_entry = refl
asked-amount ((k, p) ∷ m) j (entry _ _ _ e f g) =
    ground (arith, ap (λ x. x == j) e, asked-amount m j g)

-- The parameters of fewer than 2^32 notifications ask, for each business and channel, for as many
-- units as notifications have them.
pub asked-build_quota_params :
    (ns : List Notification) (j : String)
    → length ns < 2 ^ 32
    → asked j (build_quota_params ns) ≡ count j ns
unfolding build_quota_params
asked-build_quota_params ns j fits =
    asked-amount (bump_all ns []) j (bump_all-IsKeyed ns [] no_entry)
    ∙ amount-bump_all ns [] 0 (λ i. omega arith) (omega arith) j
    ∙ omega arith
