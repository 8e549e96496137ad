-- ===== src/Jwt/Tests.antt =====
-- The theorems on tokens at a library that knows one list of claims.
use Prim.Native.String.{◌++◌}
use text.Mathlib.Text.{◌==◌}
use text.Mathlib.TextEquality.{eq_iff}
use jotify.Prelude.{
  ℕ, ◌==◌ as nat_eq, ◌≡◌, refl, sym, ap, ◌∙◌, arith, Bool, true, false, ◌&&◌, if◌then◌else◌, String,
  [], ◌∷◌, Option, none, some,
}
use jotify.Prelude.Int.{pos, pos_part}
use jotify.Prelude.TextMaps.{get, map_values}
use jotify.Domain.Time.{eq_ℤ}
use jotify.Jwt.{
  Float64, Claim, int64, uint64, float64, string, other_type, MapClaims, Lib, InterceptorBuilder,
  Parsed, rejected, accepted, KeyAnswer, key, no_key, ed25519, token_signature_invalid,
  encode_claims, encode, Context, handled, intercept,
}
use jotify.Jwt.RoundTrip.{IsJwt, as_json, intercept-encode}
use jotify.Jwt.Admits.{Admits, intercept-Admits}

abbrev fl : Float64
fl = record { F = ℕ; of_uint64 = λ n. n; of_int64 = pos_part; to_uint64 = λ x. x }

eq_claim : Claim fl → Claim fl → Bool
eq_claim (int64 i) (int64 j) = eq_ℤ i j
eq_claim (uint64 m) (uint64 n) = nat_eq m n
eq_claim (float64 x) (float64 y) = nat_eq x y
eq_claim (string s) (string t) = s == t
eq_claim (other_type s) (other_type t) = s == t
eq_claim _ _ = false

eq_claims : MapClaims fl → MapClaims fl → Bool
unfolding eq_claim
eq_claims [] [] = true
eq_claims ((j, c) ∷ cs) ((k, d) ∷ ds) = j == k && eq_claim c d && eq_claims cs ds
eq_claims _ _ = false

eq_claim-eq : (c d : Claim fl) → eq_claim c d ≡ true → c ≡ d
unfolding eq_claim
eq_claim-eq (int64 i) (int64 j) h = ground arith
eq_claim-eq (uint64 m) (uint64 n) h = ground arith
eq_claim-eq (float64 x) (float64 y) h = ground arith
eq_claim-eq (string s) (string t) h = ap string ((eq_iff s t).0 h)
eq_claim-eq (other_type t) (other_type u) h = ap other_type ((eq_iff t u).0 h)
eq_claim-eq (int64 i) (uint64 n) h = ground arith
eq_claim-eq (int64 i) (float64 y) h = ground arith
eq_claim-eq (int64 i) (string u) h = ground arith
eq_claim-eq (int64 i) (other_type w) h = ground arith
eq_claim-eq (uint64 m) (int64 j) h = ground arith
eq_claim-eq (uint64 m) (float64 y) h = ground arith
eq_claim-eq (uint64 m) (string u) h = ground arith
eq_claim-eq (uint64 m) (other_type w) h = ground arith
eq_claim-eq (float64 x) (int64 j) h = ground arith
eq_claim-eq (float64 x) (uint64 n) h = ground arith
eq_claim-eq (float64 x) (string u) h = ground arith
eq_claim-eq (float64 x) (other_type w) h = ground arith
eq_claim-eq (string s) (int64 j) h = ground arith
eq_claim-eq (string s) (uint64 n) h = ground arith
eq_claim-eq (string s) (float64 y) h = ground arith
eq_claim-eq (string s) (other_type w) h = ground arith
eq_claim-eq (other_type t) (int64 j) h = ground arith
eq_claim-eq (other_type t) (uint64 n) h = ground arith
eq_claim-eq (other_type t) (float64 y) h = ground arith
eq_claim-eq (other_type t) (string u) h = ground arith

both_true : (a b : Bool) → (a && b) ≡ true → (a ≡ true) × (b ≡ true)
both_true true true h = (refl, refl)
both_true true false h = ground arith
both_true false b h = ground arith

eq_claims-eq : (cs ds : MapClaims fl) → eq_claims cs ds ≡ true → cs ≡ ds
unfolding eq_claims
eq_claims-eq [] [] h = refl
eq_claims-eq [] (d ∷ ds) h = ground arith
eq_claims-eq (c ∷ cs) [] h = ground arith
eq_claims-eq ((j, c) ∷ cs) ((k, d) ∷ ds) h =
    let (front, rest) = both_true (j == k && eq_claim c d) (eq_claims cs ds) h in
    let (key_same, claim_same) = both_true (j == k) (eq_claim c d) front in
    λ i. ((eq_iff j k).0 key_same i, eq_claim-eq c d claim_same i) ∷ eq_claims-eq cs ds rest i

abbrev custom : MapClaims fl
custom = ("biz_id", uint64 7) ∷ ("biz_key", string "order-1") ∷ []

abbrev known : MapClaims fl
known =
    ("iss", string "jotify")
    ∷ ("iat", int64 (pos 1000))
    ∷ ("biz_key", string "order-1")
    ∷ ("biz_id", uint64 7)
    ∷ ("exp", int64 (pos 87400))
    ∷ []

known_lem : encode_claims fl 1000 custom ≡ known
unfolding encode_claims
known_lem = refl

abbrev parsed_with : KeyAnswer fl ℕ → Parsed fl
parsed_with (no_key e) = rejected e
parsed_with (key k) =
    accepted (record { claims = some (map_values (as_json fl) known); valid = true })

abbrev lib : Lib fl
lib = record {
  Private = ℕ;
  Public = ℕ;
  signed_string = λ claims pri. if eq_claims claims known then some "eyJ" else none;
  parse = λ now t key_func.
      if t == "eyJ" then parsed_with (key_func ed25519) else rejected token_signature_invalid;
}

abbrev builder : InterceptorBuilder fl lib
builder = record { pri_key = 1; pub_key = 2 }

signed :
    (claims : MapClaims fl) (t : String) (b : Bool)
    → eq_claims claims known ≡ b
    → (if b then some "eyJ" else none) ≡ some t
    → (claims ≡ known) × (t ≡ "eyJ")
signed claims t true e h = (
  eq_claims-eq claims known e,
  ap (λ (o : Option String). elim o [ none ↦ "eyJ" | some u ↦ u ]) (sym h),
)
signed claims t false e h = ground arith

lib-IsJwt : IsJwt fl lib 1 2
lib-IsJwt = record {
  exact = λ n h. refl;
  parse-signed_string = λ claims t exp now key_func h e l nbf k.
      let (same, token) = signed claims t (eq_claims claims known) refl h in
      ap
        (λ (b : Bool).
          if b then parsed_with (key_func ed25519) else rejected token_signature_invalid)
        ((eq_iff t "eyJ").1 token)
      ∙ ap parsed_with k
      ∙ ap
          (λ (cs : MapClaims fl).
            accepted (record { claims = some (map_values (as_json fl) cs); valid = true }))
          (sym same);
}

abbrev anonymous : Context fl
anonymous = record { biz_id = none; biz_key = none }

abbrev handler : Context fl → Option ℕ
handler ctx = ctx.biz_id

intercept-encode_example :
    intercept fl lib builder 5000 (some (("Bearer " ++ "eyJ") ∷ [])) anonymous handler
    ≡ handled (some 7)
unfolding encode eq_claims get
intercept-encode_example =
    intercept-encode fl lib builder lib-IsJwt custom 1000 5000 7 "order-1" "eyJ" [] anonymous
      handler refl refl refl refl (omega arith) refl (omega arith)

intercept-Admits_example :
    Admits fl lib builder 5000 anonymous handler
      (some ("Bearer eyJ" ∷ []))
      (intercept fl lib builder 5000 (some ("Bearer eyJ" ∷ [])) anonymous handler)
intercept-Admits_example =
    intercept-Admits fl lib builder 5000 (some ("Bearer eyJ" ∷ [])) anonymous handler
