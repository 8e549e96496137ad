-- ===== src/Jwt/RoundTrip.antt =====
-- A token that Encode makes, at the interceptor.
use Prim.Native.String.{◌++◌}
use text.Mathlib.Text.{◌==◌}
use jotify.Prelude.{
  ℕ, ◌+◌, ◌*◌, ◌^◌, ◌<◌, ◌≡◌, refl, ap, ◌∙◌, true, if◌then◌else◌, String, List, [], ◌∷◌, Option,
  none, some,
}
use jotify.Prelude.Int.{pos}
use jotify.Prelude.Text.{trim_prefix-append}
use jotify.Prelude.TextMaps.{get, put, get-put, copy, get-copy, or_else, map_values, get-map_values}
use jotify.Jwt.{
  Float64, Claim, int64, uint64, float64, string, other_type, MapClaims, Lib, InterceptorBuilder,
  KeyAnswer, key, Method, ed25519, accepted, encode_claims, encode, exp_claim, key_of, claims_of,
  decode, DecodeResult, decoded, Context, handled, admitted, with_biz_id, with_biz_key, intercept,
}

module _ (fl : Float64) where
  -- A claim after encoding/json has written and read it.
  abbrev pub as_json : Claim fl → Claim fl
  as_json (int64 i) = float64 (fl.of_int64 i)
  as_json (uint64 n) = float64 (fl.of_uint64 n)
  as_json (float64 x) = float64 x
  as_json (string s) = string s
  as_json (other_type t) = other_type t

  -- What the code relies on: float64 keeps the numbers below 2 ^ 53, and Parse accepts a token that
  -- was signed with the other half of its key, has not expired, and has no "nbf".
  pub record IsJwt (lib : Lib fl) (pri_key : lib.Private) (pub_key : lib.Public) : Type 0 where
    pub exact : (n : ℕ) → n < 2 ^ 53 → fl.to_uint64 (fl.of_uint64 n) ≡ n
    pub parse-signed_string :
        (claims : MapClaims fl) (t : String) (exp now : ℕ)
        (key_func : Method → KeyAnswer fl lib.Public)
        → lib.signed_string claims pri_key ≡ some t
        → get "exp" claims ≡ some (int64 (pos exp))
        → now < exp
        → get "nbf" claims ≡ none
        → key_func ed25519 ≡ key pub_key
        → lib.parse now t key_func
          ≡ accepted (record { claims = some (map_values as_json claims); valid = true })

  abbrev base : ℕ → MapClaims fl
  base now = put "iat" (int64 (pos now)) (put "iss" (string "jotify") [])

  get-base :
      (k : String) (now : ℕ)
      → get k (base now) ≡ (
          if "iat" == k
          then some (int64 (pos now))
          else if "iss" == k
          then some (string "jotify")
          else none)
  unfolding get put
  get-base k now = get-put "iat" k (int64 (pos now)) (put "iss" (string "jotify") [])

  -- Where the claims do not say when the token expires, it does so after a day.
  encode_claims_default :
      (now : ℕ) (custom : MapClaims fl)
      → get "exp" custom ≡ none
      → encode_claims fl now custom
        ≡ put "exp" (int64 (pos (now + 24 * 3600))) (copy custom (base now))
  unfolding encode_claims
  encode_claims_default now custom h = ap (exp_claim fl now (copy custom (base now))) (
      get-copy "exp" custom (base now)
      ∙ ap (λ (o : Option (Claim fl)). or_else o (get "exp" (base now))) h
      ∙ get-base "exp" now)

  get-encode_claims :
      (k : String) (now : ℕ) (custom : MapClaims fl)
      → get "exp" custom ≡ none
      → get k (encode_claims fl now custom) ≡ (
          if "exp" == k
          then some (int64 (pos (now + 24 * 3600)))
          else or_else (get k custom) (
              if "iat" == k
              then some (int64 (pos now))
              else if "iss" == k
              then some (string "jotify")
              else none))
  get-encode_claims k now custom h =
      ap (get k) (encode_claims_default now custom h)
      ∙ get-put "exp" k (int64 (pos (now + 24 * 3600))) (copy custom (base now))
      ∙ ap
          (λ (o : Option (Claim fl)).
            if "exp" == k then some (int64 (pos (now + 24 * 3600))) else o)
          (get-copy k custom (base now) ∙ ap (or_else (get k custom)) (get-base k now))

  module _ (lib : Lib fl) (b : InterceptorBuilder fl lib)
      (laws : IsJwt lib b.pri_key b.pub_key) where
    decode-encode :
        (custom : MapClaims fl) (made now : ℕ) (t : String)
        → get "exp" custom ≡ none
        → get "nbf" custom ≡ none
        → encode fl lib b made custom ≡ some t
        → now < made + 24 * 3600
        → decode fl lib b now ("Bearer " ++ t)
          ≡ decoded (map_values as_json (encode_claims fl made custom))
    unfolding decode encode
    decode-encode custom made now t no_exp no_nbf h live =
        ap (λ (u : String). claims_of fl lib (lib.parse now u (key_of fl lib b)))
          (trim_prefix-append "Bearer " t)
        ∙ ap (claims_of fl lib) (
            laws.parse-signed_string (encode_claims fl made custom) t (made + 24 * 3600) now
              (key_of fl lib b) h (get-encode_claims "exp" made custom no_exp) live
              (get-encode_claims "nbf" made custom no_exp
                ∙ ap (λ (o : Option (Claim fl)). or_else o none) no_nbf)
              refl)

    -- A request with the token that Encode made for a business, whose claims are a numeric id below
    -- 2 ^ 53 and a text as key and say nothing of times, is handled for a day, with that id and that
    -- key in its context.
    pub intercept-encode :
        {A : Type 0} (custom : MapClaims fl) (made now n : ℕ) (k t : String) (headers : List String)
        (ctx : Context fl) (handler : Context fl → A)
        → get "exp" custom ≡ none
        → get "nbf" custom ≡ none
        → get "biz_id" custom ≡ some (uint64 n)
        → get "biz_key" custom ≡ some (string k)
        → n < 2 ^ 53
        → encode fl lib b made custom ≡ some t
        → now < made + 24 * 3600
        → intercept fl lib b now (some (("Bearer " ++ t) ∷ headers)) ctx handler
          ≡ handled (handler (record { biz_id = some n; biz_key = some k }))
    unfolding intercept
    intercept-encode custom made now n k t headers ctx handler no_exp no_nbf id biz_key small h
          live =
        ap (λ (r : DecodeResult (MapClaims fl)). admitted fl r ctx handler)
          (decode-encode custom made now t no_exp no_nbf h live)
        ∙ ap
            (λ (o : Option (Claim fl)).
              with_biz_id fl o (get "biz_key" (map_values as_json (encode_claims fl made custom)))
                ctx handler)
            (claim "biz_id" (uint64 n) (
              get-encode_claims "biz_id" made custom no_exp
              ∙ ap (λ (o : Option (Claim fl)). or_else o none) id))
        ∙ ap
            (λ (o : Option (Claim fl)).
              with_biz_key fl o (record ctx { biz_id = some (fl.to_uint64 (fl.of_uint64 n)) })
                handler)
            (claim "biz_key" (string k) (
              get-encode_claims "biz_key" made custom no_exp
              ∙ ap (λ (o : Option (Claim fl)). or_else o none) biz_key))
        ∙ ap (λ (m : ℕ). handled (handler (record { biz_id = some m; biz_key = some k })))
            (laws.exact n small)
      where
        claim :
            (name : String) (c : Claim fl)
            → get name (encode_claims fl made custom) ≡ some c
            → get name (map_values as_json (encode_claims fl made custom)) ≡ some (as_json c)
        claim name c e = get-map_values name as_json (encode_claims fl made custom) c e
