-- ===== src/Jwt/Admits.antt =====
-- Which requests the interceptor hands on, and how it answers the others.
use mathlib.Core.Path.{subst}
use jotify.Prelude.{
  ℕ, ◌≡◌, refl, sym, ap₂, ◌∙◌, Bool, true, false, String, List, [], ◌∷◌, Option, none, some,
  if◌then◌else◌,
}
use jotify.Prelude.Text.{trim_prefix}
use jotify.Prelude.TextMaps.{get}
use jotify.Jwt.{
  Float64, Claim, int64, uint64, float64, string, other_type, MapClaims, Lib, InterceptorBuilder,
  Token, Parsed, ParseError, rejected, accepted, key_of, claims_of, decode, DecodeResult,
  DecodeError, fail_to_decode, failed, decoded, invalid_token, Context, Response, unauthenticated,
  handled, assertion_panics, admitted, with_biz_id, message, intercept, param_name_biz_id,
  param_name_biz_key,
}

module _ (fl : Float64) where
  -- The claims have the dynamic types that the assertions name.
  pub data Carries : Option (Claim fl) → Option (Claim fl) → Context fl → Context fl → Type 0 where
    neither : {ctx : Context fl} → Carries none none ctx ctx
    id_only :
        {ctx : Context fl} (x : fl.F)
        → Carries (some (float64 x)) none ctx (record ctx { biz_id = some (fl.to_uint64 x) })
    key_only :
        {ctx : Context fl} (s : String)
        → Carries none (some (string s)) ctx (record ctx { biz_key = some s })
    both :
        {ctx : Context fl} (x : fl.F) (s : String)
        → Carries
            (some (float64 x))
            (some (string s))
            ctx
            (record ctx { biz_id = some (fl.to_uint64 x); biz_key = some s })

  abbrev pub is_float64 : Claim fl → Bool
  is_float64 (float64 x) = true
  is_float64 (int64 i) = false
  is_float64 (uint64 n) = false
  is_float64 (string s) = false
  is_float64 (other_type t) = false

  abbrev pub is_string : Claim fl → Bool
  is_string (string s) = true
  is_string (float64 x) = false
  is_string (int64 i) = false
  is_string (uint64 n) = false
  is_string (other_type t) = false

  -- A claim has another type: the id first, and the key where the id has none or its own.
  pub data Mistyped : Option (Claim fl) → Option (Claim fl) → Type 0 where
    wrong_id : (i : Claim fl) (k : Option (Claim fl)) → is_float64 i ≡ false → Mistyped (some i) k
    wrong_key : (k : Claim fl) → is_string k ≡ false → Mistyped none (some k)
    wrong_key_of_id :
        (x : fl.F) (k : Claim fl) → is_string k ≡ false → Mistyped (some (float64 x)) (some k)

  -- Parse refuses the token, or the token has no map claims or is not valid.
  pub data Refused : Parsed fl → DecodeError → Type 0 where
    not_parsed : (e : ParseError) → Refused (rejected e) (fail_to_decode e)
    no_map_claims :
        (token : Token fl) → token.claims ≡ none → Refused (accepted token) invalid_token
    not_valid : (token : Token fl) → token.valid ≡ false → Refused (accepted token) invalid_token

  module _ {A : Type 0} (ctx : Context fl) (handler : Context fl → A) where
    -- What the claims make of the request.
    pub data Carried (i k : Option (Claim fl)) : Response fl A → Type 0 where
      carries : (after : Context fl) → Carries i k ctx after → Carried i k (handled (handler after))
      mistyped : Mistyped i k → Carried i k assertion_panics

    carried : (i k : Option (Claim fl)) → Carried i k (with_biz_id fl i k ctx handler)
    carried none none = Carried.carries ctx Carries.neither
    carried none (some (string s)) = Carried.carries _ (Carries.key_only s)
    carried none (some (int64 i)) = Carried.mistyped (Mistyped.wrong_key _ refl)
    carried none (some (uint64 n)) = Carried.mistyped (Mistyped.wrong_key _ refl)
    carried none (some (float64 x)) = Carried.mistyped (Mistyped.wrong_key _ refl)
    carried none (some (other_type t)) = Carried.mistyped (Mistyped.wrong_key _ refl)
    carried (some (float64 x)) none = Carried.carries _ (Carries.id_only x)
    carried (some (float64 x)) (some (string s)) = Carried.carries _ (Carries.both x s)
    carried (some (float64 x)) (some (int64 i)) =
        Carried.mistyped (Mistyped.wrong_key_of_id x _ refl)
    carried (some (float64 x)) (some (uint64 n)) =
        Carried.mistyped (Mistyped.wrong_key_of_id x _ refl)
    carried (some (float64 x)) (some (float64 y)) =
        Carried.mistyped (Mistyped.wrong_key_of_id x _ refl)
    carried (some (float64 x)) (some (other_type t)) =
        Carried.mistyped (Mistyped.wrong_key_of_id x _ refl)
    carried (some (int64 i)) k = Carried.mistyped (Mistyped.wrong_id _ k refl)
    carried (some (uint64 n)) k = Carried.mistyped (Mistyped.wrong_id _ k refl)
    carried (some (string s)) k = Carried.mistyped (Mistyped.wrong_id _ k refl)
    carried (some (other_type t)) k = Carried.mistyped (Mistyped.wrong_id _ k refl)

  module _ (lib : Lib fl) (b : InterceptorBuilder fl lib) (now : ℕ) where
    abbrev pub parse : String → Parsed fl
    parse t = lib.parse now (trim_prefix t "Bearer ") (key_of fl lib b)

    -- How a request is answered.
    pub data Admits {A : Type 0} (ctx : Context fl) (handler : Context fl → A)
        : Option (List String) → Response fl A → Type 0 where
      without_metadata : Admits ctx handler none (unauthenticated "missing metadata")
      without_token : Admits ctx handler (some []) (unauthenticated "missing authorization token")
      refused :
          (t : String) (ts : List String) (e : DecodeError)
          → Refused (parse t) e
          → Admits ctx handler (some (t ∷ ts)) (unauthenticated (message fl e))
      admits :
          (t : String) (ts : List String) (claims : MapClaims fl) (answer : Response fl A)
          → parse t ≡ accepted (record { claims = some claims; valid = true })
          → Carried ctx handler
              (get param_name_biz_id claims)
              (get param_name_biz_key claims)
              answer
          → Admits ctx handler (some (t ∷ ts)) answer

    -- A request without metadata or a token, or whose first Authorization header is a token that
    -- Parse refuses under the public key or finds not valid, is answered as unauthenticated, with
    -- the message of its case. Every other request is admitted: its handler is called with the id
    -- and the key in its context that are the claims of the token, where they are there; only where
    -- one of the two has another type does the interceptor panic.
    pub intercept-Admits :
        {A : Type 0} (metadata : Option (List String)) (ctx : Context fl) (handler : Context fl → A)
        → Admits ctx handler metadata (intercept fl lib b now metadata ctx handler)
    unfolding intercept decode
    intercept-Admits none ctx handler = Admits.without_metadata
    intercept-Admits (some []) ctx handler = Admits.without_token
    intercept-Admits (some (t ∷ ts)) ctx handler = of_parsed (parse t) refl
      where
        of_token :
            (token : Token fl) (c : Option (MapClaims fl)) (v : Bool)
            → parse t ≡ accepted token
            → token.claims ≡ c
            → token.valid ≡ v
            → Admits ctx handler (some (t ∷ ts)) (
                admitted fl
                  (elim c as (λ _. DecodeResult (MapClaims fl)) [
                    | none ↦ failed invalid_token
                    | some claims ↦ if v then decoded claims else failed invalid_token
                  ])
                  ctx
                  handler)
        of_token token none v p e f =
            Admits.refused t ts invalid_token
              (subst (λ q. Refused q invalid_token) (sym p) (Refused.no_map_claims token e))
        of_token token (some claims) false p e f =
            Admits.refused t ts invalid_token
              (subst (λ q. Refused q invalid_token) (sym p) (Refused.not_valid token f))
        of_token token (some claims) true p e f =
            Admits.admits t ts claims _
              (p
                ∙ ap₂
                    (λ (x : Option (MapClaims fl)) (y : Bool).
                      accepted (record { claims = x; valid = y }))
                    e f)
              (carried ctx handler (get param_name_biz_id claims) (get param_name_biz_key claims))

        of_parsed :
            (p : Parsed fl)
            → parse t ≡ p
            → Admits ctx handler (some (t ∷ ts)) (admitted fl (claims_of fl lib p) ctx handler)
        of_parsed (rejected x) e =
            Admits.refused t ts (fail_to_decode x)
              (subst (λ q. Refused q (fail_to_decode x)) (sym e) (Refused.not_parsed x))
        of_parsed (accepted token) e = of_token token token.claims token.valid e refl refl
