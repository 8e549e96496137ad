-- ===== src/Jwt.antt =====
-- internal/api/grpc/interceptor/jwt/jwt_interceptor.go: the tokens of the businesses, and the
-- interceptor that admits a request by its token. golang-jwt and float64 are parameters; a map of
-- claims is the list of its entries, and `now` is time.Now() in seconds.
pub mod Admits
pub mod RoundTrip
mod Tests
use Prim.Native.String.{◌++◌}
use jotify.Prelude.{
  ℕ, ◌+◌, ◌*◌, Bool, true, false, String, List, [], ◌∷◌, Option, none, some, if◌then◌else◌,
}
use jotify.Prelude.Int.{ℤ, pos}
use jotify.Prelude.Text.{trim_prefix}
use jotify.Prelude.TextMaps.{get, put, copy, map_values}

abbrev pub param_name_biz_id : String
param_name_biz_id = "biz_id"

abbrev pub param_name_biz_key : String
param_name_biz_key = "biz_key"

-- float64, with the conversions of a uint64 and an int64 to it, and to a uint64.
pub record Float64 : Type 1 where
  pub F : Type 0
  pub of_uint64 : ℕ → F
  pub of_int64 : ℤ → F
  pub to_uint64 : F → ℕ

-- The errors of golang-jwt that the code tells apart.
pub data ParseError : Type 0 where
  token_expired : ParseError
  token_signature_invalid : ParseError
  parse_failed : String → ParseError
  unsupported_algorithm : String → ParseError

-- The method that a token names.
pub data Method : Type 0 where
  ed25519 : Method
  other_method : String → Method

-- The errors of Decode: that of Parse, wrapped, and that of a token without map claims or not
-- valid.
pub data DecodeError : Type 0 where
  fail_to_decode : ParseError → DecodeError
  invalid_token : DecodeError

pub data DecodeResult (A : Type 0) : Type 0 where
  failed : DecodeError → DecodeResult A
  decoded : A → DecodeResult A

module _ (fl : Float64) where
  -- A claim by its dynamic type; `other_type` has the booleans, nulls, arrays and objects, by
  -- their JSON texts.
  pub data Claim : Type 0 where
    int64 : ℤ → Claim
    uint64 : ℕ → Claim
    float64 : fl.F → Claim
    string : String → Claim
    other_type : String → Claim

  abbrev pub MapClaims : Type 0
  MapClaims = List (String × Claim)

  -- What Parse gives for a token that it accepts: the claims, where they are map claims, and Valid.
  pub record Token : Type 0 where
    pub claims : Option MapClaims
    pub valid : Bool

  pub data Parsed : Type 0 where
    rejected : ParseError → Parsed
    accepted : Token → Parsed

  pub data KeyAnswer (K : Type 0) : Type 0 where
    no_key : ParseError → KeyAnswer K
    key : K → KeyAnswer K

  -- golang-jwt: SignedString with a private key, and Parse at a time with the function that
  -- chooses the public key by the method of the token.
  pub record Lib : Type 1 where
    pub Private : Type 0
    pub Public : Type 0
    pub signed_string : MapClaims → Private → Option String
    pub parse : ℕ → String → (Method → KeyAnswer Public) → Parsed

  pub record InterceptorBuilder (lib : Lib) : Type 0 where
    pub pri_key : lib.Private
    pub pub_key : lib.Public

  abbrev pub exp_claim : ℕ → MapClaims → Option Claim → MapClaims
  exp_claim now claims none = put "exp" (int64 (pos (now + 24 * 3600))) claims
  exp_claim now claims (some _) = claims

  -- The claims of Encode; a token expires after a day unless its claims say when.
  unfoldable pub encode_claims : ℕ → MapClaims → MapClaims
  unfolding copy get
  encode_claims now custom_claims =
      let claims =
        copy custom_claims (put "iat" (int64 (pos now)) (put "iss" (string "jotify") [])) in
      exp_claim now claims (get "exp" claims)

  module _ (lib : Lib) where
    unfoldable pub encode : InterceptorBuilder lib → ℕ → MapClaims → Option String
    unfolding encode_claims
    encode b now custom_claims = lib.signed_string (encode_claims now custom_claims) b.pri_key

    abbrev pub key_of : InterceptorBuilder lib → Method → KeyAnswer lib.Public
    key_of b ed25519 = key b.pub_key
    key_of b (other_method alg) = no_key (unsupported_algorithm alg)

    abbrev pub claims_of : Parsed → DecodeResult MapClaims
    claims_of (rejected e) = failed (fail_to_decode e)
    claims_of (accepted token) = elim token.claims [
      | none ↦ failed invalid_token
      | some claims ↦ if token.valid then decoded claims else failed invalid_token
    ]

    unfoldable pub decode : InterceptorBuilder lib → ℕ → String → DecodeResult MapClaims
    unfolding trim_prefix
    decode b now token_str = claims_of (lib.parse now (trim_prefix token_str "Bearer ") (key_of b))

  -- The values that the interceptor sets in the context.
  pub record Context : Type 0 where
    pub biz_id : Option ℕ
    pub biz_key : Option String

  -- status.Error with codes.Unauthenticated and a message, what the handler answers, or the panic
  -- of a type assertion that fails.
  pub data Response (A : Type 0) : Type 0 where
    unauthenticated : String → Response A
    handled : A → Response A
    assertion_panics : Response A

  abbrev pub message : DecodeError → String
  message (fail_to_decode token_expired) = "token expired"
  message (fail_to_decode token_signature_invalid) = "invalid signature"
  message (fail_to_decode (parse_failed t)) = "invalid token: fail to decode token: " ++ t
  message (fail_to_decode (unsupported_algorithm t)) =
      "invalid token: fail to decode token: unsupport sign algorithm: " ++ t
  message invalid_token = "invalid token: invalid token"

  module _ {A : Type 0} where
    abbrev pub with_biz_key : Option Claim → Context → (Context → A) → Response A
    with_biz_key none ctx handler = handled (handler ctx)
    with_biz_key (some (string s)) ctx handler = handled (handler (record ctx { biz_key = some s }))
    with_biz_key (some _) ctx handler = assertion_panics

    abbrev pub with_biz_id : Option Claim → Option Claim → Context → (Context → A) → Response A
    with_biz_id none key_claim ctx handler = with_biz_key key_claim ctx handler
    with_biz_id (some (float64 x)) key_claim ctx handler =
        with_biz_key key_claim (record ctx { biz_id = some (fl.to_uint64 x) }) handler
    with_biz_id (some _) key_claim ctx handler = assertion_panics

    abbrev pub admitted : DecodeResult MapClaims → Context → (Context → A) → Response A
    admitted (failed e) ctx handler = unauthenticated (message e)
    admitted (decoded mc) ctx handler =
        with_biz_id (get param_name_biz_id mc) (get param_name_biz_key mc) ctx handler

    -- The interceptor that Build makes: `metadata` has the Authorization headers, where the request
    -- has metadata.
    unfoldable pub intercept :
        (lib : Lib)
        → InterceptorBuilder lib
        → ℕ
        → Option (List String)
        → Context
        → (Context → A)
        → Response A
    unfolding decode get
    intercept lib b now none ctx handler = unauthenticated "missing metadata"
    intercept lib b now (some []) ctx handler = unauthenticated "missing authorization token"
    intercept lib b now (some (token_str ∷ headers)) ctx handler =
        admitted (decode lib b now token_str) ctx handler
