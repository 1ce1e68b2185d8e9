-- ===== src/Par/Authenticate.antt =====
-- oauth/provider/client_auth.go: Provider.Authenticate. golang-jwt and the client's JWK are a
-- library; times are in nanoseconds, those of the claims in seconds.
use vow.Prelude.{
  ℕ, ◌-◌, ◌*◌, String, str_eq, str_append, Bool, not, ◌&&◌, Option, none, some, ltb, if◌then◌else◌,
  Bytes, Result, ok, err,
}
use vow.Prelude.Results.{◌>>=◌, ◌>>◌, refuse_if, require}
use vow.Dpop.Nonce.{second}
use vow.Dpop.Jose.{MapClaims, text_claim, number_claim}
use vow.OauthClient.{Libraries}
use vow.OauthClient.Manager.{Client}

pub record AuthenticateRequest : Type 0 where
  pub client_id : String
  pub client_assertion_type : Option String
  pub client_assertion : Option String

-- The method `none` leaves every other field empty.
pub record ClientAuth : Type 0 where
  pub method : String
  pub alg : String
  pub kid : String
  pub jkt : String
  pub jti : String
  pub exp : Option ℕ

pub data ClientAuthError : Type 0 where
  no_assertion bad_type nil_pointer unparsable no_kid no_raw_key unverified not_valid :
      ClientAuthError
  bad_subject bad_audience no_iat too_old no_jti no_thumbprint not_implemented : ClientAuthError

pub record Assertion : Type 0 where
  pub valid : Bool
  pub alg : String
  pub claims : MapClaims

pub record Assertions (Key : Type 0) : Type 1 where
  pub hostname : String
  -- jwk.Key.Raw and Thumbprint, with base64
  pub raw : Key → Option Bytes
  pub thumbprint : Key → Option String
  -- The header's `kid` in jwt.Parser.ParseUnverified, empty where it is no text.
  pub parse_unverified : String → Option String
  -- jwt.Parse, which asks the function for the key of the token's `alg`.
  pub parse : String → (String → Option Bytes) → Option Assertion
  -- The token carries a signature over its claims that the algorithm accepts under the key.
  pub Signed : String → MapClaims → String → Bytes → Type 0

abbrev pub jwt_bearer : String
jwt_bearer = "urn:ietf:params:oauth:client-assertion-type:jwt-bearer"

abbrev pub client_assertion_max_age : ℕ
client_assertion_max_age = 60 * second

abbrev pub no_auth : ClientAuth
no_auth = record { method = "none"; alg = ""; kid = ""; jkt = ""; jti = ""; exp = none }

-- The text of an error message dereferences the type, missing or not.
abbrev pub check_type : Option String → Result ClientAuthError Unit
check_type none = err nil_pointer
check_type (some t) = refuse_if (not (str_eq t jwt_bearer)) bad_type

module _ (lib : Libraries) (a : Assertions lib.Key) where
  abbrev pub es256 : Bytes → String → Option Bytes
  es256 raw alg = if str_eq alg "ES256" then some raw else none

  -- The claims of a verified assertion.
  unfoldable pub check_assertion : ℕ → String → MapClaims → Result ClientAuthError String
  unfolding text_claim number_claim
  check_assertion now client_id claims = do
    refuse_if (not (str_eq (text_claim "sub" claims) client_id)) bad_subject
    refuse_if
        (not (str_eq (text_claim "aud" claims) "")
          && not (str_eq (text_claim "aud" claims) (str_append "https://" a.hostname)))
        bad_audience
    iat ← require (number_claim "iat" claims) no_iat
    refuse_if (ltb client_assertion_max_age (now - iat * second)) too_old
    refuse_if (str_eq (text_claim "jti" claims) "") no_jti
    ok (text_claim "jti" claims)

  -- What the client's key says of an assertion.
  unfoldable pub verify_with_key :
      ℕ → String → String → String → lib.Key → Result ClientAuthError ClientAuth
  verify_with_key now client_id assertion kid key = do
    raw ← require (a.raw key) no_raw_key
    token ← require (a.parse assertion (es256 raw)) unverified
    refuse_if (not token.valid) not_valid
    jti ← check_assertion now client_id token.claims
    thumb ← require (a.thumbprint key) no_thumbprint
    ok (record {
      method = "private_key_jwt";
      alg = token.alg;
      kid = kid;
      jkt = thumb;
      jti = jti;
      exp = number_claim "exp" token.claims;
    })

  -- The method private_key_jwt.
  unfoldable pub authenticate_key :
      ℕ → AuthenticateRequest → Client lib → Result ClientAuthError ClientAuth
  authenticate_key now req client = do
    assertion ← require req.client_assertion no_assertion
    check_type req.client_assertion_type
    kid ← require (a.parse_unverified assertion) unparsable
    refuse_if (str_eq kid "") no_kid
    key ← require client.jwks nil_pointer
    verify_with_key now client.metadata.client_id assertion kid key

  unfoldable pub authenticate :
      ℕ → AuthenticateRequest → Client lib → Result ClientAuthError ClientAuth
  unfolding authenticate_key
  authenticate now req client =
      if str_eq client.metadata.token_endpoint_auth_method "none"
      then ok no_auth
      else if str_eq client.metadata.token_endpoint_auth_method "private_key_jwt"
      then authenticate_key now req client
      else err not_implemented
