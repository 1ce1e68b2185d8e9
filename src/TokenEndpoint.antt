-- ===== src/TokenEndpoint.antt =====
-- server/handle_oauth_token.go: the token endpoint behind the authentication of the client, with
-- the rows of oauth/provider/models.go and the session ages of oauth/helpers.go. Times are in
-- nanoseconds. What the libraries, the clock and the random generator give stands in `Env`.
pub mod Exchange
pub mod Rotation
pub mod Examples
use vow.Prelude.{
  ℕ, ◌+◌, ◌-◌, ◌*◌, ◌^◌, String, str_eq, Bool, true, false, not, ◌||◌, ◌&&◌, Option, none, some,
  List, [], ◌∷◌, ltb, if◌then◌else◌, length, Bytes, bytes,
}
use vow.Prelude.Action.{Action, pure, fail, need, gets, modify, stop_if, ◌>>=◌, ◌>>◌}

-- The fields of a pushed authorization request that the endpoint reads.
pub record ParRequest : Type 0 where
  pub redirect_uri : String
  pub code_challenge : Option String
  pub code_challenge_method : String
  pub scope : String
  pub dpop_jkt : Option String

pub record OauthAuthorizationRequest : Type 0 where
  pub client_id : String
  pub parameters : ParRequest
  pub sub : Option String
  pub code : Option String
  pub ip : String

pub record OauthToken : Type 0 where
  pub client_id : String
  pub client_auth_method : String
  pub parameters : ParRequest
  pub created_at : ℕ
  pub updated_at : ℕ
  pub expires_at : ℕ
  pub sub : String
  pub code : String
  pub token : String
  pub refresh_token : String
  pub ip : String

pub record Db : Type 0 where
  pub oauth_authorization_requests : List OauthAuthorizationRequest
  pub oauth_tokens : List OauthToken

pub record OauthTokenRequest : Type 0 where
  pub grant_type : String
  pub code : Option String
  pub code_verifier : Option String
  pub redirect_uri : Option String
  pub refresh_token : Option String

pub record OauthTokenResponse : Type 0 where
  pub access_token : String
  pub token_type : String
  pub refresh_token : String
  pub scope : String
  pub sub : String

-- What AuthenticateClient returned, and the thumbprint of the DPoP proof, if one was sent.
pub record Client : Type 0 where
  pub client_id : String
  pub grant_types : List String
  pub dpop_bound_access_tokens : Bool
  pub auth_method : String
  pub proof_jkt : Option String

pub record Claims : Type 0 where
  pub scope : String
  pub aud : String
  pub sub : String
  pub iat : ℕ
  pub exp : ℕ
  pub jti : String
  pub client_id : String
  pub cnf : Option String

pub record Env : Type 0 where
  pub did : String
  pub now : ℕ
  pub token_id : String
  pub new_refresh_token : String
  pub sign_internal_jwt : Claims → Option String
  -- the DID of the account row with this DID
  pub repo_actor_by_did : String → Option String
  pub raw_url_decode : String → Option Bytes
  pub sha256 : Bytes → Bytes

pub data TokenError : Type 0 where
  unsupported_grant missing_parameter redirect_uri_mismatch verifier_too_short : TokenError
  invalid_verifier unsupported_method unexpected_verifier jkt_required no_actor : TokenError
  server_error nil_pointer client_mismatch method_mismatch proof_required : TokenError
  wrong_jkt session_expired refresh_expired : TokenError

abbrev pub second : ℕ
second = 10 ^ 9

abbrev day : ℕ
day = 24 * 3600 * second

abbrev pub token_max_age : ℕ
token_max_age = 3600 * second

abbrev session_lifetime : String → ℕ
session_lifetime method = if str_eq method "none" then 14 * day else 2 * 365 * day

abbrev refresh_lifetime : String → ℕ
refresh_lifetime method = if str_eq method "none" then 14 * day else 3 * 30 * day

-- GetSessionAgeFromToken: SessionExpired and RefreshExpired.
unfoldable pub get_session_age_from_token : ℕ → OauthToken → Bool × Bool
get_session_age_from_token now t = (
  ltb (session_lifetime t.client_auth_method) (now - t.created_at),
  ltb (refresh_lifetime t.client_auth_method) (now - t.updated_at),
)

abbrev pub is_some : Option String → Bool
is_some none = false
is_some (some s) = true

abbrev pub has_code : String → OauthAuthorizationRequest → Bool
has_code code r = elim r.code [ none ↦ false | some c ↦ str_eq c code ]

-- The rows without the code, and a row with it: DELETE ... WHERE code = ? RETURNING *.
unfoldable pub without_code :
    String → List OauthAuthorizationRequest → List OauthAuthorizationRequest
without_code code [] = []
without_code code (r ∷ rs) =
    let rest = without_code code rs in if has_code code r then rest else r ∷ rest

-- Scan leaves the zero row where there is none.
abbrev zero_parameters : ParRequest
zero_parameters = record {
  redirect_uri = "";
  code_challenge = none;
  code_challenge_method = "";
  scope = "";
  dpop_jkt = none;
}

abbrev pub zero_request : OauthAuthorizationRequest
zero_request = record {
  client_id = "";
  parameters = zero_parameters;
  sub = none;
  code = none;
  ip = "";
}

unfoldable pub scan_code : String → List OauthAuthorizationRequest → OauthAuthorizationRequest
scan_code code [] = zero_request
scan_code code (r ∷ rs) = if has_code code r then r else scan_code code rs

abbrev pub zero_token : OauthToken
zero_token = record {
  client_id = "";
  client_auth_method = "";
  parameters = zero_parameters;
  created_at = 0;
  updated_at = 0;
  expires_at = 0;
  sub = "";
  code = "";
  token = "";
  refresh_token = "";
  ip = "";
}

unfoldable pub scan_refresh : String → List OauthToken → OauthToken
scan_refresh token [] = zero_token
scan_refresh token (t ∷ ts) = if str_eq t.refresh_token token then t else scan_refresh token ts

abbrev has_verifier? : Option String → Bool
has_verifier? none = false
has_verifier? (some v) = true

-- The comparison of two pointers, each to a text of its own, that the code makes for "plain".
abbrev same_pointer : String → String → Bool
same_pointer challenge verifier = false

abbrev is_equal : Bytes → Bytes → Bool
is_equal [] [] = true
is_equal (x ∷ xs) (y ∷ ys) = not (ltb x y || ltb y x) && is_equal xs ys
is_equal _ _ = false
