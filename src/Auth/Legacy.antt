-- ===== src/Auth/Legacy.antt =====
-- server/middleware.go: handleLegacySessionMiddleware.
use vow.Prelude.{
  ℕ, ◌/◌, String, str_eq, str_append, Bool, true, false, not, ◌&&◌, Option, none, some, List, [],
  ◌∷◌, ltb, if◌then◌else◌, split_on, Result, ok,
}
use vow.Prelude.Results.{◌>>=◌, ◌>>◌, refuse_if, require}
use vow.Dpop.Nonce.{second}
use vow.Dpop.Jose.{MapClaims, Json, text, lookup, text_claim, number_claim}
use vow.Auth.{
  RepoActor, RefreshToken, Request, Context, Jwts, AuthError, unauthorized, bad_header,
  invalid_token, expired_token, bad_request, server_error, panicked, text_claim?, two,
}

-- The token of the query stands in for the header.
abbrev pub header_of : Request → String
header_of r =
    if str_eq r.authorization "" && not (str_eq r.access_token "")
    then str_append "Bearer " r.access_token
    else r.authorization

abbrev last_or : String → List String → String
last_or s [] = s
last_or s (t ∷ ts) = last_or t ts

abbrev pub last_segment : String → String
last_segment url = last_or "" (split_on "/" url)

abbrev pub is_text : Json → String → Bool
is_text (text s) t = str_eq s t
is_text _ t = false

abbrev pub is_refresh : Request → Bool
is_refresh r = str_eq r.path "/xrpc/com.atproto.server.refreshSession"

unfoldable pub has_refresh_token : String → List RefreshToken → Bool
has_refresh_token token [] = false
has_refresh_token token (t ∷ ts) = if str_eq t.token token then true else has_refresh_token token ts

abbrev pub Lookup : Type 0
Lookup = String → Option RepoActor

-- The issuer of a token for a service, with the account; none for a token of a session.
unfoldable pub issuer :
    Lookup → Request → MapClaims → Result AuthError (Option (String × RepoActor))
issuer repo_of r claims = elim (lookup "lxm" claims) [
  | none ↦ ok none
  | some lxm ↦ (do
    refuse_if (not (is_text lxm (last_segment r.url))) bad_request
    did ← require (text_claim? "iss" claims) bad_request
    repo ← require (repo_of did) server_error
    ok (some (did, repo)))
]

module _ (lib : Jwts) where
  abbrev pub server_keyfunc : String → Option lib.Key
  server_keyfunc alg = if lib.is_ecdsa alg then some lib.server_key else none

  abbrev pub with_user_key : String → String → Result AuthError Bool
  with_user_key did token = do
    key ← require (lib.user_key did) bad_request
    require (lib.parse token (λ alg. some key)) expired_token

  -- Whether the token is valid: an account in compat mode signs tokens for services with its own key.
  unfoldable pub verified : Option (String × RepoActor) → String → Result AuthError Bool
  verified none token = require (lib.parse token server_keyfunc) expired_token
  verified (some (did, repo)) token =
      if repo.compat_mode
      then with_user_key did token
      else require (lib.parse token server_keyfunc) expired_token

abbrev pub is_some : {A : Type 0} → Option A → Bool
is_some none = false
is_some (some a) = true

-- The scope that the token must have where it is used.
unfoldable pub check_scope : Request → MapClaims → Bool → Result AuthError Unit
check_scope r claims has_lxm =
    if is_refresh r
    then refuse_if (not (str_eq (text_claim "scope" claims) "com.atproto.refresh")) invalid_token
    else if has_lxm
    then ok tt
    else refuse_if (not (str_eq (text_claim "scope" claims) "com.atproto.access")) invalid_token

-- The account of the request: the issuer's, or else that of the subject.
unfoldable pub account :
    Lookup → MapClaims → String → Option (String × RepoActor) → Result AuthError Context
account repo_of claims token (some (did, repo)) =
    ok (record { repo = repo; did = did; token = token; scopes = [] })
account repo_of claims token none = do
  sub ← require (text_claim? "sub" claims) panicked
  repo ← require (repo_of sub) server_error
  ok (record { repo = repo; did = repo.did; token = token; scopes = [] })

module _ (lib : Jwts) (repo_of : Lookup) (refresh_tokens : List RefreshToken) (now : ℕ) where
  unfoldable pub bearer : Request → String → Result AuthError Context
  unfolding issuer verified check_scope has_refresh_token account
  bearer r token = do
    claims ← require (lib.parse_unverified token) invalid_token
    iss ← issuer repo_of r claims
    valid ← verified lib iss token
    refuse_if (not valid) invalid_token
    check_scope r claims (is_some iss)
    refuse_if (is_refresh r && not (has_refresh_token token refresh_tokens)) invalid_token
    exp ← require (number_claim "exp" claims) server_error
    refuse_if (ltb exp (now / second)) expired_token
    account repo_of claims token iss

  -- No context: the request is handed on as it is.
  unfoldable pub scheme : Request → String → String → Result AuthError (Option Context)
  unfolding bearer
  scheme r name token =
      let found = bearer r token in
      if str_eq name "DPoP" then ok none else (do ctx ← found; ok (some ctx))

  unfoldable pub legacy : Request → Result AuthError (Option Context)
  unfolding scheme
  legacy r = do
    refuse_if (str_eq (header_of r) "") unauthorized
    pts ← require (two (split_on " " (header_of r))) bad_header
    scheme r pts.0 pts.1
