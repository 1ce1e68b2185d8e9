-- ===== src/TokenEndpoint/Exchange.antt =====
-- server/handle_oauth_token.go: the authorization_code grant.
pub mod Once
pub mod Granted
pub mod Verifier
use vow.Prelude.{
  ℕ, ◌+◌, ◌*◌, ◌/◌, ◌^◌, ◌≡◌, ◌≢◌, ◌≤◌, refl, sym, ◌∙◌, ap, arith, String, str_eq, str_eq_ne,
  eq_iff, Bool, true, false, Bool-cases, inl, inr, not, Option, none, some, Option-cases, List, [],
  ◌∷◌, ltb, if◌then◌else◌, length, Bytes, bytes, ok, err, ◌||◌, ◌&&◌,
}
use vow.Prelude.Action.{Action, pure, need, gets, modify, stop_if, went_on, had, ◌>>=◌}
use vow.TokenEndpoint.{
  ParRequest, OauthAuthorizationRequest, OauthToken, Db, OauthTokenRequest, OauthTokenResponse,
  Client, Claims, Env, TokenError, missing_parameter, redirect_uri_mismatch, verifier_too_short,
  invalid_verifier, unsupported_method, unexpected_verifier, jkt_required, no_actor, server_error,
  nil_pointer, second, token_max_age, has_code, without_code, zero_request, scan_code, is_equal,
  same_pointer, is_some,
}

-- The comparison of the verifier with the challenge of the authorization request.
unfoldable pub check_method : Env → ParRequest → String → String → Option TokenError
check_method env p challenge verifier =
    let digest = env.sha256 (bytes verifier) in
    if str_eq p.code_challenge_method "" || str_eq p.code_challenge_method "plain"
    then (if same_pointer challenge verifier then none else some invalid_verifier)
    else if str_eq p.code_challenge_method "S256"
    then elim (env.raw_url_decode challenge) [
      | none ↦ some server_error
      | some expected ↦ if is_equal expected digest then none else some invalid_verifier
    ]
    else some unsupported_method

unfoldable pub check_verifier : Env → ParRequest → Option String → Option TokenError
unfolding check_method
check_verifier env p verifier = elim p.code_challenge [
  | none ↦ elim verifier [ none ↦ none | some v ↦ some unexpected_verifier ]
  | some challenge ↦ elim verifier [
    | none ↦ some missing_parameter
    | some v ↦
        if ltb (length (bytes v)) 43
        then some verifier_too_short
        else check_method env p challenge v
  ]
]

abbrev pub stop_on : {S : Type 0} → Option TokenError → Action S TokenError Unit
stop_on none s = (ok tt, s)
stop_on (some e) s = (err e, s)

pub not_stopped :
    {S B : Type 0} (o : Option TokenError) (f : Unit → Action S TokenError B) (b : B) (s t : S)
    → (stop_on o >>= f) s ≡ (ok b, t)
    → (o ≡ none) × (f tt s ≡ (ok b, t))
not_stopped none f b s t e = (refl, e)
not_stopped (some x) f b s t e = absurd (ground arith)

abbrev pub differs : Option String → String → Bool
differs none expected = true
differs (some given) expected = not (str_eq given expected)

-- INSERT into a table with unique indexes on the token and the refresh token.
abbrev pub clashes : OauthToken → List OauthToken → Bool
clashes t [] = false
clashes t (u ∷ us) =
    str_eq t.token u.token || str_eq t.refresh_token u.refresh_token || clashes t us

abbrev pub insert : OauthToken → Action Db TokenError Unit
insert t db =
    if clashes t db.oauth_tokens
    then (err server_error, db)
    else (ok tt, record db { oauth_tokens = t ∷ db.oauth_tokens })

abbrev pub token_type : Option String → String
token_type none = "Bearer"
token_type (some jkt) = "DPoP"

-- The claims have their times in whole seconds.
abbrev pub claims_for : Env → String → ParRequest → String → Claims
claims_for env sub p client_id = record {
  scope = p.scope;
  aud = env.did;
  sub = sub;
  iat = env.now / second;
  exp = (env.now + token_max_age) / second;
  jti = env.token_id;
  client_id = client_id;
  cnf = p.dpop_jkt;
}

-- What the claims of an access token say: the scope and the DPoP key of the authorization request,
-- this server, the account, the client, and an hour to go.
pub record IsAccess (env : Env) (sub client_id : String) (p : ParRequest) (c : Claims)
    : Type 0 where
  pub scope : c.scope ≡ p.scope
  pub audience : c.aud ≡ env.did
  pub subject : c.sub ≡ sub
  pub issued_at : c.iat ≡ env.now / 10 ^ 9
  pub expires : c.exp ≡ (env.now + 3600 * 10 ^ 9) / 10 ^ 9
  pub identified : c.jti ≡ env.token_id
  pub client : c.client_id ≡ client_id
  pub confirmation : c.cnf ≡ p.dpop_jkt

pub claims_for-IsAccess :
    (env : Env) (sub client_id : String) (p : ParRequest)
    → IsAccess env sub client_id p (claims_for env sub p client_id)
claims_for-IsAccess env sub client_id p = record {
  scope = refl;
  audience = refl;
  subject = refl;
  issued_at = refl;
  expires = refl;
  identified = refl;
  client = refl;
  confirmation = refl;
}

abbrev pub issued : Env → OauthAuthorizationRequest → String → String → String → String → OauthToken
issued env r sub code access method = record {
  client_id = r.client_id;
  client_auth_method = method;
  parameters = r.parameters;
  created_at = env.now;
  updated_at = env.now;
  expires_at = env.now + token_max_age;
  sub = sub;
  code = code;
  token = access;
  refresh_token = env.new_refresh_token;
  ip = r.ip;
}

-- What follows the deletion of the code's row.
unfoldable pub grant_code :
    Env
    → Client
    → OauthTokenRequest
    → OauthAuthorizationRequest
    → Action Db TokenError OauthTokenResponse
unfolding check_verifier
grant_code env client req r = do
  let p = r.parameters
  _ ← stop_if (differs req.redirect_uri p.redirect_uri) redirect_uri_mismatch
  _ ← stop_on (check_verifier env p req.code_verifier)
  _ ← stop_if (client.dpop_bound_access_tokens && not (is_some p.dpop_jkt)) jkt_required
  sub ← need r.sub nil_pointer
  actor ← need (env.repo_actor_by_did sub) no_actor
  access ← need (env.sign_internal_jwt (claims_for env actor p r.client_id)) server_error
  code ← need r.code nil_pointer
  _ ← insert (issued env r actor code access client.auth_method)
  pure (record {
    access_token = access;
    token_type = token_type p.dpop_jkt;
    refresh_token = env.new_refresh_token;
    scope = p.scope;
    sub = actor;
  })

unfoldable pub authorization_code :
    Env → Client → OauthTokenRequest → Action Db TokenError OauthTokenResponse
unfolding grant_code without_code scan_code
authorization_code env client req = do
  code ← need req.code missing_parameter
  r ← gets (λ (db : Db). scan_code code db.oauth_authorization_requests)
  _ ← modify (λ (db : Db). record db {
    oauth_authorization_requests = without_code code db.oauth_authorization_requests;
  })
  grant_code env client req r
