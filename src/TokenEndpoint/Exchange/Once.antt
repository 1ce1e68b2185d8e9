-- ===== src/TokenEndpoint/Exchange/Once.antt =====
-- server/handle_oauth_token.go: what the deletion of the code's row brings about.
use vow.Prelude.{
  ◌≡◌, ◌≢◌, refl, sym, ◌∙◌, ap, arith, String, str_eq_ne, true, Bool-cases, inl, inr, Option, none,
  some, List, [], ◌∷◌, err,
}
use vow.TokenEndpoint.{
  OauthAuthorizationRequest, Db, OauthTokenRequest, Client, Env, redirect_uri_mismatch, has_code,
  without_code, zero_request, scan_code,
}
use vow.TokenEndpoint.Exchange.{differs, grant_code, authorization_code}

scan_without :
    (code : String) (rs : List OauthAuthorizationRequest)
    → scan_code code (without_code code rs) ≡ zero_request
unfolding scan_code without_code
scan_without code [] = refl
scan_without code (r ∷ rs) = elim (Bool-cases (has_code code r)) [
  | inl e ↦ rw (e, without_code) (scan_without code rs)
  | inr e ↦ rw (e, without_code, scan_code, e) (scan_without code rs)
]

without_idempotent :
    (code : String) (rs : List OauthAuthorizationRequest)
    → without_code code (without_code code rs) ≡ without_code code rs
unfolding without_code
without_idempotent code [] = refl
without_idempotent code (r ∷ rs) = elim (Bool-cases (has_code code r)) [
  | inl e ↦ rw (e, without_code) (without_idempotent code rs)
  | inr e ↦ rw (e, without_code, e) (ap (λ x. r ∷ x) (without_idempotent code rs))
]

-- The table of the requests stays as it is behind the deletion.
grant_code-requests :
    (env : Env) (client : Client) (req : OauthTokenRequest) (r : OauthAuthorizationRequest)
    (db : Db)
    → (grant_code env client req r db).1.oauth_authorization_requests
      ≡ db.oauth_authorization_requests
unfolding grant_code
grant_code-requests env client req r db = ground arith

deleted :
    (env : Env) (client : Client) (req : OauthTokenRequest) (db : Db) (code : String)
    → req.code ≡ some code
    → (authorization_code env client req db).1.oauth_authorization_requests
      ≡ without_code code db.oauth_authorization_requests
unfolding authorization_code
deleted env client req db code e =
    rw (e, authorization_code)
      (grant_code-requests env client req (scan_code code db.oauth_authorization_requests)
        (record db {
          oauth_authorization_requests = without_code code db.oauth_authorization_requests;
        }))

differs_empty : (o : Option String) → o ≢ some "" → differs o "" ≡ true
differs_empty none ne = refl
differs_empty (some s) ne = rw (str_eq_ne s "" (λ e. ne (ap some e))) refl

unknown_code :
    (env : Env) (client : Client) (req : OauthTokenRequest) (db : Db) (code : String)
    → req.code ≡ some code
    → req.redirect_uri ≢ some ""
    → scan_code code db.oauth_authorization_requests ≡ zero_request
    → without_code code db.oauth_authorization_requests ≡ db.oauth_authorization_requests
    → authorization_code env client req db ≡ (err redirect_uri_mismatch, db)
unfolding authorization_code grant_code
unknown_code env client req db code e uri missing same =
    rw (e, authorization_code, missing, same, grant_code, differs_empty req.redirect_uri uri) refl

-- A code is exchanged once: after a request with it, whatever its outcome, client and parameters,
-- every later request with it is refused for its redirect_uri and changes nothing. The handler
-- takes an empty redirect_uri for a missing one.
pub authorization_code-once :
    (env later : Env) (client other : Client) (req again : OauthTokenRequest) (db : Db)
    (code : String)
    → req.code ≡ some code
    → again.code ≡ some code
    → again.redirect_uri ≢ some ""
    → authorization_code later other again (authorization_code env client req db).1
      ≡ (err redirect_uri_mismatch, (authorization_code env client req db).1)
authorization_code-once env later client other req again db code e f uri =
    let gone = deleted env client req db code e in
    unknown_code later other again (authorization_code env client req db).1 code f uri
      (ap (scan_code code) gone ∙ scan_without code db.oauth_authorization_requests)
      (ap (without_code code) gone
        ∙ (without_idempotent code db.oauth_authorization_requests ∙ sym gone))

-- Which client sends the code does not matter: two clients that authenticate with the same method
-- and both ask, or both do not ask, for tokens bound to a key get the same answer and effect.
pub authorization_code-client :
    (env : Env) (client other : Client) (req : OauthTokenRequest) (db : Db)
    → other.auth_method ≡ client.auth_method
    → other.dpop_bound_access_tokens ≡ client.dpop_bound_access_tokens
    → authorization_code env other req db ≡ authorization_code env client req db
unfolding authorization_code grant_code
authorization_code-client env client other req db e f = rw (e, f) refl
