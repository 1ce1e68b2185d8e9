-- ===== src/TokenEndpoint/Exchange/Granted.antt =====
-- server/handle_oauth_token.go: what a granted code has shown.
use vow.Prelude.{
  ◌+◌, ◌*◌, ◌^◌, ◌⊎◌, true, refl, ◌≡◌, sym, ◌∙◌, ap, arith, String, eq_iff, false, Bool-cases, inl,
  inr, not, Option, none, some, ◌∷◌, ok, ◌&&◌,
}
use vow.Prelude.Action.{went_on, had}
use vow.TokenEndpoint.{
  Claims, OauthToken, OauthAuthorizationRequest, Db, OauthTokenRequest, OauthTokenResponse, Client,
  Env, missing_parameter, redirect_uri_mismatch, jkt_required, no_actor, server_error, nil_pointer,
  without_code, scan_code, is_some,
}
use vow.TokenEndpoint.Exchange.{
  check_verifier, not_stopped, differs, clashes, claims_for, IsAccess, claims_for-IsAccess, issued,
  grant_code, authorization_code,
}

-- What the row of a new token says, column by column.
pub record IsStored (env : Env) (client : Client) (r : OauthAuthorizationRequest)
    (res : OauthTokenResponse) (code : String) (t : OauthToken) : Type 0 where
  pub client_is : t.client_id ≡ r.client_id
  pub method : t.client_auth_method ≡ client.auth_method
  pub parameters : t.parameters ≡ r.parameters
  pub subject : t.sub ≡ res.sub
  pub code_is : t.code ≡ code
  pub access : t.token ≡ res.access_token
  pub refresh : t.refresh_token ≡ res.refresh_token
  pub new_refresh : res.refresh_token ≡ env.new_refresh_token
  pub created : (t.created_at ≡ env.now) × (t.updated_at ≡ env.now)
  pub expires : t.expires_at ≡ env.now + 3600 * 10 ^ 9
  pub ip : t.ip ≡ r.ip

-- What a granted code has shown of its row, and which token was stored.
pub record IsGranted (env : Env) (client : Client) (req : OauthTokenRequest)
    (r : OauthAuthorizationRequest) (db after : Db) (res : OauthTokenResponse) : Type 0 where
  pub redirect : req.redirect_uri ≡ some r.parameters.redirect_uri
  pub verified : check_verifier env r.parameters req.code_verifier ≡ none
  pub bound : (client.dpop_bound_access_tokens ≡ false) ⊎ (is_some r.parameters.dpop_jkt ≡ true)
  pub sub : String
  pub sub_is : r.sub ≡ some sub
  pub actor_is : env.repo_actor_by_did sub ≡ some res.sub
  pub code : String
  pub code_is : r.code ≡ some code
  pub claims : Claims
  pub access : IsAccess env res.sub r.client_id r.parameters claims
  pub signed : env.sign_internal_jwt claims ≡ some res.access_token
  pub token : OauthToken
  pub stored : after.oauth_tokens ≡ token ∷ db.oauth_tokens
  pub row : IsStored env client r res code token

differs-same : (o : Option String) (s : String) → differs o s ≡ false → o ≡ some s
differs-same none s e = absurd (ground arith)
differs-same (some x) s e = ap some ((eq_iff x s).0 (ground arith))

grant_code-IsGranted :
    (env : Env) (client : Client) (req : OauthTokenRequest) (r : OauthAuthorizationRequest)
    (db after : Db) (res : OauthTokenResponse)
    → grant_code env client req r db ≡ (ok res, after)
    → IsGranted env client req r db after res
unfolding grant_code
grant_code-IsGranted env client req r db after res e =
    let p = r.parameters in
    let (a, e1) =
      went_on (differs req.redirect_uri p.redirect_uri) redirect_uri_mismatch _ res db after e in
    let (b, e2) = not_stopped (check_verifier env p req.code_verifier) _ res db after e1 in
    let (c, e3) =
      went_on (client.dpop_bound_access_tokens && not (is_some p.dpop_jkt)) jkt_required _ res db
        after e2 in
    let (sub, s, e4) = had r.sub nil_pointer _ res db after e3 in
    let (actor, x, e5) = had (env.repo_actor_by_did sub) no_actor _ res db after e4 in
    let claims = claims_for env actor p r.client_id in
    let (access, y, e6) = had (env.sign_internal_jwt claims) server_error _ res db after e5 in
    let (code, z, e7) = had r.code nil_pointer _ res db after e6 in
    elim (Bool-cases
      (clashes (issued env r actor code access client.auth_method) db.oauth_tokens)) [
        | inl clash ↦ absurd (ground arith)
        | inr free ↦
            let actor_is : actor ≡ res.sub = ground arith in
            let access_is : access ≡ res.access_token = ground arith in
            let answer : res.refresh_token ≡ env.new_refresh_token = ground arith in
            record {
              redirect = differs-same req.redirect_uri p.redirect_uri a;
              verified = b;
              bound = ground arith;
              sub = sub;
              sub_is = s;
              actor_is = x ∙ ap some actor_is;
              code = code;
              code_is = z;
              claims = claims_for env res.sub p r.client_id;
              access = claims_for-IsAccess env res.sub r.client_id p;
              signed =
                  ap (λ (w : String). env.sign_internal_jwt (claims_for env w p r.client_id))
                    (sym actor_is)
                  ∙ (y ∙ ap some access_is);
              token = issued env r res.sub code res.access_token client.auth_method;
              stored = ground arith;
              row = record {
                client_is = refl;
                method = refl;
                parameters = refl;
                subject = refl;
                code_is = refl;
                access = refl;
                refresh = sym answer;
                new_refresh = answer;
                created = (refl, refl);
                expires = refl;
                ip = refl;
              };
            }
      ]

-- A code is granted only for the redirect address and with the verifier of the row that the table
-- had for it, to an account that exists, and for a client whose tokens are bound to a key only with
-- such a key. The signed claims have the row's scope, client and key, this server as audience, the
-- account, and an hour in whole seconds; and one row is new, with the row's client, parameters and
-- address, the client's method, the account, the code, both tokens of the answer and the same hour.
pub authorization_code-IsGranted :
    (env : Env) (client : Client) (req : OauthTokenRequest) (db after : Db)
    (res : OauthTokenResponse)
    → authorization_code env client req db ≡ (ok res, after)
    → (code : String) × (req.code ≡ some code)
      × IsGranted env client req (scan_code code db.oauth_authorization_requests) db after res
unfolding authorization_code
authorization_code-IsGranted env client req db after res e =
    let (code, c, e1) = had req.code missing_parameter _ res db after e in
    let deleted_db : Db = record db {
      oauth_authorization_requests = without_code code db.oauth_authorization_requests;
    } in
    let g =
      grant_code-IsGranted env client req (scan_code code db.oauth_authorization_requests)
        deleted_db after res e1 in
    (
      code,
      c,
      record {
        redirect = g.redirect;
        verified = g.verified;
        bound = g.bound;
        sub = g.sub;
        sub_is = g.sub_is;
        actor_is = g.actor_is;
        code = g.code;
        code_is = g.code_is;
        claims = g.claims;
        access = g.access;
        signed = g.signed;
        token = g.token;
        stored = g.stored;
        row = g.row;
      },
    )
