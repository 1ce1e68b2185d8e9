-- ===== src/Auth/Authed.antt =====
-- server/middleware.go: handleOauthSessionMiddleware, and the two middlewares one after the other,
-- as the routes compose them (`authed` in server/server.go).
pub mod Sound
pub mod Handed
use vow.Prelude.{
  ℕ, ◌/◌, String, str_eq, Bool, true, false, not, ◌&&◌, Option, none, some, List, [], ◌∷◌, ltb,
  if◌then◌else◌, split_on, Crypto, Result, ok, err,
}
use vow.Prelude.Action.{Action, pure, fail, need, lift, stop_if, ◌>>=◌, ◌>>◌}
use vow.Dpop.Nonce.{second}
use vow.Dpop.Jose.{Jose, JtiCache}
use vow.Dpop.Proof.{Proof, ProofError}
use vow.Dpop.Manager.{Manager, check_proof, next_nonce}
use vow.TokenEndpoint.{OauthToken, zero_token}
use vow.Auth.{
  RepoActor, RefreshToken, Request, Context, Jwts, AuthError, unauthorized, bad_header,
  invalid_token, expired_token, server_error, missing_proof, not_bound, jkt_mismatch, bad_proof,
  two,
}
use vow.Auth.Legacy.{Lookup, legacy}

-- SELECT * FROM oauth_tokens WHERE token = ?, which leaves the zero row where there is none.
unfoldable pub scan_token : String → List OauthToken → OauthToken
scan_token token [] = zero_token
scan_token token (t ∷ ts) = if str_eq t.token token then t else scan_token token ts

abbrev pub as_auth : {A : Type 0} → Result ProofError A → Result AuthError A
as_auth (ok a) = ok a
as_auth (err e) = err (bad_proof e)

abbrev pub with_proof : {S A : Type 0} → Action S ProofError A → Action S AuthError A
with_proof m s = let (r, t) = m s in (as_auth r, t)

module _ (c : Crypto) (j : Jose) (k : JtiCache) (repo_of : Lookup) (oauth_tokens : List OauthToken)
    (now : ℕ) where
  abbrev pub Auth : Type 0 → Type 0
  Auth A = Action (Manager k) AuthError A

  -- The nonce of the answer's header.
  abbrev pub send_nonce : Auth String
  send_nonce m = let (n, nonce) = next_nonce c k m now in (ok nonce, n)

  unfoldable pub dpop_session : Request → String → Auth Context
  unfolding scan_token
  dpop_session r token = do
    nonce ← send_nonce
    found ← with_proof (check_proof c j k now r.method r.request_url r.dpop_headers (some token))
    proof ← need found missing_proof
    let t = scan_token token oauth_tokens
    _ ← stop_if (str_eq t.token "") invalid_token
    jkt ← need t.parameters.dpop_jkt not_bound
    _ ← stop_if (not (str_eq jkt proof.jkt)) jkt_mismatch
    _ ← stop_if (ltb t.expires_at now) expired_token
    repo ← need (repo_of t.sub) server_error
    pure (record {
      repo = repo;
      did = repo.did;
      token = token;
      scopes = split_on " " t.parameters.scope;
    })

  abbrev pub on_scheme : Request → Option Context → String × String → Auth (Option Context)
  on_scheme r ctx (scheme, token) =
      if str_eq scheme "DPoP" then (do c ← dpop_session r token; pure (some c)) else pure ctx

  unfoldable pub oauth : Request → Option Context → Auth (Option Context)
  unfolding dpop_session
  oauth r ctx = do
    _ ← stop_if (str_eq r.authorization "") unauthorized
    pts ← need (two (split_on " " r.authorization)) bad_header
    on_scheme r ctx pts

  -- What the handler behind both is given.
  unfoldable pub authed : (lib : Jwts) → List RefreshToken → Request → Auth (Option Context)
  unfolding oauth
  authed lib refresh_tokens r = do ctx ← lift (legacy lib repo_of refresh_tokens now r); oauth r ctx
