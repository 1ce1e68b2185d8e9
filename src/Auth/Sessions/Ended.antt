-- ===== src/Auth/Sessions/Ended.antt =====
-- server/session.go and server/handle_server_refresh_session.go: what is left of a session that was
-- refreshed.
use vow.Prelude.{
  ℕ, ◌≡◌, ◌≢◌, refl, ap, sym, ◌∙◌, arith, String, str_eq, str_eq_ne, true, false, Bool-cases, inl,
  inr, List, [], ◌∷◌, Result, ok, not, ◌&&◌,
}
use vow.Prelude.Action.{had, went_on}
use vow.Prelude.Results.{required, bind_ok, passed, ok_injective}
use vow.Auth.{invalid_token, RefreshToken, Tokens, Request, Context, Jwts}
use vow.Auth.Legacy.{
  Lookup, issuer, verified, check_scope, is_some, bearer, is_refresh, has_refresh_token,
}
use vow.Auth.Sessions.{
  Session, SessionError, Issuer, create_session, without_refresh, refresh_session, has_token,
  has_refresh, claims_of, access_exp, refresh_exp, not_signed, not_stored,
}

has_refresh_token-without_refresh :
    (token : String) (ts : List RefreshToken)
    → has_refresh_token token (without_refresh token ts) ≡ false
unfolding has_refresh_token without_refresh
has_refresh_token-without_refresh token [] = refl
has_refresh_token-without_refresh token (t ∷ ts) = elim (Bool-cases (str_eq t.token token)) [
  | inl same ↦ rw same (has_refresh_token-without_refresh token ts)
  | inr other ↦ rw (other, other) (has_refresh_token-without_refresh token ts)
]

-- A session that was created: its refresh token is put before those that were there.
create_session-refresh_tokens :
    (env : Issuer) (did : String) (s : Session) (db after : Tokens)
    → create_session env did db ≡ (ok s, after)
    → after.refresh_tokens
      ≡ record { token = s.refresh_token; did = did; expires_at = refresh_exp env.now }
        ∷ db.refresh_tokens
unfolding create_session
create_session-refresh_tokens env did s db after e =
    let sign = env.sign_internal_jwt in
    let (access, a, e1) =
      had (sign (claims_of env did "com.atproto.access" (access_exp env.now))) not_signed _ s db
        after e in
    let (refresh, b, e2) =
      had (sign (claims_of env did "com.atproto.refresh" (refresh_exp env.now))) not_signed _ s db
        after e1 in
    let (free, e3) = went_on (has_token access db.tokens) not_stored _ s db after e2 in
    let (unused, e4) = went_on (has_refresh refresh db.refresh_tokens) not_stored _ s _ after e3 in
    let same : refresh ≡ s.refresh_token =
      ap (λ (x : Session). x.refresh_token)
        (ok_injective _ s (ap (λ (z : Result SessionError Session × Tokens). z.0) e4)) in
    sym (ap (λ (z : Result SessionError Session × Tokens). z.1.refresh_tokens) e4)
    ∙ ap
        (λ (x : String).
          record { token = x; did = did; expires_at = refresh_exp env.now } ∷ db.refresh_tokens)
        same

bearer-kept :
    (lib : Jwts) (repo_of : Lookup) (refresh_tokens : List RefreshToken) (now : ℕ) (r : Request)
    (token : String) (ctx : Context)
    → bearer lib repo_of refresh_tokens now r token ≡ ok ctx
    → is_refresh r ≡ true
    → has_refresh_token token refresh_tokens ≡ true
unfolding bearer
bearer-kept lib repo_of refresh_tokens now r token ctx e h =
    let (claims, parsed, e1) = required (lib.parse_unverified token) invalid_token _ ctx e in
    let (iss, issued, e2) = bind_ok (issuer repo_of r claims) _ ctx e1 in
    let (valid, v, e3) = bind_ok (verified lib iss token) _ ctx e2 in
    let (good, e4) = passed (not valid) invalid_token _ ctx e3 in
    let (u, scoped, e5) = bind_ok (check_scope r claims (is_some iss)) _ ctx e4 in
    let (kept, e6) =
      passed (is_refresh r && not (has_refresh_token token refresh_tokens)) invalid_token _ ctx
        e5 in
    ground arith

-- A refresh token is used once: when a session was refreshed with it, and the new token is another
-- one, no request to refresh a session passes the middleware with it.
pub refresh_session-bearer :
    (env : Issuer) (did token : String) (s : Session) (db after : Tokens) (lib : Jwts)
    (repo_of : Lookup) (now : ℕ) (r : Request) (ctx : Context)
    → refresh_session env did token db ≡ (ok s, after)
    → s.refresh_token ≢ token
    → is_refresh r ≡ true
    → bearer lib repo_of after.refresh_tokens now r token ≢ ok ctx
unfolding refresh_session has_refresh_token
refresh_session-bearer env did token s db after lib repo_of now r ctx e fresh h b =
    let tokens = create_session-refresh_tokens env did s _ after e in
    let gone = has_refresh_token-without_refresh token db.refresh_tokens in
    let here = bearer-kept lib repo_of after.refresh_tokens now r token ctx b h in
    let there = rw tokens at here in
    let other = str_eq_ne s.refresh_token token fresh in
    let there2 = rw (other, gone) at there in absurd (ground arith)
