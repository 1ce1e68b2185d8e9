-- ===== src/Auth/Sessions.antt =====
-- server/session.go (createSession), and the refresh and the deletion of a session in
-- server/handle_server_refresh_session.go and server/handle_server_delete_session.go.
pub mod Ended
use vow.Prelude.{
  ℕ, ◌+◌, ◌*◌, ◌/◌, String, str_eq, Bool, true, false, Option, none, some, List, [], ◌∷◌,
  if◌then◌else◌,
}
use vow.Prelude.Action.{Action, pure, need, gets, modify, stop_if, ◌>>=◌, ◌>>◌}
use vow.Dpop.Nonce.{second}
use vow.Auth.{Token, RefreshToken, Tokens}

pub record SessionClaims : Type 0 where
  pub scope : String
  pub aud : String
  pub sub : String
  pub iat : ℕ
  pub exp : ℕ
  pub jti : String

pub record Session : Type 0 where
  pub access_token : String
  pub refresh_token : String

pub data SessionError : Type 0 where
  not_signed not_stored : SessionError

-- The server's DID, the clock, a fresh identifier, and signInternalJWT.
pub record Issuer : Type 0 where
  pub did : String
  pub now : ℕ
  pub jti : String
  pub sign_internal_jwt : SessionClaims → Option String

abbrev pub access_exp : ℕ → ℕ
access_exp now = now + 3 * 3600 * second

abbrev pub refresh_exp : ℕ → ℕ
refresh_exp now = now + 7 * 24 * 3600 * second

abbrev pub claims_of : Issuer → String → String → ℕ → SessionClaims
claims_of env did scope exp = record {
  scope = scope;
  aud = env.did;
  sub = did;
  iat = env.now / second;
  exp = exp / second;
  jti = env.jti;
}

-- The token is the primary key of its table.
unfoldable pub has_token : String → List Token → Bool
has_token token [] = false
has_token token (t ∷ ts) = if str_eq t.token token then true else has_token token ts

unfoldable pub has_refresh : String → List RefreshToken → Bool
has_refresh token [] = false
has_refresh token (t ∷ ts) = if str_eq t.token token then true else has_refresh token ts

abbrev pub Change : Type 0 → Type 0
Change A = Action Tokens SessionError A

unfoldable pub create_session : Issuer → String → Change Session
unfolding has_token has_refresh
create_session env did = do
  access ←
      need (env.sign_internal_jwt (claims_of env did "com.atproto.access" (access_exp env.now)))
        not_signed
  refresh ←
      need (env.sign_internal_jwt (claims_of env did "com.atproto.refresh" (refresh_exp env.now)))
        not_signed
  clash ← gets (λ (db : Tokens). has_token access db.tokens)
  _ ← stop_if clash not_stored
  _ ← modify (λ (db : Tokens). record db {
    tokens =
        record {
          token = access;
          did = did;
          refresh_token = refresh;
          expires_at = access_exp env.now;
        }
        ∷ db.tokens;
  })
  used ← gets (λ (db : Tokens). has_refresh refresh db.refresh_tokens)
  _ ← stop_if used not_stored
  _ ← modify (λ (db : Tokens). record db {
    refresh_tokens =
        record { token = refresh; did = did; expires_at = refresh_exp env.now } ∷ db.refresh_tokens;
  })
  pure (record { access_token = access; refresh_token = refresh })

-- DELETE FROM refresh_tokens WHERE token = ?
unfoldable pub without_refresh : String → List RefreshToken → List RefreshToken
without_refresh token [] = []
without_refresh token (t ∷ ts) =
    let rest = without_refresh token ts in if str_eq t.token token then rest else t ∷ rest

-- DELETE FROM tokens WHERE refresh_token = ?
unfoldable pub without_pair : String → List Token → List Token
without_pair refresh [] = []
without_pair refresh (t ∷ ts) =
    let rest = without_pair refresh ts in if str_eq t.refresh_token refresh then rest else t ∷ rest

-- DELETE FROM tokens WHERE token = ?, and the refresh token of a row that it returns.
unfoldable pub without_token : String → List Token → List Token
without_token token [] = []
without_token token (t ∷ ts) =
    let rest = without_token token ts in if str_eq t.token token then rest else t ∷ rest

unfoldable pub refresh_of : String → List Token → String
refresh_of token [] = ""
refresh_of token (t ∷ ts) = if str_eq t.token token then t.refresh_token else refresh_of token ts

-- handleRefreshSession, for the account and the token of the request's context.
unfoldable pub refresh_session : Issuer → String → String → Change Session
unfolding create_session without_refresh without_pair
refresh_session env did token = do
  _ ←
      modify
        (λ (db : Tokens). record db { refresh_tokens = without_refresh token db.refresh_tokens })
  _ ← modify (λ (db : Tokens). record db { tokens = without_pair token db.tokens })
  create_session env did

unfoldable pub delete_session : String → Change Unit
unfolding without_token refresh_of without_refresh
delete_session token = do
  refresh ← gets (λ (db : Tokens). refresh_of token db.tokens)
  _ ← modify (λ (db : Tokens). record db { tokens = without_token token db.tokens })
  modify (λ (db : Tokens). record db { refresh_tokens = without_refresh refresh db.refresh_tokens })
