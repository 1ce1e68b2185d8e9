-- ===== src/ServiceAuth.antt =====
-- server/handle_server_get_service_auth.go, server/service_auth.go and server/handle_proxy.go: the
-- tokens that an account shows to another service, and the check of those that other servers issue.
-- encoding/json, base64 and the server's key are behind `server_sign`, the hub and the account's
-- browser behind `user_sign`; int64(exp) is an integer, and times are in seconds.
pub mod Bounds
pub mod Accepted
pub mod Validate
mod Examples
use vow.Prelude.{
  ℕ, ◌+◌, ◌*◌, String, str_eq, str_append, Bool, true, false, not, Option, none, some, List, [],
  ◌∷◌, split_on, ℤ, pos, ltb_ℤ, is_zero, if◌then◌else◌, Result, ok, err,
}
use vow.Prelude.Results.{◌>>=◌, ◌>>◌, refuse_if, require}
use vow.Signer.Conn.{SignerError}
use vow.Auth.{RepoActor}

pub record ServiceHeader : Type 0 where
  pub alg : String
  pub kid : String

pub record ServiceClaims : Type 0 where
  pub iss : String
  pub aud : String
  pub jti : String
  pub exp : ℤ
  pub iat : ℕ
  pub lxm : Option String

pub data ServiceError : Type 0 where
  input_error recursive too_far server_error : ServiceError
  signer : SignerError → ServiceError

pub record Signing : Type 0 where
  pub now : ℕ
  pub jti : String
  -- The validator's `atproto-did`.
  pub is_did : String → Bool
  pub server_sign : ServiceHeader → ServiceClaims → Option String
  -- The answer of SignerHub.RequestSignature for the token's text.
  pub user_sign : String → ServiceHeader → ServiceClaims → Result SignerError String

-- `if exp == 0`
abbrev pub or_later : ℤ → ℕ → ℤ
or_later exp later = if is_zero exp then pos later else exp

abbrev pub service_claims : Signing → String → String → String → ℤ → ServiceClaims
service_claims s did aud lxm exp = record {
  iss = did;
  aud = aud;
  jti = s.jti;
  exp = or_later exp (s.now + 5 * 60);
  iat = s.now;
  lxm = if str_eq lxm "" then none else some lxm;
}

abbrev pub signer_error : Result SignerError String → Result ServiceError String
signer_error (ok token) = ok token
signer_error (err e) = err (signer e)

unfoldable pub request_user_signed_service_auth_jwt :
    Signing → RepoActor → String → String → ℤ → Result ServiceError String
request_user_signed_service_auth_jwt s repo aud lxm exp = signer_error (
    s.user_sign repo.did (record { alg = "ES256K"; kid = str_append repo.did "#atproto" })
      (service_claims s repo.did aud lxm exp))

unfoldable pub sign_service_auth_jwt :
    Signing → RepoActor → String → String → ℤ → Result ServiceError String
sign_service_auth_jwt s repo aud lxm exp =
    require
      (s.server_sign (record { alg = "ES256"; kid = str_append repo.did "#atproto_service" })
        (service_claims s repo.did aud lxm exp))
      server_error

abbrev pub service_token : Signing → RepoActor → String → String → ℤ → Result ServiceError String
service_token s repo aud lxm exp =
    if repo.compat_mode
    then request_user_signed_service_auth_jwt s repo aud lxm exp
    else sign_service_auth_jwt s repo aud lxm exp

abbrev pub get_service_auth_lxm : String
get_service_auth_lxm = "com.atproto.server.getServiceAuth"

abbrev pub max_exp : ℕ → String → ℕ
max_exp now lxm = if str_eq lxm "" then now + 60 else now + 60 * 60

-- handleServerGetServiceAuth; `exp` is 0 where the parameter is missing or unreadable.
unfoldable pub get_service_auth :
    Signing → RepoActor → String → String → ℤ → Result ServiceError String
unfolding request_user_signed_service_auth_jwt sign_service_auth_jwt
get_service_auth s repo aud lxm exp = do
  refuse_if (not (s.is_did aud)) input_error
  refuse_if (str_eq lxm get_service_auth_lxm) recursive
  refuse_if (ltb_ℤ (pos (max_exp s.now lxm)) (or_later exp (s.now + 60))) too_far
  service_token s repo aud lxm (or_later exp (s.now + 60))

-- What handleProxy reads: the segments of the path, and what getFeed left in the context.
pub record ProxyRequest : Type 0 where
  pub path : String
  pub proxy : String
  pub token_lxm : String
  pub token_aud : String

pub record DocService : Type 0 where
  pub id : String
  pub service_endpoint : String

-- The last service of the identifier.
unfoldable pub endpoint_of : String → String → List DocService → String
endpoint_of id found [] = found
endpoint_of id found (s ∷ ss) =
    endpoint_of id (if str_eq s.id id then s.service_endpoint else found) ss

abbrev pub pair_of : List String → Option (String × String)
pair_of (a ∷ b ∷ []) = some (a, b)
pair_of _ = none

unfoldable pub get_atproto_proxy_endpoint :
    String → (String → Option (List DocService)) → String → Result ServiceError (String × String)
unfolding endpoint_of split_on
get_atproto_proxy_endpoint fallback fetch_doc header = do
  svc ←
      require (pair_of (split_on "#" (if str_eq header "" then fallback else header))) server_error
  services ← require (fetch_doc svc.0) server_error
  ok (endpoint_of (str_append "#" svc.1) "" services, svc.0)

abbrev pub method_of : List String → Option String
method_of (a ∷ b ∷ nsid ∷ []) = some nsid
method_of _ = none

abbrev pub unless_empty : String → String → String
unless_empty s t = if str_eq s "" then t else s

-- handleProxy up to the request it sends: the endpoint, and the token of the signed-in account.
unfoldable pub proxy :
    Signing
    → String
    → (String → Option (List DocService))
    → Option RepoActor
    → ProxyRequest
    → Result ServiceError (String × Option String)
unfolding get_atproto_proxy_endpoint request_user_signed_service_auth_jwt sign_service_auth_jwt
    split_on
proxy s fallback fetch_doc none r = do
  nsid ← require (method_of (split_on "/" r.path)) server_error
  svc ← get_atproto_proxy_endpoint fallback fetch_doc r.proxy
  ok (svc.0, none)
proxy s fallback fetch_doc (some repo) r = do
  nsid ← require (method_of (split_on "/" r.path)) server_error
  svc ← get_atproto_proxy_endpoint fallback fetch_doc r.proxy
  token ←
      service_token s repo (unless_empty r.token_aud svc.1) (unless_empty r.token_lxm nsid) (pos 0)
  ok (svc.0, some token)
