-- ===== src/Auth.antt =====
-- server/middleware.go and server/session.go: who a request is from. The rows are those of
-- models/models.go, as far as the code reads them, and `now` is in nanoseconds.
pub mod Legacy
pub mod Authed
pub mod Sessions
mod Examples
use vow.Prelude.{
  ℕ, ◌≡◌, String, str_eq, Bool, true, false, Option, none, some, List, [], ◌∷◌, split_on,
}
use vow.Dpop.Jose.{MapClaims, Json, text, lookup}
use vow.Dpop.Proof.{ProofError}

pub record RepoActor : Type 0 where
  pub did : String
  pub compat_mode : Bool

pub record Token : Type 0 where
  pub token : String
  pub did : String
  pub refresh_token : String
  pub expires_at : ℕ

pub record RefreshToken : Type 0 where
  pub token : String
  pub did : String
  pub expires_at : ℕ

pub record Tokens : Type 0 where
  pub tokens : List Token
  pub refresh_tokens : List RefreshToken

-- What the middleware reads of a request; `access_token` is the parameter of the query.
pub record Request : Type 0 where
  pub authorization : String
  pub access_token : String
  pub url : String
  pub path : String
  pub method : String
  pub request_url : String
  pub dpop_headers : List String

-- What the next handler finds in the request.
pub record Context : Type 0 where
  pub repo : RepoActor
  pub did : String
  pub token : String
  pub scopes : List String

-- golang-jwt, and the key of an account's DID document. `parse` asks the function for the key of
-- the token's algorithm, and tells whether the token is valid.
pub record Jwts : Type 1 where
  pub Key : Type 0
  pub server_key : Key
  pub user_key : String → Option Key
  pub is_ecdsa : String → Bool
  pub parse_unverified : String → Option MapClaims
  pub parse : String → (String → Option Key) → Option Bool

-- A token is found valid only under a key of the function, by which it is signed.
abbrev pub IsVerifying : (lib : Jwts) → (String → String → lib.Key → Type 0) → Type 0
IsVerifying lib Signed =
    (token : String) (keyfunc : String → Option lib.Key)
    → lib.parse token keyfunc ≡ some true
    → (alg : String) × (key : lib.Key) × (keyfunc alg ≡ some key) × Signed token alg key

pub data AuthError : Type 0 where
  unauthorized bad_header invalid_token expired_token bad_request server_error : AuthError
  panicked missing_proof not_bound jkt_mismatch : AuthError
  bad_proof : ProofError → AuthError

-- `v, ok := claims[key].(string)`
abbrev pub text_claim? : String → MapClaims → Option String
text_claim? key claims = elim (lookup key claims) [ some (text s) ↦ some s | _ ↦ none ]

-- The parts of an Authorization header with one space in it.
abbrev pub two : List String → Option (String × String)
two (a ∷ b ∷ []) = some (a, b)
two _ = none
