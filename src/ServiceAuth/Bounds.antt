-- ===== src/ServiceAuth/Bounds.antt =====
-- The lifetime of a token of server/handle_server_get_service_auth.go.
use vow.Prelude.{
  ℕ, ◌+◌, ◌≡◌, ◌≢◌, refl, ap, arith, String, str_eq, str_append, true, false, none, some, ℤ, pos,
  ◌≤ℤ◌, ltb_ℤ, le_of_test, Bool-cases, inl, inr, eq_iff, if◌then◌else◌, Result, ok, err,
}
use vow.Prelude.Results.{require_ok, ok_injective}
use vow.Signer.Conn.{SignerError}
use vow.Auth.{RepoActor}
use vow.ServiceAuth.{
  ServiceClaims, server_error, signer_error, Signing, service_claims, service_token, or_later,
  get_service_auth_lxm, max_exp, get_service_auth, request_user_signed_service_auth_jwt,
  sign_service_auth_jwt,
}

-- The token carries the claims, under the key of the account's mode.
abbrev pub SignedFor : Signing → RepoActor → ServiceClaims → String → Type 0
SignedFor s repo claims token =
    (if repo.compat_mode
      then s.user_sign repo.did (record { alg = "ES256K"; kid = str_append repo.did "#atproto" })
          claims
        ≡ ok token
      else s.server_sign (record { alg = "ES256"; kid = str_append repo.did "#atproto_service" })
          claims
        ≡ some token)

signer_error_ok :
    (q : Result SignerError String) (token : String) → signer_error q ≡ ok token → q ≡ ok token
signer_error_ok (ok t) token e = ap ok (ok_injective t token e)
signer_error_ok (err x) token e = absurd (ground arith)

pub service_token-SignedFor :
    (s : Signing) (repo : RepoActor) (aud lxm token : String) (exp : ℤ)
    → service_token s repo aud lxm exp ≡ ok token
    → SignedFor s repo (service_claims s repo.did aud lxm exp) token
unfolding request_user_signed_service_auth_jwt sign_service_auth_jwt
service_token-SignedFor s repo aud lxm token exp e = elim (Bool-cases repo.compat_mode) [
  | inl c ↦ rw c (signer_error_ok _ token (rw c at e))
  | inr c ↦ rw c (require_ok _ server_error token (rw c at e))
]

-- The claims of the token, which the account's key or the server's signs, ask for at most an hour.
abbrev pub IsBounded : Signing → RepoActor → String → String → String → Type 0
IsBounded s repo aud lxm token =
    (claims : ServiceClaims) × SignedFor s repo claims token
    × (claims.iss ≡ repo.did)
    × (claims.aud ≡ aud)
    × (s.is_did aud ≡ true)
    × (claims.lxm ≡ (if str_eq lxm "" then none else some lxm))
    × (claims.lxm ≢ some "com.atproto.server.getServiceAuth")
    × (claims.exp ≤ℤ pos (if str_eq lxm "" then s.now + 60 else s.now + 3600))

later_once :
    (now : ℕ) (lxm : String) (exp : ℤ)
    → or_later exp (now + 60) ≤ℤ pos (max_exp now lxm)
    → or_later (or_later exp (now + 60)) (now + 300) ≤ℤ pos (max_exp now lxm)
later_once now lxm exp h = ground arith

not_recursive :
    (lxm : String)
    → str_eq lxm get_service_auth_lxm ≡ false
    → (if str_eq lxm "" then none else some lxm) ≢ some "com.atproto.server.getServiceAuth"
not_recursive lxm h e = ground (arith, eq_iff lxm get_service_auth_lxm)

-- An answered request passed every test.
pub granted :
    (s : Signing) (repo : RepoActor) (aud lxm token : String) (exp : ℤ)
    → get_service_auth s repo aud lxm exp ≡ ok token
    → (s.is_did aud ≡ true)
      × (str_eq lxm get_service_auth_lxm ≡ false)
      × (ltb_ℤ (pos (max_exp s.now lxm)) (or_later exp (s.now + 60)) ≡ false)
      × (service_token s repo aud lxm (or_later exp (s.now + 60)) ≡ ok token)
unfolding get_service_auth
granted s repo aud lxm token exp e = ground arith

-- A token that getServiceAuth answers with is signed by the account's key in compat mode and by
-- the server's otherwise, is from the account for the asked audience, which is a DID, and names
-- the asked method, or none where none was asked, and never that of getServiceAuth itself. It
-- expires within an hour, and within a minute where it names no method.
pub get_service_auth-IsBounded :
    (s : Signing) (repo : RepoActor) (aud lxm token : String) (exp : ℤ)
    → get_service_auth s repo aud lxm exp ≡ ok token
    → IsBounded s repo aud lxm token
get_service_auth-IsBounded s repo aud lxm token exp e =
    let (valid, other, near, signed) = granted s repo aud lxm token exp e in
    let asked = or_later exp (s.now + 60) in
    (
      service_claims s repo.did aud lxm asked,
      service_token-SignedFor s repo aud lxm token asked signed,
      refl,
      refl,
      valid,
      refl,
      not_recursive lxm other,
      later_once s.now lxm exp (le_of_test asked (pos (max_exp s.now lxm)) near),
    )
