-- ===== src/ServiceAuth/Accepted.antt =====
-- The tokens of server/handle_server_get_service_auth.go at the server's own middleware
-- (server/middleware.go): encoding/json and the signature are golang-jwt's to read again.
use vow.Prelude.{
  ℕ, suc, ◌+◌, ◌/◌, ◌≤◌, ◌≡◌, ◌≢◌, refl, ap, sym, subst, arith, String, str_eq, str_eq_ne, true,
  false, Option, none, some, List, [], ◌∷◌, ℤ, pos, negsuc, ◌≤ℤ◌, Bool-cases, inl, inr,
  if◌then◌else◌, ok, err,
}
use vow.Dpop.Nonce.{second}
use vow.Dpop.Jose.{MapClaims, Json, text, number, other, lookup, text_claim, number_claim}
use vow.Auth.{RepoActor, RefreshToken, Request, Jwts, bad_request}
use vow.Auth.Legacy.{
  Lookup, issuer, verified, check_scope, account, bearer, is_refresh, last_segment, server_keyfunc,
}
use vow.ServiceAuth.{ServiceClaims, Signing, service_claims, or_later, get_service_auth}
use vow.ServiceAuth.Bounds.{SignedFor, service_token-SignedFor, granted}

abbrev seconds : ℤ → Json
seconds (pos n) = number n
seconds (negsuc n) = other

abbrev method : Option String → MapClaims
method none = []
method (some lxm) = ("lxm", text lxm) ∷ []

-- The payload of a token.
abbrev pub payload : ServiceClaims → MapClaims
payload c =
    ("iss", text c.iss)
    ∷ ("aud", text c.aud)
    ∷ ("jti", text c.jti)
    ∷ ("exp", seconds c.exp)
    ∷ ("iat", number c.iat)
    ∷ method c.lxm

abbrev alg_of : RepoActor → String
alg_of repo = if repo.compat_mode then "ES256K" else "ES256"

abbrev IsKeyOf : (lib : Jwts) → RepoActor → lib.Key → Type 0
IsKeyOf lib repo key =
    if repo.compat_mode then lib.user_key repo.did ≡ some key else lib.server_key ≡ key

-- A token that was signed has the claims for its payload, and a signature under the key of the
-- account's mode.
abbrev pub IsSigning : (lib : Jwts) → Signing → (String → String → lib.Key → Type 0) → Type 0
IsSigning lib s Signed =
    (repo : RepoActor) (claims : ServiceClaims) (token : String)
    → SignedFor s repo claims token
    → (lib.parse_unverified token ≡ some (payload claims))
      × ((key : lib.Key) → IsKeyOf lib repo key → Signed token (alg_of repo) key)

-- golang-jwt finds a token valid, under the key that its signature is by, from the time that its
-- claims were issued and strictly before they expire.
abbrev pub IsAccepting : (lib : Jwts) → (String → String → lib.Key → Type 0) → ℕ → Type 0
IsAccepting lib Signed clock =
    (token alg : String) (key : lib.Key) (claims : ServiceClaims)
    (keyfunc : String → Option lib.Key)
    → lib.parse_unverified token ≡ some (payload claims)
    → Signed token alg key
    → keyfunc alg ≡ some key
    → claims.iat ≤ clock
    → pos (suc clock) ≤ℤ claims.exp
    → lib.parse token keyfunc ≡ some true

module _ (lib : Jwts) (repo_of : Lookup) (refresh : List RefreshToken) (now : ℕ) where
  -- The token of an account for a method, read again.
  bearer_of_payload :
      (r : Request) (token lxm : String) (repo : RepoActor) (claims : ServiceClaims)
      → lib.parse_unverified token ≡ some (payload claims)
      → claims.lxm ≡ some lxm
      → claims.iss ≡ repo.did
      → repo_of repo.did ≡ some repo
      → verified lib (some (repo.did, repo)) token ≡ ok true
      → is_refresh r ≡ false
      → pos (now / second) ≤ℤ claims.exp
      → bearer lib repo_of refresh now r token ≡ (
          if str_eq lxm (last_segment r.url)
          then ok (record { repo = repo; did = repo.did; token = token; scopes = [] })
          else err bad_request)
  unfolding bearer issuer check_scope account lookup text_claim number_claim
  bearer_of_payload r token lxm repo claims e m i known v plain near = rw (e, m, i) (ground arith)

verified_of_decoded :
    (lib : Jwts) (s : Signing) (Signed : String → String → lib.Key → Type 0) (clock : ℕ)
    (repo : RepoActor) (key : lib.Key) (claims : ServiceClaims) (token : String)
    → IsSigning lib s Signed
    → IsAccepting lib Signed clock
    → IsKeyOf lib repo key
    → lib.is_ecdsa "ES256" ≡ true
    → SignedFor s repo claims token
    → claims.iat ≤ clock
    → pos (suc clock) ≤ℤ claims.exp
    → verified lib (some (repo.did, repo)) token ≡ ok true
unfolding verified
verified_of_decoded lib s Signed clock repo key claims token signs accepts k ecdsa minted old near =
    let (read, signed) = signs repo claims token minted in
    elim (Bool-cases repo.compat_mode) [
      | inl compat ↦
          let found : lib.user_key repo.did ≡ some key = rw compat at k in
          let valid =
            accepts token (alg_of repo) key claims (λ alg. some key) read (signed key k) refl old
              near in
          rw (compat, found, valid) refl
      | inr plain ↦
          let same : lib.server_key ≡ key = rw plain at k in
          let valid =
            accepts token (alg_of repo) key claims (server_keyfunc lib) read (signed key k)
              (rw (plain, ecdsa) (ap some same)) old near in
          rw (plain, valid) refl
    ]

later_fixed :
    (now : ℕ) (exp : ℤ) → or_later (or_later exp (now + 60)) (now + 300) ≡ or_later exp (now + 60)
later_fixed now exp = ground arith

before : (clock : ℕ) (exp : ℤ) → pos (suc clock) ≤ℤ exp → pos clock ≤ℤ exp
before clock exp h = ground arith

-- A token that getServiceAuth issued for a method, shown to the server's middleware as a bearer
-- token no earlier than it was issued and strictly before it expires: for a URL whose last segment is
-- that method it is the account's, and for any other it is refused. The account is in the database
-- under its DID, the request is not one for refreshSession, what the account's key signs, or the
-- server's where it is not in compat mode, has the claims for its payload, and golang-jwt accepts
-- such a signature while the claims hold.
pub get_service_auth-bearer :
    (lib : Jwts) (s : Signing) (Signed : String → String → lib.Key → Type 0) (repo_of : Lookup)
    (refresh : List RefreshToken) (now : ℕ) (r : Request) (repo : RepoActor) (key : lib.Key)
    (aud lxm token : String) (exp : ℤ)
    → IsSigning lib s Signed
    → IsAccepting lib Signed (now / second)
    → lib.is_ecdsa "ES256" ≡ true
    → IsKeyOf lib repo key
    → repo_of repo.did ≡ some repo
    → is_refresh r ≡ false
    → lxm ≢ ""
    → get_service_auth s repo aud lxm exp ≡ ok token
    → s.now ≤ now / second
    → pos (suc (now / second)) ≤ℤ or_later exp (s.now + 60)
    → bearer lib repo_of refresh now r token ≡ (
        if str_eq lxm (last_segment r.url)
        then ok (record { repo = repo; did = repo.did; token = token; scopes = [] })
        else err bad_request)
get_service_auth-bearer lib s Signed repo_of refresh now r repo key aud lxm token exp signs accepts
      ecdsa k known plain named e old near =
    let (valid, foreign, bounded, minted) = granted s repo aud lxm token exp e in
    let asked = or_later exp (s.now + 60) in
    let claims = service_claims s repo.did aud lxm asked in
    let signed = service_token-SignedFor s repo aud lxm token asked minted in
    let fresh : pos (suc (now / second)) ≤ℤ claims.exp =
      subst (λ x. pos (suc (now / second)) ≤ℤ x) (sym (later_fixed s.now exp)) near in
    bearer_of_payload lib repo_of refresh now r token lxm repo claims
      (signs repo claims token signed).0 (rw (str_eq_ne lxm "" named) refl) refl known
      (verified_of_decoded lib s Signed (now / second) repo key claims token signs accepts k ecdsa
        signed old fresh)
      plain (before (now / second) claims.exp fresh)
