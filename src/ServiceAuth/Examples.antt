-- ===== src/ServiceAuth/Examples.antt =====
-- Tests of server/handle_server_get_service_auth.go, server/service_auth.go and
-- server/handle_proxy.go, and the theorems applied there.
use vow.Prelude.{
  ℕ, ◌*◌, ◌≡◌, refl, subst, sym, ◌∙◌, ap, arith, String, str_eq, str_ne_of_test, true, false, ◌&&◌,
  Bool, Bool-cases, Option-cases, inl, inr, Result, Option, none, some, List, [], ◌∷◌, split_on, ℤ,
  pos, negsuc, eq_iff, if◌then◌else◌, ◌==◌, ok, err,
}
use vow.Dpop.Nonce.{second}
use vow.Dpop.Jose.{MapClaims, text, lookup}
use vow.Signer.Conn.{SignerError, not_connected}
use vow.Auth.{RepoActor, Request, Jwts}
use vow.Auth.Legacy.{Lookup, bearer}
use vow.ServiceAuth.{
  ServiceClaims, Signing, get_service_auth, request_user_signed_service_auth_jwt,
  sign_service_auth_jwt, proxy, get_atproto_proxy_endpoint, endpoint_of, too_far, recursive,
  server_error, ProxyRequest, DocService,
}
use vow.ServiceAuth.Bounds.{IsBounded, get_service_auth-IsBounded}
use vow.ServiceAuth.Accepted.{payload, IsSigning, IsAccepting, get_service_auth-bearer}
use vow.ServiceAuth.Validate.{
  Services, IsParsing, IsIssued, validate_service_auth, validate_service_auth-IsIssued,
}

abbrev alice : RepoActor
alice = record { did = "did:alice"; compat_mode = false }

abbrev is_like : String → Option String → Bool
is_like lxm none = false
is_like lxm (some s) = str_eq s lxm

abbrev is_at : ℕ → ℤ → Bool
is_at n (pos m) = m == n
is_at n (negsuc m) = false

abbrev asked : ServiceClaims
asked = record {
  iss = "did:alice";
  aud = "did:web:feed";
  jti = "jti";
  exp = pos 160;
  iat = 100;
  lxm = some "app.bsky.feed.getFeed";
}

abbrev is_asked : ServiceClaims → Bool
is_asked c =
    str_eq c.iss "did:alice"
    && str_eq c.aud "did:web:feed"
    && str_eq c.jti "jti"
    && is_at 160 c.exp
    && c.iat == 100
    && is_like "app.bsky.feed.getFeed" c.lxm

-- A server and an account that sign one payload.
abbrev signing : Signing
signing = record {
  now = 100;
  jti = "jti";
  is_did = λ aud. str_eq aud "did:web:feed";
  server_sign = λ h c. if is_asked c then some "tok" else none;
  user_sign = λ did h c. if is_asked c then ok "tok-k" else err not_connected;
}

issues : get_service_auth signing alice "did:web:feed" "app.bsky.feed.getFeed" (pos 0) ≡ ok "tok"
unfolding get_service_auth request_user_signed_service_auth_jwt sign_service_auth_jwt
issues = refl

refuses_later :
    get_service_auth signing alice "did:web:feed" "app.bsky.feed.getFeed" (pos 3701) ≡ err too_far
unfolding get_service_auth request_user_signed_service_auth_jwt sign_service_auth_jwt
refuses_later = refl

refuses_itself :
    get_service_auth signing alice "did:web:feed" "com.atproto.server.getServiceAuth" (pos 0)
    ≡ err recursive
unfolding get_service_auth request_user_signed_service_auth_jwt sign_service_auth_jwt
refuses_itself = refl

get_service_auth-IsBounded_example :
    IsBounded signing alice "did:web:feed" "app.bsky.feed.getFeed" "tok"
get_service_auth-IsBounded_example =
    get_service_auth-IsBounded signing alice "did:web:feed" "app.bsky.feed.getFeed" "tok" (pos 0)
      issues

-- The account's own tokens are signed with ES256K.
abbrev alg_in : String → String
alg_in token = if str_eq token "tok-k" then "ES256K" else "ES256"

abbrev jwts : Jwts
jwts = record {
  Key = ℕ;
  server_key = 7;
  user_key = λ did. some 9;
  is_ecdsa = λ alg. str_eq alg "ES256";
  parse_unverified = λ token. some (payload asked);
  parse = λ token keyfunc. elim (keyfunc (alg_in token)) [ none ↦ none | some k ↦ some true ];
}

abbrev Toy : String → String → ℕ → Type 0
Toy token alg key = alg ≡ alg_in token

like_eq : (lxm : String) (o : Option String) → is_like lxm o ≡ true → o ≡ some lxm
like_eq lxm none e = absurd (ground arith)
like_eq lxm (some s) e = ap some ((eq_iff s lxm).0 e)

payload_of_asked : (c : ServiceClaims) → is_asked c ≡ true → payload asked ≡ payload c
payload_of_asked c e = ground (
  arith,
  eq_iff c.iss "did:alice",
  eq_iff c.aud "did:web:feed",
  eq_iff c.jti "jti",
  like_eq "app.bsky.feed.getFeed" c.lxm,
)

jwts-IsSigning : IsSigning jwts signing Toy
jwts-IsSigning repo claims token signed = elim (Bool-cases repo.compat_mode) [
  | inl compat ↦
      let (given, named) = by_account (rw compat at signed) in
      (ap some (payload_of_asked claims given), λ key k. rw (compat, named) refl)
  | inr plain ↦
      let (given, named) = by_server (rw plain at signed) in
      (ap some (payload_of_asked claims given), λ key k. rw (plain, named) refl)
]
  where
    by_account :
        ◌≡◌ {A = Result SignerError String}
          (if is_asked claims then ok "tok-k" else err not_connected)
          (ok token)
        → (is_asked claims ≡ true) × (str_eq token "tok-k" ≡ true)
    by_account e = ground (arith, eq_iff token "tok-k")

    by_server :
        ◌≡◌ {A = Option String} (if is_asked claims then some "tok" else none) (some token)
        → (is_asked claims ≡ true) × (str_eq token "tok-k" ≡ false)
    by_server e =
        let same : "tok" ≡ token = ground arith in
        (ground arith, subst (λ t. str_eq t "tok-k" ≡ false) same refl)

jwts-IsAccepting : (clock : ℕ) → IsAccepting jwts Toy clock
jwts-IsAccepting clock token alg key claims keyfunc read signed chosen old near =
    let found : keyfunc (alg_in token) ≡ some key = ap keyfunc (sym signed) ∙ chosen in
    rw found refl

abbrev repo_of : Lookup
repo_of did = if str_eq did "did:alice" then some alice else none

abbrev request : Request
request = record {
  authorization = "Bearer tok";
  access_token = "";
  url = "/xrpc/app.bsky.feed.getFeed";
  path = "/xrpc/app.bsky.feed.getFeed";
  method = "GET";
  request_url = "https://pds.example/xrpc/app.bsky.feed.getFeed";
  dpop_headers = [];
}

-- An account that signs for itself.
abbrev own : RepoActor
own = record { did = "did:alice"; compat_mode = true }

abbrev own_repo_of : Lookup
own_repo_of did = if str_eq did "did:alice" then some own else none

issues_own :
    get_service_auth signing own "did:web:feed" "app.bsky.feed.getFeed" (pos 0) ≡ ok "tok-k"
unfolding get_service_auth request_user_signed_service_auth_jwt sign_service_auth_jwt
issues_own = refl

get_service_auth-bearer_example :
    bearer jwts own_repo_of [] (110 * second) request "tok-k"
    ≡ ok (record { repo = own; did = "did:alice"; token = "tok-k"; scopes = [] })
unfolding split_on
get_service_auth-bearer_example =
    get_service_auth-bearer jwts signing Toy own_repo_of [] (110 * second) request own 9
      "did:web:feed" "app.bsky.feed.getFeed" "tok-k" (pos 0) jwts-IsSigning (jwts-IsAccepting 110)
      refl refl refl refl (str_ne_of_test "app.bsky.feed.getFeed" "" refl) issues_own (omega arith)
      (omega arith)

abbrev bob_claims : MapClaims
bob_claims = ("iss", text "did:bob") ∷ ("lxm", text "com.atproto.server.createAccount") ∷ []

-- A document with the key 7 for #atproto alone, and a token that any key signs.
abbrev services : Services
services = record {
  Doc = ℕ;
  Key = ℕ;
  trim_space = λ s. s;
  fetch_doc = λ did. if str_eq did "did:bob" then some 7 else none;
  public_key = λ doc. some doc;
  get_public_key = λ doc id. none;
  parse = λ token keyfunc. (elim (keyfunc bob_claims) [ none ↦ none | some key ↦ some bob_claims ]);
}

abbrev Bob : String → MapClaims → ℕ → Type 0
Bob token claims key = claims ≡ bob_claims

services-IsParsing : IsParsing services Bob
services-IsParsing token keyfunc claims e = elim (Option-cases (keyfunc bob_claims)) [
  | inl missing ↦ absurd (ground arith)
  | inr (key, found) ↦ (key, ground arith, ground arith)
]

validates :
    validate_service_auth services repo_of "tok" "com.atproto.server.createAccount" ≡ ok "did:bob"
unfolding validate_service_auth lookup
validates = refl

validate_service_auth-IsIssued_example :
    IsIssued services Bob repo_of "tok" "com.atproto.server.createAccount" "did:bob"
validate_service_auth-IsIssued_example =
    validate_service_auth-IsIssued services Bob repo_of "tok" "com.atproto.server.createAccount"
      "did:bob" services-IsParsing validates

abbrev feed : ProxyRequest
feed = record {
  path = "/xrpc/app.bsky.feed.getTimeline";
  proxy = "did:web:view#bsky_appview";
  token_lxm = "";
  token_aud = "";
}

abbrev view : String → Option (List DocService)
view did = some (record { id = "#bsky_appview"; service_endpoint = "https://view.example" } ∷ [])

proxies_anonymous : proxy signing "" view none feed ≡ ok ("https://view.example", none)
unfolding proxy get_atproto_proxy_endpoint endpoint_of split_on
proxies_anonymous = refl

-- The server of this test signs one payload only, which is not that of the proxy.
refuses_other_payload : proxy signing "" view (some alice) feed ≡ err server_error
unfolding proxy get_atproto_proxy_endpoint endpoint_of split_on sign_service_auth_jwt
    request_user_signed_service_auth_jwt
refuses_other_payload = refl
