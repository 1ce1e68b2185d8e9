-- ===== src/Auth/Examples.antt =====
-- Tests of server/middleware.go and server/session.go, and the theorems applied there.
use vow.Prelude.{
  ℕ, ◌*◌, ◌≡◌, ◌≢◌, refl, arith, str_eq, str_ne_of_test, true, false, some_of, if◌then◌else◌, none,
  some, [], ◌∷◌, split_on, ok, bytes, utf8_char,
}
use vow.Dpop.Nonce
use vow.Dpop.Nonce.{second, new_nonce, check, rotate, compute, put_uint64}
use vow.Dpop.Jose.{Jose, elem, text, number, MapClaims, lookup, text_claim, number_claim}
use vow.Dpop.Examples.{toy, toy_jose, toy_jose_of, toy_parse, spell, claims, unbounded, manager}
use vow.Auth.{RepoActor, Tokens, Request, Context, Jwts, IsVerifying}
use vow.Auth.Legacy.{
  Lookup, issuer, verified, check_scope, has_refresh_token, account, bearer, scheme, legacy,
}
use vow.Auth.Authed.{dpop_session, oauth, authed, scan_token}
use vow.TokenEndpoint.{OauthToken, zero_token}
use vow.Dpop.Htu.{oauth_parse_htu, oauth_normalize_htu}
use vow.Dpop.Manager.{Manager, add_jti, check_nonce, next_nonce, check_present, check_proof}
use vow.Dpop.Proof.{
  extract_proof, verify_proof, check_times, check_target, check_ath, check_age, keyfunc, finish,
  token_hash,
}
use vow.Auth.Authed.Handed.{IsAuthenticated, authed-IsAuthenticated}
use vow.Auth.Sessions.{
  Issuer, create_session, refresh_session, delete_session, without_refresh, without_pair, has_token,
  has_refresh,
}
use vow.Auth.Sessions.Ended.{refresh_session-bearer}

abbrev alice : RepoActor
alice = record { did = "did:alice"; compat_mode = false }

abbrev repo_of : Lookup
repo_of did = if str_eq did "did:alice" then some alice else none

abbrev access_claims : MapClaims
access_claims =
    ("scope", text "com.atproto.access") ∷ ("sub", text "did:alice") ∷ ("exp", number 200) ∷ []

-- Every token is signed by the server with ES256.
abbrev jwts : Jwts
jwts = record {
  Key = ℕ;
  server_key = 7;
  user_key = λ did. none;
  is_ecdsa = λ alg. str_eq alg "ES256";
  parse_unverified = λ token. some access_claims;
  parse = λ token keyfunc. elim (keyfunc "ES256") [ none ↦ none | some k ↦ some true ];
}

jwts-IsVerifying : IsVerifying jwts (λ token alg key. alg ≡ "ES256")
jwts-IsVerifying token keyfunc e =
    let (k, chosen) = some_of (keyfunc "ES256") (λ n. ground arith) in ("ES256", k, chosen, refl)

abbrev request : Request
request = record {
  authorization = "Bearer tok";
  access_token = "";
  url = "/xrpc/com.atproto.server.getSession";
  path = "/xrpc/com.atproto.server.getSession";
  method = "GET";
  request_url = "https://pds.example/xrpc/com.atproto.server.getSession";
  dpop_headers = [];
}

abbrev found : Context
found = record { repo = alice; did = "did:alice"; token = "tok"; scopes = [] }

handles :
    authed toy toy_jose unbounded repo_of [] (100 * second) jwts [] request manager
    ≡ (ok (some found), manager)
unfolding issuer verified check_scope has_refresh_token account bearer scheme legacy dpop_session
    oauth authed split_on lookup text_claim number_claim
handles = refl

-- A token bound to the key of the DPoP proof that comes with the request.
abbrev dpop_request : Request
dpop_request = record request {
  authorization = "DPoP !";
  url = "/a";
  path = "/a";
  request_url = "https://pds.example/a";
  dpop_headers = "proof" ∷ [];
}

abbrev bound : OauthToken
bound = record zero_token {
  parameters = record zero_token.parameters { dpop_jkt = some "aa;"; scope = "atproto" };
  expires_at = 200 * second;
  sub = "did:alice";
  token = "!";
}

abbrev dpop_found : Context
dpop_found = record { repo = alice; did = "did:alice"; token = "!"; scopes = "atproto" ∷ [] }

-- The proof's `ath` is the hash of that token.
abbrev jose : Jose
jose = toy_jose_of (("ath", text (spell (bytes "!"))) ∷ claims)

abbrev handled : Manager unbounded
handled =
    (authed toy jose unbounded repo_of (bound ∷ []) (100 * second) jwts [] dpop_request manager).1

handles_dpop :
    authed toy jose unbounded repo_of (bound ∷ []) (100 * second) jwts [] dpop_request manager
    ≡ (ok (some dpop_found), handled)
unfolding scheme legacy dpop_session oauth authed split_on scan_token new_nonce check_proof
    check_present verify_proof check_times check_target check_ath finish check rotate compute
    put_uint64 spell toy_parse elem lookup text_claim number_claim check_age keyfunc extract_proof
    oauth_parse_htu oauth_normalize_htu token_hash bytes utf8_char add_jti check_nonce next_nonce
    Nonce.next_nonce
handles_dpop = refl

authed-IsAuthenticated_example :
    IsAuthenticated toy jose unbounded jwts
      (λ token alg key. alg ≡ "ES256")
      repo_of
      (bound ∷ [])
      []
      (100 * second)
      dpop_request
      manager
      (some dpop_found)
authed-IsAuthenticated_example =
    authed-IsAuthenticated toy jose unbounded jwts (λ token alg key. alg ≡ "ES256") repo_of
      (bound ∷ []) [] (100 * second) jwts-IsVerifying dpop_request manager handled (some dpop_found)
      handles_dpop

abbrev socket : Request
socket = record request { authorization = ""; access_token = "tok" }

abbrev signs : Issuer
signs = record {
  did = "did:web:pds";
  now = 100 * second;
  jti = "j2";
  sign_internal_jwt = λ c. some (if str_eq c.scope "com.atproto.access" then "acc-2" else "ref-2");
}

abbrev rows : Tokens
rows = record {
  tokens =
      record { token = "acc-1"; did = "did:alice"; refresh_token = "ref-1"; expires_at = 0 } ∷ [];
  refresh_tokens = record { token = "ref-1"; did = "did:alice"; expires_at = 0 } ∷ [];
}

abbrev refreshed : Tokens
refreshed = (refresh_session signs "did:alice" "ref-1" rows).1

refreshes :
    refresh_session signs "did:alice" "ref-1" rows
    ≡ (ok (record { access_token = "acc-2"; refresh_token = "ref-2" }), refreshed)
unfolding refresh_session create_session without_refresh without_pair has_token has_refresh
refreshes = refl

abbrev refresh_request : Request
refresh_request = record request {
  authorization = "Bearer ref-1";
  path = "/xrpc/com.atproto.server.refreshSession";
}

refresh_session-bearer_example :
    bearer jwts repo_of refreshed.refresh_tokens (100 * second) refresh_request "ref-1" ≢ ok found
refresh_session-bearer_example =
    refresh_session-bearer signs "did:alice" "ref-1"
      (record { access_token = "acc-2"; refresh_token = "ref-2" }) rows refreshed jwts repo_of
      (100 * second) refresh_request found refreshes (str_ne_of_test _ _ refl) refl

abbrev deleted : Tokens
deleted = (delete_session "acc-1" rows).1

deletes : delete_session "acc-1" rows ≡ (ok tt, deleted)
unfolding delete_session
deletes = refl

-- The session is deleted, and its token still has its account.
test_deleted :
    bearer jwts repo_of deleted.refresh_tokens (100 * second) request "acc-1"
    ≡ ok (record found { token = "acc-1" })
unfolding issuer verified check_scope has_refresh_token account bearer lookup text_claim
    number_claim delete_session
test_deleted = refl
