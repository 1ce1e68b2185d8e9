-- ===== src/TokenEndpoint/Examples.antt =====
-- Tests of server/handle_oauth_token.go at concrete requests, and the theorems applied there.
use vow.Prelude.{
  ℕ, ◌≡◌, ◌≢◌, ◌≤◌, refl, ap, String, str_ne_of_test, true, Option, none, some, [], ◌∷◌, bytes,
  utf8_char, length, ok, err,
}
use vow.TokenEndpoint.{
  ParRequest, OauthAuthorizationRequest, OauthToken, Db, OauthTokenRequest, OauthTokenResponse,
  Client, Env, redirect_uri_mismatch, client_mismatch, scan_code, without_code, scan_refresh,
  get_session_age_from_token,
}
use vow.TokenEndpoint.Exchange.{check_method, check_verifier, grant_code, authorization_code}
use vow.TokenEndpoint.Exchange.Once.{authorization_code-once}
use vow.TokenEndpoint.Exchange.Granted.{IsGranted, authorization_code-IsGranted}
use vow.TokenEndpoint.Exchange.Verifier.{check_verifier-S256}
use vow.TokenEndpoint.Rotation.{
  check_jkt, update_rows, rotate_token, refresh_grant, IsRefreshed, refresh_grant-IsRefreshed,
  refresh_grant-once,
}

abbrev env : Env
env = record {
  did = "did:web:pds";
  now = 1000;
  token_id = "tok-1";
  new_refresh_token = "ref-2";
  sign_internal_jwt = λ c. some "jwt";
  repo_actor_by_did = λ did. some did;
  raw_url_decode = λ s. some (7 ∷ []);
  sha256 = λ b. 7 ∷ [];
}

abbrev verifier : String
verifier = "abcdefghijklmnopqrstuvwxyzabcdefghijklmnopqrstuvwxyz"

abbrev parameters : ParRequest
parameters = record {
  redirect_uri = "https://app/cb";
  code_challenge = some "Bw";
  code_challenge_method = "S256";
  scope = "atproto";
  dpop_jkt = some "jkt";
}

abbrev row : OauthAuthorizationRequest
row = record {
  client_id = "app";
  parameters = parameters;
  sub = some "did:plc:a";
  code = some "cod-1";
  ip = "";
}

abbrev stored : String → String → ℕ → OauthToken
stored token refresh created = record {
  client_id = "app";
  client_auth_method = "none";
  parameters = parameters;
  created_at = created;
  updated_at = 1000;
  expires_at = 3600000001000;
  sub = "did:plc:a";
  code = "cod-1";
  token = token;
  refresh_token = refresh;
  ip = "";
}

abbrev db : Db
db = record { oauth_authorization_requests = row ∷ []; oauth_tokens = [] }

abbrev app : Client
app = record {
  client_id = "app";
  grant_types = [];
  dpop_bound_access_tokens = true;
  auth_method = "none";
  proof_jkt = some "jkt";
}

abbrev thief : Client
thief = record app { client_id = "thief"; proof_jkt = some "other" }

abbrev request : OauthTokenRequest
request = record {
  grant_type = "authorization_code";
  code = some "cod-1";
  code_verifier = some verifier;
  redirect_uri = some "https://app/cb";
  refresh_token = none;
}

abbrev response : OauthTokenResponse
response = record {
  access_token = "jwt";
  token_type = "DPoP";
  refresh_token = "ref-2";
  scope = "atproto";
  sub = "did:plc:a";
}

abbrev exchanged : Db
exchanged = record {
  oauth_authorization_requests = [];
  oauth_tokens = stored "jwt" "ref-2" 1000 ∷ [];
}

exchanges : authorization_code env app request db ≡ (ok response, exchanged)
unfolding authorization_code grant_code without_code scan_code check_verifier check_method bytes
    utf8_char
exchanges = refl

authorization_code-IsGranted_example :
    (code : String) × (request.code ≡ some code)
    × IsGranted env app request (scan_code code (row ∷ [])) db exchanged response
authorization_code-IsGranted_example =
    authorization_code-IsGranted env app request db exchanged response exchanges

text_or_empty : Option String → String
text_or_empty none = ""
text_or_empty (some s) = s

text_ne : request.redirect_uri ≢ some ""
unfolding text_or_empty
text_ne e = str_ne_of_test "https://app/cb" "" refl (ap text_or_empty e)

authorization_code-once_example :
    authorization_code env app request (authorization_code env app request db).1
    ≡ (err redirect_uri_mismatch, (authorization_code env app request db).1)
authorization_code-once_example =
    authorization_code-once env env app app request request db "cod-1" refl refl text_ne

passes : check_verifier env parameters (some verifier) ≡ none
unfolding check_verifier check_method bytes utf8_char
passes = refl

check_verifier-S256_example :
    (v : String) × (request.code_verifier ≡ some v)
    × (43 ≤ length (bytes v))
    × (parameters.code_challenge_method ≡ "S256")
    × (env.raw_url_decode "Bw" ≡ some (env.sha256 (bytes v)))
check_verifier-S256_example = check_verifier-S256 env parameters "Bw" (some verifier) refl passes

abbrev renewal : OauthTokenRequest
renewal = record {
  grant_type = "refresh_token";
  code = none;
  code_verifier = none;
  redirect_uri = none;
  refresh_token = some "ref-1";
}

abbrev before : Db
before = record { oauth_authorization_requests = []; oauth_tokens = stored "old" "ref-1" 500 ∷ [] }

abbrev after : Db
after = record { oauth_authorization_requests = []; oauth_tokens = stored "jwt" "ref-2" 500 ∷ [] }

refreshes : refresh_grant env app renewal before ≡ (ok response, after)
unfolding refresh_grant rotate_token scan_refresh update_rows check_jkt get_session_age_from_token
refreshes = refl

refresh_grant-IsRefreshed_example :
    (old : String) × (renewal.refresh_token ≡ some old)
    × IsRefreshed env app old (scan_refresh old before.oauth_tokens) before after response
refresh_grant-IsRefreshed_example =
    refresh_grant-IsRefreshed env app renewal before after response refreshes

refresh_grant-once_example : refresh_grant env app renewal after ≡ (err client_mismatch, after)
refresh_grant-once_example =
    refresh_grant-once env env app app renewal renewal "ref-1" before after response refl refl
      (str_ne_of_test "ref-2" "ref-1" refl) (str_ne_of_test "app" "" refl) refreshes
