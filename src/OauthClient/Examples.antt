-- ===== src/OauthClient/Examples.antt =====
-- Tests of oauth/client/manager.go at concrete clients, and the theorems applied there.
use vow.Prelude.{
  ℕ, ◌≡◌, ◌≢◌, refl, arith, String, str_eq, true, Option, none, some, [], ◌∷◌, if◌then◌else◌,
  split_on, ok, err,
}
use vow.Dpop.Jose.{text, lookup, elem}
use vow.OauthClient.{Metadata, Uri, Libraries, is_local_hostname, http_scheme}
use vow.OauthClient.Redirects.{reverse_domain, check_private, check_host, check_redirect}
use vow.OauthClient.Validate.{
  is_scope_supported, check_fields, check_scopes, check_grant_types, check_auth_method, with_uri,
  check_implicit, check_redirects, check_types, check_metadata, validate_and_parse_metadata,
}
use vow.OauthClient.Validate.Sound.{IsClient, validate_and_parse_metadata-IsClient}
use vow.OauthClient.Manager.{
  MetadataCache, remember, Client, find_key, select_key, get_client_jwks, client_key,
  get_client_metadata, get_client, IsValidated, get_client-IsClient,
}

abbrev pub id : String
id = "https://app.example.com/client.json"

-- A web client with a key of its own.
abbrev pub app : Metadata
app = record {
  client_id = id;
  client_name = "App";
  client_uri = "https://app.example.com";
  redirect_uris = "https://app.example.com/callback" ∷ [];
  grant_types = "authorization_code" ∷ "refresh_token" ∷ [];
  response_types = "code" ∷ [];
  application_type = "web";
  dpop_bound_access_tokens = true;
  jwks_uri = none;
  jwks = some (some (("kid", text "k1") ∷ ("use", text "sig") ∷ []) ∷ []);
  scope = "atproto transition:generic";
  token_endpoint_auth_method = "private_key_jwt";
  token_endpoint_auth_signing_alg = "ES256";
}

abbrev pub at_host : String → String → Uri
at_host scheme host = record {
  scheme = scheme;
  user = none;
  hostname = host;
  port = "";
  text_ = "";
  bare = "";
}

abbrev pub parse : String → Option Uri
parse s =
    if str_eq s "http://[::1]/cb"
    then some (at_host "http" "::1")
    else if str_eq s "http://127.0.0.1/cb"
    then some (at_host "http" "127.0.0.1")
    else some (at_host "https" "app.example.com")

abbrev pub lib : Libraries
lib = record {
  unmarshal_map = λ b. some (("client_id", text id) ∷ []);
  unmarshal_metadata = λ b. some app;
  url_parse = parse;
  to_lower = λ s. s;
  Key = ℕ;
  parse_key = λ m. some 5;
  get_metadata = λ uri. some (1 ∷ []);
  get_jwks = λ uri. none;
}

accepts : validate_and_parse_metadata lib id (1 ∷ []) ≡ ok app
unfolding is_local_hostname split_on lookup elem reverse_domain check_private check_host
    check_redirect is_scope_supported check_fields check_scopes check_grant_types check_auth_method
    with_uri check_implicit check_redirects check_types check_metadata validate_and_parse_metadata
accepts = refl

validate_and_parse_metadata-IsClient_example : IsClient lib id app
validate_and_parse_metadata-IsClient_example =
    validate_and_parse_metadata-IsClient lib id (1 ∷ []) app accepts

abbrev pub no_metadata : MetadataCache
no_metadata client_id = none

abbrev pub no_keys : String → Option ℕ
no_keys client_id = none

abbrev client : Client lib
client = record { metadata = app; jwks = some 5 }

hands_out : get_client lib no_keys id no_metadata ≡ (ok client, remember id app no_metadata)
unfolding is_local_hostname split_on lookup elem reverse_domain check_private check_host
    check_redirect is_scope_supported check_fields check_scopes check_grant_types check_auth_method
    with_uri check_implicit check_redirects check_types check_metadata validate_and_parse_metadata
    find_key select_key get_client_jwks client_key get_client_metadata get_client
hands_out = refl

get_client-IsClient_example :
    IsClient lib id app
    × (app.token_endpoint_auth_method ≡ "private_key_jwt" → client.jwks ≢ none)
    × IsValidated lib (remember id app no_metadata)
get_client-IsClient_example =
    get_client-IsClient lib no_keys id no_metadata (remember id app no_metadata) client
      (λ other m e. absurd (ground arith)) hands_out

-- The host of http://[::1]/cb is ::1, without the brackets that the code compares it with.
test_loopback_v6 :
    (check_redirect lib (record app { application_type = "native" }) "http://[::1]/cb"
      ≡ err http_scheme)
    × (check_redirect lib (record app { application_type = "native" }) "http://127.0.0.1/cb"
        ≡ ok tt)
unfolding check_redirect check_host
test_loopback_v6 = (refl, refl)
