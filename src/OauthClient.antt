-- ===== src/OauthClient.antt =====
-- oauth/client: the metadata of OAuth clients (metadata.go, client.go, manager.go). What net/url,
-- encoding/json and the JWK library answer stands in `Libraries`.
pub mod Redirects
pub mod Validate
pub mod Manager
pub mod Examples
use vow.Prelude.{
  String, str_eq, Bool, true, false, not, ◌||◌, Option, none, some, List, [], ◌∷◌, ◌++◌, Bytes,
  Result, ok, err, split_on,
}
use vow.Dpop.Htu.{Userinfo}
use vow.Dpop.Jose.{MapClaims}

-- The fields that the code reads. A key of `jwks` that is no JSON object is none.
pub record Metadata : Type 0 where
  pub client_id : String
  pub client_name : String
  pub client_uri : String
  pub redirect_uris : List String
  pub grant_types : List String
  pub response_types : List String
  pub application_type : String
  pub dpop_bound_access_tokens : Bool
  pub jwks_uri : Option String
  pub jwks : Option (List (Option MapClaims))
  pub scope : String
  pub token_endpoint_auth_method : String
  pub token_endpoint_auth_signing_alg : String

-- url.URL: its fields and the answers of its methods. `bare` is its text without path escapes and
-- query.
pub record Uri : Type 0 where
  pub scheme : String
  pub user : Option Userinfo
  pub hostname : String
  pub port : String
  pub text_ : String
  pub bare : String

pub data MetadataError : Type 0 where
  bad_json two_key_sources unsupported_parameter bad_uri local_client_uri : MetadataError
  no_scope no_atproto_scope duplicate_scope unsupported_scope : MetadataError
  duplicate_grant implicit_grant unsupported_grant : MetadataError
  client_id_differs subject_not_public : MetadataError
  unexpected_alg no_keys empty_jwks no_alg unsupported_method : MetadataError
  not_dpop_bound no_code_response no_code_grant no_redirect native_with_method : MetadataError
  not_https localhost credentials loopback_not_native loopback_not_http http_scheme : MetadataError
  local_redirect private_not_native private_local private_form bad_scheme : MetadataError
  no_usable_key bad_key not_fetched : MetadataError

pub record Libraries : Type 1 where
  pub unmarshal_map : Bytes → Option MapClaims
  pub unmarshal_metadata : Bytes → Option Metadata
  pub url_parse : String → Option Uri
  pub to_lower : String → String
  pub Key : Type 0
  pub parse_key : MapClaims → Option Key
  -- HTTP GET of a client's metadata, and of its keys
  pub get_metadata : String → Option Bytes
  pub get_jwks : String → Option (List (Option MapClaims))

abbrev pub last_or : String → List String → String
last_or s [] = s
last_or s (t ∷ ts) = last_or t ts

abbrev pub is_reserved : String → Bool
is_reserved tld =
    str_eq tld "test"
    || (str_eq tld "local"
        || (str_eq tld "localhost" || (str_eq tld "invalid" || str_eq tld "example")))

abbrev pub local_parts : Libraries → List String → Bool
local_parts lib [] = true
local_parts lib (s ∷ []) = true
local_parts lib (s ∷ t ∷ ts) = is_reserved (lib.to_lower (last_or t ts))

unfoldable pub is_local_hostname : Libraries → String → Bool
is_local_hostname lib hostname = local_parts lib (split_on "." hostname)
