-- ===== src/OauthClient/Validate.antt =====
-- oauth/client/manager.go: validateAndParseMetadata and isScopeSupported.
pub mod Sound
use package.text.Mathlib.Text.{starts_with}
use vow.Prelude.{
  String, str_eq, Bool, true, false, not, ◌&&◌, ◌||◌, Option, none, some, List, [], ◌∷◌,
  if◌then◌else◌, split_on, Bytes, Result, ok, err,
}
use vow.Prelude.Results.{◌>>=◌, ◌>>◌, refuse_if, require}
use vow.Dpop.Jose.{MapClaims, Json, text, lookup, elem}
use vow.OauthClient.{
  Metadata, Uri, MetadataError, Libraries, is_local_hostname, bad_json, two_key_sources,
  unsupported_parameter, bad_uri, local_client_uri, no_scope, no_atproto_scope, duplicate_scope,
  unsupported_scope, duplicate_grant, implicit_grant, unsupported_grant, client_id_differs,
  subject_not_public, unexpected_alg, no_keys, empty_jwks, no_alg, unsupported_method,
  not_dpop_bound, no_code_response, no_code_grant, no_redirect, native_with_method, not_https,
  localhost,
}
use vow.OauthClient.Redirects.{check_redirect}

abbrev supported_scopes : List String
supported_scopes = "atproto" ∷ []

abbrev supported_scope_prefixes : List String
supported_scope_prefixes =
    "blob:" ∷ "account:" ∷ "identity:" ∷ "repo:" ∷ "rpc:" ∷ "include:" ∷ "transition:" ∷ []

abbrev has_prefix : String → List String → Bool
has_prefix s [] = false
has_prefix s (p ∷ ps) = if starts_with s p then true else has_prefix s ps

unfoldable pub is_scope_supported : String → Bool
unfolding elem
is_scope_supported scope =
    if elem scope supported_scopes then true else has_prefix scope supported_scope_prefixes

abbrev is_text : Option Json → Bool
is_text (some (text s)) = true
is_text _ = false

abbrev unsupported_parameters : List String
unsupported_parameters =
    "default_max_age" ∷ "userinfo_signed_response_alg" ∷ "id_token_signed_response_alg"
    ∷ "userinfo_encrypted_response_alg" ∷ "authorization_encrypted_response_enc"
    ∷ "authorization_encrypted_response_alg" ∷ "tls_client_certificate_bound_access_tokens" ∷ []

abbrev has_key : String → MapClaims → Bool
has_key key fields = elim (lookup key fields) [ none ↦ false | some v ↦ true ]

abbrev has_any : List String → MapClaims → Bool
has_any [] fields = false
has_any (k ∷ ks) fields = if has_key k fields then true else has_any ks fields

unfoldable pub check_fields : MapClaims → Result MetadataError Unit
unfolding lookup
check_fields fields = do
  refuse_if (is_text (lookup "jwks" fields) && is_text (lookup "jwks_uri" fields)) two_key_sources
  refuse_if (has_any unsupported_parameters fields) unsupported_parameter

-- A subject type other than "public"; one that is no text is passed over.
abbrev pub subject_differs : MapClaims → Bool
subject_differs fields = elim (lookup "subject_type" fields) [
  | some (text s) ↦ not (str_eq s "public")
  | _ ↦ false
]

abbrev pub with_name : Metadata → Metadata
with_name m = if str_eq m.client_name "" then record m { client_name = m.client_uri } else m

unfoldable pub check_scopes : List String → List String → Result MetadataError Unit
unfolding elem is_scope_supported
check_scopes seen [] = ok tt
check_scopes seen (scope ∷ scopes) = do
  refuse_if (elem scope seen) duplicate_scope
  refuse_if (not (is_scope_supported scope)) unsupported_scope
  check_scopes (scope ∷ seen) scopes

unfoldable pub check_grant_types : List String → List String → Result MetadataError Unit
unfolding elem
check_grant_types seen [] = ok tt
check_grant_types seen (gt ∷ gts) = do
  refuse_if (elem gt seen) duplicate_grant
  refuse_if (str_eq gt "implicit") implicit_grant
  refuse_if (not (str_eq gt "authorization_code" || str_eq gt "refresh_token")) unsupported_grant
  check_grant_types (gt ∷ seen) gts

abbrev pub is_empty : {A : Type 0} → List A → Bool
is_empty [] = true
is_empty (x ∷ xs) = false

abbrev pub is_none : {A : Type 0} → Option A → Bool
is_none none = true
is_none (some a) = false

abbrev pub is_empty_some : {A : Type 0} → Option (List A) → Bool
is_empty_some none = false
is_empty_some (some xs) = is_empty xs

unfoldable pub check_auth_method : Metadata → Result MetadataError Unit
check_auth_method m =
    if str_eq m.token_endpoint_auth_method "none"
    then refuse_if (not (str_eq m.token_endpoint_auth_signing_alg "")) unexpected_alg
    else if str_eq m.token_endpoint_auth_method "private_key_jwt"
    then (do
      refuse_if (is_none m.jwks && is_none m.jwks_uri) no_keys
      refuse_if (is_empty_some m.jwks) empty_jwks
      refuse_if (str_eq m.token_endpoint_auth_signing_alg "") no_alg)
    else err unsupported_method

module _ (lib : Libraries) where
  -- The client's page, which is by default that of its identifier.
  unfoldable pub with_uri : Metadata → Result MetadataError Metadata
  with_uri m = elim (str_eq m.client_uri "") [
    | false ↦ ok m
    | true ↦ (do
      u ← require (lib.url_parse m.client_id) bad_uri
      ok (record m { client_uri = u.bare }))
  ]

  abbrev pub check_web : List String → Result MetadataError Unit
  check_web [] = ok tt
  check_web (uri ∷ uris) = do
    u ← require (lib.url_parse uri) bad_uri
    refuse_if (not (str_eq u.scheme "https")) not_https
    refuse_if (str_eq u.hostname "localhost") localhost
    check_web uris

  -- Only clients with the implicit grant, which was refused before.
  unfoldable pub check_implicit : Metadata → Result MetadataError Unit
  unfolding elem
  check_implicit m =
      if str_eq m.application_type "web" && elem "implicit" m.grant_types
      then check_web m.redirect_uris
      else ok tt

  unfoldable pub check_redirects : Metadata → List String → Result MetadataError Unit
  unfolding check_redirect
  check_redirects m [] = ok tt
  check_redirects m (uri ∷ uris) = do check_redirect lib m uri; check_redirects m uris

  unfoldable pub check_types : Metadata → Result MetadataError Unit
  unfolding elem check_implicit check_redirects
  check_types m = do
    refuse_if (not m.dpop_bound_access_tokens) not_dpop_bound
    refuse_if (not (elem "code" m.response_types)) no_code_response
    refuse_if (not (elem "authorization_code" m.grant_types)) no_code_grant
    refuse_if (is_empty m.redirect_uris) no_redirect
    refuse_if
        (str_eq m.application_type "native" && not (str_eq m.token_endpoint_auth_method "none"))
        native_with_method
    check_implicit m
    check_redirects m m.redirect_uris

  -- The checks of the metadata with its defaults, behind that of the client's page.
  unfoldable pub check_metadata : String → MapClaims → Metadata → Result MetadataError Unit
  unfolding check_scopes check_grant_types check_auth_method check_types
  check_metadata client_id fields m = do
    refuse_if (str_eq m.scope "") no_scope
    refuse_if (not (elem "atproto" (split_on " " m.scope))) no_atproto_scope
    check_scopes [] (split_on " " m.scope)
    check_grant_types [] m.grant_types
    refuse_if (not (str_eq m.client_id client_id)) client_id_differs
    refuse_if (subject_differs fields) subject_not_public
    check_auth_method m
    check_types m

  unfoldable pub validate_and_parse_metadata : String → Bytes → Result MetadataError Metadata
  unfolding check_fields with_uri check_metadata
  validate_and_parse_metadata client_id b = do
    fields ← require (lib.unmarshal_map b) bad_json
    check_fields fields
    parsed ← require (lib.unmarshal_metadata b) bad_json
    located ← with_uri parsed
    u ← require (lib.url_parse located.client_uri) bad_uri
    refuse_if (is_local_hostname lib u.hostname) local_client_uri
    check_metadata client_id fields (with_name located)
    ok (with_name located)
