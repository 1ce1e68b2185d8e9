-- ===== src/OauthClient/Validate/Sound.antt =====
-- oauth/client/manager.go: what the metadata of a client promises that were accepted.
use vow.Prelude.{
  ◌≡◌, ◌≢◌, subst, arith, String, str_eq, eq_iff, true, false, not, ◌&&◌, ◌||◌, Bool-cases, inl,
  inr, ◌⊎◌, List, [], ◌∷◌, split_on, All, Bytes, ok,
}
use vow.Prelude.Results.{bind_ok, passed, required, ok_injective}
use vow.Dpop.Jose.{MapClaims, elem}
use vow.OauthClient.{
  Metadata, Libraries, is_local_hostname, bad_json, bad_uri, local_client_uri, no_scope,
  no_atproto_scope, duplicate_scope, unsupported_scope, duplicate_grant, implicit_grant,
  unsupported_grant, client_id_differs, subject_not_public, no_keys, empty_jwks, not_dpop_bound,
  no_code_response, no_code_grant, no_redirect, native_with_method,
}
use vow.OauthClient.Redirects.{check_redirect, IsRedirect, check_redirect-IsRedirect}
use vow.OauthClient.Validate.{
  is_scope_supported, check_fields, subject_differs, with_name, with_uri, check_scopes,
  check_grant_types, check_auth_method, check_redirects, check_types, validate_and_parse_metadata,
  is_empty, is_none, is_empty_some, check_implicit, check_metadata,
}

-- No text twice, and none of those seen before.
abbrev pub Distinct : List String → List String → Type 0
Distinct seen [] = Unit
Distinct seen (s ∷ ss) = (elem s seen ≡ false) × Distinct (s ∷ seen) ss

abbrev pub IsGrant : String → Type 0
IsGrant gt = (gt ≡ "authorization_code") ⊎ (gt ≡ "refresh_token")

check_scopes-ok :
    (seen scopes : List String)
    → check_scopes seen scopes ≡ ok tt
    → Distinct seen scopes × All (λ s. is_scope_supported s ≡ true) scopes
unfolding check_scopes
check_scopes-ok seen [] e = (tt, tt)
check_scopes-ok seen (s ∷ ss) e =
    let (new, e1) = passed (elem s seen) duplicate_scope _ tt e in
    let (known, e2) = passed (not (is_scope_supported s)) unsupported_scope _ tt e1 in
    let (distinct, all) = check_scopes-ok (s ∷ seen) ss e2 in ((new, distinct), (ground arith, all))

allowed-IsGrant :
    (gt : String)
    → not (str_eq gt "authorization_code" || str_eq gt "refresh_token") ≡ false
    → IsGrant gt
allowed-IsGrant gt e = elim (Bool-cases (str_eq gt "authorization_code")) [
  | inl same ↦ inl ((eq_iff gt "authorization_code").0 same)
  | inr other ↦ inr ((eq_iff gt "refresh_token").0 (ground arith))
]

check_grant_types-ok :
    (seen gts : List String)
    → check_grant_types seen gts ≡ ok tt
    → Distinct seen gts × All IsGrant gts
unfolding check_grant_types
check_grant_types-ok seen [] e = (tt, tt)
check_grant_types-ok seen (gt ∷ gts) e =
    let (new, e1) = passed (elem gt seen) duplicate_grant _ tt e in
    let (allowed, e2) = passed (str_eq gt "implicit") implicit_grant _ tt e1 in
    let (known, e3) =
      passed (not (str_eq gt "authorization_code" || str_eq gt "refresh_token")) unsupported_grant _
        tt e2 in
    let (distinct, all) = check_grant_types-ok (gt ∷ seen) gts e3 in
    ((new, distinct), (allowed-IsGrant gt known, all))

check_redirects-IsRedirect :
    (lib : Libraries) (m : Metadata) (uris : List String)
    → check_redirects lib m uris ≡ ok tt
    → All (IsRedirect lib m) uris
unfolding check_redirects
check_redirects-IsRedirect lib m [] e = tt
check_redirects-IsRedirect lib m (uri ∷ uris) e =
    let (u, one, e1) = bind_ok (check_redirect lib m uri) _ tt e in
    (check_redirect-IsRedirect lib m uri one, check_redirects-IsRedirect lib m uris e1)

-- How the client authenticates: not at all, or with a key of which it names the source.
pub data IsMethod (m : Metadata) : Type 0 where
  public_client :
      m.token_endpoint_auth_method ≡ "none" → m.token_endpoint_auth_signing_alg ≡ "" → IsMethod m
  with_key :
      m.token_endpoint_auth_method ≡ "private_key_jwt"
      → m.token_endpoint_auth_signing_alg ≢ ""
      → is_none m.jwks && is_none m.jwks_uri ≡ false
      → is_empty_some m.jwks ≡ false
      → m.application_type ≢ "native"
      → IsMethod m

check_auth_method-IsMethod :
    (m : Metadata)
    → check_auth_method m ≡ ok tt
    → str_eq m.application_type "native" && not (str_eq m.token_endpoint_auth_method "none") ≡ false
    → IsMethod m
unfolding check_auth_method
check_auth_method-IsMethod m e fits =
    elim (Bool-cases (str_eq m.token_endpoint_auth_method "none")) [
      | inl open_ ↦
          public_client ((eq_iff m.token_endpoint_auth_method "none").0 open_)
            (ground (arith, eq_iff m.token_endpoint_auth_signing_alg ""))
      | inr keyed ↦ elim (Bool-cases (str_eq m.token_endpoint_auth_method "private_key_jwt")) [
        | inr other ↦ absurd (ground arith)
        | inl jwt ↦
            let e0 = rw (check_auth_method, keyed, jwt) at e in
            let (sourced, e1) = passed (is_none m.jwks && is_none m.jwks_uri) no_keys _ tt e0 in
            let (filled, e2) = passed (is_empty_some m.jwks) empty_jwks _ tt e1 in
            with_key ((eq_iff m.token_endpoint_auth_method "private_key_jwt").0 jwt)
              (λ h. ground (arith, eq_iff m.token_endpoint_auth_signing_alg "")) sourced filled
              (λ h. ground (arith, eq_iff m.application_type "native"))
      ]
    ]

-- What a client is that was accepted under an identifier.
pub record IsClient (lib : Libraries) (client_id : String) (m : Metadata) : Type 0 where
  pub identified : m.client_id ≡ client_id
  pub atproto : elem "atproto" (split_on " " m.scope) ≡ true
  pub scopes : Distinct [] (split_on " " m.scope)
  pub supported : All (λ s. is_scope_supported s ≡ true) (split_on " " m.scope)
  pub grants : Distinct [] m.grant_types
  pub known_grants : All IsGrant m.grant_types
  pub code_grant : elem "authorization_code" m.grant_types ≡ true
  pub code_response : elem "code" m.response_types ≡ true
  pub dpop : m.dpop_bound_access_tokens ≡ true
  pub method : IsMethod m
  pub redirects : All (IsRedirect lib m) m.redirect_uris
  pub some_redirect : is_empty m.redirect_uris ≡ false

check_metadata-IsClient :
    (lib : Libraries) (client_id : String) (fields : MapClaims) (m : Metadata)
    → check_metadata lib client_id fields m ≡ ok tt
    → IsClient lib client_id m
unfolding check_metadata check_types
check_metadata-IsClient lib client_id fields m e =
    let scopes = split_on " " m.scope in
    let (c1, e1) = passed (str_eq m.scope "") no_scope _ tt e in
    let (c2, e2) = passed (not (elem "atproto" scopes)) no_atproto_scope _ tt e1 in
    let (x1, c3, e3) = bind_ok (check_scopes [] scopes) _ tt e2 in
    let (x2, c4, e4) = bind_ok (check_grant_types [] m.grant_types) _ tt e3 in
    let (c5, e5) = passed (not (str_eq m.client_id client_id)) client_id_differs _ tt e4 in
    let (c6, e6) = passed (subject_differs fields) subject_not_public _ tt e5 in
    let (x3, c7, e7) = bind_ok (check_auth_method m) _ tt e6 in
    let (c8, e8) = passed (not m.dpop_bound_access_tokens) not_dpop_bound _ tt e7 in
    let (c9, e9) = passed (not (elem "code" m.response_types)) no_code_response _ tt e8 in
    let (c10, e10) = passed (not (elem "authorization_code" m.grant_types)) no_code_grant _ tt e9 in
    let (c11, e11) = passed (is_empty m.redirect_uris) no_redirect _ tt e10 in
    let (c12, e12) =
      passed
        (str_eq m.application_type "native" && not (str_eq m.token_endpoint_auth_method "none"))
        native_with_method _ tt e11 in
    let (x4, c13, e13) = bind_ok (check_implicit lib m) _ tt e12 in
    let (distinct_scopes, supported) = check_scopes-ok [] scopes c3 in
    let (distinct_grants, known) = check_grant_types-ok [] m.grant_types c4 in
    record {
      identified = (eq_iff m.client_id client_id).0 (ground arith);
      atproto = ground arith;
      scopes = distinct_scopes;
      supported = supported;
      grants = distinct_grants;
      known_grants = known;
      code_grant = ground arith;
      code_response = ground arith;
      dpop = ground arith;
      method = check_auth_method-IsMethod m c7 c12;
      redirects = check_redirects-IsRedirect lib m m.redirect_uris e13;
      some_redirect = c11;
    }

-- Metadata that were accepted are those of the client that was asked for, with supported scopes
-- among which is "atproto", the grants that the server has, tokens bound to DPoP, one of the two
-- methods of authentication, and redirect URIs each of which leads to the device of a native client,
-- over HTTPS to a public host, or to a scheme that a native client has registered.
pub validate_and_parse_metadata-IsClient :
    (lib : Libraries) (client_id : String) (b : Bytes) (m : Metadata)
    → validate_and_parse_metadata lib client_id b ≡ ok m
    → IsClient lib client_id m
unfolding validate_and_parse_metadata
validate_and_parse_metadata-IsClient lib client_id b m e =
    let (fields, f, e1) = required (lib.unmarshal_map b) bad_json _ m e in
    let (x1, c1, e2) = bind_ok (check_fields fields) _ m e1 in
    let (parsed, p, e3) = required (lib.unmarshal_metadata b) bad_json _ m e2 in
    let (located, l, e4) = bind_ok (with_uri lib parsed) _ m e3 in
    let (u, is, e5) = required (lib.url_parse located.client_uri) bad_uri _ m e4 in
    let (c2, e6) = passed (is_local_hostname lib u.hostname) local_client_uri _ m e5 in
    let (x2, checked, e7) =
      bind_ok (check_metadata lib client_id fields (with_name located)) _ m e6 in
    subst (IsClient lib client_id) (ok_injective (with_name located) m e7)
      (check_metadata-IsClient lib client_id fields (with_name located) checked)
