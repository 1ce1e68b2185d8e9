-- ===== src/OauthClient/Redirects.antt =====
-- oauth/client/manager.go: the check of one redirect URI.
use text.Mathlib.Text.{starts_with}
use vow.Prelude.{
  ◌≡◌, arith, String, str_eq, eq_iff, str_append, Bool, true, false, not, ◌||◌, Bool-cases, inl,
  inr, Option, none, some, List, [], ◌∷◌, if◌then◌else◌, split_on, Result, ok, err,
}
use vow.Prelude.Results.{◌>>=◌, ◌>>◌, refuse_if, require, passed, required}
use vow.Dpop.Htu.{Userinfo}
use vow.OauthClient.{
  Metadata, Uri, MetadataError, Libraries, is_local_hostname, bad_uri, localhost, credentials,
  loopback_not_native, loopback_not_http, http_scheme, local_redirect, private_not_native,
  private_local, private_form, bad_scheme,
}

abbrev pub is_some : Option String → Bool
is_some none = false
is_some (some s) = true

abbrev pub has_credentials : Option Userinfo → Bool
has_credentials none = false
has_credentials (some u) = not (str_eq u.username "") || is_some u.password

abbrev pub is_loopback : Uri → Bool
is_loopback u = str_eq u.hostname "127.0.0.1" || str_eq u.hostname "[::1]"

abbrev many : List String → Bool
many (a ∷ b ∷ xs) = true
many _ = false

-- strings.Contains(s, ".")
abbrev pub has_dot : String → Bool
has_dot s = many (split_on "." s)

abbrev join : List String → String
join [] = ""
join (s ∷ []) = s
join (s ∷ t ∷ ts) = str_append s (str_append "." (join (t ∷ ts)))

abbrev reverse_onto : List String → List String → List String
reverse_onto acc [] = acc
reverse_onto acc (s ∷ ss) = reverse_onto (s ∷ acc) ss

unfoldable pub reverse_domain : String → String
reverse_domain domain = join (reverse_onto [] (split_on "." domain))

module _ (lib : Libraries) where
  -- A scheme of the client's own, as com.example.app:/callback
  unfoldable pub check_private : Metadata → Uri → Result MetadataError Unit
  unfolding reverse_domain
  check_private m u = do
    refuse_if (not (str_eq m.application_type "native")) private_not_native
    refuse_if (is_local_hostname lib (reverse_domain u.scheme)) private_local
    refuse_if
        (starts_with u.text_ (str_append u.scheme "://")
          || (not (str_eq u.hostname "") || not (str_eq u.port "")))
        private_form

  unfoldable pub check_host : Metadata → Uri → Result MetadataError Unit
  unfolding check_private
  check_host m u =
      if str_eq u.hostname "localhost"
      then err localhost
      else if is_loopback u
      then (do
        refuse_if (not (str_eq m.application_type "native")) loopback_not_native
        refuse_if (not (str_eq u.scheme "http")) loopback_not_http)
      else if str_eq u.scheme "http"
      then err http_scheme
      else if str_eq u.scheme "https"
      then refuse_if (is_local_hostname lib u.hostname) local_redirect
      else if has_dot u.scheme
      then check_private m u
      else err bad_scheme

  unfoldable pub check_redirect : Metadata → String → Result MetadataError Unit
  unfolding check_host
  check_redirect m uri = do
    u ← require (lib.url_parse uri) bad_uri
    refuse_if (has_credentials u.user) credentials
    check_host m u

  -- Where a code may be sent: to the device of a native client, over HTTPS to a public host, or to a
  -- native client that has registered a scheme under a public name, without a host.
  pub data IsTarget (m : Metadata) (u : Uri) : Type 0 where
    loopback :
        u.scheme ≡ "http" → m.application_type ≡ "native" → is_loopback u ≡ true → IsTarget m u
    public_host : u.scheme ≡ "https" → is_local_hostname lib u.hostname ≡ false → IsTarget m u
    private_scheme :
        has_dot u.scheme ≡ true
        → m.application_type ≡ "native"
        → is_local_hostname lib (reverse_domain u.scheme) ≡ false
        → u.hostname ≡ ""
        → u.port ≡ ""
        → IsTarget m u

  check_private-ok :
      (m : Metadata) (u : Uri) → has_dot u.scheme ≡ true → check_private m u ≡ ok tt → IsTarget m u
  unfolding check_private
  check_private-ok m u dot e =
      let (native, e1) =
        passed (not (str_eq m.application_type "native")) private_not_native _ tt e in
      let (public, e2) =
        passed (is_local_hostname lib (reverse_domain u.scheme)) private_local _ tt e1 in
      private_scheme dot (ground (arith, eq_iff m.application_type "native")) public
        (ground (arith, eq_iff u.hostname "")) (ground (arith, eq_iff u.port ""))

  check_host-IsTarget : (m : Metadata) (u : Uri) → check_host m u ≡ ok tt → IsTarget m u
  unfolding check_host
  check_host-IsTarget m u e = elim (Bool-cases (str_eq u.hostname "localhost")) [
    | inl named ↦ absurd (ground arith)
    | inr h0 ↦ elim (Bool-cases (is_loopback u)) [
      | inl loops ↦
          let e0 = rw (check_host, h0, loops) at e in
          let (native, e1) =
            passed (not (str_eq m.application_type "native")) loopback_not_native _ tt e0 in
          loopback (ground (arith, eq_iff u.scheme "http"))
            (ground (arith, eq_iff m.application_type "native")) loops
      | inr h1 ↦ elim (Bool-cases (str_eq u.scheme "http")) [
        | inl plain ↦ absurd (ground arith)
        | inr h2 ↦ elim (Bool-cases (str_eq u.scheme "https")) [
          | inl tls ↦ public_host ((eq_iff u.scheme "https").0 tls) (ground arith)
          | inr h3 ↦ elim (Bool-cases (has_dot u.scheme)) [
            | inl dot ↦ check_private-ok m u dot (ground arith)
            | inr h4 ↦ absurd (ground arith)
          ]
        ]
      ]
    ]
  ]

  pub record IsRedirect (m : Metadata) (uri : String) : Type 0 where
    pub parsed : Uri
    pub is : lib.url_parse uri ≡ some parsed
    pub no_credentials : has_credentials parsed.user ≡ false
    pub target : IsTarget m parsed

  pub check_redirect-IsRedirect :
      (m : Metadata) (uri : String) → check_redirect m uri ≡ ok tt → IsRedirect m uri
  unfolding check_redirect
  check_redirect-IsRedirect m uri e =
      let (u, is, e1) = required (lib.url_parse uri) bad_uri _ tt e in
      let (clean, e2) = passed (has_credentials u.user) credentials _ tt e1 in
      record { parsed = u; is = is; no_credentials = clean; target = check_host-IsTarget m u e2 }
