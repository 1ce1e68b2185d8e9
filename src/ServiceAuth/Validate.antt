-- ===== src/ServiceAuth/Validate.antt =====
-- server/service_auth.go: validateServiceAuth. golang-jwt, the DID documents and indigo's reading of
-- their keys are a library.
use vow.Prelude.{
  ◌≡◌, refl, ap, ◌∙◌, arith, String, Bool, true, false, not, Option, none, some, Option-cases,
  Bool-cases, inl, inr, ◌⊎◌, eq_iff, if◌then◌else◌, Result, ok,
}
use vow.Prelude.Results.{◌>>=◌, ◌>>◌, refuse_if, require, required, passed, require_ok}
use vow.Dpop.Jose.{MapClaims, Json, text, number, other, lookup}
use vow.Auth.{RepoActor, text_claim?}
use vow.Auth.Legacy.{Lookup, is_text}

pub data ValidationError : Type 0 where
  invalid_token bad_method missing_iss : ValidationError

pub record Services : Type 1 where
  pub Doc : Type 0
  pub Key : Type 0
  pub trim_space : String → String
  pub fetch_doc : String → Option Doc
  -- Identity.PublicKey, the key under #atproto, and Identity.GetPublicKey.
  pub public_key : Doc → Option Key
  pub get_public_key : Doc → String → Option Key
  -- jwt.ParseWithClaims, which asks the function for the key of the claims.
  pub parse : String → (MapClaims → Option Key) → Option MapClaims

-- The claims are returned only under a key of the function, by which the token is signed.
abbrev pub IsParsing : (lib : Services) → (String → MapClaims → lib.Key → Type 0) → Type 0
IsParsing lib Signed =
    (token : String) (keyfunc : MapClaims → Option lib.Key) (claims : MapClaims)
    → lib.parse token keyfunc ≡ some claims
    → (key : lib.Key) × (keyfunc claims ≡ some key) × Signed token claims key

abbrev pub is_compat : Option RepoActor → Bool
is_compat none = false
is_compat (some repo) = repo.compat_mode

abbrev or_else : {A : Type 0} → Option A → Option A → Option A
or_else none o = o
or_else (some a) o = some a

module _ (lib : Services) where
  -- The key for the tokens of an account of this server, or of any other.
  abbrev pub key_of_doc : Option RepoActor → lib.Doc → Option lib.Key
  key_of_doc repo doc =
      if is_compat repo
      then lib.public_key doc
      else or_else (lib.get_public_key doc "atproto_service") (lib.public_key doc)

  abbrev is_method : MapClaims → String → Bool
  is_method claims nsid = elim (lookup "lxm" claims) [ none ↦ false | some lxm ↦ is_text lxm nsid ]

module _ (lib : Services) (repo_of : Lookup) where
  abbrev pub service_keyfunc : MapClaims → Option lib.Key
  service_keyfunc claims = elim (text_claim? "iss" claims) [
    | none ↦ none
    | some iss ↦ (elim (lib.fetch_doc iss) [
      | none ↦ none
      | some doc ↦ key_of_doc lib (repo_of iss) doc
    ])
  ]

  unfoldable pub validate_service_auth : String → String → Result ValidationError String
  unfolding lookup
  validate_service_auth raw nsid = do
    claims ← require (lib.parse (lib.trim_space raw) service_keyfunc) invalid_token
    refuse_if (not (is_method lib claims nsid)) bad_method
    require (text_claim? "iss" claims) missing_iss

-- The key that the document of a DID has for tokens: for an account of this server that signs for
-- itself, the key of #atproto and no other; for any other DID that of #atproto_service, or of
-- #atproto where the document has no other.
abbrev pub IsServiceKey : (lib : Services) → Option RepoActor → lib.Doc → lib.Key → Type 0
IsServiceKey lib repo doc key =
    ((repo_mode : RepoActor) × (repo ≡ some repo_mode)
      × (repo_mode.compat_mode ≡ true)
      × (lib.public_key doc ≡ some key))
    ⊎ ((is_compat repo ≡ false) × (lib.get_public_key doc "atproto_service" ≡ some key))
    ⊎ ((is_compat repo ≡ false)
        × (lib.get_public_key doc "atproto_service" ≡ none)
        × (lib.public_key doc ≡ some key))

-- The token is signed, by a key of the issuer's DID document, for the method.
pub record IsIssued (lib : Services) (Signed : String → MapClaims → lib.Key → Type 0)
    (repo_of : Lookup) (token nsid iss : String) : Type 0 where
  pub claims : MapClaims
  pub doc : lib.Doc
  pub key : lib.Key
  pub issuer : text_claim? "iss" claims ≡ some iss
  pub method : lookup "lxm" claims ≡ some (text nsid)
  pub resolved : lib.fetch_doc iss ≡ some doc
  pub chosen : IsServiceKey lib (repo_of iss) doc key
  pub signed : Signed token claims key

method_of_test :
    (lib : Services) (claims : MapClaims) (nsid : String)
    → not (is_method lib claims nsid) ≡ false
    → lookup "lxm" claims ≡ some (text nsid)
method_of_test lib claims nsid e = elim (Option-cases (lookup "lxm" claims)) [
  | inl missing ↦ absurd (ground arith)
  | inr (lxm, found) ↦ found ∙ ap some (is_text_eq lxm nsid (ground arith))
]
  where
    is_text_eq : (lxm : Json) (t : String) → is_text lxm t ≡ true → lxm ≡ text t
    is_text_eq (text s) t h = ap text ((eq_iff s t).0 h)
    is_text_eq (number n) t h = absurd (ground arith)
    is_text_eq other t h = absurd (ground arith)

other_key :
    (lib : Services) (repo : Option RepoActor) (doc : lib.Doc) (key : lib.Key)
    → is_compat repo ≡ false
    → or_else (lib.get_public_key doc "atproto_service") (lib.public_key doc) ≡ some key
    → IsServiceKey lib repo doc key
other_key lib repo doc key plain e =
    elim (Option-cases (lib.get_public_key doc "atproto_service")) [
      | inl missing ↦ inr (inr (plain, missing, (rw missing at e)))
      | inr (k, found) ↦ inr (inl (plain, found ∙ (rw found at e)))
    ]

chosen_key :
    (lib : Services) (repo : Option RepoActor) (doc : lib.Doc) (key : lib.Key)
    → key_of_doc lib repo doc ≡ some key
    → IsServiceKey lib repo doc key
chosen_key lib none doc key e = other_key lib none doc key refl e
chosen_key lib (some r) doc key e = elim (Bool-cases r.compat_mode) [
  | inl compat ↦ inl (r, refl, compat, (rw compat at e))
  | inr plain ↦ other_key lib (some r) doc key plain (rw plain at e)
]

keyfunc_key :
    (lib : Services) (repo_of : Lookup) (claims : MapClaims) (iss : String) (key : lib.Key)
    → text_claim? "iss" claims ≡ some iss
    → service_keyfunc lib repo_of claims ≡ some key
    → (doc : lib.Doc) × (lib.fetch_doc iss ≡ some doc)
      × (key_of_doc lib (repo_of iss) doc ≡ some key)
keyfunc_key lib repo_of claims iss key i e = elim (Option-cases (lib.fetch_doc iss)) [
  | inl missing ↦ absurd (ground arith)
  | inr (doc, found) ↦ (doc, found, ground arith)
]

-- validateServiceAuth answers with the account that issued the token: the token is signed, for the
-- asked method, under a key of that account's DID document, which is the key of #atproto for an
-- account of this server in compat mode, and otherwise that of #atproto_service, or of #atproto
-- where the document has no other. golang-jwt returns only claims signed under the given key.
pub validate_service_auth-IsIssued :
    (lib : Services) (Signed : String → MapClaims → lib.Key → Type 0) (repo_of : Lookup)
    (raw nsid iss : String)
    → IsParsing lib Signed
    → validate_service_auth lib repo_of raw nsid ≡ ok iss
    → IsIssued lib Signed repo_of (lib.trim_space raw) nsid iss
unfolding validate_service_auth
validate_service_auth-IsIssued lib Signed repo_of raw nsid iss laws e =
    let (claims, parsed, e1) =
      required (lib.parse (lib.trim_space raw) (service_keyfunc lib repo_of)) _ _ iss e in
    let (method, e2) = passed (not (is_method lib claims nsid)) bad_method _ iss e1 in
    let issuer = require_ok (text_claim? "iss" claims) missing_iss iss e2 in
    let (key, given, signed) =
      laws (lib.trim_space raw) (service_keyfunc lib repo_of) claims parsed in
    let (doc, resolved, chosen) = keyfunc_key lib repo_of claims iss key issuer given in
    record {
      claims = claims;
      doc = doc;
      key = key;
      issuer = issuer;
      method = method_of_test lib claims nsid method;
      resolved = resolved;
      chosen = chosen_key lib (repo_of iss) doc key chosen;
      signed = signed;
    }
