-- ===== src/Dpop/Jose.antt =====
-- What oauth/dpop/manager.go calls and does not implement: golang-jwt, lestrrat-go/jwx, net/url and
-- go-pkgz/expirable-cache, each with what its documentation promises and the code relies on.
use vow.Prelude.{
  ℕ, ◌≡◌, String, str_eq, Bool, true, false, Option, none, some, List, [], ◌∷◌, Bytes,
  if◌then◌else◌,
}
use vow.Dpop.Htu.{Url}

-- A JSON value, as far as the code looks at it: a text, the whole part of a number, anything else.
pub data Json : Type 0 where
  text : String → Json
  number : ℕ → Json
  other : Json

-- jwt.MapClaims
abbrev pub MapClaims : Type 0
MapClaims = List (String × Json)

unfoldable pub lookup : String → MapClaims → Option Json
lookup key [] = none
lookup key ((name, value) ∷ rest) = if str_eq key name then some value else lookup key rest

-- `v, _ := claims[key].(string)`
unfoldable pub text_claim : String → MapClaims → String
unfolding lookup
text_claim key claims = elim (lookup key claims) [ some (text s) ↦ s | _ ↦ "" ]

-- `v, ok := claims[key].(float64)`
unfoldable pub number_claim : String → MapClaims → Option ℕ
unfolding lookup
number_claim key claims = elim (lookup key claims) [ some (number n) ↦ some n | _ ↦ none ]

pub data KeyType : Type 0 where
  ec rsa okp oct : KeyType

-- The header of an unverified token: `typ` is empty where it is no text, `jwk` is the marshalled
-- JSON of the key where that is an object.
pub record ProofHeader : Type 0 where
  pub typ : String
  pub jwk : Option (Option Bytes)

pub record Token : Type 0 where
  pub valid : Bool
  pub claims : Option MapClaims

-- jwk.Key with the code's questions of it. `raw` and `thumbprint` fail with `none`.
pub record Key : Type 0 where
  pub key_type : KeyType
  pub raw : Option Bytes
  pub thumbprint : Option Bytes

abbrev pub Keyfunc : Type 0
Keyfunc = String → Option Bytes

unfoldable pub elem : String → List String → Bool
elem a [] = false
elem a (x ∷ xs) = if str_eq a x then true else elem a xs

pub record Jose : Type 1 where
  -- jwt.Parser.ParseUnverified
  pub parse_unverified : String → Option ProofHeader
  -- jwk.ParseKey
  pub parse_key : Bytes → Option Key
  -- jwt.Parse with jwt.WithValidMethods: the keyfunc is asked for the key of the token's `alg`.
  pub parse : String → Keyfunc → List String → Option Token
  -- The claims that a token's payload decodes to.
  pub payload : String → Option MapClaims
  -- The token carries a signature that the algorithm accepts under the key.
  pub Signed : String → String → Bytes → Type 0
  -- A token is returned only with a method of the list, the key of the keyfunc, a signature, and the
  -- claims of its payload.
  pub parse_checks :
      (token : String) (keyfunc : Keyfunc) (methods : List String) (t : Token)
      → parse token keyfunc methods ≡ some t
      → (alg : String) × (key : Bytes) × (elem alg methods ≡ true)
        × (keyfunc alg ≡ some key)
        × Signed token alg key
        × (t.claims ≡ payload token)
  -- url.Parse
  pub url_parse : String → Option Url

-- The cache of seen identifiers, with `Add`.
pub record JtiCache : Type 1 where
  pub Cache : Type 0
  pub add : Cache → String → Cache × Bool
