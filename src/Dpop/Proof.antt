-- ===== src/Dpop/Proof.antt =====
-- oauth/dpop/proof.go and the parts of CheckProof (oauth/dpop/manager.go) that read no state of the
-- manager. `now` is time.Now() in nanoseconds since 1970, and `iat` counts whole seconds from then.
use text.Mathlib.Text.{starts_with}
use vow.Prelude.{
  ℕ, ◌+◌, ◌*◌, String, str_eq, Bool, true, not, ◌||◌, Option, none, some, List, [], ◌∷◌, ltb,
  if◌then◌else◌, Bytes, bytes, Crypto, Result, ok, err,
}
use vow.Prelude.Results.{◌>>=◌, ◌>>◌, refuse_if, require}
use vow.Dpop.Nonce.{second, dpop_nonce_max_age}
use vow.Dpop.Htu.{HtuError, oauth_parse_htu, oauth_normalize_htu}
use vow.Dpop.Jose.{
  Jose, Key, KeyType, ec, rsa, okp, oct, MapClaims, Keyfunc, text_claim, number_claim,
}

pub record Proof : Type 0 where
  pub jti : String
  pub jkt : String
  pub htm : String
  pub htu : String

-- The errors of CheckProof, in its order; `panicked` is the dereference of a nil pointer.
pub data ProofError : Type 0 where
  method_required unparsable bad_typ jwk_missing jwk_not_marshalled jwk_not_parsed : ProofError
  no_raw_key unverified not_valid no_claims iat_missing too_old in_future : ProofError
  jti_missing replay_detected htm_missing htm_mismatch htu_missing htu_not_parsed : ProofError
  htu_mismatch use_dpop_nonce ath_required ath_mismatch ath_not_allowed : ProofError
  no_thumbprint panicked : ProofError

abbrev pub dpop_check_tolerance : ℕ
dpop_check_tolerance = 5 * second

abbrev pub valid_methods : List String
valid_methods =
    "ES256" ∷ "ES384" ∷ "ES512" ∷ "RS256" ∷ "RS384" ∷ "RS512" ∷ "PS256" ∷ "PS384" ∷ "PS512"
    ∷ "EdDSA" ∷ []

-- The `dpop` headers of the request: one proof, or none.
unfoldable pub extract_proof : List String → String
extract_proof [] = ""
extract_proof (proof ∷ []) = proof
extract_proof (_ ∷ _ ∷ _) = ""

-- The tests of the keyfunc.
unfoldable pub fits_key_type : KeyType → String → Bool
fits_key_type ec alg = starts_with alg "ES"
fits_key_type rsa alg = starts_with alg "RS" || starts_with alg "PS"
fits_key_type okp alg = str_eq alg "EdDSA"
fits_key_type oct alg = true

unfoldable pub keyfunc : Key → Bytes → Keyfunc
unfolding fits_key_type
keyfunc key pub_key alg = if fits_key_type key.key_type alg then some pub_key else none

unfoldable pub check_age : ℕ → ℕ → Result ProofError Unit
check_age now iat = do
  refuse_if (ltb (iat * second + (dpop_nonce_max_age + dpop_check_tolerance)) now) too_old
  refuse_if (ltb (now + dpop_check_tolerance) (iat * second)) in_future

-- `iat` and `jti`, which are read before the cache is asked.
unfoldable pub check_times : ℕ → MapClaims → Result ProofError String
unfolding check_age
check_times now claims = do
  iat ← require (number_claim "iat" claims) iat_missing
  check_age now iat
  refuse_if (str_eq (text_claim "jti" claims) "") jti_missing
  ok (text_claim "jti" claims)

-- Any error of OauthParseHtu is one error here.
abbrev pub parsed_or : Result HtuError String → Result ProofError String
parsed_or (ok s) = ok s
parsed_or (err e) = err htu_not_parsed

module _ (j : Jose) where
  -- From the raw proof to its verified claims and the key of its header.
  unfoldable pub verify_proof : String → Result ProofError (MapClaims × Key)
  verify_proof proof = do
    header ← require (j.parse_unverified proof) unparsable
    refuse_if (not (str_eq header.typ "dpop+jwt")) bad_typ
    marshalled ← require header.jwk jwk_missing
    jwkb ← require marshalled jwk_not_marshalled
    key ← require (j.parse_key jwkb) jwk_not_parsed
    pub_key ← require key.raw no_raw_key
    token ← require (j.parse proof (keyfunc key pub_key) valid_methods) unverified
    refuse_if (not token.valid) not_valid
    claims ← require token.claims no_claims
    ok (claims, key)

  -- `htm` and `htu`, the method and the address of the request.
  unfoldable pub check_target : String → String → MapClaims → Result ProofError Unit
  check_target method req_url claims = do
    refuse_if (str_eq (text_claim "htm" claims) "") htm_missing
    refuse_if (not (str_eq (text_claim "htm" claims) method)) htm_mismatch
    refuse_if (str_eq (text_claim "htu" claims) "") htu_missing
    parsed_htu ← parsed_or (oauth_parse_htu (j.url_parse (text_claim "htu" claims)))
    u ← require (j.url_parse req_url) panicked
    refuse_if (not (str_eq parsed_htu (oauth_normalize_htu u))) htu_mismatch

-- The hash of the access token, in the encoding of the `ath` claim.
unfoldable pub token_hash : Crypto → String → String
token_hash c access_token = c.raw_url_encode (c.sha256 (bytes access_token))

unfoldable pub check_ath : Crypto → Option String → String → Result ProofError Unit
unfolding token_hash
check_ath c none ath = refuse_if (not (str_eq ath "")) ath_not_allowed
check_ath c (some access_token) ath =
    if str_eq access_token "" then refuse_if (not (str_eq ath "")) ath_not_allowed else do
      refuse_if (str_eq ath "") ath_required
      refuse_if (not (str_eq ath (token_hash c access_token))) ath_mismatch

-- The last lines: the key's thumbprint and the returned proof.
unfoldable pub finish : Crypto → MapClaims → Key → Result ProofError Proof
finish c claims key = do
  thumb_bytes ← require key.thumbprint no_thumbprint
  ok (record {
    jti = text_claim "jti" claims;
    jkt = c.raw_url_encode thumb_bytes;
    htm = text_claim "htm" claims;
    htu = text_claim "htu" claims;
  })
