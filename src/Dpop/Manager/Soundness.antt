-- ===== src/Dpop/Manager/Soundness.antt =====
-- What a proof that CheckProof returns has passed, and what it leaves in the manager's state.
use vow.Prelude.Results.{ok_of, required, passed}
use vow.Prelude.{
  str_eq, not, subst, str_eq_ne, sym, some_of, ℕ, ◌+◌, ◌*◌, ◌≤◌, ◌≡◌, ◌≢◌, ap, ◌∙◌, String, true,
  Option, none, some, List, Bytes, Crypto, ok, err, arith, eq_iff,
}
use vow.Dpop.Nonce.{Nonce, second, dpop_nonce_max_age}
use vow.Dpop.Htu.{Url, oauth_parse_htu, oauth_normalize_htu}
use vow.Dpop.Jose.{Jose, JtiCache, ProofHeader, Key, MapClaims, text_claim, number_claim, elem}
use vow.Dpop.Proof.{
  Proof, ProofError, extract_proof, verify_proof, check_times, check_target, check_ath, finish,
  dpop_check_tolerance, fits_key_type, valid_methods, keyfunc, token_hash, unparsable, bad_typ,
  jwk_missing, jwk_not_marshalled, jwk_not_parsed, no_raw_key, unverified, not_valid, no_claims,
}
use vow.Dpop.Nonce
use vow.Dpop.Manager.{Manager, check_present, check_proof}

-- The proof is no older than the nonce's age and the tolerance, and no further in the future than
-- the tolerance.
pub record IsTimely (now iat : ℕ) : Type 0 where
  pub not_old : now ≤ iat * second + (dpop_nonce_max_age + dpop_check_tolerance)
  pub not_future : iat * second ≤ now + dpop_check_tolerance

pub check_times-ok :
    (now : ℕ) (claims : MapClaims) (jti : String)
    → check_times now claims ≡ ok jti
    → (iat : ℕ) × (number_claim "iat" claims ≡ some iat)
      × IsTimely now iat
      × (jti ≡ text_claim "jti" claims)
      × (jti ≢ "")
unfolding check_times
check_times-ok now claims jti h = ground (arith, eq_iff (text_claim "jti" claims) "")

module _ (j : Jose) where
  -- The key is that of the token's own header, the claims are those of its payload, and the token is
  -- signed under that key, by a method of the list that fits it.
  pub record IsSigned (proof : String) (claims : MapClaims) (key : Key) : Type 0 where
    pub header : ProofHeader
    pub header_is : j.parse_unverified proof ≡ some header
    pub typ : header.typ ≡ "dpop+jwt"
    pub jwk : Bytes
    pub jwk_is : header.jwk ≡ some (some jwk)
    pub key_is : j.parse_key jwk ≡ some key
    pub carried : j.payload proof ≡ some claims
    pub alg : String
    pub public_key : Bytes
    pub raw : key.raw ≡ some public_key
    pub listed : elem alg valid_methods ≡ true
    pub fits : fits_key_type key.key_type alg ≡ true
    pub signed : j.Signed proof alg public_key

  keyfunc-some :
      (key : Key) (pub_key : Bytes) (alg : String) (found : Bytes)
      → keyfunc key pub_key alg ≡ some found
      → (fits_key_type key.key_type alg ≡ true) × (pub_key ≡ found)
  unfolding keyfunc
  keyfunc-some key pub_key alg found h = ground arith

  verify_proof-IsSigned :
      (proof : String) (claims : MapClaims) (key : Key)
      → verify_proof j proof ≡ ok (claims, key)
      → IsSigned proof claims key
  unfolding verify_proof
  verify_proof-IsSigned proof claims key h =
      let out : MapClaims × Key = (claims, key) in
      let (header, found, e1) = required (j.parse_unverified proof) unparsable _ out h in
      let (typ, e2) = passed (not (str_eq header.typ "dpop+jwt")) bad_typ _ out e1 in
      let (marshalled, m, e3) = required header.jwk jwk_missing _ out e2 in
      let (jwk, b, e4) = required marshalled jwk_not_marshalled _ out e3 in
      let (k, parsed_key, e5) = required (j.parse_key jwk) jwk_not_parsed _ out e4 in
      let (pub_key, raw, e6) = required k.raw no_raw_key _ out e5 in
      let (token, parsed, e7) =
        required (j.parse proof (keyfunc k pub_key) valid_methods) unverified _ out e6 in
      let (valid, e8) = passed (not token.valid) not_valid _ out e7 in
      let (c, has, e9) = required token.claims no_claims _ out e8 in
      let same_key : k ≡ key = ground arith in
      let same_claims : c ≡ claims = ground arith in
      let (alg, given, listed, chosen, signed, payload) =
        j.parse_checks proof (keyfunc k pub_key) valid_methods token parsed in
      let (fits, same) = keyfunc-some k pub_key alg given chosen in
      record {
        header = header;
        header_is = found;
        typ = (eq_iff header.typ "dpop+jwt").0 (ground arith);
        jwk = jwk;
        jwk_is = m ∙ ap some b;
        key_is = parsed_key ∙ ap some same_key;
        carried = sym payload ∙ (has ∙ ap some same_claims);
        alg = alg;
        public_key = given;
        raw = ap (λ (x : Key). x.raw) (sym same_key) ∙ (raw ∙ ap some same);
        listed = listed;
        fits = subst (λ (x : Key). fits_key_type x.key_type alg ≡ true) same_key fits;
        signed = signed;
      }

  -- The address of the proof and that of the request have one normal form.
  pub record IsForTarget (method req_url : String) (claims : MapClaims) : Type 0 where
    pub method_matches : text_claim "htm" claims ≡ method
    pub proof_url : Url
    pub request_url : Url
    pub proof_parsed : j.url_parse (text_claim "htu" claims) ≡ some proof_url
    pub request_parsed : j.url_parse req_url ≡ some request_url
    pub same_target : oauth_normalize_htu proof_url ≡ oauth_normalize_htu request_url

  -- The `htu` claim and the address of the request were parsed, and agree.
  htu_present :
      (method req_url : String) (claims : MapClaims)
      → check_target j method req_url claims ≡ ok tt
      → (j.url_parse (text_claim "htu" claims) ≢ none)
        × (j.url_parse req_url ≢ none)
        × (text_claim "htm" claims ≡ method)
  unfolding check_target oauth_parse_htu
  htu_present method req_url claims h = (
    λ e. ground arith,
    λ e. ground arith,
    ground (arith, eq_iff (text_claim "htm" claims) method),
  )

  htu_agrees :
      (method req_url : String) (claims : MapClaims) (v u : Url)
      → check_target j method req_url claims ≡ ok tt
      → j.url_parse (text_claim "htu" claims) ≡ some v
      → j.url_parse req_url ≡ some u
      → oauth_normalize_htu v ≡ oauth_normalize_htu u
  unfolding check_target oauth_parse_htu
  htu_agrees method req_url claims v u h hv hu =
      ground (arith, eq_iff (oauth_normalize_htu v) (oauth_normalize_htu u))

  check_target-ok :
      (method req_url : String) (claims : MapClaims)
      → check_target j method req_url claims ≡ ok tt
      → IsForTarget method req_url claims
  check_target-ok method req_url claims h =
      let (claimed, requested, matches) = htu_present method req_url claims h in
      let (v, hv) = some_of _ claimed in
      let (u, hu) = some_of _ requested in
      record {
        method_matches = matches;
        proof_url = v;
        request_url = u;
        proof_parsed = hv;
        request_parsed = hu;
        same_target = htu_agrees method req_url claims v u h hv hu;
      }

module _ (c : Crypto) (j : Jose) (k : JtiCache) where
  -- What stands behind a proof that was returned.
  pub record IsAccepted (now : ℕ) (method req_url : String) (headers : List String)
      (access_token : Option String) (m : Manager k) (p : Proof) : Type 0 where
    pub claims : MapClaims
    pub key : Key
    pub iat : ℕ
    pub signed : IsSigned j (extract_proof headers) claims key
    pub iat_claimed : number_claim "iat" claims ≡ some iat
    pub timely : IsTimely now iat
    pub target : IsForTarget j method req_url claims
    pub identified : p.jti ≡ text_claim "jti" claims
    pub has_jti : p.jti ≢ ""
    pub fresh : (Nonce.check c m.nonce now (text_claim "nonce" claims)).1 ≡ true
    pub bound :
        (token : String)
        → access_token ≡ some token
        → token ≢ ""
        → text_claim "ath" claims ≡ token_hash c token
    pub unbound : access_token ≡ none → text_claim "ath" claims ≡ ""
    pub thumbprint : Bytes
    pub key_thumbprint : key.thumbprint ≡ some thumbprint
    pub bound_key : p.jkt ≡ c.raw_url_encode thumbprint

  check_ath-bound :
      (access_token : Option String) (ath token : String)
      → check_ath c access_token ath ≡ ok tt
      → access_token ≡ some token
      → token ≢ ""
      → ath ≡ token_hash c token
  unfolding check_ath
  check_ath-bound none ath token h e ne = cc
  check_ath-bound (some t) ath token h e ne =
      ground (arith, str_eq_ne token "" ne, eq_iff ath (token_hash c token))

  check_ath-unbound :
      (access_token : Option String) (ath : String)
      → check_ath c access_token ath ≡ ok tt
      → access_token ≡ none
      → ath ≡ ""
  unfolding check_ath
  check_ath-unbound none ath h e = ground (arith, eq_iff ath "")
  check_ath-unbound (some t) ath h e = cc

  finish-ok :
      (claims : MapClaims) (key : Key) (p : Proof)
      → finish c claims key ≡ ok p
      → (thumb : Bytes) × (key.thumbprint ≡ some thumb)
        × (p.jkt ≡ c.raw_url_encode thumb)
        × (p.jti ≡ text_claim "jti" claims)
  unfolding finish
  finish-ok claims key p h = ground arith

  pub verified_of :
      (now : ℕ) (method req_url : String) (proof : String) (access_token : Option String)
      (m : Manager k) (p : Proof)
      → (check_present c j k now method req_url proof access_token m).0 ≡ ok (some p)
      → (e : ProofError) → verify_proof j proof ≢ err e
  unfolding check_present
  verified_of now method req_url proof access_token m p h e x = ground arith

  pub facts_of :
      (now : ℕ) (method req_url : String) (proof : String) (access_token : Option String)
      (m : Manager k) (p : Proof) (claims : MapClaims) (key : Key)
      → (check_present c j k now method req_url proof access_token m).0 ≡ ok (some p)
      → verify_proof j proof ≡ ok (claims, key)
      → ((e : ProofError) → check_times now claims ≢ err e)
        × (check_target j method req_url claims ≡ ok tt)
        × ((Nonce.check c m.nonce now (text_claim "nonce" claims)).1 ≡ true)
        × (check_ath c access_token (text_claim "ath" claims) ≡ ok tt)
        × (finish c claims key ≡ ok p)
  unfolding check_present
  facts_of now method req_url proof access_token m p claims key h v =
      (λ e x. ground arith, ground arith, ground arith, ground arith, ground arith)

  check_present-IsAccepted :
      (now : ℕ) (method req_url : String) (headers : List String) (access_token : Option String)
      (m : Manager k) (p : Proof)
      → (check_present c j k now method req_url (extract_proof headers) access_token m).0
        ≡ ok (some p)
      → IsAccepted now method req_url headers access_token m p
  check_present-IsAccepted now method req_url headers access_token m p h =
      let proof = extract_proof headers in
      let ((claims, key), verified) =
        ok_of (verify_proof j proof) (verified_of now method req_url proof access_token m p h) in
      let (timed, targeted, fresh, hashed, finished) =
        facts_of now method req_url proof access_token m p claims key h verified in
      let (jti, times) = ok_of (check_times now claims) timed in
      let (iat, claimed, timely, named, present) = check_times-ok now claims jti times in
      let (thumb, key_thumb, bound_key, identified) = finish-ok claims key p finished in
      record {
        claims = claims;
        key = key;
        iat = iat;
        signed = verify_proof-IsSigned j proof claims key verified;
        iat_claimed = claimed;
        timely = timely;
        target = check_target-ok j method req_url claims targeted;
        identified = identified;
        has_jti = λ e. present (named ∙ sym identified ∙ e);
        fresh = fresh;
        bound = λ token. check_ath-bound access_token _ token hashed;
        unbound = check_ath-unbound access_token _ hashed;
        thumbprint = thumb;
        key_thumbprint = key_thumb;
        bound_key = bound_key;
      }

  pub present_of :
      (now : ℕ) (method req_url : String) (headers : List String) (access_token : Option String)
      (m : Manager k) (p : Proof)
      → (check_proof c j k now method req_url headers access_token m).0 ≡ ok (some p)
      → (check_present c j k now method req_url (extract_proof headers) access_token m).0
        ≡ ok (some p)
  unfolding check_proof
  present_of now method req_url headers access_token m p h = ground arith

  -- The proof of a request that CheckProof returns has the type dpop+jwt and is signed under the very
  -- key of its header, by a listed method that fits it. The claims of its payload are timely, name the
  -- method and the normalised address of the request, carry an identifier and a fresh nonce, and are
  -- bound to the access token of the request; what is returned is that identifier and the thumbprint
  -- of that key.
  pub check_proof-IsAccepted :
      (now : ℕ) (method req_url : String) (headers : List String) (access_token : Option String)
      (m : Manager k) (p : Proof)
      → (check_proof c j k now method req_url headers access_token m).0 ≡ ok (some p)
      → IsAccepted now method req_url headers access_token m p
  check_proof-IsAccepted now method req_url headers access_token m p h =
      check_present-IsAccepted now method req_url headers access_token m p
        (present_of now method req_url headers access_token m p h)
