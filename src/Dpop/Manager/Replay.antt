-- ===== src/Dpop/Manager/Replay.antt =====
-- What the checks keep apart and what they do not: a proof that is sent again, and one that is sent
-- to another path.
use vow.Prelude.{
  ℕ, ◌≡◌, ◌≢◌, ap, ◌∙◌, String, false, Option, some, List, Crypto, Result, ok, err, arith, refl,
}
use vow.Dpop.Nonce.{Nonce, check, rotate}
use vow.Dpop.Nonce
use vow.Dpop.Htu.{Url, oauth_parse_htu, oauth_normalize_htu}
use vow.Dpop.Jose.{Jose, JtiCache, Key, MapClaims, text_claim}
use vow.Dpop.Proof.{Proof, ProofError, extract_proof, verify_proof, check_times, check_target}
use vow.Prelude.Results.{ok_of}
use vow.Dpop.Manager.Soundness.{check_times-ok, verified_of, facts_of, present_of}
use vow.Dpop.Manager.{Manager, check_present, check_proof}

-- What the documentation of go-pkgz/expirable-cache says of `Add`: it answers whether an entry was
-- evicted; a key that is held is refreshed, evicts nothing and stays held, and so does the key added.
pub record IsExpirable (k : JtiCache) : Type 1 where
  pub Holds : k.Cache → String → Type 0
  pub add_holds : (cache : k.Cache) (key : String) → Holds (k.add cache key).0 key
  pub add_held : (cache : k.Cache) (key : String) → Holds cache key → (k.add cache key).1 ≡ false

rotate_idem : (c : Crypto) (n : Nonce) (now : ℕ) → rotate c (rotate c n now) now ≡ rotate c n now
unfolding rotate
rotate_idem c n now = ground arith

check-check :
    (c : Crypto) (n : Nonce) (now : ℕ) (nonce : String)
    → Nonce.check c (Nonce.check c n now nonce).0 now nonce ≡ Nonce.check c n now nonce
unfolding check
check-check c n now nonce = rw (rotate_idem c n now)

times_jti :
    (now : ℕ) (claims : MapClaims)
    → ((e : ProofError) → check_times now claims ≢ err e)
    → check_times now claims ≡ ok (text_claim "jti" claims)
times_jti now claims h =
    let (jti, e) = ok_of (check_times now claims) h in
    let (_, _, _, named, _) = check_times-ok now claims jti e in e ∙ ap ok named

module _ (c : Crypto) (j : Jose) (k : JtiCache) where
  -- The state that a returned proof leaves behind: its identifier is in the cache, and the nonces are
  -- those of the clock.
  left_behind : ℕ → MapClaims → Manager k → Manager k
  left_behind now claims m = record {
    nonce = (Nonce.check c m.nonce now (text_claim "nonce" claims)).0;
    jti_cache = (k.add m.jti_cache (text_claim "jti" claims)).0;
  }

  state_of :
      (now : ℕ) (method req_url proof : String) (access_token : Option String) (m : Manager k)
      (p : Proof) (claims : MapClaims) (key : Key)
      → (check_present c j k now method req_url proof access_token m).0 ≡ ok (some p)
      → verify_proof j proof ≡ ok (claims, key)
      → check_times now claims ≡ ok (text_claim "jti" claims)
      → (check_present c j k now method req_url proof access_token m).1 ≡ left_behind now claims m
  unfolding check_present left_behind
  state_of now method req_url proof access_token m p claims key h v t = ground arith

  again :
      (now : ℕ) (method req_url proof : String) (access_token : Option String) (m : Manager k)
      (p : Proof) (claims : MapClaims) (key : Key)
      → (check_present c j k now method req_url proof access_token m).0 ≡ ok (some p)
      → verify_proof j proof ≡ ok (claims, key)
      → check_times now claims ≡ ok (text_claim "jti" claims)
      → (k.add (k.add m.jti_cache (text_claim "jti" claims)).0 (text_claim "jti" claims)).1 ≡ false
      → (check_present c j k now method req_url proof access_token (left_behind now claims m)).0
        ≡ ok (some p)
  unfolding check_present left_behind
  again now method req_url proof access_token m p claims key h v t held =
      ground (arith, check-check c m.nonce now (text_claim "nonce" claims))

  -- Past the first two tests, which read no state, CheckProof is its second part.
  check_proof-present :
      (now : ℕ) (method req_url : String) (headers : List String) (access_token : Option String)
      (m n : Manager k) (p : Proof)
      → (check_proof c j k now method req_url headers access_token m).0 ≡ ok (some p)
      → check_proof c j k now method req_url headers access_token n
        ≡ check_present c j k now method req_url (extract_proof headers) access_token n
  unfolding check_proof
  check_proof-present now method req_url headers access_token m n p h = ground arith

  -- After a request whose proof was accepted, with nothing in between and at the same reading of the
  -- clock, a second request with the same proof gets the same answer, where the cache keeps what its
  -- documentation says: its answer, which the code takes for "seen before", is about evictions.
  pub replay_accepted :
      IsExpirable k
      → (now : ℕ) (method req_url : String) (headers : List String) (access_token : Option String)
        (m : Manager k) (p : Proof)
      → (check_proof c j k now method req_url headers access_token m).0 ≡ ok (some p)
      → (check_proof c j k now method req_url headers access_token
          (check_proof c j k now method req_url headers access_token m).1).0
        ≡ ok (some p)
  replay_accepted law now method req_url headers access_token m p h =
      let proof = extract_proof headers in
      let here =
        λ (n : Manager k). check_proof-present now method req_url headers access_token m n p h in
      let first = present_of c j k now method req_url headers access_token m p h in
      let ((claims, key), v) =
        ok_of (verify_proof j proof)
          (verified_of c j k now method req_url proof access_token m p first) in
      let facts = facts_of c j k now method req_url proof access_token m p claims key first v in
      let t = times_jti now claims facts.0 in
      let held =
        law.add_held _ (text_claim "jti" claims)
          (law.add_holds m.jti_cache (text_claim "jti" claims)) in
      rw (here m, here _, state_of now method req_url proof access_token m p claims key first v t)
        (again now method req_url proof access_token m p claims key first v t held)

  check_target-path :
      (method req_a req_b : String) (claims : MapClaims) (u v : Url)
      → j.url_parse req_a ≡ some u
      → j.url_parse req_b ≡ some v
      → oauth_normalize_htu u ≡ oauth_normalize_htu v
      → check_target j method req_a claims ≡ check_target j method req_b claims
  unfolding check_target oauth_parse_htu
  check_target-path method req_a req_b claims u v hu hv e = rw (hu, hv, e)

  normalize_path :
      (u v : Url)
      → u.scheme ≡ v.scheme
      → u.host ≡ v.host
      → u.raw_path ≡ ""
      → v.raw_path ≡ ""
      → oauth_normalize_htu u ≡ oauth_normalize_htu v
  unfolding oauth_normalize_htu
  normalize_path u v s h p q = rw (s, h, p, q)

  present-path :
      (now : ℕ) (method req_a req_b proof : String) (access_token : Option String) (m : Manager k)
      (r : Result ProofError (MapClaims × Key))
      → verify_proof j proof ≡ r
      → ((claims : MapClaims)
          → check_target j method req_a claims ≡ check_target j method req_b claims)
      → check_present c j k now method req_a proof access_token m
        ≡ check_present c j k now method req_b proof access_token m
  unfolding check_present
  present-path now method req_a req_b proof access_token m (ok (claims, key)) v same =
      ground (arith, same claims)
  present-path now method req_a req_b proof access_token m (err e) v same = ground arith

  -- Two addresses of one host whose paths need no unusual encoding are one to the check: it has the
  -- same answer, and leaves the same state, for both.
  pub check_proof-path :
      (now : ℕ) (method req_a req_b : String) (headers : List String) (access_token : Option String)
      (m : Manager k) (u v : Url)
      → j.url_parse req_a ≡ some u
      → j.url_parse req_b ≡ some v
      → u.scheme ≡ v.scheme
      → u.host ≡ v.host
      → u.raw_path ≡ ""
      → v.raw_path ≡ ""
      → check_proof c j k now method req_a headers access_token m
        ≡ check_proof c j k now method req_b headers access_token m
  unfolding check_proof
  check_proof-path now method req_a req_b headers access_token m u v hu hv s h p q =
      let same =
        present-path now method req_a req_b (extract_proof headers) access_token m _ refl (λ claims.
          check_target-path method req_a req_b claims u v hu hv (normalize_path u v s h p q)) in
      ground (arith, same)
