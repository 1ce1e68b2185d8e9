-- ===== src/Dpop/Manager.antt =====
-- oauth/dpop/manager.go and oauth/dpop/jti_cache.go: the manager's state, and CheckProof as the
-- sequence of its checks, with the cache and the nonce changed where the code changes them.
pub mod Soundness
pub mod Replay
use vow.Prelude.{
  ℕ, String, str_eq, Bool, true, false, not, Option, none, some, List, [], ◌∷◌, if◌then◌else◌,
  Bytes, Crypto, Result, ok, err,
}
use vow.Prelude.Action.{Action, ◌>>=◌, ◌>>◌, pure, lift, stop_if}
use vow.Dpop.Nonce
use vow.Dpop.Nonce.{Nonce, NonceArgs, new_nonce}
use vow.Dpop.Jose.{Jose, JtiCache, text_claim}
use vow.Dpop.Proof.{
  Proof, ProofError, method_required, replay_detected, use_dpop_nonce, extract_proof, verify_proof,
  check_times, check_target, check_ath, finish,
}

module _ (k : JtiCache) where
  open k use {Cache, add}

  pub record Manager : Type 0 where
    pub nonce : Nonce
    pub jti_cache : Cache

  -- jtiCache.add, which hands on what the cache's Add answers.
  unfoldable pub add_jti : String → Action Manager ProofError Bool
  add_jti jti m =
      let (cache, answer) = add m.jti_cache jti in (ok answer, record m { jti_cache = cache })

module _ (c : Crypto) (k : JtiCache) where
  unfoldable pub check_nonce : ℕ → String → Action (Manager k) ProofError Bool
  check_nonce now nonce m =
      let (n, answer) = Nonce.check c m.nonce now nonce in (ok answer, record m { nonce = n })

  -- Manager.NextNonce
  unfoldable pub next_nonce : Manager k → ℕ → Manager k × String
  next_nonce m now =
      let (n, nonce) = Nonce.next_nonce c m.nonce now in (record m { nonce = n }, nonce)

module _ (c : Crypto) (j : Jose) (k : JtiCache) where
  -- The part of CheckProof behind the header: `none` stands for a request without a proof.
  unfoldable pub check_present :
      ℕ → String → String → String → Option String → Action (Manager k) ProofError (Option Proof)
  unfolding add_jti check_nonce
  check_present now method req_url proof access_token = do
    verified ← lift (verify_proof j proof)
    let claims = verified.0
    jti ← lift (check_times now claims)
    seen ← add_jti k jti
    stop_if seen replay_detected
    lift (check_target j method req_url claims)
    stop_if (str_eq (text_claim "nonce" claims) "") use_dpop_nonce
    fresh ← check_nonce c k now (text_claim "nonce" claims)
    stop_if (not fresh) use_dpop_nonce
    lift (check_ath c access_token (text_claim "ath" claims))
    result ← lift (finish c claims verified.1)
    pure (some result)

  unfoldable pub check_proof :
      ℕ
      → String
      → String
      → List String
      → Option String
      → Action (Manager k) ProofError (Option Proof)
  check_proof now method req_url headers access_token = do
    stop_if (str_eq method "") method_required
    let proof = extract_proof headers
    if str_eq proof "" then pure none else check_present now method req_url proof access_token
