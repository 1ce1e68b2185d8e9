-- ===== src/Par/Pushed.antt =====
-- What the server keeps of a pushed request (server/handle_oauth_par.go, oauth/provider/client_auth.go).
use vow.Prelude.{
  ℕ, ◌+◌, ◌*◌, ◌≤◌, ◌≡◌, ◌≢◌, ◌⊎◌, String, str_append, true, Option, none, some, ◌∷◌, Bytes, Crypto,
  ok,
}
use vow.Dpop.Nonce.{second}
use vow.Dpop.Jose.{MapClaims, Jose, JtiCache, text_claim, number_claim}
use vow.Dpop.Proof.{Proof}
use vow.Dpop.Manager.{check_proof}
use vow.OauthClient.{Libraries}
use vow.OauthClient.Validate.Sound.{IsClient}
use vow.OauthClient.Manager.{Client, IsValidated}
use vow.Par.Authenticate.{Assertions, AuthenticateRequest, ClientAuth, no_auth}
use vow.Par.{ParRequest, State, Call, pushed}

-- A token is found valid only under the key of the function, by which its claims are signed.
abbrev pub IsVerifying : {Key : Type 0} → Assertions Key → Type 0
IsVerifying a =
    (assertion : String) (keyfunc : String → Option Bytes) (claims : MapClaims) (alg : String)
    → a.parse assertion keyfunc ≡ some (record { valid = true; alg = alg; claims = claims })
    → (key : Bytes) × (keyfunc alg ≡ some key) × a.Signed assertion claims alg key

module _ (lib : Libraries) (a : Assertions lib.Key) where
  -- The client signed an assertion for this server with its own key, within the last minute.
  pub record IsAsserted (now : ℕ) (req : AuthenticateRequest) (client : Client lib)
      (auth : ClientAuth) : Type 0 where
    pub assertion : String
    pub claims : MapClaims
    pub key : lib.Key
    pub raw : Bytes
    pub iat : ℕ
    pub given : req.client_assertion ≡ some assertion
    pub owned : client.jwks ≡ some key
    pub raw_key : a.raw key ≡ some raw
    pub signed : a.Signed assertion claims "ES256" raw
    pub subject : text_claim "sub" claims ≡ client.metadata.client_id
    pub audience :
        (text_claim "aud" claims ≡ "")
        ⊎ (text_claim "aud" claims ≡ str_append "https://" a.hostname)
    pub issued : number_claim "iat" claims ≡ some iat
    pub timely : now ≤ (iat + 60) * second
    pub identified : auth.jti ≡ text_claim "jti" claims
    pub named : auth.jti ≢ ""
    pub thumbprint : a.thumbprint key ≡ some auth.jkt

module _ (c : Crypto) (j : Jose) (k : JtiCache) (lib : Libraries) (a : Assertions lib.Key) where
  -- The row of a pushed request: its client was validated and authenticated, and its tokens are
  -- bound to the key of the proof.
  pub record IsPushed (call : Call) (r : ParRequest) (s t : State k) : Type 0 where
    pub client : Client lib
    pub auth : ClientAuth
    pub proof : Proof
    pub validated : IsClient lib r.client.client_id client.metadata
    pub authenticated :
        ((client.metadata.token_endpoint_auth_method ≡ "none") × (auth ≡ no_auth))
        ⊎ IsAsserted lib a call.now r.client client auth
    pub proven :
        (check_proof c j k call.now call.method call.url call.dpop_headers none s.proofs).0
        ≡ ok (some proof)
    pub stored : t.requests ≡ pushed lib call r client auth (some proof.jkt) ∷ s.requests
    pub kept : IsValidated lib t.metadata
