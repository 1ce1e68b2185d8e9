-- ===== src/Par.antt =====
-- server/handle_oauth_par.go: a client pushes its authorization request. The proof is checked as in
-- Dpop, the client is the one of OauthClient and authenticates as in oauth/provider/client_auth.go
-- (Authenticate). The validator's `required` fields are texts that are not empty.
pub mod Authenticate
pub mod Pushed
mod Examples
use vow.Prelude.{
  ℕ, ◌+◌, ◌*◌, String, str_eq, str_append, Bool, true, false, not, ◌&&◌, ◌||◌, Option, none, some,
  List, [], ◌∷◌, if◌then◌else◌, Result, ok, err, Crypto,
}
use vow.Prelude.Action.{
  Action, pure, fail, lift, need, gets, modify, stop_if, continue, ◌>>=◌, ◌>>◌,
}
use vow.Dpop.Nonce.{second}
use vow.Dpop.Jose.{Jose, JtiCache}
use vow.Dpop.Proof.{Proof, ProofError}
use vow.Dpop.Manager.{Manager, check_proof}
use vow.OauthClient.{Libraries, MetadataError}
use vow.OauthClient.Manager.{Client, MetadataCache, get_client}
use vow.Par.Authenticate.{
  Assertions, AuthenticateRequest, ClientAuth, ClientAuthError, authenticate,
}

pub record ParRequest : Type 0 where
  pub client : AuthenticateRequest
  pub response_type : String
  pub code_challenge : Option String
  pub code_challenge_method : String
  pub state : String
  pub redirect_uri : String
  pub scope : String
  pub login_hint : Option String
  pub dpop_jkt : Option String
  pub response_mode : Option String

pub record PushedRequest : Type 0 where
  pub request_id : String
  pub client_id : String
  pub client_auth : ClientAuth
  pub parameters : ParRequest
  pub expires_at : ℕ

pub data ParError : Type 0 where
  missing_parameters dpop_required not_bound jkt_mismatch nil_pointer : ParError
  proof_required proof_not_allowed : ParError
  bad_proof : ProofError → ParError
  bad_client : MetadataError → ParError
  bad_auth : ClientAuthError → ParError

abbrev pub par_expires_in : ℕ
par_expires_in = 5 * 60 * second

abbrev pub present : Option String → Bool
present none = false
present (some s) = not (str_eq s "")

-- The fields that the validator requires.
abbrev pub is_complete : ParRequest → Bool
is_complete r = not (
    str_eq r.client.client_id ""
    || str_eq r.response_type ""
    || not (present r.code_challenge)
    || str_eq r.code_challenge_method ""
    || str_eq r.state ""
    || str_eq r.redirect_uri ""
    || str_eq r.scope "")

-- The thumbprint that the request is bound to. A proof that is missing is dereferenced.
unfoldable pub bind_jkt : Bool → Option Proof → Option String → Result ParError (Option String)
bind_jkt false proof none = ok none
bind_jkt true none none = err nil_pointer
bind_jkt true (some p) none = if str_eq p.jkt "" then err dpop_required else ok (some p.jkt)
bind_jkt false proof (some jkt) = err not_bound
bind_jkt true none (some jkt) = err nil_pointer
bind_jkt true (some p) (some jkt) = if str_eq p.jkt jkt then ok (some jkt) else err jkt_mismatch

-- What handles the HTTP request: its method, URL and DPoP headers, the clock and a fresh identifier.
pub record Call : Type 0 where
  pub now : ℕ
  pub method : String
  pub url : String
  pub dpop_headers : List String
  pub request_id : String

module _ (k : JtiCache) where
  pub record State : Type 0 where
    pub proofs : Manager k
    pub metadata : MetadataCache
    pub requests : List PushedRequest

  abbrev pub Pushing : Type 0 → Type 0
  Pushing A = Action State ParError A

  abbrev pub with_proofs : {A : Type 0} → Action (Manager k) ProofError A → Pushing A
  with_proofs m s =
      let (r, t) = m s.proofs in
      (elim r [ ok x ↦ ok x | err e ↦ err (bad_proof e) ], record s { proofs = t })

  abbrev pub with_metadata : {A : Type 0} → Action MetadataCache MetadataError A → Pushing A
  with_metadata m s =
      let (r, t) = m s.metadata in
      (elim r [ ok x ↦ ok x | err e ↦ err (bad_client e) ], record s { metadata = t })

abbrev pub authenticated : {A : Type 0} → Result ClientAuthError A → Result ParError A
authenticated (ok x) = ok x
authenticated (err e) = err (bad_auth e)

abbrev pub sent : Option Proof → Bool
sent none = false
sent (some p) = true

module _ (k : JtiCache) (lib : Libraries) (a : Assertions lib.Key) where
  -- Provider.AuthenticateClient, with AllowMissingDpopProof.
  unfoldable pub authenticate_client :
      ℕ
      → (String → Option lib.Key)
      → AuthenticateRequest
      → Option Proof
      → Pushing k (Client lib × ClientAuth)
  authenticate_client now jwks_cache req proof = do
    client ← with_metadata k (get_client lib jwks_cache req.client_id)
    _ ← stop_if (sent proof && not client.metadata.dpop_bound_access_tokens) proof_not_allowed
    auth ← lift (authenticated (authenticate lib a now req client))
    pure (client, auth)

module _ (lib : Libraries) where
  abbrev pub pushed : Call → ParRequest → Client lib → ClientAuth → Option String → PushedRequest
  pushed call r client auth jkt = record {
    request_id = call.request_id;
    client_id = client.metadata.client_id;
    client_auth = auth;
    parameters = record r { dpop_jkt = jkt };
    expires_at = call.now + par_expires_in;
  }

module _ (c : Crypto) (j : Jose) (k : JtiCache) (lib : Libraries) (a : Assertions lib.Key) where
  -- handleOauthPar, with the identifier behind the URI that it answers.
  unfoldable pub par : (String → Option lib.Key) → Call → ParRequest → Pushing k String
  unfolding authenticate_client bind_jkt
  par jwks_cache call r = do
    _ ← stop_if (not (is_complete r)) missing_parameters
    proof ← with_proofs k (check_proof c j k call.now call.method call.url call.dpop_headers none)
    found ← authenticate_client k lib a call.now jwks_cache r.client proof
    jkt ← lift (bind_jkt found.0.metadata.dpop_bound_access_tokens proof r.dpop_jkt)
    _ ← modify (λ (s : State k). record s {
      requests = pushed lib call r found.0 found.1 jkt ∷ s.requests;
    })
    pure call.request_id
