-- ===== src/Par/Examples.antt =====
-- Tests of server/handle_oauth_par.go at a concrete request, and the theorem applied there.
use vow.Prelude.{ℕ, ◌*◌, ◌≡◌, true, none, some, [], ◌∷◌}
use vow.Dpop.Nonce.{second}
use vow.Dpop.Proof.{keyfunc}
use vow.Dpop.Jose.{MapClaims, text, number}
use vow.Dpop.Examples.{toy, toy_jose, unbounded, manager}
use vow.OauthClient.Examples.{lib, id, no_metadata, no_keys}
use vow.Par.Authenticate.{Assertions, jwt_bearer}
use vow.Par.{ParRequest, State, Call, par}

abbrev claims : MapClaims
claims = ("sub", text id) ∷ ("iat", number 100) ∷ ("jti", text "a1") ∷ []

-- Every assertion carries these claims and is signed with ES256.
abbrev assertions : Assertions ℕ
assertions = record {
  hostname = "pds.example";
  raw = λ key. some (1 ∷ []);
  thumbprint = λ key. some "thumb";
  parse_unverified = λ s. some "kid";
  parse = λ s keyfunc. elim (keyfunc "ES256") [
    | none ↦ none
    | some key ↦ some (record { valid = true; alg = "ES256"; claims = claims })
  ];
  Signed = λ s c alg key. alg ≡ "ES256";
}

abbrev request : ParRequest
request = record {
  client = record {
    client_id = id;
    client_assertion_type = some jwt_bearer;
    client_assertion = some "assertion";
  };
  response_type = "code";
  code_challenge = some "challenge";
  code_challenge_method = "S256";
  state = "state";
  redirect_uri = "https://other.example/cb";
  scope = "atproto";
  login_hint = none;
  dpop_jkt = none;
  response_mode = none;
}

abbrev call : Call
call = record {
  now = 101 * second;
  method = "GET";
  url = "https://pds.example/b";
  dpop_headers = "proof" ∷ [];
  request_id = "req-1";
}

abbrev state : State unbounded
state = record { proofs = manager; metadata = no_metadata; requests = [] }

abbrev after : State unbounded
after = (par toy toy_jose unbounded lib assertions no_keys call request state).1
