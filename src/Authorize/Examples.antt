-- ===== src/Authorize/Examples.antt =====
-- Tests of server/handle_oauth_authorize.go at concrete requests, and the theorem applied there.
use vow.Prelude.{
  ◌≡◌, ◌≢◌, refl, arith, none, some, List, [], ◌∷◌, bytes, utf8_char, ok, err, true, false,
}
use vow.Authorize.{
  Approval, interleave, AuthorizationRequest, Form, Env, approved, already_authorized,
  decode_request_uri, scan_request, update_request, hash_or_question, redirect_uri,
  authorize_approve, authorize_decided, authorize_post,
}
use vow.Authorize.Once.{IsApproved, authorize_post-once}

-- Two browsers of two accounts.
abbrev alice : Env
alice = record {
  session_did = some "did:alice";
  now = 100;
  code = "cod-1";
  ip = "192.0.2.1";
  hostname = "pds.example";
  client_uri = λ id. some "https://app.example.com";
  query_escape = λ s. s;
  query_unescape = λ b. some "req-1";
  encode_values = λ vs. "code=cod-1";
}

abbrev bob : Env
bob = record alice { session_did = some "did:bob"; code = "cod-2" }

abbrev pushed : AuthorizationRequest
pushed = record {
  request_id = "req-1";
  client_id = "https://app.example.com/client.json";
  parameters = record {
    state = "s";
    redirect_uri = "https://app.example.com/callback";
    response_type = "code";
    response_mode = none;
  };
  expires_at = 300;
  sub = none;
  code = none;
  accepted = false;
  ip = "";
}

abbrev form : Form
form = record {
  request_uri = "urn:ietf:params:oauth:request_uri:req-1";
  accept_or_reject = "accept";
}

abbrev approved_rows : List AuthorizationRequest
approved_rows =
    record pushed { sub = some "did:alice"; code = some "cod-1"; accepted = true; ip = "192.0.2.1" }
    ∷ []

-- The handler of a third browser, which read the request before it was approved.
abbrev carol : Approval
carol = record { did = "did:carol"; code = "cod-3"; ip = "192.0.2.3"; id = "req-1" }

approves :
    authorize_post alice [] form (pushed ∷ [])
    ≡ (ok (approved "https://app.example.com/callback?code=cod-1" "cod-1"), approved_rows)
unfolding decode_request_uri scan_request update_request hash_or_question redirect_uri
    authorize_approve authorize_decided authorize_post interleave bytes utf8_char
approves = refl

authorize_post-once_example :
    IsApproved alice [] form
      (pushed ∷ [])
      approved_rows
      "https://app.example.com/callback?code=cod-1"
      "cod-1"
    × ((authorize_post bob (carol ∷ []) form (interleave (carol ∷ []) approved_rows)).0
        ≢ ok (approved "https://app.example.com/callback?code=cod-1" "cod-2"))
unfolding decode_request_uri
authorize_post-once_example =
    authorize_post-once alice bob [] (carol ∷ []) (carol ∷ []) form form (pushed ∷ []) approved_rows
      "https://app.example.com/callback?code=cod-1" "cod-1"
      "https://app.example.com/callback?code=cod-1" "cod-2" (omega arith) approves refl

-- Two handlers that both read the request before either wrote: both send a code, and the row has the
-- one that was written last.
test_race :
    authorize_post bob
      (record { did = "did:alice"; code = "cod-1"; ip = "192.0.2.1"; id = "req-1" } ∷ [])
      form
      (pushed ∷ [])
    ≡ (
      ok (approved "https://app.example.com/callback?code=cod-1" "cod-2"),
      record pushed { sub = some "did:bob"; code = some "cod-2"; accepted = true; ip = "192.0.2.1" }
          ∷ [],
    )
unfolding decode_request_uri scan_request update_request hash_or_question redirect_uri
    authorize_approve authorize_decided authorize_post interleave bytes utf8_char
test_race = refl

test_again : (authorize_post bob [] form approved_rows).0 ≡ err already_authorized
unfolding decode_request_uri scan_request update_request hash_or_question redirect_uri
    authorize_approve authorize_decided authorize_post interleave bytes utf8_char
test_again = refl
