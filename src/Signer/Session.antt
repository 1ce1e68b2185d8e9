-- ===== src/Signer/Session.antt =====
-- server/handle_signer_connect.go: the main loop of handleSignerConnect, a turn of which handles one
-- message of the signer or one request of the queue; and extractPayloadFromMsg of
-- server/handle_account_signer.go.
pub mod Delivery
pub mod Failures
use vow.Prelude.{
  ℕ, String, str_eq, Bool, true, false, Option, none, some, if◌then◌else◌, Bytes, Result, ok, err,
}
use vow.Prelude.Results.{◌>>=◌}
use vow.Signer.Conn.{Request, SignerError, not_connected, rejected, timeout, cancelled}
use vow.Signer.Hub.{
  Hub, Fault, Between, deliver_signature, deliver_rejection, send, unregister, fail_all,
}
use vow.WebAuthn.Libraries.{Libraries}
use vow.WebAuthn.Response.{Incoming, verify_webauthn_sign_response}

-- What stays the same while the loop runs.
pub record Setup : Type 1 where
  pub lib : Libraries
  pub did : String
  pub conn : ℕ
  -- the other goroutines, while this one delivers
  pub between : Between
  pub auth_public_key : Bytes
  pub signing_public_key : Bytes
  pub hostname : String
  -- json.Unmarshal of a request: its fields payload and jwtPayload, "" where they are missing
  pub unmarshal_request : Bytes → Option (String × String)

pub record Session : Type 0 where
  pub pending_payloads : String → Option String
  pub hub : Hub

abbrev pub remember : (String → Option String) → String → Option String → String → Option String
remember m id value other = if str_eq other id then value else m other

unfoldable pub extract_payload_from_msg : (Bytes → Option (String × String)) → Bytes → Option String
extract_payload_from_msg unmarshal msg = elim (unmarshal msg) [
  | none ↦ none
  | some (payload, jwt_payload) ↦
      if str_eq payload ""
      then (if str_eq jwt_payload "" then none else some jwt_payload)
      else some payload
]

-- The payload is forgotten before the response is verified.
unfoldable pub on_sign_response : Setup → Incoming → Session → Result Fault Session
on_sign_response st inc s = elim (s.pending_payloads inc.request_id) [
  | none ↦ ok s
  | some payload ↦
      let t : Session = record s {
        pending_payloads = remember s.pending_payloads inc.request_id none;
      } in
      elim (verify_webauthn_sign_response st.lib st.auth_public_key st.signing_public_key payload
        inc st.hostname) [
          | err e ↦ ok t
          | ok raw_sig ↦ (do
            (found, h) ← deliver_signature st.between st.did inc.request_id raw_sig s.hub
            ok (record t { hub = h }))
        ]
]

unfoldable pub on_sign_reject : Setup → Incoming → Session → Result Fault Session
on_sign_reject st inc s = do
  (found, h) ← deliver_rejection st.between st.did inc.request_id s.hub
  ok (record { pending_payloads = remember s.pending_payloads inc.request_id none; hub = h })

unfoldable pub on_incoming : Setup → Incoming → Session → Result Fault Session
unfolding on_sign_response on_sign_reject
on_incoming st inc s =
    let response = on_sign_response st inc s in
    let reject = on_sign_reject st inc s in
    if str_eq inc.type_ "sign_response"
    then response
    else if str_eq inc.type_ "sign_reject"
    then reject
    else ok s

-- The deferred calls of the handler.
unfoldable pub leave : String → ℕ → Hub → Result Fault Hub
leave did conn h = unregister did conn h >>= fail_all conn not_connected

-- A request whose frame was written, or was not: then the handler returns.
unfoldable pub on_request : Setup → Bool → Request → Session → Result Fault Session
unfolding leave extract_payload_from_msg
on_request st written r s =
    let gone = (do
      g ← send r.reply (record { sig = none; err = some not_connected }) s.hub
      h ← leave st.did st.conn g
      ok (record s { hub = h })) in
    if written
    then ok (elim (extract_payload_from_msg st.unmarshal_request r.msg) [
      | none ↦ s
      | some payload ↦ record s {
        pending_payloads = remember s.pending_payloads r.request_id (some payload);
      }
    ])
    else gone

-- HandleSignerError of internal/helpers/helpers.go: the status and the error code that the write
-- handlers answer with, or none where nothing failed.
unfoldable pub handle_signer_error : Option SignerError → Option (ℕ × String)
handle_signer_error none = none
handle_signer_error (some not_connected) = some (400, "AccountNotFound")
handle_signer_error (some rejected) = some (400, "UserTookDownRepo")
handle_signer_error (some timeout) = some (400, "RepoDeactivated")
handle_signer_error (some cancelled) = some (500, "Internal server error")
