-- ===== src/WebAuthn.antt =====
-- server/webauthn.go and the verification of a sign_response in server/handle_signer_connect.go.
pub mod BigEndian
pub mod Libraries
pub mod Registration
pub mod Assertion
pub mod Response
pub mod Examples
