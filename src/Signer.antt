-- ===== src/Signer.antt =====
-- server/signer_hub.go and the loop of server/handle_signer_connect.go: signing requests on their way
-- to the signer of an account and back.
pub mod Conn
pub mod Hub
pub mod Session
pub mod Examples
