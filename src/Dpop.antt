-- ===== src/Dpop.antt =====
-- oauth/dpop: the rotating nonce and the check of DPoP proofs.
pub mod Nonce
pub mod Htu
pub mod Jose
pub mod Proof
pub mod Manager
pub mod Examples
