-- ===== src/Repo.antt =====
-- server/repo.go: the repositories of the accounts.
pub mod Cache
pub mod Libraries
pub mod Writes
pub mod Blobs
pub mod Commit
mod Examples
