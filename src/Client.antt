-- ===== src/Client.antt =====
-- internal/client/client.go: the upstream servers, a query to one of them and to a group.
pub mod Address
pub mod Base64
pub mod Query
pub mod Group
pub mod Invariant
mod Runs
