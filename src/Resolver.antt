-- ===== src/Resolver.antt =====
-- internal/resolver/resolver.go: what is done with a query, and the counters, the log and the
-- subscribers that are told of it.
pub mod State
pub mod Journal
pub mod Names
pub mod Replies
pub mod Forward
pub mod Resolve
pub mod Lookup
pub mod Policy
pub mod Balance
pub mod Branches
pub mod Counts
pub mod Agreement
pub mod Repeat
pub mod History
pub mod Local
mod Runs
