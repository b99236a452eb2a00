-- ===== src/Upstream.antt =====
-- lynxdns-core/internal/upstream: the circuit breaker and the statistics of one upstream server.
pub mod Breaker
pub mod Stats
mod Runs
