-- ===== src/Upstream/Stats.antt =====
-- lynxdns-core/internal/upstream/stats.go. The int64 counters and the sum grow by one request at a
-- time and are naturals. There are no floats: a snapshot keeps the sum and the count of which the
-- source takes the quotient, and percentiles in nanoseconds; ceil(p * n) is an argument.
pub mod Ring
pub mod Percentile
use lynx_dns.Common.{
  ℕ, ◌+◌, ◌-◌, ◌%◌, Bool, true, false, ltb, leb, ◌==◌, if◌then◌else◌, List, [], ◌∷◌, length, set,
  take, replicate, get_or, ℤ, pos_part,
}

abbrev pub latency_buffer_size : ℕ
latency_buffer_size = 1024

pub record Stats : Type 0 where
  pub requests : ℕ
  pub successes : ℕ
  pub failures : ℕ
  pub timeouts : ℕ
  pub latencies : List ℕ
  pub lat_idx : ℕ
  pub lat_count : ℕ
  pub lat_sum : ℕ

unfoldable pub new_stats : Stats
new_stats = record {
  requests = 0;
  successes = 0;
  failures = 0;
  timeouts = 0;
  latencies = replicate latency_buffer_size 0;
  lat_idx = 0;
  lat_count = 0;
  lat_sum = 0;
}

-- A negative latency counts as 0.
unfoldable pub record_success : ℤ → Stats → Stats
record_success latency s = record {
  requests = s.requests + 1;
  successes = s.successes + 1;
  failures = s.failures;
  timeouts = s.timeouts;
  latencies = set s.latencies s.lat_idx (pos_part latency);
  lat_idx = (s.lat_idx + 1) % latency_buffer_size;
  lat_count = if ltb s.lat_count latency_buffer_size then s.lat_count + 1 else s.lat_count;
  lat_sum = s.lat_sum + pos_part latency;
}

unfoldable pub record_failure : Bool → Stats → Stats
record_failure is_timeout s = record s {
  requests = s.requests + 1;
  failures = s.failures + 1;
  timeouts = if is_timeout then s.timeouts + 1 else s.timeouts;
}

-- What `sort.Slice` by `<` makes of a slice of integers.
unfoldable pub insert_sorted : ℕ → List ℕ → List ℕ
insert_sorted v [] = v ∷ []
insert_sorted v (w ∷ ws) = if leb v w then v ∷ w ∷ ws else w ∷ insert_sorted v ws

unfoldable pub sorted : List ℕ → List ℕ
unfolding insert_sorted
sorted [] = []
sorted (v ∷ vs) = insert_sorted v (sorted vs)

-- The rank, from ceil(p * n), clamped to the samples.
unfoldable pub clamp_rank : ℕ → ℕ → ℕ
clamp_rank n c = let rank = if ltb c 1 then 1 else c in if ltb n rank then n else rank

unfoldable pub percentile_from_sorted : (ℕ → ℕ) → List ℕ → ℕ
unfolding sorted clamp_rank
percentile_from_sorted ceil values =
    let n = length values in
    if n == 0 then 0 else get_or (sorted values) (clamp_rank n (ceil n) - 1) 0

pub record StatsSnapshot : Type 0 where
  pub requests : ℕ
  pub successes : ℕ
  pub failures : ℕ
  pub timeouts : ℕ
  pub avg_sum : ℕ
  pub avg_count : ℕ
  pub p95 : ℕ
  pub p99 : ℕ

unfoldable pub snapshot : (ℕ → ℕ) → (ℕ → ℕ) → Stats → StatsSnapshot
unfolding percentile_from_sorted
snapshot ceil95 ceil99 s =
    let buf =
      if leb s.lat_count latency_buffer_size then take s.lat_count s.latencies else s.latencies in
    let some_samples = ltb 0 s.lat_count in
    record {
      requests = s.requests;
      successes = s.successes;
      failures = s.failures;
      timeouts = s.timeouts;
      avg_sum = if some_samples then s.lat_sum else 0;
      avg_count = s.lat_count;
      p95 = if some_samples then percentile_from_sorted ceil95 buf else 0;
      p99 = if some_samples then percentile_from_sorted ceil99 buf else 0;
    }
