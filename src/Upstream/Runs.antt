-- ===== src/Upstream/Runs.antt =====
-- Concrete runs of the breaker and of the statistics, and the theorems at concrete inputs.
use lynx_dns.Common.{◌-◌, ◌%◌, ◌≤◌, ◌≡◌, refl, arith, [], ◌∷◌, map, get_elem?, pos, pos_part}
use lynx_dns.Upstream.Breaker.{opened, Breaker, new_breaker, record_failure}
use lynx_dns.Upstream.Breaker.Machine.{fail_times}
use lynx_dns.Upstream.Breaker.Trace.{
  failure, here, next, IsValid, Reach-IsValid, new_breaker-IsValid,
}
use lynx_dns.Upstream.Stats.{latency_buffer_size, clamp_rank, percentile_from_sorted}
use lynx_dns.Upstream.Stats.Ring.{run, get_elem?-run}
use lynx_dns.Upstream.Stats.Percentile.{HasRank, percentile-HasRank}

abbrev tripped : Breaker
tripped = record { state = opened; consecutive_fails = 5; trips = 1; recovers = 0; opened_at = 100 }

five_failures : fail_times 5 100 new_breaker ≡ tripped
unfolding fail_times record_failure new_breaker
five_failures = refl

Reach-IsValid_example : IsValid (record_failure 9 new_breaker)
Reach-IsValid_example = Reach-IsValid new_breaker-IsValid (next here (failure 9))

get_elem?-run_example :
    get_elem? (run (pos 7 ∷ pos 5 ∷ [])).latencies ((2 - 1 - 1) % latency_buffer_size)
    ≡ get_elem? (map pos_part (pos 7 ∷ pos 5 ∷ [])) 1
get_elem?-run_example = get_elem?-run (pos 7 ∷ pos 5 ∷ []) 1 (omega arith) (omega arith)

percentile-HasRank_example :
    (1 ≤ clamp_rank 3 3)
    × (clamp_rank 3 3 ≤ 3)
    × HasRank (9 ∷ 1 ∷ 4 ∷ []) (clamp_rank 3 3) (percentile_from_sorted (λ n. n) (9 ∷ 1 ∷ 4 ∷ []))
percentile-HasRank_example = percentile-HasRank (λ n. n) (9 ∷ 1 ∷ 4 ∷ []) (omega arith)

median : percentile_from_sorted (λ n. 2) (9 ∷ 1 ∷ 4 ∷ []) ≡ 4
unfolding percentile_from_sorted
median = refl
