-- ===== src/Upstream/Breaker/Trace.antt =====
-- Goroutines that share one breaker. `AllowRequest` loads the state before it takes the lock, so its
-- locked part may run on a later state than the one that it saw.
use lynx_dns.Common.{ℕ, ◌≤◌, ◌<◌, ◌≡◌, ◌⊎◌, arith}
use lynx_dns.Upstream.Breaker.{
  State, closed, Breaker, new_breaker, allow_seen, record_success, record_failure, fail_threshold,
}

-- One critical section; `seen` is any state that the load may have returned.
pub data Step (b : Breaker) : Breaker → Type 0 where
  allow : (seen : State) (now : ℕ) → Step b (allow_seen seen now b).0
  success : Step b (record_success b)
  failure : (now : ℕ) → Step b (record_failure now b)

pub data Reach (b : Breaker) : Breaker → Type 0 where
  here : Reach b b
  next : {c d : Breaker} → Reach b c → Step c d → Reach b d

pub record IsValid (b : Breaker) : Type 0 where
  pub below : b.state ≡ closed → b.consecutive_fails < fail_threshold
  pub recovered : b.recovers ≤ b.trips
  pub tripped : (b.state ≡ closed) ⊎ (b.recovers < b.trips)

allow-IsValid :
    (seen : State) (now : ℕ) (b : Breaker) → IsValid b → IsValid (allow_seen seen now b).0
unfolding allow_seen
allow-IsValid seen now b v = ground arith

success-IsValid : (b : Breaker) → IsValid b → IsValid (record_success b)
unfolding record_success
success-IsValid b v = ground arith

failure-IsValid : (now : ℕ) (b : Breaker) → IsValid b → IsValid (record_failure now b)
unfolding record_failure
failure-IsValid now b v = ground arith

-- In every interleaving of the operations of any number of goroutines on a valid breaker: a closed
-- breaker has counted fewer failures than the threshold, recoveries never outnumber trips, and a
-- breaker that is not closed has tripped once more than it has recovered, at least.
pub Reach-IsValid : {b c : Breaker} → IsValid b → Reach b c → IsValid c
Reach-IsValid v here = v
Reach-IsValid v (next {c} r (allow seen now)) = allow-IsValid seen now c (Reach-IsValid v r)
Reach-IsValid v (next {c} r success) = success-IsValid c (Reach-IsValid v r)
Reach-IsValid v (next {c} r (failure now)) = failure-IsValid now c (Reach-IsValid v r)

pub new_breaker-IsValid : IsValid new_breaker
unfolding new_breaker
new_breaker-IsValid = ground arith
