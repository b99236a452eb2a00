-- ===== src/Upstream/Breaker.antt =====
-- lynxdns-core/internal/upstream/breaker.go. The state is only ever assigned the three constants, so
-- it is an enumeration, and the `default` branch of `AllowRequest` is unreachable. The int64
-- counters grow by one per request and are naturals. A nil receiver answers as the callers see it
-- (`AllowRequest` true, the others nothing), and every breaker that the client makes is not nil.
pub mod Machine
pub mod Trace
use lynx_dns.Common.{ℕ, ◌+◌, ◌-◌, ◌*◌, Bool, true, false, leb, ◌&&◌, if◌then◌else◌, Bytes, codes}

-- StateClosed, StateOpen, StateHalfOpen
pub data State : Type 0 where
  closed opened half_open : State

abbrev pub is_closed : State → Bool
is_closed closed = true
is_closed _ = false

abbrev pub is_half_open : State → Bool
is_half_open half_open = true
is_half_open _ = false

abbrev pub fail_threshold : ℕ
fail_threshold = 5

-- 10 * time.Second, in nanoseconds
abbrev pub cooldown : ℕ
cooldown = 10 * 1000000000

pub record Breaker : Type 0 where
  pub state : State
  pub consecutive_fails : ℕ
  pub trips : ℕ
  pub recovers : ℕ
  pub opened_at : ℕ

unfoldable pub new_breaker : Breaker
new_breaker = record {
  state = closed;
  consecutive_fails = 0;
  trips = 0;
  recovers = 0;
  opened_at = 0;
}

-- The part of `AllowRequest` under the lock: the double check, then the cooldown. Truncated
-- subtraction is exact here, as the cooldown is positive.
unfoldable pub allow_locked : ℕ → Breaker → State → Breaker × Bool
allow_locked now b opened =
    if leb cooldown (now - b.opened_at) then (record b { state = half_open }, true) else (b, false)
allow_locked now b _ = (b, true)

-- `AllowRequest` from the state that its first, unlocked load has seen.
unfoldable pub allow_seen : State → ℕ → Breaker → Breaker × Bool
unfolding allow_locked
allow_seen opened now b = allow_locked now b b.state
allow_seen _ now b = (b, true)

-- `AllowRequest` with nothing between the load and the lock.
unfoldable pub allow_request : ℕ → Breaker → Breaker × Bool
unfolding allow_seen
allow_request now b = allow_seen b.state now b

unfoldable pub trip : ℕ → Breaker → Breaker
trip now b = record b { state = opened; trips = b.trips + 1; opened_at = now }

unfoldable pub record_success : Breaker → Breaker
record_success b =
    if is_half_open b.state
    then record b { state = closed; recovers = b.recovers + 1; consecutive_fails = 0 }
    else record b { consecutive_fails = 0 }

unfoldable pub record_failure : ℕ → Breaker → Breaker
unfolding trip
record_failure now b =
    let counted = record b { consecutive_fails = b.consecutive_fails + 1 } in
    if is_half_open b.state
    then trip now b
    else if is_closed b.state && leb fail_threshold counted.consecutive_fails
    then trip now counted
    else counted

-- stateNames
abbrev pub state_name : State → Bytes
state_name closed = codes "closed"
state_name opened = codes "open"
state_name half_open = codes "half_open"

pub record BreakerSnapshot : Type 0 where
  pub current_state : Bytes
  pub trip_count : ℕ
  pub recover_count : ℕ

unfoldable pub snapshot : Breaker → BreakerSnapshot
snapshot b = record {
  current_state = state_name b.state;
  trip_count = b.trips;
  recover_count = b.recovers;
}
