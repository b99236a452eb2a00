-- ===== src/Upstream/Breaker/Machine.antt =====
-- What each operation of the breaker does to its state.
use lynx_dns.Common.{
  ℕ, zero, suc, ◌+◌, ◌≤◌, ◌<◌, ◌≡◌, refl, ◌↔◌, Bool, true, false, arith, leb, if◌then◌else◌, List,
  [], ◌∷◌, map,
}
use lynx_dns.Upstream.Breaker.{
  State, closed, opened, half_open, Breaker, allow_request, record_success, record_failure,
  cooldown, fail_threshold,
}

-- The diagram of the documentation: closed to open, open to half-open, and half-open to either.
pub data Edge : State → State → Type 0 where
  stay : (s : State) → Edge s s
  fail : Edge closed opened
  probe : Edge opened half_open
  recover : Edge half_open closed
  again : Edge half_open opened

-- A request is refused exactly when the breaker is open and the cooldown has not passed since it
-- opened.
pub refused_iff :
    (now : ℕ) (b : Breaker)
    → ((allow_request now b).1 ≡ false) ↔ ((b.state ≡ opened) × (now < b.opened_at + cooldown))
unfolding allow_request
refused_iff now b = ground arith

-- Every operation moves the state along one edge of the documented diagram or leaves it.
pub operations-Edge :
    (now : ℕ) (b : Breaker)
    → Edge b.state (allow_request now b).0.state
      × Edge b.state (record_success b).state
      × Edge b.state (record_failure now b).state
unfolding allow_request record_success record_failure
operations-Edge now b = grind (arith, stay, fail, probe, recover, again)

-- `n` failures in a row.
unfoldable pub fail_times : ℕ → ℕ → Breaker → Breaker
fail_times zero now b = b
fail_times (suc n) now b = fail_times n now (record_failure now b)

fail_times_opened :
    (n now : ℕ) (b : Breaker) → b.state ≡ opened → (fail_times n now b).state ≡ opened
unfolding fail_times record_failure
fail_times_opened zero now b h = h
fail_times_opened (suc n) now b h = fail_times_opened n now (record_failure now b) (ground arith)

-- One failure of a closed breaker below the threshold.
record_failure-closed :
    (now : ℕ) (b : Breaker)
    → b.state ≡ closed
    → ((record_failure now b).consecutive_fails ≡ b.consecutive_fails + 1)
      × ((record_failure now b).state
          ≡ (if leb fail_threshold (b.consecutive_fails + 1) then opened else closed))
unfolding record_failure
record_failure-closed now b h = ground arith

-- From a closed breaker that has counted fewer failures than the threshold, `n` further failures in
-- a row open it exactly when the count reaches the threshold, and it then stays open.
pub fail_times-state :
    (n now : ℕ) (b : Breaker)
    → b.state ≡ closed
    → b.consecutive_fails < fail_threshold
    → (fail_times n now b).state
      ≡ (if leb fail_threshold (b.consecutive_fails + n) then opened else closed)
unfolding fail_times
fail_times-state zero now b c h = ground arith
fail_times-state (suc n) now b c h = ground (
  arith,
  record_failure-closed now b c,
  fail_times_opened n now (record_failure now b),
  fail_times-state n now (record_failure now b),
)

-- The answers of `AllowRequest` to requests at the given times, none of which has finished.
unfoldable pub allow_all : List ℕ → Breaker → List Bool
allow_all [] b = []
allow_all (now ∷ nows) b = let (b', ok) = allow_request now b in ok ∷ allow_all nows b'

allow_all-half_open :
    (nows : List ℕ) (b : Breaker) → b.state ≡ half_open → allow_all nows b ≡ map (λ _. true) nows
unfolding allow_all allow_request
allow_all-half_open [] b h = refl
allow_all-half_open (now ∷ nows) b h = ground (arith, allow_all-half_open nows b h)

-- Once the cooldown of an open breaker has passed, every request is admitted until the first of
-- them finishes, not a single probe.
pub allow_all-cooled :
    (now : ℕ) (nows : List ℕ) (b : Breaker)
    → b.state ≡ opened
    → b.opened_at + cooldown ≤ now
    → allow_all (now ∷ nows) b ≡ map (λ _. true) (now ∷ nows)
unfolding allow_all allow_request
allow_all-cooled now nows b o h =
    ground (arith, allow_all-half_open nows (record b { state = half_open }) refl)
