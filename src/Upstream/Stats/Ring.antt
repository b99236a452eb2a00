-- ===== src/Upstream/Stats/Ring.antt =====
-- The counters, and the ring buffer of latencies against the history of successes.
use lynx_dns.Common.{
  ℕ, zero, suc, ◌+◌, ◌-◌, ◌*◌, ◌%◌, ◌≤◌, ◌<◌, min, ◌≡◌, refl, ◌≢◌, Bool, arith, List, [], ◌∷◌, map,
  length, get_elem?, replicate, length-replicate, length-set, get_elem?-set_self, get_elem?-set_ne,
  ℤ, pos, pos_part, set, ◌∙◌,
}
use lynx_dns.Upstream.Stats.{
  Stats, latency_buffer_size, new_stats, record_success, record_failure, snapshot,
}

pub record IsValid (s : Stats) : Type 0 where
  pub total : s.requests ≡ s.successes + s.failures
  pub timed_out : s.timeouts ≤ s.failures
  pub size : length s.latencies ≡ latency_buffer_size
  pub index : s.lat_idx ≡ s.successes % latency_buffer_size
  pub samples : s.lat_count ≡ min s.successes latency_buffer_size

pub new_stats-IsValid : IsValid new_stats
unfolding new_stats
new_stats-IsValid = record {
  total = omega arith;
  timed_out = omega arith;
  size = length-replicate {A = ℕ} latency_buffer_size 0;
  index = omega arith;
  samples = omega arith;
}

success-IsValid : (latency : ℤ) (s : Stats) → IsValid s → IsValid (record_success latency s)
unfolding record_success
success-IsValid latency s v = record {
  total = omega arith;
  timed_out = v.timed_out;
  size = omega (arith, length-set s.latencies s.lat_idx (pos_part latency));
  index = omega arith;
  samples = ground arith;
}

failure-IsValid : (t : Bool) (s : Stats) → IsValid s → IsValid (record_failure t s)
unfolding record_failure
failure-IsValid t s v = ground arith

-- Both operations keep the counters and the write position of the ring consistent: requests are
-- successes and failures, timeouts are among the failures, and the ring has one sample for each of
-- the last 1024 successes, at most.
pub operations-IsValid :
    (latency : ℤ) (t : Bool) (s : Stats)
    → IsValid s
    → IsValid (record_success latency s) × IsValid (record_failure t s)
operations-IsValid latency t s v = (success-IsValid latency s v, failure-IsValid t s v)

-- The statistics after successes with the given latencies, the latest first.
unfoldable pub run : List ℤ → Stats
run [] = new_stats
run (l ∷ older) = record_success l (run older)

run-IsValid : (ls : List ℤ) → IsValid (run ls)
unfolding run
run-IsValid [] = new_stats-IsValid
run-IsValid (l ∷ older) = success-IsValid l (run older) (run-IsValid older)

successes-run : (ls : List ℤ) → (run ls).successes ≡ length ls
unfolding run new_stats record_success
successes-run [] = refl
successes-run (l ∷ older) = omega (arith, successes-run older)

latencies-record_success :
    (l : ℤ) (s : Stats) → (record_success l s).latencies ≡ set s.latencies s.lat_idx (pos_part l)
unfolding record_success
latencies-record_success l s = refl

-- The ring holds, for each of the last 1024 successes, its latency: the one `j` successes ago stands
-- `j` places behind the last write, going round.
pub get_elem?-run :
    (ls : List ℤ) (j : ℕ)
    → j < length ls
    → j < latency_buffer_size
    → get_elem? (run ls).latencies ((length ls - 1 - j) % latency_buffer_size)
      ≡ get_elem? (map pos_part ls) j
unfolding run
get_elem?-run [] j h k = absurd (omega arith)
get_elem?-run (l ∷ older) zero h k =
    let v = run-IsValid older in
    let here : (suc (length older) - 1 - 0) % latency_buffer_size ≡ (run older).lat_idx =
      omega (arith, v.index, successes-run older) in
    rw (latencies-record_success l (run older)) (
      rw here (
        get_elem?-set_self (run older).latencies (run older).lat_idx (pos_part l)
          (omega (arith, v.size, v.index))))
get_elem?-run (l ∷ older) (suc j) h k =
    let v = run-IsValid older in
    let there : (suc (length older) - 1 - suc j) % latency_buffer_size
        ≡ (length older - 1 - j) % latency_buffer_size =
      omega arith in
    let apart : (run older).lat_idx ≢ (length older - 1 - j) % latency_buffer_size =
      λ e. omega (arith, v.index, successes-run older) in
    rw (latencies-record_success l (run older)) (
      rw there (
        get_elem?-set_ne (run older).latencies (run older).lat_idx
          ((length older - 1 - j) % latency_buffer_size) (pos_part l) apart
        ∙ get_elem?-run older j (omega arith) (omega arith)))

sum_run : (n l : ℕ) → (run (replicate n (pos l))).lat_sum ≡ n * l
unfolding run new_stats record_success
sum_run zero l = omega arith
sum_run (suc n) l = omega (arith, sum_run n l)

avg_snapshot :
    (c d : ℕ → ℕ) (s : Stats)
    → IsValid s
    → 0 < s.successes
    → ((snapshot c d s).avg_sum ≡ s.lat_sum) × ((snapshot c d s).avg_count ≡ s.lat_count)
unfolding snapshot
avg_snapshot c d s v h = ground arith

-- After `n` successes that all took `l` ns the reported average is the quotient of `n * l` by the
-- number of samples kept: it is `l` up to 1024 successes, and beyond them it grows with `n`, since
-- the sum of overwritten samples is never taken back.
pub snapshot_average :
    (c d : ℕ → ℕ) (n l : ℕ)
    → 0 < n
    → ((snapshot c d (run (replicate n (pos l)))).avg_sum ≡ n * l)
      × ((snapshot c d (run (replicate n (pos l)))).avg_count ≡ min n latency_buffer_size)
snapshot_average c d n l h =
    let ls = replicate n (pos l) in
    let v = run-IsValid ls in
    let k : (run ls).successes ≡ n = successes-run ls ∙ length-replicate n (pos l) in
    let (a, b) = avg_snapshot c d (run ls) v (omega arith) in
    (a ∙ sum_run n l, b ∙ omega (arith, v.samples))
