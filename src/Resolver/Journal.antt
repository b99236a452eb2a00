-- ===== src/Resolver/Journal.antt =====
-- The log of queries: `emitLog`, GetRecentQueries, Subscribe and Unsubscribe of
-- internal/resolver/resolver.go. Which queries a line is printed for is modelled, not its layout.
use lynx_dns.Common.{
  pos, negsuc, false, ltb, ℕ, ◌+◌, ◌-◌, ◌*◌, Bool, true, false, not, ◌&&◌, none, some, List, [],
  ◌∷◌, ◌++◌, map, Bytes, codes, text_eq, ltb, leb, ◌==◌, if◌then◌else◌, length, drop, keep, ℤ,
  pos_part,
}
use lynx_dns.Common.Dict.{Dict, lookup, insert}
use lynx_dns.Resolver.State.{Action, cache_hit, QueryLog, Channel, Journal}

abbrev pub history_size : ℕ
history_size = 200

abbrev pub channel_size : ℕ
channel_size = 256

abbrev pub log_times_size : ℕ
log_times_size = 8192

abbrev pub is_cache_hit : Action → Bool
is_cache_hit cache_hit = true
is_cache_hit _ = false

-- time.Duration(cacheLogInterval) * time.Second, for an interval that is positive
abbrev pub interval_ns : Journal → ℕ
interval_ns j = pos_part j.cache_log_interval * 1000000000

abbrev pub throttles : Journal → Bool
throttles j = ltb 0 (pos_part j.cache_log_interval)

unfoldable pub log_key : QueryLog → Bytes
log_key ql = ql.type_text ++ (b':' ∷ ql.domain)

-- The times that are older than the interval are dropped once there are 8192.
unfoldable pub prune_times : ℕ → Journal → Dict ℕ
prune_times now j =
    if leb log_times_size (length j.cache_log_times)
    then keep (λ e. not (ltb (interval_ns j) (now - e.1))) j.cache_log_times
    else j.cache_log_times

-- Whether a line is printed for the query, and the times of the last lines after it.
unfoldable pub should_log : ℕ → QueryLog → Journal → Bool × Dict ℕ
unfolding log_key prune_times
should_log now ql j =
    if text_eq j.query_level (codes "off")
    then (false, j.cache_log_times)
    else if is_cache_hit ql.action && throttles j
    then elim (lookup (log_key ql) j.cache_log_times) [
      | some last ↦
          if ltb (now - last) (interval_ns j)
          then (false, j.cache_log_times)
          else (true, insert (log_key ql) now j.cache_log_times)
      | none ↦ (true, insert (log_key ql) now (prune_times now j))
    ]
    else (true, j.cache_log_times)

unfoldable pub print_line : ℕ → QueryLog → Journal → Journal
unfolding should_log
print_line now ql j =
    let out = should_log now ql j in
    record j { cache_log_times = out.1; printed = if out.0 then ql ∷ j.printed else j.printed }

-- The history keeps the last 200 queries.
unfoldable pub remember : QueryLog → List QueryLog → List QueryLog
remember ql h =
    let h' = h ++ (ql ∷ []) in
    if ltb history_size (length h') then drop (length h' - history_size) h' else h'

-- A send to a subscriber whose channel is full is dropped.
unfoldable pub send : QueryLog → Channel → Channel
send ql ch =
    if ltb (length ch.buffer) channel_size
    then record ch { buffer = ch.buffer ++ (ql ∷ []) }
    else ch

unfoldable pub emit_log : ℕ → QueryLog → Journal → Journal
unfolding print_line remember send
emit_log now ql j =
    let j' = print_line now ql j in
    record j' {
      query_history = remember ql j'.query_history;
      subscribers = map (send ql) j'.subscribers;
    }

-- limit > 0 && limit < n
abbrev pub is_below : ℤ → ℕ → Bool
is_below (pos k) n = ltb 0 k && ltb k n
is_below (negsuc k) n = false

-- GetRecentQueries: the last `limit` of the history, or all of it where the limit is not positive.
unfoldable pub recent_queries : ℤ → Journal → List QueryLog
recent_queries limit j =
    let n = length j.query_history in
    let k = if is_below limit n then pos_part limit else n in drop (n - k) j.query_history

unfoldable pub subscribe : Journal → Journal × Channel
subscribe j =
    let ch : Channel = record { ref = j.next_ref; buffer = [] } in
    (record j { subscribers = j.subscribers ++ (ch ∷ []); next_ref = j.next_ref + 1 }, ch)

unfoldable pub remove_channel : ℕ → List Channel → List Channel
remove_channel r [] = []
remove_channel r (ch ∷ chs) = if ch.ref == r then chs else ch ∷ remove_channel r chs

unfoldable pub unsubscribe : ℕ → Journal → Journal
unfolding remove_channel
unsubscribe r j = record j { subscribers = remove_channel r j.subscribers }
