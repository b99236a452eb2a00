-- ===== src/Resolver/History.antt =====
-- What the log of queries keeps and prints (`emitLog` and GetRecentQueries of
-- internal/resolver/resolver.go).
use lynx_dns.Common.{
  ℕ, zero, suc, ◌+◌, ◌-◌, ◌≤◌, ◌<◌, min, ◌≡◌, refl, ap, sym, ◌∙◌, inl, inr, arith, true, false,
  ◌&&◌, Bool-cases, Option-cases, none, some, List, [], ◌∷◌, ◌++◌, Bytes, codes, text_eq,
  text_eq_iff, ltb, if◌then◌else◌, length, length-append, drop, length-drop, ℤ, pos, negsuc,
}
use lynx_dns.Common.Dict.{Dict, lookup, insert, lookup-insert}
use lynx_dns.Resolver.State.{cache_hit, QueryLog, Journal}
use lynx_dns.Resolver.Journal.{
  history_size, interval_ns, throttles, is_cache_hit, log_key, prune_times, should_log, print_line,
  remember, emit_log, recent_queries,
}

-- The last `n` of a list.
abbrev pub last_of : ℕ → List QueryLog → List QueryLog
last_of n xs = drop (length xs - n) xs

remember_last :
    (ql : QueryLog) (h : List QueryLog) → remember ql h ≡ last_of history_size (h ++ (ql ∷ []))
unfolding remember
remember_last ql h = elim (Bool-cases (ltb history_size (length (h ++ (ql ∷ []))))) [
  | inl e ↦ rw e refl
  | inr e ↦ let z : length (h ++ (ql ∷ [])) - history_size ≡ 0 = ground arith in rw e (rw z refl)
]

drop-snoc :
    (k : ℕ) (xs : List QueryLog) (q : QueryLog)
    → k ≤ length xs
    → drop k (xs ++ (q ∷ [])) ≡ drop k xs ++ (q ∷ [])
drop-snoc zero xs q h = refl
drop-snoc (suc k) [] q h = absurd (omega arith)
drop-snoc (suc k) (x ∷ xs) q h = drop-snoc k xs q (omega arith)

drop-drop : (j k : ℕ) (xs : List QueryLog) → drop j (drop k xs) ≡ drop (k + j) xs
drop-drop j zero xs = let e : 0 + j ≡ j = omega arith in rw e refl
drop-drop j (suc k) [] = drop_nil j (suc k + j)
  where
    drop_nil : (a b : ℕ) → drop a [] ≡ drop {A = QueryLog} b []
    drop_nil zero zero = refl
    drop_nil zero (suc b) = refl
    drop_nil (suc a) zero = refl
    drop_nil (suc a) (suc b) = refl
drop-drop j (suc k) (x ∷ xs) =
    let e : suc k + j ≡ suc (k + j) = omega arith in rw e (drop-drop j k xs)

last_of-snoc :
    (n : ℕ) (xs : List QueryLog) (q : QueryLog)
    → 0 < n
    → last_of n (last_of n xs ++ (q ∷ [])) ≡ last_of n (xs ++ (q ∷ []))
last_of-snoc n xs q h =
    let k = length xs - n in
    let l = length-append xs (q ∷ []) in
    let l' = length-append (drop k xs) (q ∷ []) in
    let m : length (drop k xs ++ (q ∷ [])) - n ≤ length (drop k xs) =
      omega (arith, l', length-drop k xs) in
    let e : k + (length (drop k xs ++ (q ∷ [])) - n) ≡ length (xs ++ (q ∷ [])) - n =
      omega (arith, l, l', length-drop k xs) in
    drop-snoc (length (drop k xs ++ (q ∷ [])) - n) (drop k xs) q m
    ∙ ap (λ ys. ys ++ (q ∷ []))
        (drop-drop (length (drop k xs ++ (q ∷ [])) - n) k xs ∙ ap (λ i. drop i xs) e)
    ∙ sym (drop-snoc (length (xs ++ (q ∷ [])) - n) xs q (omega (arith, l)))

-- The journal after some queries, the last one first.
unfoldable pub emits : List (ℕ × QueryLog) → Journal → Journal
emits [] j = j
emits ((now, ql) ∷ older) j = emit_log now ql (emits older j)

abbrev pub in_order : List (ℕ × QueryLog) → List QueryLog
in_order [] = []
in_order ((now, ql) ∷ older) = in_order older ++ (ql ∷ [])

history-emits :
    (qs : List (ℕ × QueryLog)) (j : Journal)
    → j.query_history ≡ []
    → (emits qs j).query_history ≡ last_of history_size (in_order qs)
unfolding emits emit_log print_line
history-emits [] j h = h
history-emits ((now, ql) ∷ older) j h =
    remember_last ql (emits older j).query_history
    ∙ ap (λ ys. last_of history_size (ys ++ (ql ∷ []))) (history-emits older j h)
    ∙ last_of-snoc history_size (in_order older) ql (omega arith)

all_of :
    (qs : List (ℕ × QueryLog)) (j : Journal)
    → j.query_history ≡ []
    → let n = length (emits qs j).query_history in
      drop (n - n) (emits qs j).query_history ≡ last_of history_size (in_order qs)
all_of qs j h =
    let n = length (emits qs j).query_history in
    let z : n - n ≡ 0 = omega arith in rw z (history-emits qs j h)

-- How many of the queries a limit asks for: all that are kept, unless it is positive and below that.
abbrev pub asked_for : ℤ → ℕ
asked_for (pos zero) = history_size
asked_for (pos (suc n)) = min (suc n) history_size
asked_for (negsuc n) = history_size

-- GetRecentQueries returns the last queries in the order in which they were logged: as many as are
-- asked for, up to the 200 that are kept, and all of those where the limit is zero or negative.
pub recent_queries-emits :
    (qs : List (ℕ × QueryLog)) (j : Journal) (limit : ℤ)
    → j.query_history ≡ []
    → recent_queries limit (emits qs j) ≡ last_of (asked_for limit) (in_order qs)
unfolding recent_queries
recent_queries-emits qs j (pos zero) h = all_of qs j h
recent_queries-emits qs j (negsuc k) h = all_of qs j h
recent_queries-emits qs j (pos (suc limit)) h =
    let e = history-emits qs j h in
    let l = length (in_order qs) in
    let n = length (emits qs j).query_history in
    let ln : n ≡ l - (l - history_size) =
      ap (λ ys. length ys) e ∙ length-drop (l - history_size) (in_order qs) in
    let by_limit : (k : ℕ)
        → k ≡ (if ltb 0 (suc limit) && ltb (suc limit) n then suc limit else n)
        → drop (n - k) (emits qs j).query_history
          ≡ last_of (min (suc limit) history_size) (in_order qs) =
      λ k ek.
        let c : (l - history_size) + (n - k) ≡ l - min (suc limit) history_size =
          ground (arith, ek, ln) in
        ap (λ ys. drop (n - k) ys) e
        ∙ drop-drop (n - k) (l - history_size) (in_order qs)
        ∙ ap (λ i. drop i (in_order qs)) c in
    by_limit _ refl

should_log-none :
    (now : ℕ) (ql : QueryLog) (j : Journal)
    → text_eq j.query_level (codes "off") ≡ false
    → (is_cache_hit ql.action && throttles j) ≡ true
    → lookup (log_key ql) j.cache_log_times ≡ none
    → should_log now ql j ≡ (true, insert (log_key ql) now (prune_times now j))
unfolding should_log
should_log-none now ql j on th h = rw (on, th, h) refl

should_log-some :
    (now last : ℕ) (ql : QueryLog) (j : Journal)
    → text_eq j.query_level (codes "off") ≡ false
    → (is_cache_hit ql.action && throttles j) ≡ true
    → lookup (log_key ql) j.cache_log_times ≡ some last
    → should_log now ql j ≡ (
        if ltb (now - last) (interval_ns j)
        then (false, j.cache_log_times)
        else (true, insert (log_key ql) now j.cache_log_times))
unfolding should_log
should_log-some now last ql j on th h = rw (on, th, h) refl

lookup-insert_self : (k : Bytes) (n : ℕ) (m : Dict ℕ) → lookup k (insert k n m) ≡ some n
lookup-insert_self k n m = ground (arith, lookup-insert k k n m, text_eq_iff k k)

-- A line for a cache hit leaves its time under the key.
logged_time :
    (now : ℕ) (ql : QueryLog) (j : Journal)
    → text_eq j.query_level (codes "off") ≡ false
    → (is_cache_hit ql.action && throttles j) ≡ true
    → (should_log now ql j).0 ≡ true
    → lookup (log_key ql) (should_log now ql j).1 ≡ some now
logged_time now ql j on th s = elim (Option-cases (lookup (log_key ql) j.cache_log_times)) [
  | inl h ↦
      rw (should_log-none now ql j on th h)
        (lookup-insert_self (log_key ql) now (prune_times now j))
  | inr (last, h) ↦ elim (Bool-cases (ltb (now - last) (interval_ns j))) [
    | inl t ↦
        let quiet : (should_log now ql j).0 ≡ false =
          ap (λ x. x.0) (should_log-some now last ql j on th h) ∙ rw t refl in
        absurd (ground arith)
    | inr t ↦
        rw (should_log-some now last ql j on th h)
          (rw t (lookup-insert_self (log_key ql) now j.cache_log_times))
  ]
]

-- After a line for a cache hit, no further line is printed for a cache hit of the same name and type
-- until the interval has passed, whatever the query's other fields are.
pub print_line_throttled :
    (now now' : ℕ) (ql ql' : QueryLog) (j : Journal)
    → text_eq j.query_level (codes "off") ≡ false
    → throttles j ≡ true
    → ql.action ≡ cache_hit
    → ql'.action ≡ cache_hit
    → log_key ql ≡ log_key ql'
    → (should_log now ql j).0 ≡ true
    → now' < now + interval_ns j
    → (print_line now' ql' (print_line now ql j)).printed ≡ (print_line now ql j).printed
unfolding print_line
print_line_throttled now now' ql ql' j on th a a' k s lt =
    let j1 = print_line now ql j in
    let ta : (is_cache_hit ql.action && throttles j) ≡ true =
      ground (arith, ap is_cache_hit a, th) in
    let ta' : (is_cache_hit ql'.action && throttles j) ≡ true =
      ground (arith, ap is_cache_hit a', th) in
    let time : lookup (log_key ql') j1.cache_log_times ≡ some now =
      ap (λ x. lookup x j1.cache_log_times) (sym k) ∙ logged_time now ql j on ta s in
    let soon : ltb (now' - now) (interval_ns j) ≡ true = ground (arith, th) in
    let quiet : (should_log now' ql' j1).0 ≡ false =
      ap (λ x. x.0) (should_log-some now' now ql' j1 on ta' time) ∙ rw soon refl in
    rw quiet refl
