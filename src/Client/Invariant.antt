-- ===== src/Client/Invariant.antt =====
-- The statistics and the breakers of the upstreams under the operations of internal/client/client.go.
use mathlib.Core.Path.{subst}
use lynx_dns.Common.{
  ℕ, ◌≡◌, refl, ap, sym, ◌∙◌, inl, inr, arith, false, Bool-cases, if_ind, Option, Option-cases,
  none, some, List, [], ◌∷◌, Bytes, text_eq, text_eq_refl, take, ℤ, pos, negsuc,
}
use lynx_dns.Common.Dict.{lookup, insert, lookup-insert}
use lynx_dns.Upstream.Breaker.{Breaker, allow_request, allow_seen, allow_locked}
use lynx_dns.Upstream.Breaker.Trace
use lynx_dns.Upstream.Breaker.Trace.{
  Reach, here, next, allow, success, failure, Reach-IsValid, new_breaker-IsValid,
}
use lynx_dns.Upstream.Stats.Ring
use lynx_dns.Upstream.Stats.Ring.{operations-IsValid, new_stats-IsValid}
use lynx_dns.Client.Query.{
  UpstreamClient, DnsClient, unknown_upstream, circuit_open, no_servers, all_failed, status_error,
  network, Outcome, replied, failed, Result, Net, add_upstream, record_outcome, send_query,
  query_known, query, query_all, select, query_selected, query_group,
}

abbrev pub IsSound : UpstreamClient → Type 0
IsSound uc = Ring.IsValid uc.stats × Trace.IsValid uc.breaker

-- Every upstream has consistent statistics and a consistent breaker.
abbrev pub AllSound : DnsClient → Type 0
AllSound c = (addr : Bytes) (uc : UpstreamClient) → lookup addr c ≡ some uc → IsSound uc

unsome : UpstreamClient → Option UpstreamClient → UpstreamClient
unsome d none = d
unsome d (some uc) = uc

some_inj : (v w : UpstreamClient) → some v ≡ some w → v ≡ w
unfolding unsome
some_inj v w e = ap (unsome v) e

allow_request-IsValid :
    (start : ℕ) (b : Breaker) → Trace.IsValid b → Trace.IsValid (allow_request start b).0
unfolding allow_request
allow_request-IsValid start b v = Reach-IsValid v (next here (allow b.state start))

allow_request_refused :
    (start : ℕ) (b : Breaker) → (allow_request start b).1 ≡ false → (allow_request start b).0 ≡ b
unfolding allow_request allow_seen allow_locked
allow_request_refused start b h = ground arith

insert-AllSound :
    (addr : Bytes) (uc : UpstreamClient) (c : DnsClient)
    → AllSound c
    → IsSound uc
    → AllSound (insert addr uc c)
insert-AllSound addr uc c a s j v h = elim (Bool-cases (text_eq addr j)) [
  | inl t ↦
      let e : some uc ≡ some v = sym (lookup-insert addr j uc c ∙ rw t refl) ∙ h in
      subst (λ x. IsSound x) (some_inj uc v e) s
  | inr t ↦ a j v (sym (lookup-insert addr j uc c ∙ rw t refl) ∙ h)
]

pub empty-AllSound : AllSound []
unfolding lookup
empty-AllSound addr uc h = absurd (ground arith)

module _ {M : Type 0} (net : Net M) where
  record_outcome-IsSound :
      (now : ℕ) (o : Outcome M) (latency : ℕ) (uc : UpstreamClient)
      → IsSound uc
      → IsSound (record_outcome net now o latency uc)
  unfolding record_outcome
  record_outcome-IsSound now (replied m) latency uc (s, b) =
      ((operations-IsValid (pos latency) false uc.stats s).0, Reach-IsValid b (next here success))
  record_outcome-IsSound now (failed circuit_open) latency uc v = v
  record_outcome-IsSound now (failed (network text t)) latency uc (s, b) =
      ((operations-IsValid (pos 0) t uc.stats s).1, Reach-IsValid b (next here (failure now)))
  record_outcome-IsSound now (failed (unknown_upstream a)) latency uc (s, b) =
      ((operations-IsValid (pos 0) false uc.stats s).1, Reach-IsValid b (next here (failure now)))
  record_outcome-IsSound now (failed no_servers) latency uc (s, b) =
      ((operations-IsValid (pos 0) false uc.stats s).1, Reach-IsValid b (next here (failure now)))
  record_outcome-IsSound now (failed all_failed) latency uc (s, b) =
      ((operations-IsValid (pos 0) false uc.stats s).1, Reach-IsValid b (next here (failure now)))
  record_outcome-IsSound now (failed (status_error n t)) latency uc (s, b) =
      ((operations-IsValid (pos 0) false uc.stats s).1, Reach-IsValid b (next here (failure now)))

  pub add_upstream-AllSound :
      (addr : Bytes) (c : DnsClient) → AllSound c → AllSound (add_upstream net addr c)
  unfolding add_upstream
  add_upstream-AllSound addr c a =
      insert-AllSound addr _ c a (new_stats-IsValid, new_breaker-IsValid)

  query_known-AllSound :
      (start now : ℕ) (msg : M) (addr : Bytes) (uc : UpstreamClient) (c : DnsClient)
      → AllSound c
      → IsSound uc
      → AllSound (query_known net start now msg addr uc c).0
  unfolding query_known
  query_known-AllSound start now msg addr uc c a (s, b) =
      let out = allow_request start uc.breaker in
      let uc' : UpstreamClient = record uc { breaker = out.0 } in
      let sound : IsSound uc' = (s, allow_request-IsValid start uc.breaker b) in
      let res = send_query net msg uc' in
      if_ind (λ (x : DnsClient × Result M). AllSound x.0) out.1
        (λ t.
          insert-AllSound addr _ c a (record_outcome-IsSound now res.outcome res.latency uc' sound))
        (λ t. insert-AllSound addr uc' c a sound)

  query-AllSound :
      (start now : ℕ) (msg : M) (addr : Bytes) (c : DnsClient)
      → AllSound c
      → AllSound (query net start now msg addr c).0
  unfolding query
  query-AllSound start now msg addr c a = elim (Option-cases (lookup addr c)) [
    | inl h ↦ rw (h, query) a
    | inr (uc, h) ↦ rw (h, query) (query_known-AllSound start now msg addr uc c a (a addr uc h))
  ]

  query_all-AllSound :
      (start now : ℕ) (msg : M) (addrs : List Bytes) (c : DnsClient)
      → AllSound c
      → AllSound (query_all net start now msg addrs c).0
  unfolding query_all
  query_all-AllSound start now msg [] c a = a
  query_all-AllSound start now msg (addr ∷ addrs) c a =
      query_all-AllSound start now msg addrs _ (query-AllSound start now msg addr c a)

  query_selected-AllSound :
      (order : List Bytes → List Bytes) (start now : ℕ) (msg : M) (first : Bytes)
      (selected : List Bytes) (c : DnsClient)
      → AllSound c
      → AllSound (query_selected net order start now msg first selected c).0
  unfolding query_selected
  query_selected-AllSound order start now msg first [] c a =
      query_all-AllSound start now msg (order []) c a
  query_selected-AllSound order start now msg first (addr ∷ []) c a =
      query-AllSound start now msg addr c a
  query_selected-AllSound order start now msg first (addr ∷ second ∷ rest) c a =
      query_all-AllSound start now msg (order (addr ∷ second ∷ rest)) c a

  abbrev client_of : DnsClient → Option (DnsClient × Result M) → DnsClient
  client_of d none = d
  client_of d (some x) = x.0

  -- A query of a group, in whatever order its queries finish and whatever the network does, keeps the
  -- statistics and the breaker of every upstream consistent.
  pub query_group-AllSound :
      (order : List Bytes → List Bytes) (start now : ℕ) (msg : M) (servers : List Bytes)
      (concurrency : ℤ) (c c' : DnsClient) (res : Result M)
      → AllSound c
      → query_group net order start now msg servers concurrency c ≡ some (c', res)
      → AllSound c'
  unfolding query_group select
  query_group-AllSound order start now msg [] concurrency c c' res a h =
      subst (λ x. AllSound x) (ap (λ o. client_of c o) h) a
  query_group-AllSound order start now msg (first ∷ servers) (negsuc n) c c' res a h =
      absurd (ground arith)
  query_group-AllSound order start now msg (first ∷ servers) (pos n) c c' res a h =
      subst (λ x. AllSound x) (ap (λ o. client_of c o) h)
        (query_selected-AllSound order start now msg first (take n (first ∷ servers)) c a)

  -- A query to an upstream whose breaker is open and not yet cooled down is refused at once: the
  -- result does not depend on the network, and the upstream is left as it was.
  pub query_refused :
      (start now : ℕ) (msg : M) (addr : Bytes) (uc : UpstreamClient) (c : DnsClient)
      → lookup addr c ≡ some uc
      → (allow_request start uc.breaker).1 ≡ false
      → ((query net start now msg addr c).1
          ≡ record { outcome = failed circuit_open; server_used = addr; latency = 0 })
        × (lookup addr (query net start now msg addr c).0 ≡ some uc)
  unfolding query query_known
  query_refused start now msg addr uc c h r =
      let same : (allow_request start uc.breaker).0 ≡ uc.breaker =
        allow_request_refused start uc.breaker r in
      let self =
        lookup-insert addr addr (record uc { breaker = (allow_request start uc.breaker).0 }) c in
      rw (h, query)
        (rw (r, query_known)
          (refl, self ∙ rw (text_eq_refl addr) (ap (λ b. some (record uc { breaker = b })) same)))
