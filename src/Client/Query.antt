-- ===== src/Client/Query.antt =====
-- Query, QueryGroup and what they call, AddUpstream and RemoveUpstream of internal/client/client.go.
use lynx_dns.Common.{
  ℕ, Bool, true, false, not, Option, none, some, List, [], ◌∷◌, ◌++◌, Bytes, codes, ltb, ◌==◌, ◌⊎◌,
  inl, inr, if◌then◌else◌, take, trim_suffix, ℤ, pos, negsuc,
}
use lynx_dns.Common.Dict
use lynx_dns.Common.Dict.{Dict, lookup, insert}
use lynx_dns.Upstream.Breaker
use lynx_dns.Upstream.Breaker.{Breaker, new_breaker, allow_request}
use lynx_dns.Upstream.Stats
use lynx_dns.Upstream.Stats.{Stats, new_stats}
use lynx_dns.Client.Address.{Protocol, doh, UpstreamConfig, parse_upstream, ensure_port}
use lynx_dns.Client.Base64.{dns_msg_to_base64_url}

pub record UpstreamClient : Type 0 where
  pub config : UpstreamConfig
  pub stats : Stats
  pub breaker : Breaker

abbrev pub DnsClient : Type 0
DnsClient = Dict UpstreamClient

-- An error: those that the client makes, and those of the network, which say whether they are
-- timeouts (errors.Is with context.DeadlineExceeded, or os.IsTimeout).
pub data QueryError : Type 0 where
  unknown_upstream : Bytes → QueryError
  circuit_open : QueryError
  no_servers : QueryError
  all_failed : QueryError
  status_error : ℕ → Bytes → QueryError
  network : Bytes → Bool → QueryError

pub data Outcome (M : Type 0) : Type 0 where
  replied : M → Outcome M
  failed : QueryError → Outcome M

-- Result; a result without an error has a message.
pub record Result (M : Type 0) : Type 0 where
  pub outcome : Outcome M
  pub server_used : Bytes
  pub latency : ℕ

-- What an HTTP exchange may come to: no request, no reply, or a reply whose body may not be readable.
pub data HttpReply : Type 0 where
  no_request : QueryError → HttpReply
  no_reply : QueryError → ℕ → HttpReply
  reply : (status : ℕ) (body : Bytes) (read_error : Option QueryError) (latency : ℕ) → HttpReply

-- The libraries and the network: package net, a DNS exchange with its latency, packing and HTTP.
pub record Net (M : Type 0) : Type 0 where
  pub split_host_port : Bytes → Option (Bytes × Bytes)
  pub join_host_port : Bytes → Bytes → Bytes
  pub exchange : Protocol → Bytes → M → Outcome M × ℕ
  pub pack : M → Bytes ⊎ QueryError
  pub http_get : Bytes → HttpReply
  pub unpack : Bytes → M ⊎ QueryError

module _ {M : Type 0} (net : Net M) where
  -- `AddUpstream`: what the DNS library is set to follows from the protocol.
  unfoldable pub add_upstream : Bytes → DnsClient → DnsClient
  add_upstream addr c =
      insert addr
        (record {
          config = parse_upstream (net.split_host_port) addr;
          stats = new_stats;
          breaker = new_breaker;
        })
        c

  unfoldable pub remove_upstream : Bytes → DnsClient → DnsClient
  remove_upstream addr c = Dict.delete addr c

  unfoldable pub query_dns : M → UpstreamClient → Result M
  query_dns msg uc =
      let addr =
        ensure_port (net.split_host_port) (net.join_host_port) uc.config.address (codes "53") in
      let (out, latency) = net.exchange uc.config.protocol addr msg in
      record { outcome = out; server_used = uc.config.address; latency = latency }

  unfoldable pub doh_result : UpstreamClient → Outcome M → ℕ → Result M
  doh_result uc out latency = record {
    outcome = out;
    server_used = uc.config.address;
    latency = latency;
  }

  unfoldable pub unpacked : UpstreamClient → ℕ → M ⊎ QueryError → Result M
  unfolding doh_result
  unpacked uc latency (inl m) = doh_result uc (replied m) latency
  unpacked uc latency (inr e) = doh_result uc (failed e) latency

  unfoldable pub after_http : UpstreamClient → HttpReply → Result M
  unfolding doh_result unpacked
  after_http uc (no_request e) = doh_result uc (failed e) 0
  after_http uc (no_reply e latency) = doh_result uc (failed e) latency
  after_http uc (reply status body read_error latency) =
      if not (status == 200)
      then doh_result uc (failed (status_error status body)) latency
      else elim read_error [
        | some e ↦ doh_result uc (failed e) latency
        | none ↦ unpacked uc latency (net.unpack body)
      ]

  unfoldable pub query_doh : M → UpstreamClient → Result M
  unfolding doh_result after_http dns_msg_to_base64_url
  query_doh msg uc = elim (net.pack msg) [
    | inr e ↦ doh_result uc (failed e) 0
    | inl packed ↦ after_http uc (
        net.http_get (
          trim_suffix uc.config.address (codes "/")
          ++ (codes "?dns=" ++ dns_msg_to_base64_url packed)))
  ]

  -- `recordResult`; a refusal by the breaker is not counted.
  unfoldable pub record_outcome : ℕ → Outcome M → ℕ → UpstreamClient → UpstreamClient
  record_outcome now (replied m) latency uc = record uc {
    stats = Stats.record_success (pos latency) uc.stats;
    breaker = Breaker.record_success uc.breaker;
  }
  record_outcome now (failed circuit_open) latency uc = uc
  record_outcome now (failed (network text is_timeout)) latency uc = record uc {
    stats = Stats.record_failure is_timeout uc.stats;
    breaker = Breaker.record_failure now uc.breaker;
  }
  record_outcome now (failed e) latency uc = record uc {
    stats = Stats.record_failure false uc.stats;
    breaker = Breaker.record_failure now uc.breaker;
  }

  abbrev pub is_doh : Protocol → Bool
  is_doh doh = true
  is_doh _ = false

  -- The exchange of `Query` with the protocol of the upstream.
  unfoldable pub send_query : M → UpstreamClient → Result M
  unfolding query_dns query_doh
  send_query msg uc = if is_doh uc.config.protocol then query_doh msg uc else query_dns msg uc

  -- `Query` for an upstream that is known; the breaker is asked at `start` and told at `now`.
  unfoldable pub query_known : ℕ → ℕ → M → Bytes → UpstreamClient → DnsClient → DnsClient × Result M
  unfolding send_query record_outcome
  query_known start now msg addr uc c =
      let (breaker, allowed) = allow_request start uc.breaker in
      let uc' = record uc { breaker = breaker } in
      let res = send_query msg uc' in
      if allowed then (insert addr (record_outcome now res.outcome res.latency uc') c, res) else (
        insert addr uc' c,
        record { outcome = failed circuit_open; server_used = addr; latency = 0 },
      )

  unfoldable pub query : ℕ → ℕ → M → Bytes → DnsClient → DnsClient × Result M
  unfolding query_known
  query start now msg addr c = elim (lookup addr c) [
    | none ↦
        (c, record { outcome = failed (unknown_upstream addr); server_used = addr; latency = 0 })
    | some uc ↦ query_known start now msg addr uc c
  ]

  -- The goroutines of `QueryGroup`, in the order in which they finish, with their results.
  unfoldable pub query_all : ℕ → ℕ → M → List Bytes → DnsClient → DnsClient × List (Result M)
  unfolding query
  query_all start now msg [] c = (c, [])
  query_all start now msg (addr ∷ addrs) c =
      let (c', res) = query start now msg addr c in
      let rest = query_all start now msg addrs c' in (rest.0, res ∷ rest.1)

  -- One turn of the loop over the results.
  unfoldable pub better_of : Outcome M → Result M → Option (Result M) → Option (Result M)
  better_of (failed e) res best = best
  better_of (replied m) res none = some res
  better_of (replied m) res (some b) = if ltb res.latency b.latency then some res else some b

  unfoldable pub better : Result M → Option (Result M) → Option (Result M)
  unfolding better_of
  better res best = better_of res.outcome res best

  unfoldable pub pick_best : List (Result M) → Option (Result M) → Option (Result M)
  unfolding better
  pick_best [] best = best
  pick_best (res ∷ rs) best = pick_best rs (better res best)

  -- What `QueryGroup` returns from the best result.
  unfoldable pub group_result : Bytes → Option (Result M) → Result M
  group_result first (some best) = best
  group_result first none = record { outcome = failed all_failed; server_used = first; latency = 0 }

  -- servers[:concurrency] with the concurrency cut to the number of servers; a negative one panics.
  unfoldable pub select : List Bytes → ℤ → Option (List Bytes)
  select servers (pos n) = some (take n servers)
  select servers (negsuc n) = none

  unfoldable pub query_selected :
      (List Bytes → List Bytes) → ℕ → ℕ → M → Bytes → List Bytes → DnsClient → DnsClient × Result M
  unfolding query query_all pick_best group_result
  query_selected order start now msg first (addr ∷ []) c = query start now msg addr c
  query_selected order start now msg first selected c =
      let out = query_all start now msg (order selected) c in
      (out.0, group_result first (pick_best out.1 none))

  -- `order` is the order in which the queries finish; `none` is a panic.
  unfoldable pub query_group :
      (List Bytes → List Bytes)
      → ℕ
      → ℕ
      → M
      → List Bytes
      → ℤ
      → DnsClient
      → Option (DnsClient × Result M)
  unfolding select query_selected
  query_group order start now msg [] concurrency c =
      some (c, record { outcome = failed no_servers; server_used = []; latency = 0 })
  query_group order start now msg (first ∷ servers) concurrency c =
      elim (select (first ∷ servers) concurrency) [
        | none ↦ none
        | some selected ↦ some (query_selected order start now msg first selected c)
      ]
