-- ===== src/Resolver/Repeat.antt =====
-- A query that was answered is answered again from the cache (internal/resolver/resolver.go with
-- internal/cache/cache.go).
use lynx_dns.Common.{ℕ, ◌+◌, ◌*◌, ◌≤◌, ◌≡◌, refl, ◌≢◌, List, Bytes, codes, length, trim_suffix}
use lynx_dns.Dns.{DnsLib, Question}
use lynx_dns.Cache.{extract_min_ttl}
use lynx_dns.Cache.Agree.{IsValid}
use lynx_dns.Cache.Reads.{get-put}
use lynx_dns.Resolver.State.{Action, answered, Upstreams, Geo}
use lynx_dns.Resolver.Resolve.{answer_cached, count_query, resolve_question}
use lynx_dns.Resolver.Forward.{State, forward_failed, forward_answered, forward_to_group}

module _ (d : DnsLib) (u : Upstreams d.Msg) (geo : Geo) where
  -- After a group has answered with a message that has a record and a time to live, the same
  -- question is answered from the cache until that time has passed: the reply is a copy with the
  -- identifier of the new request, no server is asked, and a cache hit is counted.
  pub resolve_question-forward_to_group :
      (now start' now' : ℕ) (req req' : d.Msg) (q : Question) (client client' : Bytes)
      (servers : List Bytes) (action : Action) (rule : Bytes) (r : State d u) (m : d.Msg)
      → IsValid r.cache
      → (u.query_group req servers r.cfg.concurrency r.client).1.answer ≡ answered m
      → length (d.answer m) ≢ 0
      → extract_min_ttl d m ≢ 0
      → start' ≤ now + extract_min_ttl d m * 1000000000
      → (out : State d u × d.Msg)
      → out
        ≡ forward_to_group d u now req
            (trim_suffix q.name (codes "."))
            q
            client
            servers
            action
            rule
            r
      → ((resolve_question d u geo start' now' req' q client' out.0).1
          ≡ d.set_id (d.id req') (d.copy (d.copy (d.copy m))))
        × ((resolve_question d u geo start' now' req' q client' out.0).0.client ≡ out.0.client)
        × ((resolve_question d u geo start' now' req' q client' out.0).0.counters.cache_hits
            ≡ out.0.counters.cache_hits + 1)
  unfolding resolve_question forward_to_group forward_answered forward_failed answer_cached
      count_query
  resolve_question-forward_to_group now start' now' req req' q client client' servers action rule r
        m v e a t h out o =
      let domain = trim_suffix q.name (codes ".") in
      let server = (u.query_group req servers r.cfg.concurrency r.client).1.server_used in
      let hit = get-put d now start' domain q.qtype m server r.cache v a t h in
      rw o (rw (e, forward_to_group) (rw (hit, resolve_question) (refl, refl, refl)))
