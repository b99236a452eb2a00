-- ===== src/Resolver/Counts.antt =====
-- The counters of internal/resolver/resolver.go under `Resolve`.
use lynx_dns.Common.{
  ℕ, ◌+◌, ◌-◌, ◌≡◌, refl, inl, inr, arith, false, not, ◌&&◌, ◌||◌, ◌++◌, if_ind, Option, none, some,
  List, [], ◌∷◌, Bytes, codes, text_eq, ◌==◌, if◌then◌else◌, trim_suffix,
}
use lynx_dns.Dns.{DnsLib, Question}
use lynx_dns.Cache
use lynx_dns.Rules.{match_rules, type_block, type_redirect, type_remote, type_domestic}
use lynx_dns.Resolver.State.{
  cache_hit, domestic, remote, ad_block, leak_block, rule_block, default_group, failed, Upstreams,
  Geo, Counters, increment_map,
}
use lynx_dns.Resolver.Names.{is_local_domain}
use lynx_dns.Resolver.Resolve.{
  in_remote, in_domestic, in_ads, lists_loaded, protect, filter_ads, by_geosite, without_rule,
  resolve_with_rules, count_query, answer_cached, finish_query, resolve_question, resolve,
}
use lynx_dns.Resolver.Forward.{State, forward_to_default, default_servers, shown_rule}
use lynx_dns.Resolver.Balance.{total-increment_map, Balanced, action-Balanced, outcome-Balanced}
use lynx_dns.Resolver.Branches.{
  BalancedOut, block_query-Balanced, forward_to_group-Balanced, redirect_query-Balanced,
}

module _ (d : DnsLib) (u : Upstreams d.Msg) where
  module _ (geo : Geo) where
    protect-Balanced :
        (s now : ℕ) (req : d.Msg) (domain : Bytes) (q : Question) (client : Bytes) (r : State d u)
        → Balanced 1 s r.counters
        → BalancedOut d u 0 s (protect d u geo now req domain q client r)
    unfolding protect forward_to_default
    protect-Balanced s now req domain q client r b =
        let P = BalancedOut d u 0 s in
        let by_default =
          forward_to_group-Balanced d u s now req domain q client (default_servers r.cfg)
            default_group (codes "default_policy") r b (inr (inr refl)) in
        if_ind P (r.cfg.leak_enabled && not (is_local_domain domain))
          (λ t.
            if_ind P (text_eq r.cfg.leak_mode (codes "strict") && lists_loaded d u geo r.cfg)
              (λ s'.
                block_query-Balanced d u s now q domain client leak_block
                  (codes "leak_protection:strict") r b (inr (inl refl)))
              (λ s'.
                if_ind P (text_eq r.cfg.leak_mode (codes "standard") && lists_loaded d u geo r.cfg)
                  (λ v.
                    forward_to_group-Balanced d u s now req domain q client r.cfg.dns_remote
                      default_group (codes "leak_protection:standard") r b (inr (inr refl)))
                  (λ v. by_default)))
          (λ t. by_default)

    filter_ads-Balanced :
        (s now : ℕ) (req : d.Msg) (domain : Bytes) (q : Question) (client : Bytes) (r : State d u)
        → Balanced 1 s r.counters
        → BalancedOut d u 0 s (filter_ads d u geo now req domain q client r)
    unfolding filter_ads
    filter_ads-Balanced s now req domain q client r b =
        if_ind (BalancedOut d u 0 s) (in_ads d u geo domain r.cfg)
          (λ t.
            block_query-Balanced d u s now q domain client ad_block (codes "geosite:ad_filter") r b
              (inl refl))
          (λ t. protect-Balanced s now req domain q client r b)

    by_geosite-Balanced :
        (s now : ℕ) (req : d.Msg) (domain : Bytes) (q : Question) (client : Bytes) (r : State d u)
        → Balanced 1 s r.counters
        → BalancedOut d u 0 s (by_geosite d u geo now req domain q client r)
    unfolding by_geosite
    by_geosite-Balanced s now req domain q client r b =
        let P = BalancedOut d u 0 s in
        let to_remote =
          forward_to_group-Balanced d u s now req domain q client r.cfg.dns_remote remote
            (codes "geosite:matched") r b (inl refl) in
        let to_domestic =
          forward_to_group-Balanced d u s now req domain q client r.cfg.dns_domestic domestic
            (codes "geosite:matched") r b (inr (inl refl)) in
        let rest = filter_ads-Balanced s now req domain q client r b in
        if_ind P (text_eq r.cfg.leak_mode (codes "loose") || not r.cfg.leak_enabled)
          (λ t.
            if_ind P (in_domestic d u geo domain r.cfg) (λ i. to_domestic)
              (λ i. if_ind P (in_remote d u geo domain r.cfg) (λ k. to_remote) (λ k. rest)))
          (λ t.
            if_ind P (in_remote d u geo domain r.cfg) (λ k. to_remote)
              (λ k. if_ind P (in_domestic d u geo domain r.cfg) (λ i. to_domestic) (λ i. rest)))

    without_rule-Balanced :
        (s now : ℕ) (req : d.Msg) (domain : Bytes) (q : Question) (client : Bytes) (r : State d u)
        → Balanced 1 s r.counters
        → BalancedOut d u 0 s (without_rule d u geo now req domain q client r)
    unfolding without_rule
    without_rule-Balanced s now req domain q client r b =
        if_ind (BalancedOut d u 0 s) (r.cfg.ad_filter_enabled && geo.match_ad_filter domain)
          (λ t.
            block_query-Balanced d u s now q domain client ad_block (codes "ad_filter") r b
              (inl refl))
          (λ t. by_geosite-Balanced s now req domain q client r b)

    resolve_with_rules-Balanced :
        (s now : ℕ) (req : d.Msg) (domain : Bytes) (q : Question) (client : Bytes) (r : State d u)
        → Balanced 1 s r.counters
        → BalancedOut d u 0 s (resolve_with_rules d u geo now req domain q client r)
    unfolding resolve_with_rules
    resolve_with_rules-Balanced s now req domain q client r b =
        let P = BalancedOut d u 0 s in
        let m = match_rules r.rule_engine domain in
        let rest = without_rule-Balanced s now req domain q client r b in
        if_ind P (not m.matched) (λ t. rest)
          (λ t.
            if_ind P (text_eq m.rule_type type_block)
              (λ t.
                block_query-Balanced d u s now q domain client rule_block (shown_rule m) r b
                  (inr (inr refl)))
              (λ t.
                if_ind P (text_eq m.rule_type type_redirect)
                  (λ t. redirect_query-Balanced d u s now q domain client m r b)
                  (λ t.
                    if_ind P (text_eq m.rule_type type_remote)
                      (λ t.
                        forward_to_group-Balanced d u s now req domain q client r.cfg.dns_remote
                          remote (codes "rule:" ++ m.rule_id) r b (inl refl))
                      (λ t.
                        if_ind P (text_eq m.rule_type type_domestic)
                          (λ t.
                            forward_to_group-Balanced d u s now req domain q client
                              r.cfg.dns_domestic domestic (codes "rule:" ++ m.rule_id) r b
                              (inr (inl refl)))
                          (λ t. rest)))))

    count_query-Balanced :
        (q : Question) (r : State d u)
        → Balanced 0 0 r.counters
        → Balanced 1 1 (count_query d u geo q r).counters
    unfolding count_query
    count_query-Balanced q r b =
        let tt' = total-increment_map (d.type_to_string q.qtype) r.counters.by_type in
        record {
          types = omega (arith, tt', b.types);
          actions = omega (arith, b.actions);
          statuses = omega (arith, b.statuses);
          hits = b.hits;
          blocked = b.blocked;
          redirected = b.redirected;
          failures = b.failures;
        }

    finish_query-Balanced :
        (elapsed : ℕ) (out : State d u × d.Msg)
        → BalancedOut d u 0 1 out
        → BalancedOut d u 0 0 (finish_query d u geo elapsed out)
    unfolding finish_query text_eq
    finish_query-Balanced elapsed (r, m) b =
        let status = if d.rcode m == d.rcode_success then codes "success" else codes "failed" in
        let c : Counters = record (r.counters) {
          total_latency = r.counters.total_latency + elapsed;
        } in
        outcome-Balanced 0 failed c _ 0 status
          (record {
            types = b.types;
            actions = b.actions;
            statuses = b.statuses;
            hits = b.hits;
            blocked = b.blocked;
            redirected = b.redirected;
            failures = b.failures;
          })
          (if_ind (λ k. text_eq k (codes "timeout") ≡ false) (d.rcode m == d.rcode_success)
            (λ t. refl) (λ t. refl))
          refl

    answer_cached-Balanced :
        (now : ℕ) (req : d.Msg) (domain : Bytes) (q : Question) (client : Bytes) (m : d.Msg)
        (r : State d u)
        → Balanced 1 1 r.counters
        → BalancedOut d u 0 0 (answer_cached d u geo now req domain q client m r)
    unfolding answer_cached text_eq
    answer_cached-Balanced now req domain q client m r b =
        outcome-Balanced 0 failed _ _ 0 (codes "success")
          (action-Balanced 1 cache_hit r.counters
            (record (r.counters) {
              cache_hits = r.counters.cache_hits + 1;
              by_action = increment_map (codes "cache_hit") r.counters.by_action;
            })
            0 b refl refl refl refl (omega arith) (omega arith) (omega arith) refl)
          refl refl

    found-Balanced :
        (start now : ℕ) (req : d.Msg) (domain : Bytes) (q : Question) (client : Bytes)
        (r : State d u)
        → Balanced 1 1 r.counters
        → (found : Option d.Msg)
        → BalancedOut d u 0 0 (elim found as (λ _. State d u × d.Msg) [
          | some m ↦ answer_cached d u geo start req domain q client m r
          | none ↦
              finish_query d u geo
                (now - start)
                (resolve_with_rules d u geo now req domain q client r)
        ])
    found-Balanced start now req domain q client r b (some m) =
        answer_cached-Balanced start req domain q client m r b
    found-Balanced start now req domain q client r b none =
        finish_query-Balanced (now - start) _
          (resolve_with_rules-Balanced 1 now req domain q client r b)

    -- `Resolve` keeps the counters in balance: the counts by type and by action each add up to the
    -- number of queries, as do the counts by status less the timeouts, which are noted a second time
    -- as failures; the counters of cache hits, blocked and redirected queries are those of their
    -- actions, and there are as many failed actions as timeouts.
    pub resolve-Balanced :
        (start now : ℕ) (req : d.Msg) (client : Bytes) (r : State d u)
        → Balanced 0 0 r.counters
        → Balanced 0 0 (resolve d u geo start now req client r).0.counters
    unfolding resolve resolve_question
    resolve-Balanced start now req client r b = by_questions (d.questions req)
      where
        by_questions :
            (qs : List Question)
            → BalancedOut d u 0 0 (elim qs as (λ _. State d u × d.Msg) [
              | [] ↦ (r, d.set_rcode req d.rcode_format_error)
              | q ∷ qs ↦ resolve_question d u geo start now req q client r
            ])
        by_questions [] = b
        by_questions (q ∷ qs) =
            let domain = trim_suffix q.name (codes ".") in
            let r1 = count_query d u geo q r in
            let out = Cache.get d start domain q.qtype r1.cache in
            found-Balanced start now req domain q client (record r1 { cache = out.0 })
              (count_query-Balanced q r b) out.1
