-- ===== src/Resolver/Policy.antt =====
-- Which servers `Resolve` asks (internal/resolver/resolver.go), and which queries it answers alone.
use lynx_dns.Common.{
  ℕ, ◌+◌, ◌≡◌, refl, ◌∙◌, ◌≢◌, ◌⊎◌, inl, inr, arith, true, false, not, ◌&&◌, ◌||◌, ◌++◌, if_ind,
  text_eq_iff, List, [], Bytes, codes, text_eq,
}
use lynx_dns.Dns.{DnsLib, DnsLaws, Question}
use lynx_dns.Rules.{match_rules, type_block, type_redirect, type_remote, type_domestic}
use lynx_dns.Resolver.State.{Action, remote, default_group, Config, Upstreams, Geo}
use lynx_dns.Resolver.Names.{is_local_domain}
use lynx_dns.Resolver.Replies.{block_response}
use lynx_dns.Resolver.Resolve.{
  in_remote, in_domestic, in_ads, lists_loaded, protect, filter_ads, by_geosite, without_rule,
  resolve_with_rules,
}
use lynx_dns.Resolver.Forward.{
  State, block_query, redirect_query, forward_failed, forward_answered, forward_to_group,
}

module _ (d : DnsLib) (u : Upstreams d.Msg) where
  -- The client after a query of the group.
  abbrev pub asked : d.Msg → List Bytes → State d u → u.Client
  asked req servers r = (u.query_group req servers r.cfg.concurrency r.client).0

  pub client-forward_to_group :
      (now : ℕ) (req : d.Msg) (domain : Bytes) (q : Question) (client : Bytes)
      (servers : List Bytes) (action : Action) (rule : Bytes) (r : State d u)
      → (forward_to_group d u now req domain q client servers action rule r).0.client
        ≡ asked req servers r
  unfolding forward_to_group forward_failed forward_answered
  client-forward_to_group now req domain q client servers action rule r = ground arith

  module _ (geo : Geo) where
    -- Leak protection outside the loose mode, with a routing list loaded on both sides.
    abbrev pub IsProtected : Config → Type 0
    IsProtected cfg =
        (cfg.leak_enabled ≡ true)
        × ((cfg.leak_mode ≡ codes "strict") ⊎ (cfg.leak_mode ≡ codes "standard"))
        × (lists_loaded d u geo cfg ≡ true)

    -- Nothing is asked, or the servers are.
    abbrev pub AsksAtMost : d.Msg → List Bytes → State d u → State d u × d.Msg → Type 0
    AsksAtMost req servers r out = (out.0.client ≡ r.client) ⊎ (out.0.client ≡ asked req servers r)

    protect-AsksAtMost :
        (now : ℕ) (req : d.Msg) (domain : Bytes) (q : Question) (client : Bytes) (r : State d u)
        → IsProtected r.cfg
        → is_local_domain domain ≡ false
        → AsksAtMost req r.cfg.dns_remote r (protect d u geo now req domain q client r)
    unfolding protect block_query
    protect-AsksAtMost now req domain q client r (on, m, h) l =
        let P = AsksAtMost req r.cfg.dns_remote r in
        if_ind P (r.cfg.leak_enabled && not (is_local_domain domain))
          (λ t.
            if_ind P (text_eq r.cfg.leak_mode (codes "strict") && lists_loaded d u geo r.cfg)
              (λ s. inl refl)
              (λ s.
                if_ind P (text_eq r.cfg.leak_mode (codes "standard") && lists_loaded d u geo r.cfg)
                  (λ v. inr (
                    client-forward_to_group now req domain q client r.cfg.dns_remote default_group
                      (codes "leak_protection:standard") r))
                  (λ v. absurd (
                    ground (
                      arith,
                      m,
                      text_eq_iff r.cfg.leak_mode (codes "strict"),
                      text_eq_iff r.cfg.leak_mode (codes "standard"),
                    )))))
          (λ t. absurd (ground arith))

    filter_ads-AsksAtMost :
        (now : ℕ) (req : d.Msg) (domain : Bytes) (q : Question) (client : Bytes) (r : State d u)
        → IsProtected r.cfg
        → is_local_domain domain ≡ false
        → AsksAtMost req r.cfg.dns_remote r (filter_ads d u geo now req domain q client r)
    unfolding filter_ads block_query
    filter_ads-AsksAtMost now req domain q client r p l =
        if_ind (AsksAtMost req r.cfg.dns_remote r) (in_ads d u geo domain r.cfg) (λ t. inl refl)
          (λ t. protect-AsksAtMost now req domain q client r p l)

    by_geosite-AsksAtMost :
        (now : ℕ) (req : d.Msg) (domain : Bytes) (q : Question) (client : Bytes) (r : State d u)
        → IsProtected r.cfg
        → is_local_domain domain ≡ false
        → in_domestic d u geo domain r.cfg ≡ false
        → AsksAtMost req r.cfg.dns_remote r (by_geosite d u geo now req domain q client r)
    unfolding by_geosite
    by_geosite-AsksAtMost now req domain q client r p l n =
        let P = AsksAtMost req r.cfg.dns_remote r in
        let remote_branch = inr (
          client-forward_to_group now req domain q client r.cfg.dns_remote remote
            (codes "geosite:matched") r) in
        let rest = filter_ads-AsksAtMost now req domain q client r p l in
        if_ind P (text_eq r.cfg.leak_mode (codes "loose") || not r.cfg.leak_enabled)
          (λ t.
            if_ind P (in_domestic d u geo domain r.cfg) (λ i. absurd (ground arith))
              (λ i. if_ind P (in_remote d u geo domain r.cfg) (λ k. remote_branch) (λ k. rest)))
          (λ t.
            if_ind P (in_remote d u geo domain r.cfg) (λ k. remote_branch)
              (λ k.
                if_ind P (in_domestic d u geo domain r.cfg) (λ i. absurd (ground arith))
                  (λ i. rest)))

    without_rule-AsksAtMost :
        (now : ℕ) (req : d.Msg) (domain : Bytes) (q : Question) (client : Bytes) (r : State d u)
        → IsProtected r.cfg
        → is_local_domain domain ≡ false
        → in_domestic d u geo domain r.cfg ≡ false
        → AsksAtMost req r.cfg.dns_remote r (without_rule d u geo now req domain q client r)
    unfolding without_rule block_query
    without_rule-AsksAtMost now req domain q client r p l n =
        if_ind (AsksAtMost req r.cfg.dns_remote r)
          (r.cfg.ad_filter_enabled && geo.match_ad_filter domain) (λ t. inl refl)
          (λ t. by_geosite-AsksAtMost now req domain q client r p l n)

    -- With leak protection in the strict or the standard mode and a list loaded on both sides, a
    -- query for a name that is not local, that no rule sends to the domestic servers and that is on
    -- no domestic list is never sent to them: nothing is asked, or the remote group is.
    pub resolve_with_rules-AsksAtMost :
        (now : ℕ) (req : d.Msg) (domain : Bytes) (q : Question) (client : Bytes) (r : State d u)
        → IsProtected r.cfg
        → is_local_domain domain ≡ false
        → in_domestic d u geo domain r.cfg ≡ false
        → (match_rules r.rule_engine domain).rule_type ≢ type_domestic
        → AsksAtMost req r.cfg.dns_remote r (resolve_with_rules d u geo now req domain q client r)
    unfolding resolve_with_rules block_query redirect_query
    resolve_with_rules-AsksAtMost now req domain q client r p l n k =
        let P = AsksAtMost req r.cfg.dns_remote r in
        let m = match_rules r.rule_engine domain in
        let rest = without_rule-AsksAtMost now req domain q client r p l n in
        if_ind P (not m.matched) (λ t. rest)
          (λ t.
            if_ind P (text_eq m.rule_type type_block) (λ t. inl refl)
              (λ t.
                if_ind P (text_eq m.rule_type type_redirect) (λ t. inl refl)
                  (λ t.
                    if_ind P (text_eq m.rule_type type_remote)
                      (λ t. inr (
                        client-forward_to_group now req domain q client r.cfg.dns_remote remote
                          (codes "rule:" ++ m.rule_id) r))
                      (λ t.
                        if_ind P (text_eq m.rule_type type_domestic)
                          (λ i. absurd (k ((text_eq_iff m.rule_type type_domestic).0 i)))
                          (λ i. rest)))))

    -- A query for a name that a block rule matches first is answered without a record and with
    -- success, whatever the lists and the configuration say; no server is asked, the cache stays as
    -- it is, and the query is counted as blocked.
    pub resolve_with_rules_blocked :
        (laws : DnsLaws d) (now : ℕ) (req : d.Msg) (domain : Bytes) (q : Question) (client : Bytes)
        (r : State d u)
        → (match_rules r.rule_engine domain).matched ≡ true
        → (match_rules r.rule_engine domain).rule_type ≡ type_block
        → (d.answer (resolve_with_rules d u geo now req domain q client r).1 ≡ [])
          × (d.rcode (resolve_with_rules d u geo now req domain q client r).1 ≡ d.rcode_success)
          × ((resolve_with_rules d u geo now req domain q client r).0.client ≡ r.client)
          × ((resolve_with_rules d u geo now req domain q client r).0.cache ≡ r.cache)
          × ((resolve_with_rules d u geo now req domain q client r).0.counters.blocked_queries
              ≡ r.counters.blocked_queries + 1)
    unfolding resolve_with_rules block_query block_response text_eq
    resolve_with_rules_blocked laws now req domain q client r h k =
        rw (h, k)
          (
            laws.answer-set_recursion_available _
                ∙ laws.answer-set_authoritative _
                ∙ laws.answer-set_rcode _ _,
            laws.rcode-set_recursion_available _
                ∙ laws.rcode-set_authoritative _
                ∙ laws.rcode-set_rcode _ _,
            refl,
            refl,
            refl,
          )
