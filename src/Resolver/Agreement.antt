-- ===== src/Resolver/Agreement.antt =====
-- `Lookup` against `Resolve` (internal/resolver/resolver.go): the interface shows with the first what
-- the second would do with a name.
use lynx_dns.Common.{
  ℕ, ◌≡◌, refl, arith, true, false, not, ◌&&◌, ◌||◌, ◌++◌, if_ind, if_ind2, none, some, inl, inr,
  ◌⊎◌, List, [], Bytes, codes, text_eq, if◌then◌else◌,
}
use lynx_dns.Dns.{DnsLib, Question}
use lynx_dns.Rules.{match_rules, type_block, type_redirect, type_remote, type_domestic}
use lynx_dns.Resolver.State.{
  Action, unset, domestic, remote, ad_block, default_group, failed, QueryLog, Config, Answer,
  answered, errored, Upstreams, Geo, increment_map, action_text,
}
use lynx_dns.Resolver.Names.{is_local_domain}
use lynx_dns.Resolver.Resolve.{
  in_remote, in_domestic, in_ads, lists_loaded, protect, filter_ads, by_geosite, without_rule,
  resolve_with_rules,
}
use lynx_dns.Resolver.Forward.{
  State, new_log, block_query, redirect_query, forward_failed, forward_answered, forward_to_group,
  forward_to_default, default_servers,
}
use lynx_dns.Resolver.Lookup.{
  Looked, lookup_message, looked, do_lookup, lookup_protected, lookup_by_geosite,
  lookup_without_rule, lookup_domain,
}
use lynx_dns.Resolver.Policy.{asked, client-forward_to_group}

module _ (d : DnsLib) (u : Upstreams d.Msg) (r : State d u) where
  -- The answer to a message from the servers.
  abbrev pub answer_of : d.Msg → List Bytes → Answer d.Msg
  answer_of msg servers = (u.query_group msg servers r.cfg.concurrency r.client).1.answer

  -- What `Resolve` counts, and what `Lookup` shows, after an answer.
  abbrev pub Counted : Action → Answer d.Msg → State d u → Type 0
  Counted action (errored e) out =
      out.counters.by_action ≡ increment_map (action_text failed) r.counters.by_action
  Counted action (answered m) out =
      out.counters.by_action ≡ increment_map (action_text action) r.counters.by_action

  abbrev pub Shown : Action → Answer d.Msg → Looked d u → Type 0
  Shown action (errored e) l = l.1 ≡ some e
  Shown action (answered m) l = (l.1 ≡ none) × (l.0.action ≡ action)

  abbrev pub IsGroup : List Bytes → Type 0
  IsGroup servers = (servers ≡ r.cfg.dns_remote) ⊎ (servers ≡ r.cfg.dns_domestic)

  -- Either neither asks a server, and the action that is shown is the one that is counted, or both
  -- send their message to the same group, and have the same action for an answer to it.
  unfoldable pub Agrees : d.Msg → d.Msg → State d u × d.Msg → State d u × Looked d u → Type 0
  Agrees req msg out shown =
      ((out.0.client ≡ r.client)
        × (shown.0.client ≡ r.client)
        × (shown.1.1 ≡ none)
        × (out.0.counters.by_action
            ≡ increment_map (action_text shown.1.0.action) r.counters.by_action))
      ⊎ ((servers : List Bytes) × (action : Action) × IsGroup servers
          × (out.0.client ≡ asked d u req servers r)
          × (shown.0.client ≡ asked d u msg servers r)
          × Counted action (answer_of req servers) out.0
          × Shown action (answer_of msg servers) shown.1)

  Counted-after_answer :
      (now : ℕ) (req : d.Msg) (domain : Bytes) (q : Question) (client : Bytes)
      (servers : List Bytes) (action : Action) (rule : Bytes) (c : u.Client) (server : Bytes)
      (latency : ℕ) (x : Answer d.Msg)
      → Counted action x
          (elim x as (λ _. State d u × d.Msg) [
            | errored e ↦
                forward_failed d u now req domain q client servers
                  (record { answer = x; server_used = server; latency = latency })
                  e
                  (record r { client = c })
            | answered m ↦
                forward_answered d u now domain q client action rule
                  (record { answer = x; server_used = server; latency = latency })
                  m
                  (record r { client = c })
          ]).0
  unfolding forward_failed forward_answered
  Counted-after_answer now req domain q client servers action rule c server latency (errored e) =
      refl
  Counted-after_answer now req domain q client servers action rule c server latency (answered m) =
      refl

  Shown-looked :
      (action : Action) (elapsed : ℕ) (server : Bytes) (latency : ℕ) (ql : QueryLog)
      (x : Answer d.Msg)
      → Shown action x (
          looked d u action elapsed
            (record { answer = x; server_used = server; latency = latency })
            ql)
  unfolding looked
  Shown-looked action elapsed server latency ql (errored e) = refl
  Shown-looked action elapsed server latency ql (answered m) = (refl, refl)

  forward-Agrees :
      (now elapsed : ℕ) (req msg : d.Msg) (domain : Bytes) (q : Question) (client : Bytes)
      (servers : List Bytes) (action : Action) (rule : Bytes) (ql : QueryLog)
      → IsGroup servers
      → Agrees req msg
          (forward_to_group d u now req domain q client servers action rule r)
          (do_lookup d u elapsed msg servers action ql r)
  unfolding forward_to_group do_lookup Agrees
  forward-Agrees now elapsed req msg domain q client servers action rule ql group =
      let out = u.query_group req servers r.cfg.concurrency r.client in
      let seen = u.query_group msg servers r.cfg.concurrency r.client in
      inr (
        servers,
        action,
        group,
        client-forward_to_group d u now req domain q client servers action rule r,
        refl,
        Counted-after_answer now req domain q client servers action rule out.0 out.1.server_used
            out.1.latency out.1.answer,
        Shown-looked action elapsed seen.1.server_used seen.1.latency ql seen.1.answer,
      )

  unasked-Agrees :
      (req msg : d.Msg) (out : State d u × d.Msg) (shown : State d u × Looked d u)
      → (out.0.client ≡ r.client)
      → (shown.0.client ≡ r.client)
      → (shown.1.1 ≡ none)
      → (out.0.counters.by_action
          ≡ increment_map (action_text shown.1.0.action) r.counters.by_action)
      → Agrees req msg out shown
  unfolding Agrees
  unasked-Agrees req msg out shown a b c e = inl (a, b, c, e)

  default_servers-IsGroup : IsGroup (default_servers r.cfg)
  default_servers-IsGroup =
      if_ind IsGroup (text_eq r.cfg.dns_default (codes "remote")) (λ t. inl refl) (λ t. inr refl)

  module _ (geo : Geo) where
    protect-Agrees :
        (now elapsed : ℕ) (req msg : d.Msg) (domain : Bytes) (q : Question) (client : Bytes)
        (ql : QueryLog)
        → Agrees req msg
            (protect d u geo now req domain q client r)
            (lookup_protected d u geo elapsed msg domain ql r)
    unfolding protect lookup_protected block_query forward_to_default
    protect-Agrees now elapsed req msg domain q client ql =
        let by_default =
          forward-Agrees now elapsed req msg domain q client (default_servers r.cfg) default_group
            (codes "default_policy") ql default_servers-IsGroup in
        if_ind2 (Agrees req msg) (r.cfg.leak_enabled && not (is_local_domain domain))
          (λ t.
            if_ind2 (Agrees req msg)
              (text_eq r.cfg.leak_mode (codes "strict") && lists_loaded d u geo r.cfg)
              (λ s. unasked-Agrees req msg _ _ refl refl refl refl)
              (λ s.
                if_ind2 (Agrees req msg)
                  (text_eq r.cfg.leak_mode (codes "standard") && lists_loaded d u geo r.cfg)
                  (λ v.
                    forward-Agrees now elapsed req msg domain q client r.cfg.dns_remote
                      default_group (codes "leak_protection:standard") ql (inl refl))
                  (λ v. by_default)))
          (λ t. by_default)

    filter_ads-Agrees :
        (now elapsed : ℕ) (req msg : d.Msg) (domain : Bytes) (q : Question) (client : Bytes)
        (ql : QueryLog)
        → Agrees req msg (filter_ads d u geo now req domain q client r) (
            if in_ads d u geo domain r.cfg
            then (
              r,
              (record ql { action = ad_block; matched_rule = codes "geosite:ad_filter" }, none),
            )
            else lookup_protected d u geo elapsed msg domain ql r)
    unfolding filter_ads block_query
    filter_ads-Agrees now elapsed req msg domain q client ql =
        if_ind2 (Agrees req msg) (in_ads d u geo domain r.cfg)
          (λ t. unasked-Agrees req msg _ _ refl refl refl refl)
          (λ t. protect-Agrees now elapsed req msg domain q client ql)

    -- The mode in which `Resolve` takes the remote list first, as `Lookup` always does.
    abbrev pub IsRemoteFirst : Config → Type 0
    IsRemoteFirst cfg = (text_eq cfg.leak_mode (codes "loose") || not cfg.leak_enabled) ≡ false

    by_geosite-Agrees :
        (now elapsed : ℕ) (req msg : d.Msg) (domain : Bytes) (q : Question) (client : Bytes)
        (ql : QueryLog)
        → IsRemoteFirst r.cfg
        → Agrees req msg
            (by_geosite d u geo now req domain q client r)
            (lookup_by_geosite d u geo elapsed msg domain ql r)
    unfolding by_geosite lookup_by_geosite
    by_geosite-Agrees now elapsed req msg domain q client ql f =
        if_ind
          (λ (x : State d u × d.Msg).
            Agrees req msg x (lookup_by_geosite d u geo elapsed msg domain ql r))
          (text_eq r.cfg.leak_mode (codes "loose") || not r.cfg.leak_enabled)
          (λ l. absurd (ground arith))
          (λ l.
            if_ind2 (Agrees req msg) (in_remote d u geo domain r.cfg)
              (λ k.
                forward-Agrees now elapsed req msg domain q client r.cfg.dns_remote remote
                  (codes "geosite:matched") ql (inl refl))
              (λ k.
                if_ind2 (Agrees req msg) (in_domestic d u geo domain r.cfg)
                  (λ i.
                    forward-Agrees now elapsed req msg domain q client r.cfg.dns_domestic domestic
                      (codes "geosite:matched") ql (inr refl))
                  (λ i. filter_ads-Agrees now elapsed req msg domain q client ql)))

    without_rule-Agrees :
        (now elapsed : ℕ) (req msg : d.Msg) (domain : Bytes) (q : Question) (client : Bytes)
        (ql : QueryLog)
        → IsRemoteFirst r.cfg
        → Agrees req msg
            (without_rule d u geo now req domain q client r)
            (lookup_without_rule d u geo elapsed msg domain ql r)
    unfolding without_rule lookup_without_rule block_query
    without_rule-Agrees now elapsed req msg domain q client ql f =
        if_ind2 (Agrees req msg) (r.cfg.ad_filter_enabled && geo.match_ad_filter domain)
          (λ t. unasked-Agrees req msg _ _ refl refl refl refl)
          (λ t. by_geosite-Agrees now elapsed req msg domain q client ql f)

    -- Outside the loose mode and with leak protection on, `Lookup` and the decision of `Resolve` for a
    -- name that is not in the cache either both ask no server, and the action that is shown is the one
    -- that is counted; or they send their messages, which may differ, to the same group, the remote or
    -- the domestic one, and have the same action, which `Resolve` counts and `Lookup` shows if the
    -- message that it sent is answered. If it is not, `Resolve` counts a failure, and `Lookup` returns
    -- the error.
    pub lookup_domain-Agrees :
        (now elapsed id : ℕ) (req : d.Msg) (domain : Bytes) (q : Question) (client : Bytes)
        → IsRemoteFirst r.cfg
        → Agrees req
            (lookup_message d u id domain q.qtype)
            (resolve_with_rules d u geo now req domain q client r)
            (lookup_domain d u geo now elapsed id domain q.qtype r)
    unfolding resolve_with_rules lookup_domain block_query redirect_query
    lookup_domain-Agrees now elapsed id req domain q client f =
        let msg = lookup_message d u id domain q.qtype in
        let ql = new_log now domain (d.type_to_string q.qtype) [] unset in
        let m = match_rules r.rule_engine domain in
        let rest = without_rule-Agrees now elapsed req msg domain q client ql f in
        if_ind2 (Agrees req msg) (not m.matched) (λ t. rest)
          (λ t.
            if_ind2 (Agrees req msg) (text_eq m.rule_type type_block)
              (λ t. unasked-Agrees req msg _ _ refl refl refl refl)
              (λ t.
                if_ind2 (Agrees req msg) (text_eq m.rule_type type_redirect)
                  (λ t. unasked-Agrees req msg _ _ refl refl refl refl)
                  (λ t.
                    if_ind2 (Agrees req msg) (text_eq m.rule_type type_remote)
                      (λ t.
                        forward-Agrees now elapsed req msg domain q client r.cfg.dns_remote remote
                          (codes "rule:" ++ m.rule_id) ql (inl refl))
                      (λ t.
                        if_ind2 (Agrees req msg) (text_eq m.rule_type type_domestic)
                          (λ i.
                            forward-Agrees now elapsed req msg domain q client r.cfg.dns_domestic
                              domestic (codes "rule:" ++ m.rule_id) ql (inr refl))
                          (λ i. rest)))))

    -- In the loose mode, or with leak protection off, a name that no rule and no advertisement filter
    -- takes and that is on both lists is sent to the domestic group by `Resolve`, while `Lookup` asks
    -- the remote group.
    pub lookup_domain_loose :
        (now elapsed id : ℕ) (req : d.Msg) (domain : Bytes) (q : Question) (client : Bytes)
        → (text_eq r.cfg.leak_mode (codes "loose") || not r.cfg.leak_enabled) ≡ true
        → (match_rules r.rule_engine domain).matched ≡ false
        → (r.cfg.ad_filter_enabled && geo.match_ad_filter domain) ≡ false
        → in_domestic d u geo domain r.cfg ≡ true
        → in_remote d u geo domain r.cfg ≡ true
        → ((resolve_with_rules d u geo now req domain q client r).0.client
            ≡ asked d u req r.cfg.dns_domestic r)
          × ((lookup_domain d u geo now elapsed id domain q.qtype r).0.client
              ≡ asked d u (lookup_message d u id domain q.qtype) r.cfg.dns_remote r)
    unfolding resolve_with_rules without_rule by_geosite lookup_domain lookup_without_rule
        lookup_by_geosite do_lookup
    lookup_domain_loose now elapsed id req domain q client l m a i k =
        let P : State d u × d.Msg → Type 0 = λ x. x.0.client ≡ asked d u req r.cfg.dns_domestic r in
        let Q : State d u × Looked d u → Type 0 =
          λ x. x.0.client ≡ asked d u (lookup_message d u id domain q.qtype) r.cfg.dns_remote r in
        let matched = (match_rules r.rule_engine domain).matched in
        let ads = r.cfg.ad_filter_enabled && geo.match_ad_filter domain in
        let loose = text_eq r.cfg.leak_mode (codes "loose") || not r.cfg.leak_enabled in
        (
          if_ind P (not matched)
              (λ t.
                if_ind P ads (λ b. absurd (ground arith))
                  (λ b.
                    if_ind P loose
                      (λ s.
                        if_ind P (in_domestic d u geo domain r.cfg)
                          (λ v.
                            client-forward_to_group d u now req domain q client r.cfg.dns_domestic
                              domestic (codes "geosite:matched") r)
                          (λ v. absurd (ground arith)))
                      (λ s. absurd (ground arith))))
              (λ t. absurd (ground arith)),
          if_ind Q (not matched)
              (λ t.
                if_ind Q ads (λ b. absurd (ground arith))
                  (λ b.
                    if_ind Q (in_remote d u geo domain r.cfg) (λ v. refl)
                      (λ v. absurd (ground arith))))
              (λ t. absurd (ground arith)),
        )
