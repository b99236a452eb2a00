-- ===== src/Resolver/Lookup.antt =====
-- Lookup and its helper doLookup, and initUpstreams with UpdateConfig, of
-- internal/resolver/resolver.go.
use lynx_dns.Common.{
  ℕ, Bool, true, not, ◌&&◌, Option, none, some, List, [], ◌∷◌, ◌++◌, Bytes, codes, text_eq,
  if◌then◌else◌,
}
use lynx_dns.Common.Dict.{Dict, lookup, insert}
use lynx_dns.Dns.{DnsLib}
use lynx_dns.Rules.{match_rules, type_block, type_redirect, type_remote, type_domestic}
use lynx_dns.Resolver.State.{
  Action, unset, domestic, remote, ad_block, leak_block, rule_block, redirect, default_group,
  action_text, QueryLog, Config, answered, errored, QueryResult, Upstreams, Geo, Resolver,
}
use lynx_dns.Resolver.Names.{is_local_domain}
use lynx_dns.Resolver.Replies.{extract_ips_from_msg}
use lynx_dns.Resolver.Resolve.{in_remote, in_domestic, in_ads, lists_loaded}
use lynx_dns.Resolver.Forward.{new_log, default_servers}

-- DefaultEDNSSize of internal/client/client.go
abbrev pub default_edns_size : ℕ
default_edns_size = 1232

-- The loop of `initUpstreams`: an address that occurred before is not added again.
unfoldable pub add_upstreams : {C : Type 0} → (Bytes → C → C) → List Bytes → Dict Bool → C → C
add_upstreams add [] seen c = c
add_upstreams add (addr ∷ addrs) seen c = elim (lookup addr seen) [
  | some b ↦ add_upstreams add addrs seen c
  | none ↦ add_upstreams add addrs (insert addr true seen) (add addr c)
]

module _ (d : DnsLib) (u : Upstreams d.Msg) where
  unfoldable pub init_upstreams : Resolver d.Msg u.Client → Resolver d.Msg u.Client
  unfolding add_upstreams
  init_upstreams r = record r {
    client =
        add_upstreams (u.add_upstream)
          (r.cfg.dns_domestic ++ (r.cfg.dns_remote ++ r.cfg.dns_bootstrap)) [] r.client;
  }

  unfoldable pub update_config : Config → Resolver d.Msg u.Client → Resolver d.Msg u.Client
  unfolding init_upstreams
  update_config cfg r = init_upstreams (record r {
    cfg = cfg;
    journal = record (r.journal) {
      query_level = cfg.query_level;
      cache_log_interval = cfg.cache_log_interval;
    };
  })

  -- The time to live of the first record; a nil record there would panic.
  unfoldable pub first_ttl : List (Option d.Rr) → ℕ
  first_ttl [] = 0
  first_ttl (none ∷ rs) = 0
  first_ttl (some rr ∷ rs) = d.rr_ttl rr

  -- The query that `Lookup` builds, of 1232 bytes at most over UDP.
  unfoldable pub lookup_message : ℕ → Bytes → ℕ → d.Msg
  lookup_message id domain qtype =
      d.set_edns0 default_edns_size
        (d.set_recursion_desired (d.question_msg id (d.fqdn domain) qtype))

  -- The entry, and the text of the error if there is one.
  abbrev pub Looked : Type 0
  Looked = QueryLog × Option Bytes

  -- A branch that asks no server.
  abbrev pub unasked : QueryLog → Resolver d.Msg u.Client → Resolver d.Msg u.Client × Looked
  unasked ql r = (r, (ql, none))

  unfoldable pub looked : Action → ℕ → QueryResult d.Msg → QueryLog → Looked
  unfolding first_ttl
  looked action elapsed res ql = elim res.answer [
    | errored e ↦ (record ql { latency = elapsed }, some e)
    | answered m ↦ (
      record ql {
        latency = elapsed;
        server_used = res.server_used;
        action = action;
        result_ips = extract_ips_from_msg d m;
        matched_rule = action_text action;
        ttl = first_ttl (d.answer m);
      },
      none,
    )
  ]

  -- `doLookup`; `elapsed` is what the clock measures around the query.
  unfoldable pub do_lookup :
      ℕ
      → d.Msg
      → List Bytes
      → Action
      → QueryLog
      → Resolver d.Msg u.Client
      → Resolver d.Msg u.Client × Looked
  unfolding looked
  do_lookup elapsed msg servers action ql r =
      let (c, res) = u.query_group msg servers r.cfg.concurrency r.client in
      (record r { client = c }, looked action elapsed res ql)

  module _ (geo : Geo) where
    -- `Lookup` after the geographic lists.
    unfoldable pub lookup_protected :
        ℕ → d.Msg → Bytes → QueryLog → Resolver d.Msg u.Client → Resolver d.Msg u.Client × Looked
    unfolding do_lookup lists_loaded
    lookup_protected elapsed msg domain ql r =
        let last = do_lookup elapsed msg (default_servers r.cfg) default_group ql r in
        if r.cfg.leak_enabled && not (is_local_domain domain)
        then if text_eq r.cfg.leak_mode (codes "strict") && lists_loaded d u geo r.cfg
          then unasked
              (record ql { action = leak_block; matched_rule = codes "leak_protection:strict" }) r
          else if text_eq r.cfg.leak_mode (codes "standard") && lists_loaded d u geo r.cfg
          then do_lookup elapsed msg r.cfg.dns_remote default_group ql r
          else last
        else last

    -- `Lookup` after the advertisement filter.
    unfoldable pub lookup_by_geosite :
        ℕ → d.Msg → Bytes → QueryLog → Resolver d.Msg u.Client → Resolver d.Msg u.Client × Looked
    unfolding do_lookup in_remote in_domestic in_ads lookup_protected
    lookup_by_geosite elapsed msg domain ql r =
        if in_remote d u geo domain r.cfg
        then do_lookup elapsed msg r.cfg.dns_remote remote ql r
        else if in_domestic d u geo domain r.cfg
        then do_lookup elapsed msg r.cfg.dns_domestic domestic ql r
        else if in_ads d u geo domain r.cfg
        then unasked (record ql { action = ad_block; matched_rule = codes "geosite:ad_filter" }) r
        else lookup_protected elapsed msg domain ql r

    -- `Lookup` after the rules.
    unfoldable pub lookup_without_rule :
        ℕ → d.Msg → Bytes → QueryLog → Resolver d.Msg u.Client → Resolver d.Msg u.Client × Looked
    unfolding lookup_by_geosite
    lookup_without_rule elapsed msg domain ql r =
        if r.cfg.ad_filter_enabled && geo.match_ad_filter domain
        then unasked (record ql { action = ad_block; matched_rule = codes "ad_filter" }) r
        else lookup_by_geosite elapsed msg domain ql r

    -- `Lookup`; `id` is the identifier that the library draws for its query.
    unfoldable pub lookup_domain :
        ℕ → ℕ → ℕ → Bytes → ℕ → Resolver d.Msg u.Client → Resolver d.Msg u.Client × Looked
    unfolding do_lookup lookup_without_rule lookup_message
    lookup_domain now elapsed id domain qtype r =
        let msg = lookup_message id domain qtype in
        let ql = new_log now domain (d.type_to_string qtype) [] unset in
        let m = match_rules r.rule_engine domain in
        let rest = lookup_without_rule elapsed msg domain ql r in
        if not m.matched
        then rest
        else if text_eq m.rule_type type_block
        then unasked (record ql { action = rule_block; matched_rule = m.rule_id }) r
        else if text_eq m.rule_type type_redirect
        then unasked
            (record ql { action = redirect; result_ips = m.target ∷ []; matched_rule = m.rule_id })
            r
        else if text_eq m.rule_type type_remote
        then do_lookup elapsed msg r.cfg.dns_remote remote ql r
        else if text_eq m.rule_type type_domestic
        then do_lookup elapsed msg r.cfg.dns_domestic domestic ql r
        else rest
