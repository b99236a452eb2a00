-- ===== src/Resolver/Resolve.antt =====
-- New, UpdateConfig, Resolve and what it calls, of internal/resolver/resolver.go. The clock is read
-- at the start of `Resolve` and at its end: `now` stands for both within a call that it makes.
use lynx_dns.Common.{
  ℕ, ◌+◌, ◌-◌, Bool, true, not, ◌&&◌, ◌||◌, none, some, [], ◌∷◌, ◌++◌, Bytes, codes, text_eq, ◌==◌,
  if◌then◌else◌, trim_suffix,
}
use lynx_dns.Dns.{DnsLib, Question}
use lynx_dns.Cache
use lynx_dns.Rules.{match_rules, type_block, type_redirect, type_remote, type_domestic}
use lynx_dns.Resolver.State.{
  cache_hit, domestic, remote, ad_block, leak_block, rule_block, default_group, Config, Upstreams,
  Geo, increment_map,
}
use lynx_dns.Resolver.Names.{is_local_domain}
use lynx_dns.Resolver.Replies.{block_response, redirect_response, extract_ips_from_msg}
use lynx_dns.Resolver.Forward.{
  State, block_query, emit, forward_to_default, forward_to_group, new_log, nonempty, note_action,
  note_status, redirect_query, shown_rule,
}

module _ (d : DnsLib) (u : Upstreams d.Msg) where
  module _ (geo : Geo) where
    unfoldable pub in_remote : Bytes → Config → Bool
    in_remote domain cfg =
        nonempty cfg.geosite_remote && geo.match_geosite domain cfg.geosite_remote

    unfoldable pub in_domestic : Bytes → Config → Bool
    in_domestic domain cfg =
        nonempty cfg.geosite_domestic && geo.match_geosite domain cfg.geosite_domestic

    unfoldable pub in_ads : Bytes → Config → Bool
    in_ads domain cfg =
        cfg.ad_filter_enabled
        && (nonempty cfg.geosite_ad_filter && geo.match_geosite domain cfg.geosite_ad_filter)

    -- hasRemote && hasDomestic
    unfoldable pub lists_loaded : Config → Bool
    lists_loaded cfg =
        (nonempty cfg.geosite_remote && geo.has_geosite_categories cfg.geosite_remote)
        && (nonempty cfg.geosite_domestic && geo.has_geosite_categories cfg.geosite_domestic)

    -- The part of `resolveWithRules` after the geographic lists: the leak protection.
    unfoldable pub protect : ℕ → d.Msg → Bytes → Question → Bytes → State d u → State d u × d.Msg
    unfolding lists_loaded block_query forward_to_group forward_to_default
    protect now req domain q client r =
        if r.cfg.leak_enabled && not (is_local_domain domain)
        then if text_eq r.cfg.leak_mode (codes "strict") && lists_loaded r.cfg
          then (
            block_query d u now q domain client leak_block (codes "leak_protection:strict") r,
            d.set_rcode req d.rcode_name_error,
          )
          else if text_eq r.cfg.leak_mode (codes "standard") && lists_loaded r.cfg
          then forward_to_group d u now req domain q client r.cfg.dns_remote default_group
              (codes "leak_protection:standard") r
          else forward_to_default d u now req domain q client r
        else forward_to_default d u now req domain q client r

    -- The part after the routing lists: the advertisement category.
    unfoldable pub filter_ads : ℕ → d.Msg → Bytes → Question → Bytes → State d u → State d u × d.Msg
    unfolding in_ads block_query protect
    filter_ads now req domain q client r =
        if in_ads domain r.cfg
        then (
          block_query d u now q domain client ad_block (codes "geosite:ad_filter") r,
          block_response d req,
        )
        else protect now req domain q client r

    -- The part after the advertisement filter: the routing lists, in the order of the mode.
    unfoldable pub by_geosite : ℕ → d.Msg → Bytes → Question → Bytes → State d u → State d u × d.Msg
    unfolding in_remote in_domestic forward_to_group filter_ads
    by_geosite now req domain q client r =
        let to_domestic =
          forward_to_group d u now req domain q client r.cfg.dns_domestic domestic
            (codes "geosite:matched") r in
        let to_remote =
          forward_to_group d u now req domain q client r.cfg.dns_remote remote
            (codes "geosite:matched") r in
        let rest = filter_ads now req domain q client r in
        if text_eq r.cfg.leak_mode (codes "loose") || not r.cfg.leak_enabled
        then if in_domestic domain r.cfg
          then to_domestic
          else if in_remote domain r.cfg
          then to_remote
          else rest
        else if in_remote domain r.cfg
        then to_remote
        else if in_domestic domain r.cfg
        then to_domestic
        else rest

    -- The part after the rules.
    unfoldable pub without_rule :
        ℕ → d.Msg → Bytes → Question → Bytes → State d u → State d u × d.Msg
    unfolding block_query by_geosite
    without_rule now req domain q client r =
        if r.cfg.ad_filter_enabled && geo.match_ad_filter domain
        then (
          block_query d u now q domain client ad_block (codes "ad_filter") r,
          block_response d req,
        )
        else by_geosite now req domain q client r

    unfoldable pub resolve_with_rules :
        ℕ → d.Msg → Bytes → Question → Bytes → State d u → State d u × d.Msg
    unfolding block_query redirect_query forward_to_group without_rule
    resolve_with_rules now req domain q client r =
        let m = match_rules r.rule_engine domain in
        let rest = without_rule now req domain q client r in
        if not m.matched
        then rest
        else if text_eq m.rule_type type_block
        then (block_query d u now q domain client rule_block (shown_rule m) r, block_response d req)
        else if text_eq m.rule_type type_redirect
        then (redirect_query d u now q domain client m r, redirect_response d req q m.target)
        else if text_eq m.rule_type type_remote
        then forward_to_group d u now req domain q client r.cfg.dns_remote remote
            (codes "rule:" ++ m.rule_id) r
        else if text_eq m.rule_type type_domestic
        then forward_to_group d u now req domain q client r.cfg.dns_domestic domestic
            (codes "rule:" ++ m.rule_id) r
        else rest

    -- `Resolve` up to the lookup in the cache.
    unfoldable pub count_query : Question → State d u → State d u
    count_query q r = record r {
      counters = record (r.counters) {
        total_queries = r.counters.total_queries + 1;
        by_type = increment_map (d.type_to_string q.qtype) r.counters.by_type;
      };
    }

    unfoldable pub answer_cached :
        ℕ → d.Msg → Bytes → Question → Bytes → d.Msg → State d u → State d u × d.Msg
    answer_cached now req domain q client m r = (
      emit now
          (record (new_log now domain (d.type_to_string q.qtype) client cache_hit) {
            server_used = codes "cache";
            cached = true;
            result_ips = extract_ips_from_msg d m;
          })
          (note_status (codes "success") (
            note_action cache_hit (record r {
              counters = record (r.counters) { cache_hits = r.counters.cache_hits + 1 };
            }))),
      d.set_id (d.id req) (d.copy m),
    )

    -- `Resolve` after `resolveWithRules`, whose result is never nil.
    unfoldable pub finish_query : ℕ → State d u × d.Msg → State d u × d.Msg
    finish_query elapsed (r, m) = (
      note_status (if d.rcode m == d.rcode_success then codes "success" else codes "failed")
          (record r {
            counters = record (r.counters) { total_latency = r.counters.total_latency + elapsed };
          }),
      m,
    )

    unfoldable pub resolve_question :
        ℕ → ℕ → d.Msg → Question → Bytes → State d u → State d u × d.Msg
    unfolding count_query answer_cached finish_query resolve_with_rules
    resolve_question start now req q client r =
        let domain = trim_suffix q.name (codes ".") in
        let r1 = count_query q r in
        let (cache, found) = Cache.get d start domain q.qtype r1.cache in
        let r2 : State d u = record r1 { cache = cache } in
        elim found [
          | some m ↦ answer_cached start req domain q client m r2
          | none ↦ finish_query (now - start) (resolve_with_rules now req domain q client r2)
        ]

    unfoldable pub resolve : ℕ → ℕ → d.Msg → Bytes → State d u → State d u × d.Msg
    unfolding resolve_question
    resolve start now req client r = elim (d.questions req) [
      | [] ↦ (r, d.set_rcode req d.rcode_format_error)
      | q ∷ qs ↦ resolve_question start now req q client r
    ]
