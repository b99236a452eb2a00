-- ===== src/Resolver/Forward.antt =====
-- The branches that a query may end in: it is blocked, redirected, or forwarded to a group of servers
-- (internal/resolver/resolver.go).
use lynx_dns.Common.{
  ℕ, ◌+◌, Bool, false, some, List, [], ◌∷◌, ◌++◌, Bytes, codes, text_eq, if◌then◌else◌, length, ltb,
}
use lynx_dns.Dns.{DnsLib, Question}
use lynx_dns.Cache
use lynx_dns.Rules.{MatchResult}
use lynx_dns.Resolver.State.{
  Action, redirect, default_group, failed, action_text, QueryLog, Config, answered, errored,
  QueryResult, Upstreams, Resolver, increment_map, show_list,
}
use lynx_dns.Resolver.Journal.{emit_log}
use lynx_dns.Resolver.Replies.{extract_ips_from_msg}

-- A log entry with the fields that every call of `emitLog` sets; the others are zero.
abbrev pub new_log : ℕ → Bytes → Bytes → Bytes → Action → QueryLog
new_log now domain type_text client action = record {
  timestamp = now;
  domain = domain;
  type_text = type_text;
  client_ip = client;
  server_used = [];
  result_ips = [];
  latency = 0;
  action = action;
  matched_rule = [];
  cached = false;
  ttl = 0;
}

abbrev pub nonempty : List Bytes → Bool
nonempty xs = ltb 0 (length xs)

abbrev pub default_servers : Config → List Bytes
default_servers cfg =
    if text_eq cfg.dns_default (codes "remote") then cfg.dns_remote else cfg.dns_domestic

-- The rule of a match, as it is shown.
abbrev pub shown_rule : MatchResult → Bytes
shown_rule m = m.rule_id ++ (b':' ∷ m.rule_domain)

module _ {M C : Type 0} where
  abbrev pub note_action : Action → Resolver M C → Resolver M C
  note_action a r = record r {
    counters = record (r.counters) {
      by_action = increment_map (action_text a) r.counters.by_action;
    };
  }

  abbrev pub note_status : Bytes → Resolver M C → Resolver M C
  note_status s r = record r {
    counters = record (r.counters) { by_status = increment_map s r.counters.by_status };
  }

  abbrev pub count_blocked : Resolver M C → Resolver M C
  count_blocked r = record r {
    counters = record (r.counters) { blocked_queries = r.counters.blocked_queries + 1 };
  }

  abbrev pub count_redirected : Resolver M C → Resolver M C
  count_redirected r = record r {
    counters = record (r.counters) { redirected_queries = r.counters.redirected_queries + 1 };
  }

  abbrev pub emit : ℕ → QueryLog → Resolver M C → Resolver M C
  emit now ql r = record r { journal = emit_log now ql r.journal }

module _ (d : DnsLib) (u : Upstreams d.Msg) where
  abbrev pub State : Type 0
  State = Resolver d.Msg u.Client

  -- The steps of a branch that blocks, up to the reply.
  unfoldable pub block_query : ℕ → Question → Bytes → Bytes → Action → Bytes → State → State
  block_query now q domain client action rule r =
      emit now
        (record (new_log now domain (d.type_to_string q.qtype) client action) {
          matched_rule = rule;
        })
        (note_action action (count_blocked r))

  -- The steps of the branch that redirects, up to the reply.
  unfoldable pub redirect_query : ℕ → Question → Bytes → Bytes → MatchResult → State → State
  redirect_query now q domain client m r =
      emit now
        (record (new_log now domain (d.type_to_string q.qtype) client redirect) {
          result_ips = m.target ∷ [];
          matched_rule = shown_rule m;
        })
        (note_action redirect (count_redirected r))

  unfoldable pub forward_failed :
      ℕ
      → d.Msg
      → Bytes
      → Question
      → Bytes
      → List Bytes
      → QueryResult d.Msg
      → Bytes
      → State
      → State × d.Msg
  forward_failed now req domain q client servers res e r = (
    emit now
        (record (new_log now domain (d.type_to_string q.qtype) client failed) {
          server_used = show_list servers;
          latency = res.latency;
          matched_rule = e;
        })
        (note_action failed (note_status (codes "timeout") r)),
    d.set_rcode req d.rcode_server_failure,
  )

  unfoldable pub forward_answered :
      ℕ
      → Bytes
      → Question
      → Bytes
      → Action
      → Bytes
      → QueryResult d.Msg
      → d.Msg
      → State
      → State × d.Msg
  forward_answered now domain q client action rule res m r = (
    emit now
        (record (new_log now domain (d.type_to_string q.qtype) client action) {
          server_used = res.server_used;
          result_ips = extract_ips_from_msg d m;
          latency = res.latency;
          matched_rule = rule;
        })
        (note_action action
          (record r { cache = Cache.put d now domain q.qtype (some m) res.server_used r.cache })),
    m,
  )

  unfoldable pub forward_to_group :
      ℕ → d.Msg → Bytes → Question → Bytes → List Bytes → Action → Bytes → State → State × d.Msg
  unfolding forward_failed forward_answered
  forward_to_group now req domain q client servers action rule r =
      let (c, res) = u.query_group req servers r.cfg.concurrency r.client in
      let r' : State = record r { client = c } in
      elim res.answer [
        | errored e ↦ forward_failed now req domain q client servers res e r'
        | answered m ↦ forward_answered now domain q client action rule res m r'
      ]

  unfoldable pub forward_to_default : ℕ → d.Msg → Bytes → Question → Bytes → State → State × d.Msg
  unfolding forward_to_group
  forward_to_default now req domain q client r =
      forward_to_group now req domain q client (default_servers r.cfg) default_group
        (codes "default_policy") r
