-- ===== src/Resolver/Runs.antt =====
-- Concrete runs of the resolver, and the theorems at concrete inputs.
use lynx_dns.Common.{
  negsuc, ◌↔◌, ◌≢◌, ◌⊎◌, All, drop, ℕ, ◌+◌, ◌≡◌, refl, inl, arith, Bool, true, false, ◌||◌, ◌&&◌,
  some, List, [], ◌∷◌, Bytes, codes, text_eq, has_suffix, to_lower, split, trim_suffix, pos,
}
use lynx_dns.Common.Dict
use lynx_dns.Dns.{Question, a}
use lynx_dns.Resolver.Local.{Some, is_local_domain_iff}
use lynx_dns.Resolver.Names.{is_local_domain, local_domain_suffixes}
use lynx_dns.Rules.Matching.{IsUnder}
use lynx_dns.Resolver.History.{asked_for, last_of, in_order}
use lynx_dns.Dns.Sample.{SampleMsg, sample}
use lynx_dns.Cache.{new_cache, extract_min_ttl}
use lynx_dns.Cache.Calls.{new_cache-IsValid}
use lynx_dns.Rules.{Rule, new_rule, exact, match_rules, match_loop, rule_match, type_block}
use lynx_dns.Resolver.State.{
  cache_hit, remote, QueryLog, Config, answered, Upstreams, Geo, Journal, Resolver,
}
use lynx_dns.Resolver.Journal.{recent_queries}
use lynx_dns.Resolver.Names.{is_local_domain, any_suffix, any_tld}
use lynx_dns.Resolver.Resolve.{
  in_domestic, in_remote, lists_loaded, resolve_question, resolve, resolve_with_rules,
}
use lynx_dns.Resolver.Forward.{State, new_log, forward_to_group}
use lynx_dns.Resolver.Lookup.{lookup_domain, lookup_message}
use lynx_dns.Resolver.Policy.{AsksAtMost, resolve_with_rules-AsksAtMost}
use lynx_dns.Resolver.Balance.{Balanced}
use lynx_dns.Resolver.Counts.{resolve-Balanced}
use lynx_dns.Resolver.Agreement.{Agrees, lookup_domain-Agrees, lookup_domain_loose}
use lynx_dns.Resolver.Repeat.{resolve_question-forward_to_group}
use lynx_dns.Resolver.History.{emits, recent_queries-emits}

abbrev question : Question
question = record { name = codes "x.com."; qtype = 1 }

abbrev request : SampleMsg
request = record {
  ident = 5;
  question = question ∷ [];
  records = [];
  code = 0;
  authoritative = false;
  recursion_available = false;
}

abbrev reply : SampleMsg
reply = record request { records = some (a (codes "1.2.3.4"), 60) ∷ [] }

-- A client that counts its queries, and answers each with the same reply.
abbrev upstreams : Upstreams SampleMsg
upstreams = record {
  Client = List (List Bytes);
  query_group = λ m servers n c.
      (servers ∷ c, record { answer = answered reply; server_used = codes "s"; latency = 7 });
  add_upstream = λ addr c. c;
}

-- `x.com` is on the remote list `r`, and on the domestic list `d` where `both` holds.
abbrev lists : Bool → Geo
lists both = record {
  match_ad_filter = λ name. false;
  match_geosite = λ name cats. elim cats [
    | [] ↦ false
    | c ∷ cs ↦ text_eq name (codes "x.com") && (text_eq c (codes "r") || both)
  ];
  has_geosite_categories = λ cats. true;
}

abbrev config : Bytes → Config
config mode = record {
  dns_default = codes "domestic";
  dns_domestic = codes "1.1.1.1" ∷ [];
  dns_remote = codes "8.8.8.8" ∷ [];
  dns_bootstrap = [];
  geosite_remote = codes "r" ∷ [];
  geosite_domestic = codes "d" ∷ [];
  geosite_ad_filter = [];
  ad_filter_enabled = true;
  leak_enabled = true;
  leak_mode = mode;
  concurrency = 1;
  query_level = codes "info";
  cache_log_interval = pos 10;
}

abbrev journal : Journal
journal = record {
  query_level = codes "info";
  cache_log_interval = pos 10;
  cache_log_times = [];
  printed = [];
  query_history = [];
  subscribers = [];
  next_ref = 0;
}

abbrev block_rule : Rule
block_rule = record (new_rule 0 (codes "rule_001") type_block (codes "bad.com") [] true) {
  match_mode = exact;
}

abbrev start : Bytes → Resolver SampleMsg (List (List Bytes))
start mode = record {
  cfg = config mode;
  client = [];
  cache = new_cache (pos 2) false;
  rule_engine = record { rules = block_rule ∷ []; next_id = 2 };
  counters = record {
    total_queries = 0;
    cache_hits = 0;
    blocked_queries = 0;
    redirected_queries = 0;
    total_latency = 0;
    by_type = [];
    by_status = [];
    by_action = [];
  };
  journal = journal;
}

resolve_with_rules-AsksAtMost_example :
    AsksAtMost sample upstreams
      (lists false)
      request
      (codes "8.8.8.8" ∷ [])
      (start (codes "strict"))
      (resolve_with_rules sample upstreams
        (lists false)
        9
        request
        (codes "y.com")
        question
        []
        (start (codes "strict")))
unfolding is_local_domain has_suffix to_lower split in_domestic lists_loaded match_rules match_loop
    rule_match text_eq any_suffix any_tld
resolve_with_rules-AsksAtMost_example =
    resolve_with_rules-AsksAtMost sample upstreams (lists false) 9 request (codes "y.com") question
      [] (start (codes "strict")) (refl, inl refl, refl) refl refl (λ e. ground arith)

resolve-Balanced_example :
    Balanced 0 0
      (resolve sample upstreams (lists true) 3 9 request [] (start (codes "loose"))).0.counters
unfolding Dict.lookup
resolve-Balanced_example =
    resolve-Balanced sample upstreams (lists true) 3 9 request [] (start (codes "loose")) (record {
      types = refl;
      actions = refl;
      statuses = refl;
      hits = refl;
      blocked = refl;
      redirected = refl;
      failures = refl;
    })

lookup_domain-Agrees_example :
    Agrees sample upstreams
      (start (codes "strict"))
      request
      (lookup_message sample upstreams 77 (codes "x.com") 1)
      (resolve_with_rules sample upstreams
        (lists true)
        9
        request
        (codes "x.com")
        question
        []
        (start (codes "strict")))
      (lookup_domain sample upstreams
        (lists true)
        9
        4
        77
        (codes "x.com")
        1
        (start (codes "strict")))
unfolding text_eq
lookup_domain-Agrees_example =
    lookup_domain-Agrees sample upstreams (start (codes "strict")) (lists true) 9 4 77 request
      (codes "x.com") question [] refl

lookup_domain_loose_example :
    ((resolve_with_rules sample upstreams
        (lists true)
        9
        request
        (codes "x.com")
        question
        []
        (start (codes "loose"))).0.client
      ≡ (codes "1.1.1.1" ∷ []) ∷ [])
    × ((lookup_domain sample upstreams
          (lists true)
          9
          4
          77
          (codes "x.com")
          1
          (start (codes "loose"))).0.client
        ≡ (codes "8.8.8.8" ∷ []) ∷ [])
unfolding text_eq match_rules match_loop rule_match to_lower in_domestic in_remote
lookup_domain_loose_example =
    lookup_domain_loose sample upstreams (start (codes "loose")) (lists true) 9 4 77 request
      (codes "x.com") question [] refl refl refl refl refl

abbrev once : State sample upstreams × SampleMsg
once =
    forward_to_group sample upstreams 9 request (trim_suffix (codes "x.com.") (codes ".")) question
      [] (codes "8.8.8.8" ∷ []) remote [] (start (codes "strict"))

resolve_question-forward_to_group_example :
    ((resolve_question sample upstreams
        (lists true)
        50
        60
        (record request { ident = 8 })
        question
        []
        once.0).1
      ≡ record reply { ident = 8 })
    × ((resolve_question sample upstreams
          (lists true)
          50
          60
          (record request { ident = 8 })
          question
          []
          once.0).0.client
        ≡ once.0.client)
    × ((resolve_question sample upstreams
          (lists true)
          50
          60
          (record request { ident = 8 })
          question
          []
          once.0).0.counters.cache_hits
        ≡ once.0.counters.cache_hits + 1)
unfolding extract_min_ttl
resolve_question-forward_to_group_example =
    resolve_question-forward_to_group sample upstreams (lists true) 9 50 60 request
      (record request { ident = 8 }) question [] [] (codes "8.8.8.8" ∷ []) remote []
      (start (codes "strict")) reply (new_cache-IsValid {M = SampleMsg} (pos 2) false) refl
      (omega arith) (omega arith) (omega arith) once refl

abbrev hit_log : ℕ → QueryLog
hit_log now = new_log now (codes "x.com") (codes "A") [] cache_hit

recent_queries-emits_example :
    recent_queries (negsuc 6) (emits ((2, hit_log 2) ∷ (1, hit_log 1) ∷ []) journal)
    ≡ last_of (asked_for (negsuc 6)) (in_order ((2, hit_log 2) ∷ (1, hit_log 1) ∷ []))
recent_queries-emits_example =
    recent_queries-emits ((2, hit_log 2) ∷ (1, hit_log 1) ∷ []) journal (negsuc 6) refl

the_last :
    recent_queries (pos 1) (emits ((2, hit_log 2) ∷ (1, hit_log 1) ∷ []) journal) ≡ hit_log 2 ∷ []
the_last = recent_queries-emits ((2, hit_log 2) ∷ (1, hit_log 1) ∷ []) journal (pos 1) refl

is_local_domain_iff_example : (is_local_domain (codes "nas.LAN") ≡ true) ↔ (
    All (λ c. c ≢ b'.') (codes "nas.lan")
    ⊎ Some (λ s. IsUnder (codes "nas.lan") (drop 1 s)) local_domain_suffixes)
unfolding to_lower
is_local_domain_iff_example = is_local_domain_iff (codes "nas.LAN")
