-- ===== src/Resolver/State.antt =====
-- The data of internal/resolver/resolver.go, and what it uses of the other packages: the parts of the
-- configuration (internal/config/config.go) that it reads, the upstream client and the geographic
-- lists as interfaces.
use lynx_dns.Common.{ℕ, ◌+◌, Bool, Option, none, some, List, [], ◌∷◌, ◌++◌, Bytes, codes, ℤ, join}
use lynx_dns.Common.Dict.{Dict, lookup, insert}
use lynx_dns.Cache.{DnsCache}
use lynx_dns.Rules.{Engine}

-- `unset` is the zero value, the empty string.
pub data Action : Type 0 where
  unset : Action
  cache_hit : Action
  domestic : Action
  remote : Action
  ad_block : Action
  leak_block : Action
  rule_block : Action
  redirect : Action
  default_group : Action
  failed : Action

-- The string of an action.
abbrev pub action_text : Action → Bytes
action_text unset = []
action_text cache_hit = codes "cache_hit"
action_text domestic = codes "domestic"
action_text remote = codes "remote"
action_text ad_block = codes "ad_block"
action_text leak_block = codes "leak_block"
action_text rule_block = codes "rule_block"
action_text redirect = codes "redirected"
action_text default_group = codes "default"
action_text failed = codes "failed"

-- A latency is in nanoseconds; the code shows it in milliseconds.
pub record QueryLog : Type 0 where
  pub timestamp : ℕ
  pub domain : Bytes
  pub type_text : Bytes
  pub client_ip : Bytes
  pub server_used : Bytes
  pub result_ips : List Bytes
  pub latency : ℕ
  pub action : Action
  pub matched_rule : Bytes
  pub cached : Bool
  pub ttl : ℕ

-- The fields of config.FullConfig that the resolver reads. A negative concurrency makes the client
-- panic and is not modelled here.
pub record Config : Type 0 where
  pub dns_default : Bytes
  pub dns_domestic : List Bytes
  pub dns_remote : List Bytes
  pub dns_bootstrap : List Bytes
  pub geosite_remote : List Bytes
  pub geosite_domestic : List Bytes
  pub geosite_ad_filter : List Bytes
  pub ad_filter_enabled : Bool
  pub leak_enabled : Bool
  pub leak_mode : Bytes
  pub concurrency : ℕ
  pub query_level : Bytes
  pub cache_log_interval : ℤ

-- xclient.Result: a message, or the text of the error.
pub data Answer (M : Type 0) : Type 0 where
  answered : M → Answer M
  errored : Bytes → Answer M

pub record QueryResult (M : Type 0) : Type 0 where
  pub answer : Answer M
  pub server_used : Bytes
  pub latency : ℕ

-- What the resolver calls of xclient.DNSClient. The context's deadline is part of the network.
pub record Upstreams (M : Type 0) : Type 1 where
  pub Client : Type 0
  pub query_group : M → List Bytes → ℕ → Client → Client × QueryResult M
  pub add_upstream : Bytes → Client → Client

-- What the resolver calls of geodata.Manager: none of these changes it.
pub record Geo : Type 0 where
  pub match_ad_filter : Bytes → Bool
  pub match_geosite : Bytes → List Bytes → Bool
  pub has_geosite_categories : List Bytes → Bool

pub record Counters : Type 0 where
  pub total_queries : ℕ
  pub cache_hits : ℕ
  pub blocked_queries : ℕ
  pub redirected_queries : ℕ
  pub total_latency : ℕ
  pub by_type : Dict ℕ
  pub by_status : Dict ℕ
  pub by_action : Dict ℕ

-- A channel of capacity 256, with what it holds, oldest first.
pub record Channel : Type 0 where
  pub ref : ℕ
  pub buffer : List QueryLog

-- The state behind `emitLog`. `printed` lists the queries that a line was written for, newest first;
-- the history is oldest first.
pub record Journal : Type 0 where
  pub query_level : Bytes
  pub cache_log_interval : ℤ
  pub cache_log_times : Dict ℕ
  pub printed : List QueryLog
  pub query_history : List QueryLog
  pub subscribers : List Channel
  pub next_ref : ℕ

pub record Resolver (M C : Type 0) : Type 0 where
  pub cfg : Config
  pub client : C
  pub cache : DnsCache M
  pub rule_engine : Engine
  pub counters : Counters
  pub journal : Journal

abbrev pub count_of : Option ℕ → ℕ
count_of none = 0
count_of (some n) = n

-- `incrementMap`: the loop around the compare-and-swap ends with one increment.
unfoldable pub increment_map : Bytes → Dict ℕ → Dict ℕ
increment_map k m = insert k (count_of (lookup k m) + 1) m

-- fmt.Sprintf("%v", servers)
unfoldable pub show_list : List Bytes → Bytes
show_list servers = b'[' ∷ (join b' ' servers ++ (b']' ∷ []))
