-- ===== src/Config.antt =====
-- internal/config/config.go: the configuration, its defaults, and the file that holds it. The
-- package yaml is third-party code, and a parameter; random bytes and the answers of the file system
-- are arguments.
use lynx_dns.Common.{
  ℕ, ◌+◌, ◌/◌, ◌%◌, Bool, true, false, Option, none, some, ◌⊎◌, inl, inr, List, [], ◌∷◌, ◌++◌, map,
  Bytes, codes, ◌==◌, if◌then◌else◌, length, get_or, ℤ, pos,
}
pub mod Saved
mod Runs

pub record ServerConfig : Type 0 where
  pub enabled : Bool
  pub listen_addr : Bytes
  pub listen_port : ℤ

pub record ApiConfig : Type 0 where
  pub addr : Bytes
  pub port : ℤ
  pub secret : Bytes

pub record DnsConfig : Type 0 where
  pub domestic : List Bytes
  pub remote : List Bytes
  pub default : Bytes
  pub bootstrap : List Bytes

pub record CacheConfig : Type 0 where
  pub enabled : Bool
  pub size : ℤ
  pub lazy : Bool

pub record LeakProtectionConfig : Type 0 where
  pub enabled : Bool
  pub mode : Bytes

pub record AdFilterConfig : Type 0 where
  pub enabled : Bool

pub record AdvancedConfig : Type 0 where
  pub concurrency : ℤ
  pub idle_timeout : ℤ
  pub cache : CacheConfig
  pub leak_protection : LeakProtectionConfig
  pub ad_filter : AdFilterConfig

pub record GeoConfig : Type 0 where
  pub auto_update : Bool
  pub update_cron : Bytes
  pub geosite_url : Bytes
  pub geosite_backup_url : List Bytes
  pub geoip_url : Bytes
  pub geoip_backup_url : List Bytes
  pub ad_filter_url : Bytes
  pub ad_filter_backup_url : List Bytes
  pub data_dir : Bytes

pub record RoutingGroup : Type 0 where
  pub remote : List Bytes
  pub domestic : List Bytes
  pub ad_filter : List Bytes

pub record RoutingConfig : Type 0 where
  pub geosite : RoutingGroup
  pub geoip : RoutingGroup

pub record LogConfig : Type 0 where
  pub level : Bytes
  pub file : Bytes
  pub query_level : Bytes
  pub cache_log_interval : ℤ
  pub max_size : ℤ

pub record FullConfig : Type 0 where
  pub server : ServerConfig
  pub api : ApiConfig
  pub dns : DnsConfig
  pub advanced : AdvancedConfig
  pub geo : GeoConfig
  pub routing : RoutingConfig
  pub log : LogConfig

unfoldable pub default_config : FullConfig
default_config = record {
  server = record { enabled = false; listen_addr = codes "0.0.0.0"; listen_port = pos 5334 };
  api = record { addr = codes "127.0.0.1"; port = pos 5335; secret = [] };
  dns = record {
    domestic = codes "udp://223.5.5.5:53" ∷ codes "udp://119.29.29.29:53" ∷ [];
    remote = codes "tls://8.8.8.8:853" ∷ [];
    default = codes "domestic";
    bootstrap = codes "udp://223.5.5.5:53" ∷ codes "udp://119.29.29.29:53" ∷ [];
  };
  advanced = record {
    concurrency = pos 3;
    idle_timeout = pos 30;
    cache = record { enabled = true; size = pos 4096; lazy = true };
    leak_protection = record { enabled = true; mode = codes "loose" };
    ad_filter = record { enabled = true };
  };
  geo = record {
    auto_update = true;
    update_cron = codes "0 3 * * *";
    geosite_url =
        codes
          "https://github.com/Loyalsoldier/v2ray-rules-dat/releases/latest/download/geosite.dat";
    geosite_backup_url =
        codes "https://cdn.jsdelivr.net/gh/Loyalsoldier/v2ray-rules-dat@release/geosite.dat"
        ∷ codes "https://fastly.jsdelivr.net/gh/Loyalsoldier/v2ray-rules-dat@release/geosite.dat"
        ∷ [];
    geoip_url = codes "https://github.com/Loyalsoldier/geoip/releases/latest/download/geoip.dat";
    geoip_backup_url =
        codes "https://cdn.jsdelivr.net/gh/Loyalsoldier/geoip@release/geoip.dat"
        ∷ codes "https://fastly.jsdelivr.net/gh/Loyalsoldier/geoip@release/geoip.dat"
        ∷ [];
    ad_filter_url = codes "https://adguardteam.github.io/AdGuardSDNSFilter/Filters/filter.txt";
    ad_filter_backup_url =
        codes "https://cdn.jsdelivr.net/gh/AdguardTeam/AdguardSDNSFilter@master/Filters/filter.txt"
        ∷ [];
    data_dir = codes "/etc/lynxdns/data";
  };
  routing = record {
    geosite = record {
      remote = codes "geolocation-!cn" ∷ codes "google" ∷ codes "github" ∷ codes "gfw" ∷ [];
      domestic = codes "cn" ∷ codes "apple-cn" ∷ codes "google-cn" ∷ [];
      ad_filter = codes "category-ads-all" ∷ [];
    };
    geoip = record { remote = codes "!cn" ∷ []; domestic = []; ad_filter = [] };
  };
  log = record {
    level = codes "info";
    file = codes "/var/log/lynxdns.log";
    query_level = codes "info";
    cache_log_interval = pos 0;
    max_size = pos 10;
  };
}

-- yaml.Marshal, or its error, and yaml.Unmarshal into a configuration: what that is afterwards, and
-- the error.
pub record Yaml : Type 0 where
  pub marshal : FullConfig → Bytes ⊎ Bytes
  pub unmarshal : Bytes → FullConfig → FullConfig × Option Bytes

-- What os.ReadFile answers.
pub data ReadResult : Type 0 where
  contents : Bytes → ReadResult
  not_exist : ReadResult
  unreadable : Bytes → ReadResult

-- The manager, with the numbers of the functions that OnChange has got, the bytes of the file, if it
-- is there, and the calls of those functions, the latest last.
pub record Manager : Type 0 where
  pub config : FullConfig
  pub on_change : List ℕ
  pub file : Option Bytes
  pub calls : List (ℕ × FullConfig)

unfoldable pub new_manager : Option Bytes → Manager
unfolding default_config
new_manager file = record { config = default_config; on_change = []; file = file; calls = [] }

abbrev pub hex : ℕ → ℕ
hex n = get_or (codes "0123456789abcdef") n 0

-- hex.EncodeToString of the random bytes
unfoldable pub generate_secret : Bytes → Bytes
generate_secret [] = []
generate_secret (b ∷ bs) = hex (b / 16) ∷ hex (b % 16) ∷ generate_secret bs

-- The secret is made if it is empty.
unfoldable pub with_secret : Bytes → FullConfig → FullConfig
unfolding generate_secret
with_secret random c =
    let a = c.api in
    if length a.secret == 0
    then record c { api = record a { secret = generate_secret random } }
    else c

-- What the calls of the file system meet: an error of reading that is not the file's absence, an
-- error of writing, and what is left of the file after that.
pub record Access : Type 0 where
  pub read_error : Option Bytes
  pub write_error : Option Bytes
  pub left : Option Bytes

unfoldable pub read_file : Access → Option Bytes → ReadResult
read_file access file = elim access.read_error [
  | some err ↦ unreadable err
  | none ↦ elim file [ none ↦ not_exist | some text ↦ contents text ]
]

module _ (yaml : Yaml) where
  -- The error is left out by Load, and returned by Save.
  unfoldable pub save_locked : Access → Manager → Manager × Option Bytes
  save_locked access m = elim (yaml.marshal m.config) [
    | inl err ↦ (m, some err)
    | inr text ↦ elim access.write_error [
      | some err ↦ (record m { file = access.left }, some err)
      | none ↦ (record m { file = some text }, none)
    ]
  ]

  unfoldable pub save : Access → Manager → Manager × Option Bytes
  unfolding save_locked
  save access m = save_locked access m

  -- After the file was read. The error of Unmarshal leaves the manager as it was.
  unfoldable pub loaded :
      Access → Bytes → FullConfig × Option Bytes → Manager → Manager × Option Bytes
  unfolding with_secret save_locked
  loaded access random (c, some err) m = (m, some err)
  loaded access random (c, none) m =
      let next = with_secret random c in
      let changed = record m { config = next } in
      (if length next.api.secret == 0 then changed else (save_locked access changed).0, none)

  -- The manager, and the error.
  unfoldable pub load : Access → Bytes → Manager → Manager × Option Bytes
  unfolding default_config with_secret loaded read_file
  load access random m = elim (read_file access m.file) [
    | unreadable err ↦ (m, some err)
    | not_exist ↦ (record m { config = with_secret random default_config }, none)
    | contents text ↦ loaded access random (yaml.unmarshal text default_config) m
  ]

  abbrev pub notify : Manager → Manager
  notify m = record m { calls = m.calls ++ map (λ n. (n, m.config)) m.on_change }

  -- The patch, as yaml.Marshal writes it, or that function's error; it is decoded into the
  -- configuration itself, so that an error may leave a part of it.
  unfoldable pub update : Bytes ⊎ Bytes → Manager → Manager × Option Bytes
  update (inl err) m = (m, some err)
  update (inr patch) m =
      let r = yaml.unmarshal patch m.config in
      let changed = record m { config = r.0 } in
      elim r.1 [ some err ↦ (changed, some err) | none ↦ (notify changed, none) ]

  unfoldable pub reload : Access → Bytes → Manager → Manager × Option Bytes
  unfolding load
  reload access random m =
      let r = load access random m in elim r.1 [ some err ↦ r | none ↦ (notify r.0, none) ]

unfoldable pub on_change : ℕ → Manager → Manager
on_change fn m = record m { on_change = m.on_change ++ (fn ∷ []) }

-- Get copies every list, so that what a caller does to it does not reach the manager.
unfoldable pub get : Manager → FullConfig
get m = m.config
