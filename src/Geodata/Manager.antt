-- ===== src/Geodata/Manager.antt =====
-- The state of geodata.Manager and its operations without files (internal/geodata/geodata.go).
use lynx_dns.Common.{
  ℕ, ◌-◌, Bool, false, ◌&&◌, ◌||◌, Option, none, some, List, [], ◌∷◌, ◌++◌, Bytes, codes, to_lower,
  split, join, ltb, leb, if◌then◌else◌, length, drop, ℤ, pos_part,
}
use lynx_dns.Common.Dict
use lynx_dns.Common.Dict.{Dict, lookup, insert}
use lynx_dns.Resolver.State.{Geo}

pub record UpdateHistoryEntry : Type 0 where
  pub target : Bytes
  pub url : Bytes
  pub status : Bytes
  pub message : Bytes
  pub timestamp : ℕ
  pub duration_ms : ℤ

pub record DownloadProgress : Type 0 where
  pub target : Bytes
  pub status : Bytes
  pub url : Bytes
  pub percent : ℤ
  pub downloaded : ℕ
  pub size : ℤ
  pub speed : ℕ
  pub source_index : ℕ
  pub source_total : ℕ
  pub message : Bytes

-- Times are numbers; the version is the time that the file was changed, which is printed to the hour.
pub record GeoStatus : Type 0 where
  pub is_loaded : Bool
  pub version : Option ℕ
  pub last_update : Option ℕ
  pub size_bytes : ℕ
  pub categories_count : ℕ
  pub entries_count : ℕ
  pub rule_count : ℕ
  pub update_status : Bytes

abbrev pub idle_status : GeoStatus
idle_status = record {
  is_loaded = false;
  version = none;
  last_update = none;
  size_bytes = 0;
  categories_count = 0;
  entries_count = 0;
  rule_count = 0;
  update_status = codes "idle";
}

-- The three matchers and their statuses, the progress and the history. The addresses (geoip) are
-- loaded and never asked for.
pub record Manager : Type 0 where
  pub data_dir : Bytes
  pub geoip_enabled : Bool
  pub geoip_cidrs : Dict (List Bytes)
  pub geosite_enabled : Bool
  pub geosite_domains : Dict (Dict Bool)
  pub ad_filter_enabled : Bool
  pub ad_filter_domains : Dict Bool
  pub geosite_status : GeoStatus
  pub geoip_status : GeoStatus
  pub ad_filter_status : GeoStatus
  pub progress : Dict DownloadProgress
  pub history : List UpdateHistoryEntry

unfoldable pub new_manager : Bytes → Manager
new_manager dir = record {
  data_dir = dir;
  geoip_enabled = false;
  geoip_cidrs = [];
  geosite_enabled = false;
  geosite_domains = [];
  ad_filter_enabled = false;
  ad_filter_domains = [];
  geosite_status = idle_status;
  geoip_status = idle_status;
  ad_filter_status = idle_status;
  progress = [];
  history = [];
}

-- m[k] of a map to bool
abbrev pub flag : Dict Bool → Bytes → Bool
flag m k = elim (lookup k m) [ none ↦ false | some b ↦ b ]

-- The loop over the suffixes: parts[i+1:] for each i below len(parts)-1.
unfoldable pub match_suffixes : Dict Bool → List Bytes → Bool
match_suffixes m [] = false
match_suffixes m (p ∷ []) = false
match_suffixes m (p ∷ q ∷ rest) =
    flag m (b'.' ∷ join b'.' (q ∷ rest)) || match_suffixes m (q ∷ rest)

unfoldable pub match_domain_in_map : Bytes → Dict Bool → Bool
unfolding match_suffixes
match_domain_in_map domain m =
    flag m domain || (flag m (b'.' ∷ domain) || match_suffixes m (split b'.' domain))

unfoldable pub match_categories : Bytes → List Bytes → Dict (Dict Bool) → Bool
unfolding match_domain_in_map
match_categories domain [] m = false
match_categories domain (cat ∷ cats) m =
    let rest = match_categories domain cats m in
    elim (lookup (to_lower cat) m) [
      | none ↦ rest
      | some domains ↦ match_domain_in_map domain domains || rest
    ]

unfoldable pub match_geosite : Bytes → List Bytes → Manager → Bool
unfolding match_categories
match_geosite domain cats mgr =
    mgr.geosite_enabled && match_categories (to_lower domain) cats mgr.geosite_domains

unfoldable pub has_categories : List Bytes → Dict (Dict Bool) → Bool
has_categories [] m = false
has_categories (cat ∷ cats) m =
    let rest = has_categories cats m in
    elim (lookup (to_lower cat) m) [ none ↦ rest | some domains ↦ ltb 0 (length domains) || rest ]

unfoldable pub has_geosite_categories : List Bytes → Manager → Bool
unfolding has_categories
has_geosite_categories cats mgr = mgr.geosite_enabled && has_categories cats mgr.geosite_domains

-- `MatchAdFilter` has the tests of `matchDomainInMap`, written out again.
unfoldable pub match_ad_filter : Bytes → Manager → Bool
unfolding match_suffixes
match_ad_filter name mgr =
    let domain = to_lower name in
    let m = mgr.ad_filter_domains in
    mgr.ad_filter_enabled
    && (flag m domain || (flag m (b'.' ∷ domain) || match_suffixes m (split b'.' domain)))

-- What the resolver asks of a manager.
unfoldable pub geo : Manager → Geo
unfolding match_ad_filter match_geosite has_geosite_categories
geo mgr = record {
  match_ad_filter = λ name. match_ad_filter name mgr;
  match_geosite = λ name cats. match_geosite name cats mgr;
  has_geosite_categories = λ cats. has_geosite_categories cats mgr;
}

unfoldable pub set_progress : Bytes → DownloadProgress → Manager → Manager
set_progress target p mgr = record mgr { progress = insert target p mgr.progress }

unfoldable pub get_progress : Bytes → Manager → Option DownloadProgress
get_progress target mgr = lookup target mgr.progress

unfoldable pub clear_progress : Bytes → Manager → Manager
clear_progress target mgr = record mgr { progress = Dict.delete target mgr.progress }

abbrev pub max_history_entries : ℕ
max_history_entries = 50

unfoldable pub add_history : UpdateHistoryEntry → Manager → Manager
add_history entry mgr =
    let h = mgr.history ++ (entry ∷ []) in
    record mgr {
      history =
          if ltb max_history_entries (length h) then drop (length h - max_history_entries) h else h;
    }

-- `GetHistory`: the last `limit` entries, or all where the limit is not positive or too large.
unfoldable pub get_history : ℤ → Manager → List UpdateHistoryEntry
get_history limit mgr =
    let n = length mgr.history in
    let k = if leb (pos_part limit) 0 || ltb n (pos_part limit) then n else pos_part limit in
    drop (n - k) mgr.history

-- filepath.Join of a data directory that is a clean path
unfoldable pub geosite_path : Manager → Bytes
geosite_path mgr = mgr.data_dir ++ codes "/geosite.dat"

unfoldable pub geoip_path : Manager → Bytes
geoip_path mgr = mgr.data_dir ++ codes "/geoip.dat"

unfoldable pub ad_filter_path : Manager → Bytes
ad_filter_path mgr = mgr.data_dir ++ codes "/ad-filter.txt"
