-- ===== src/Updater/Runs.antt =====
-- Concrete runs of the updater, and the theorems at concrete inputs.
use lynx_dns.Common.{
  ℕ, zero, suc, ◌<◌, ◌≡◌, refl, inl, inr, arith, true, false, ◌↔◌, none, some, List, [], ◌∷◌, Bytes,
  to_lower, codes, text_eq, negsuc,
}
use lynx_dns.Common.Dict
use lynx_dns.Common.Dict.{Dict, lookup}
use lynx_dns.Geodata.Manager.{new_manager}
use lynx_dns.Updater.Download.{Chunk, eof, more, last, Fetch, World, download_with_progress}
use lynx_dns.Updater.Download.Whole.{delivered, Replaces, Tidy, download_with_progress_whole}
use lynx_dns.Updater.Failover.{Attempt, updated, build_url_list, update_with_failover}
use lynx_dns.Updater.Failover.Sources.{outcomes, settled, Reports, update_with_failover-settled}
use lynx_dns.Updater.Failover.Turn.{fate, bad, Grows}
use lynx_dns.Geodata.Manager.{match_geosite}
use lynx_dns.Geodata.Protobuf.Sites.{Site, encode_sites}
use lynx_dns.Resolver.Local.{Some}
use lynx_dns.Updater.Schedule.{Updater, Sources, update_geosite}
use lynx_dns.Updater.Served.{Covers, update_geosite-match_geosite}
use lynx_dns.Updater.Failover.Loaders.{ad_filter_loader, geosite_loader}

abbrev world : World
world = record {
  manager = new_manager (codes "/etc");
  disk = (codes "/etc/ad-filter.txt", codes "old") ∷ [];
}

abbrev chunk : Bytes → Chunk
chunk bytes = record { bytes = bytes; at = 5; write_error = none }

abbrev two_reads : Fetch
two_reads = record {
  dir_error = none;
  answer = inr record {
    status_code = 200;
    content_length = negsuc 0;
    body = more (chunk (codes "||ads.")) (last (chunk (codes "com^")) eof);
  };
  create_error = none;
  rename_error = none;
  started = 0;
}

abbrev no_route : Fetch
no_route = record two_reads { answer = inl (codes "no route") }

abbrev attempt : Fetch → Attempt
attempt f = record {
  fetch = f;
  stat_error = none;
  read_error = none;
  spare = 0 ∷ [];
  loaded_at = 9;
  timestamp = 9;
  duration = 1;
}

abbrev second_works : ℕ → Attempt
second_works zero = attempt no_route
second_works (suc i) = attempt two_reads

abbrev dest : Bytes
dest = codes "/etc/ad-filter.txt"

replaced :
    lookup dest
      (download_with_progress (codes "ad_filter") (codes "u") dest 0 1 two_reads world).0.disk
    ≡ some (codes "||ads.com^")
unfolding download_with_progress lookup Dict.insert Dict.delete text_eq
replaced = refl

download_with_progress_whole_example :
    Replaces dest world
      (delivered two_reads)
      (download_with_progress (codes "ad_filter") (codes "u") dest 0 1 two_reads world)
    × Tidy dest world
        (download_with_progress (codes "ad_filter") (codes "u") dest 0 1 two_reads world).0
download_with_progress_whole_example =
    download_with_progress_whole (codes "ad_filter") (codes "u") dest 0 1 two_reads world

update_with_failover-settled_example :
    Grows
      (codes "ad_filter")
      (outcomes ad_filter_loader second_works 0 (codes "u" ∷ codes "v" ∷ []))
      []
      (update_with_failover
        (codes "ad_filter")
        (codes "u" ∷ codes "v" ∷ [])
        dest
        ad_filter_loader.load
        7
        second_works
        world).0.manager.history
    × Reports
        (codes "ad_filter")
        (settled ad_filter_loader second_works 0 (codes "u" ∷ codes "v" ∷ []))
        (update_with_failover
          (codes "ad_filter")
          (codes "u" ∷ codes "v" ∷ [])
          dest
          ad_filter_loader.load
          7
          second_works
          world)
unfolding new_manager
update_with_failover-settled_example =
    update_with_failover-settled ad_filter_loader (codes "ad_filter") dest (codes "u")
      (codes "v" ∷ []) 7 second_works world refl

-- A list of one site, which the second source delivers.
abbrev qq : Site
qq = (codes "CN", (0, codes "qq.com") ∷ (2, codes "baidu.com") ∷ [])

abbrev sites_fetch : Fetch
sites_fetch = record two_reads {
  answer = inr record {
    status_code = 200;
    content_length = negsuc 0;
    body = last (chunk (encode_sites (qq ∷ []))) eof;
  };
}

abbrev second_has_sites : ℕ → Attempt
second_has_sites zero = attempt no_route
second_has_sites (suc i) = attempt sites_fetch

abbrev sources : Sources
sources = record {
  now = 7;
  geosite_attempts = second_has_sites;
  geoip_attempts = second_works;
  ad_filter_attempts = second_works;
}

abbrev updater : Updater
updater = record {
  cfg = record {
    auto_update = false;
    update_cron = [];
    geosite_url = codes "u";
    geosite_backup_url = codes "v" ∷ [];
    geoip_url = [];
    geoip_backup_url = [];
    ad_filter_url = [];
    ad_filter_backup_url = [];
  };
  cron = none;
}

first_has_no_route : (j : ℕ) → j < 1 → fate geosite_loader (second_has_sites j) ≡ bad
unfolding fate
first_has_no_route zero h = refl
first_has_no_route (suc j) h = absurd (omega arith)

update_geosite-match_geosite_example :
    ((update_geosite updater sources world).1 ≡ updated)
    × ((name : Bytes) (cats : List Bytes)
        → (match_geosite name cats (update_geosite updater sources world).0.manager ≡ true)
          ↔ Some (Covers (qq ∷ []) (to_lower name)) cats)
unfolding build_url_list encode_sites text_eq
update_geosite-match_geosite_example =
    update_geosite-match_geosite updater sources world qq [] 1 refl (omega arith) first_has_no_route
      refl refl refl (omega arith) ((omega arith, (omega arith, tt)), tt) (omega arith)

backups : build_url_list (codes "a") ([] ∷ codes "b" ∷ codes "a" ∷ []) ≡ codes "a" ∷ codes "b" ∷ []
unfolding build_url_list
backups = refl
