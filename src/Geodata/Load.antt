-- ===== src/Geodata/Load.antt =====
-- The files of the lists (internal/geodata/geodata.go): LoadGeosite, LoadGeoip, LoadAdFilter and
-- LoadAll. What the file system answers is an argument: an error's text, or what was asked for.
use lynx_dns.Common.{
  ℕ, ◌+◌, Bool, true, false, Option, none, some, ◌⊎◌, inl, inr, List, [], ◌∷◌, ◌++◌, Bytes, codes,
  length,
}
use lynx_dns.Common.Dict.{Dict}
use lynx_dns.Geodata.Text.{parse_ad_filter_data}
use lynx_dns.Geodata.Wire.{finished, panicked, out_of_fuel}
use lynx_dns.Geodata.Protobuf.{parse_geosite_data, parse_geoip_data}
use lynx_dns.Geodata.Manager.{GeoStatus, Manager, geosite_path, geoip_path, ad_filter_path}

pub record FileInfo : Type 0 where
  pub file_size : ℕ
  pub mod_time : ℕ

-- What os.Stat and os.ReadFile answer for a path, the bytes with the capacity of the slice beyond
-- them, and the time.
pub record File : Type 0 where
  pub stat : Bytes ⊎ FileInfo
  pub contents : Bytes ⊎ (Bytes × Bytes)
  pub now : ℕ

pub data LoadResult : Type 0 where
  load_ok : LoadResult
  load_failed : Bytes → LoadResult
  load_panicked : LoadResult

abbrev pub sum_entries {ℓ} : {V : Type ℓ} → Dict (List V) → ℕ
sum_entries [] = 0
sum_entries ((k, v) ∷ m) = length v + sum_entries m

-- The deferred call writes "idle" on every way out, a panic included; while "updating" is written
-- the lock is held, so no reader sees it.
abbrev pub idle : GeoStatus → GeoStatus
idle s = record s { update_status = codes "idle" }

abbrev pub count_status : FileInfo → ℕ → ℕ → ℕ → GeoStatus → GeoStatus
count_status info now categories entries s = record s {
  is_loaded = true;
  size_bytes = info.file_size;
  last_update = some now;
  version = some info.mod_time;
  categories_count = categories;
  entries_count = entries;
  update_status = codes "idle";
}

unfoldable pub load_geosite : File → Manager → Manager × LoadResult
unfolding parse_geosite_data
load_geosite file mgr =
    let back = record mgr { geosite_status = idle mgr.geosite_status } in
    elim file.stat [
      | inl err ↦ (back, load_failed (codes "geosite file not found: " ++ err))
      | inr info ↦ elim file.contents [
        | inl err ↦ (back, load_failed (codes "failed to read geosite: " ++ err))
        | inr text ↦ elim (parse_geosite_data text.0 text.1) [
          | finished domains ↦ (
            record mgr {
              geosite_enabled = true;
              geosite_domains = domains;
              geosite_status =
                  count_status info file.now (length domains) (sum_entries domains)
                    mgr.geosite_status;
            },
            load_ok,
          )
          | panicked ↦ (back, load_panicked)
          | out_of_fuel ↦ (back, load_panicked)
        ]
      ]
    ]

unfoldable pub load_geoip : File → Manager → Manager × LoadResult
unfolding parse_geoip_data
load_geoip file mgr =
    let back = record mgr { geoip_status = idle mgr.geoip_status } in
    elim file.stat [
      | inl err ↦ (back, load_failed (codes "geoip file not found: " ++ err))
      | inr info ↦ elim file.contents [
        | inl err ↦ (back, load_failed (codes "failed to read geoip: " ++ err))
        | inr text ↦ elim (parse_geoip_data text.0 text.1) [
          | finished cidrs ↦ (
            record mgr {
              geoip_enabled = true;
              geoip_cidrs = cidrs;
              geoip_status =
                  count_status info file.now (length cidrs) (sum_entries cidrs) mgr.geoip_status;
            },
            load_ok,
          )
          | panicked ↦ (back, load_panicked)
          | out_of_fuel ↦ (back, load_panicked)
        ]
      ]
    ]

unfoldable pub load_ad_filter : File → Manager → Manager × LoadResult
unfolding parse_ad_filter_data
load_ad_filter file mgr = elim file.contents [
  | inl err ↦ (
    record mgr { ad_filter_status = idle mgr.ad_filter_status },
    load_failed (codes "failed to read ad filter: " ++ err),
  )
  | inr text ↦
      let domains = parse_ad_filter_data text.0 in
      let s = mgr.ad_filter_status in
      (
        record mgr {
          ad_filter_enabled = true;
          ad_filter_domains = domains;
          ad_filter_status = record s {
            is_loaded = true;
            last_update = some file.now;
            rule_count = length domains;
            update_status = codes "idle";
          };
        },
        load_ok,
      )
]

-- A part of LoadAll: a file that os.Stat finds is loaded, and an error of it is only logged.
unfoldable pub load_present :
    (File → Manager → Manager × LoadResult) → File → Manager → Manager × Bool
load_present load file mgr = elim file.stat [
  | inl err ↦ (mgr, true)
  | inr info ↦
      let r = load file mgr in
      (r.0, elim r.1 [ load_ok ↦ true | load_failed err ↦ true | load_panicked ↦ false ])
]

-- The files by their paths; a panic ends it.
unfoldable pub load_all : Option Bytes → (Bytes → File) → Manager → Manager × LoadResult
unfolding load_present load_geosite load_geoip load_ad_filter geosite_path geoip_path ad_filter_path
load_all (some err) files mgr = (mgr, load_failed err)
load_all none files mgr =
    let a = load_present load_geosite (files (geosite_path mgr)) mgr in
    let b = load_present load_geoip (files (geoip_path a.0)) a.0 in
    let c = load_present load_ad_filter (files (ad_filter_path b.0)) b.0 in
    elim a.1 [
      | false ↦ (a.0, load_panicked)
      | true ↦ elim b.1 [ false ↦ (b.0, load_panicked) | true ↦ (c.0, load_ok) ]
    ]
