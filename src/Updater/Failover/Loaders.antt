-- ===== src/Updater/Failover/Loaders.antt =====
-- The functions that read the three lists, as the updater uses them (internal/geodata/geodata.go).
use lynx_dns.Common.{Sum-cases, ◌≡◌, refl, ◌⊎◌, inl, inr, codes, ◌++◌}
use lynx_dns.Geodata.Wire.{Outcome, finished, panicked, out_of_fuel}
use lynx_dns.Geodata.Protobuf.{parse_geosite_data, parse_geoip_data}
use lynx_dns.Geodata.Manager.{Manager}
use lynx_dns.Geodata.Load.{
  File, LoadResult, load_ok, load_failed, load_panicked, load_geosite, load_geoip, load_ad_filter,
}
use lynx_dns.Updater.Failover.Turn.{Loader}

pub Outcome-cases {ℓ} :
    {A : Type ℓ} (o : Outcome A)
    → ((a : A) × (o ≡ finished a)) ⊎ ((o ≡ panicked) ⊎ (o ≡ out_of_fuel))
Outcome-cases (finished a) = inl (a, refl)
Outcome-cases panicked = inr (inl refl)
Outcome-cases out_of_fuel = inr (inr refl)

unfoldable pub of_outcome {ℓ} : {A : Type ℓ} → Outcome A → LoadResult
of_outcome (finished a) = load_ok
of_outcome panicked = load_panicked
of_outcome out_of_fuel = load_panicked

unfoldable pub geosite_verdict : File → LoadResult
unfolding of_outcome parse_geosite_data
geosite_verdict file = elim file.stat [
  | inl err ↦ load_failed (codes "geosite file not found: " ++ err)
  | inr info ↦ elim file.contents [
    | inl err ↦ load_failed (codes "failed to read geosite: " ++ err)
    | inr text ↦ of_outcome (parse_geosite_data text.0 text.1)
  ]
]

pub geosite_lem :
    (file : File) (m : Manager)
    → ((load_geosite file m).1 ≡ geosite_verdict file)
      × ((load_geosite file m).0.history ≡ m.history)
unfolding load_geosite geosite_verdict of_outcome
geosite_lem file m = elim (Sum-cases file.stat) [
  | inl (err, e) ↦ rw (e, load_geosite, geosite_verdict) (refl, refl)
  | inr (info, e) ↦ elim (Sum-cases file.contents) [
    | inl (err, c) ↦ rw (e, c, load_geosite, geosite_verdict) (refl, refl)
    | inr (text, c) ↦ elim (Outcome-cases (parse_geosite_data text.0 text.1)) [
      | inl (a, o) ↦
          rw (e, c, load_geosite, geosite_verdict) (rw (o, load_geosite, of_outcome) (refl, refl))
      | inr (inl o) ↦
          rw (e, c, load_geosite, geosite_verdict) (rw (o, load_geosite, of_outcome) (refl, refl))
      | inr (inr o) ↦
          rw (e, c, load_geosite, geosite_verdict) (rw (o, load_geosite, of_outcome) (refl, refl))
    ]
  ]
]

unfoldable pub geoip_verdict : File → LoadResult
unfolding of_outcome parse_geoip_data
geoip_verdict file = elim file.stat [
  | inl err ↦ load_failed (codes "geoip file not found: " ++ err)
  | inr info ↦ elim file.contents [
    | inl err ↦ load_failed (codes "failed to read geoip: " ++ err)
    | inr text ↦ of_outcome (parse_geoip_data text.0 text.1)
  ]
]

pub geoip_lem :
    (file : File) (m : Manager)
    → ((load_geoip file m).1 ≡ geoip_verdict file) × ((load_geoip file m).0.history ≡ m.history)
unfolding load_geoip geoip_verdict of_outcome
geoip_lem file m = elim (Sum-cases file.stat) [
  | inl (err, e) ↦ rw (e, load_geoip, geoip_verdict) (refl, refl)
  | inr (info, e) ↦ elim (Sum-cases file.contents) [
    | inl (err, c) ↦ rw (e, c, load_geoip, geoip_verdict) (refl, refl)
    | inr (text, c) ↦ elim (Outcome-cases (parse_geoip_data text.0 text.1)) [
      | inl (a, o) ↦
          rw (e, c, load_geoip, geoip_verdict) (rw (o, load_geoip, of_outcome) (refl, refl))
      | inr (inl o) ↦
          rw (e, c, load_geoip, geoip_verdict) (rw (o, load_geoip, of_outcome) (refl, refl))
      | inr (inr o) ↦
          rw (e, c, load_geoip, geoip_verdict) (rw (o, load_geoip, of_outcome) (refl, refl))
    ]
  ]
]

unfoldable pub ad_filter_verdict : File → LoadResult
ad_filter_verdict file = elim file.contents [
  | inl err ↦ load_failed (codes "failed to read ad filter: " ++ err)
  | inr text ↦ load_ok
]

pub ad_filter_lem :
    (file : File) (m : Manager)
    → ((load_ad_filter file m).1 ≡ ad_filter_verdict file)
      × ((load_ad_filter file m).0.history ≡ m.history)
unfolding load_ad_filter ad_filter_verdict
ad_filter_lem file m = elim (Sum-cases file.contents) [
  | inl (err, c) ↦ rw (c, load_ad_filter, ad_filter_verdict) (refl, refl)
  | inr (text, c) ↦ rw (c, load_ad_filter, ad_filter_verdict) (refl, refl)
]

unfoldable pub geosite_loader : Loader
unfolding load_geosite
geosite_loader = record {
  load = load_geosite;
  verdict = geosite_verdict;
  load_verdict = λ f m. (geosite_lem f m).0;
  load_history = λ f m. (geosite_lem f m).1;
}

unfoldable pub geoip_loader : Loader
unfolding load_geoip
geoip_loader = record {
  load = load_geoip;
  verdict = geoip_verdict;
  load_verdict = λ f m. (geoip_lem f m).0;
  load_history = λ f m. (geoip_lem f m).1;
}

unfoldable pub ad_filter_loader : Loader
unfolding load_ad_filter
ad_filter_loader = record {
  load = load_ad_filter;
  verdict = ad_filter_verdict;
  load_verdict = λ f m. (ad_filter_lem f m).0;
  load_history = λ f m. (ad_filter_lem f m).1;
}
