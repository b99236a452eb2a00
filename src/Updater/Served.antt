-- ===== src/Updater/Served.antt =====
-- What an update of the list of sites makes the rules match (internal/updater/updater.go).
use mathlib.Core.Path.{subst}
use lynx_dns.Common.{
  Sum-cases, ℕ, ◌^◌, ◌≤◌, ◌<◌, ◌≡◌, ◌↔◌, refl, ap, sym, ◌∙◌, arith, Bool, true, false, Option-cases,
  none, some, ◌⊎◌, inl, inr, List, [], ◌∷◌, Bytes, codes, ◌==◌, length, All, to_lower,
}
use lynx_dns.Common.Dict.{Dict, lookup}
use lynx_dns.Geodata.Manager.{Manager, flag, match_geosite, geosite_path}
use lynx_dns.Geodata.Text.{entries_of}
use lynx_dns.Geodata.Load.{File, load_ok, load_geosite}
use lynx_dns.Geodata.Wire.{finished, panicked, out_of_fuel}
use lynx_dns.Geodata.Match.{Lists, match_geosite_iff}
use lynx_dns.Geodata.Protobuf.{parse_geosite_data}
use lynx_dns.Geodata.Protobuf.Sites.{Site, IsSite, encode_sites}
use lynx_dns.Geodata.Protobuf.Listed.{lists, Holds, parse_geosite_data-encode_sites}
use lynx_dns.Resolver.Local.{Some}
use lynx_dns.Rules.Matching.{IsUnder}
use lynx_dns.Updater.Download.{World}
use lynx_dns.Updater.Download.Whole.{delivered}
use lynx_dns.Updater.Failover.{Attempt, updated, read_file, add_backups, build_url_list}
use lynx_dns.Updater.Failover.Turn.{bad, good, fate, fate_of_load}
use lynx_dns.Updater.Failover.Loaders.{Outcome-cases, geosite_loader, geosite_verdict, of_outcome}
use lynx_dns.Updater.Failover.Sources.{update_with_failover_succeeds}
use lynx_dns.Updater.Failover.View.{View, update_with_failover_view}
use lynx_dns.Updater.Schedule.{Updater, Sources, update_geosite}

-- The name is an entry of some site of the category, or is the rest of one with a leading dot, or
-- below it.
abbrev pub Covers : List Site → Bytes → Bytes → Type 0
Covers sites name cat =
    Some (Holds (to_lower cat) name) sites
    ⊎ ((s : Bytes) × IsUnder name s × Some (Holds (to_lower cat) (b'.' ∷ s)) sites)

listed_lem :
    (m : Dict (Dict Bool)) (cat n : Bytes)
    → lists m (to_lower cat) n ≡ true
    → (ds : Dict Bool) × (lookup (to_lower cat) m ≡ some ds) × (flag ds n ≡ true)
unfolding lookup
listed_lem m cat n h = elim (Option-cases (lookup (to_lower cat) m)) [
  | inl none_there ↦ absurd (ground (arith, sym (ap (λ o. flag (entries_of o) n) none_there) ∙ h))
  | inr (ds, there) ↦ (ds, there, sym (ap (λ o. flag (entries_of o) n) there) ∙ h)
]

-- The map lists exactly what the sites hold.
abbrev pub Loads : Dict (Dict Bool) → List Site → Type 0
Loads m sites = (c n : Bytes) → (lists m c n ≡ true) ↔ Some (Holds c n) sites

module _ (m : Dict (Dict Bool)) (sites : List Site) (holds : Loads m sites) where
  Lists-Covers : (name cat : Bytes) → Lists m name cat ↔ Covers sites name cat
  Lists-Covers name cat =
      let c = to_lower cat in
      (
        λ (ds, there, l). elim l [
          | inl f ↦ inl ((holds c name).0 (ap (λ o. flag (entries_of o) name) there ∙ f))
          | inr (s, u, f) ↦
              inr
                (s, u, (holds c (b'.' ∷ s)).0 (ap (λ o. flag (entries_of o) (b'.' ∷ s)) there ∙ f))
        ],
        λ h. elim h [
          | inl f ↦
              let (ds, there, l) = listed_lem m cat name ((holds c name).1 f) in (ds, there, inl l)
          | inr (s, u, f) ↦
              let (ds, there, l) = listed_lem m cat (b'.' ∷ s) ((holds c (b'.' ∷ s)).1 f) in
              (ds, there, inr (s, u, l))
        ],
      )

  Some-Covers :
      (name : Bytes) (cats : List Bytes) → Some (Lists m name) cats ↔ Some (Covers sites name) cats
  Some-Covers name [] = (λ h. h, λ h. h)
  Some-Covers name (cat ∷ cats) =
      let here = Lists-Covers name cat in
      let rest = Some-Covers name cats in
      (
        λ h. elim h [ inl l ↦ inl (here.0 l) | inr r ↦ inr (rest.0 r) ],
        λ h. elim h [ inl l ↦ inl (here.1 l) | inr r ↦ inr (rest.1 r) ],
      )

-- The map that a file of sites loads as.
unfoldable sites_of : File → Dict (Dict Bool)
unfolding parse_geosite_data
sites_of file = elim file.contents [
  | inl err ↦ []
  | inr text ↦ elim (parse_geosite_data text.0 text.1) [
    | finished m ↦ m
    | panicked ↦ []
    | out_of_fuel ↦ []
  ]
]

abbrev sites_part : Manager → Bool × Dict (Dict Bool)
sites_part m = (m.geosite_enabled, m.geosite_domains)

abbrev sites_effect : File → Bool × Dict (Dict Bool)
sites_effect f = (true, sites_of f)

load_geosite-sites_of :
    (f : File) (m : Manager)
    → geosite_verdict f ≡ load_ok
    → sites_part (load_geosite f m).0 ≡ sites_effect f
unfolding load_geosite geosite_verdict of_outcome sites_of
load_geosite-sites_of f m h = elim (Sum-cases f.stat) [
  | inl (err, e) ↦ let h' = rw (e, geosite_verdict) at h in absurd (ground (arith, h'))
  | inr (info, e) ↦ elim (Sum-cases f.contents) [
    | inl (err, c) ↦ let h' = rw (e, c, geosite_verdict) at h in absurd (ground (arith, h'))
    | inr (text, c) ↦
        let h' = rw (e, c, geosite_verdict) at h in
        elim (Outcome-cases (parse_geosite_data text.0 text.1)) [
          | inl (a, o) ↦ rw (e, c, load_geosite, sites_of) (rw (o, load_geosite, sites_of) refl)
          | inr (inl o) ↦ let g = rw (o, of_outcome) at h' in absurd (ground (arith, g))
          | inr (inr o) ↦ let g = rw (o, of_outcome) at h' in absurd (ground (arith, g))
        ]
  ]
]

unfoldable sites_view : View geosite_loader
unfolding geosite_loader load_geosite
sites_view = record {
  Part = Bool × Dict (Dict Bool);
  view = sites_part;
  effect = sites_effect;
  view_effect = load_geosite-sites_of;
  view_progress = λ m p. refl;
  view_history = λ m h. refl;
}

-- The file of the sites, as an attempt without errors reads it.
readable :
    (site : Site) (sites : List Site) (a : Attempt)
    → a.stat_error ≡ none
    → a.read_error ≡ none
    → 1 ≤ length a.spare
    → All IsSite (site ∷ sites)
    → length (encode_sites (site ∷ sites)) < 2 ^ 62
    → let f = read_file (some (encode_sites (site ∷ sites))) a in
      (geosite_verdict f ≡ load_ok) × Loads (sites_of f) (site ∷ sites)
unfolding read_file geosite_verdict of_outcome sites_of
readable site sites a stat read cap ok small =
    let (m, parsed, holds) = parse_geosite_data-encode_sites site sites a.spare cap ok small in
    rw (stat, read, geosite_verdict, sites_of) (rw (parsed, of_outcome, sites_of) (refl, holds))

-- If the first source of the list of sites is named, and after sources that fail without a panic one
-- delivers all of a list of sites in the protobuf format, of fewer than 2^62 bytes, which is then read
-- without an error, the update returns no error and leaves a manager in which a name matches one of
-- the categories exactly if, letters taken as lower case, some site with that category's name, which
-- is not empty, has the name as an entry, or has an entry with a leading dot whose rest the name is
-- or is below. A domain of type 0 or 3 makes its value an entry, of type 1 its value after
-- `regexp:`, of type 2 its value after a dot, unless it starts with one.
pub update_geosite-match_geosite :
    (u : Updater) (s : Sources) (w : World) (site : Site) (sites : List Site) (k : ℕ)
    → (length u.cfg.geosite_url == 0) ≡ false
    → k < length (build_url_list u.cfg.geosite_url u.cfg.geosite_backup_url)
    → ((j : ℕ) → j < k → fate geosite_loader (s.geosite_attempts j) ≡ bad)
    → delivered (s.geosite_attempts k).fetch ≡ some (encode_sites (site ∷ sites))
    → (s.geosite_attempts k).stat_error ≡ none
    → (s.geosite_attempts k).read_error ≡ none
    → 1 ≤ length (s.geosite_attempts k).spare
    → All IsSite (site ∷ sites)
    → length (encode_sites (site ∷ sites)) < 2 ^ 62
    → ((update_geosite u s w).1 ≡ updated)
      × ((name : Bytes) (cats : List Bytes)
          → (match_geosite name cats (update_geosite u s w).0.manager ≡ true)
            ↔ Some (Covers (site ∷ sites) (to_lower name)) cats)
unfolding update_geosite build_url_list geosite_loader sites_view fate
update_geosite-match_geosite u s w site sites k named lt before arrives stat read cap ok small =
    let a = s.geosite_attempts k in
    let text = encode_sites (site ∷ sites) in
    let file = read_file (some text) a in
    let (verdict, holds) = readable site sites a stat read cap ok small in
    let url = u.cfg.geosite_url in
    let urls = add_backups url u.cfg.geosite_backup_url in
    let fine : fate geosite_loader a ≡ good = rw (arrives, fate) (ap fate_of_load verdict) in
    let done =
      update_with_failover_succeeds geosite_loader (codes "geosite") (geosite_path w.manager) url
        urls s.now s.geosite_attempts w k named lt before fine in
    let m = (update_geosite u s w).0.manager in
    let part : sites_part m ≡ sites_effect file =
      update_with_failover_view geosite_loader sites_view (codes "geosite") (geosite_path w.manager)
        url urls s.now s.geosite_attempts text w k named lt before arrives verdict in
    let on : m.geosite_enabled ≡ true = ap (λ (p : Bool × Dict (Dict Bool)). p.0) part in
    let map : m.geosite_domains ≡ sites_of file = ap (λ (p : Bool × Dict (Dict Bool)). p.1) part in
    let loaded : Loads m.geosite_domains (site ∷ sites) =
      subst (λ d. Loads d (site ∷ sites)) (sym map) holds in
    (
      done.0,
      λ name cats.
          let test = match_geosite_iff name cats m in
          let covers = Some-Covers m.geosite_domains (site ∷ sites) loaded (to_lower name) cats in
          (λ h. covers.0 (test.0 h).1, λ h. test.1 (on, covers.1 h)),
    )
