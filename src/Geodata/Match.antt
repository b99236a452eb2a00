-- ===== src/Geodata/Match.antt =====
-- Which names a list matches (internal/geodata/geodata.go).
use mathlib.Core.Path.{subst}
use lynx_dns.Common.{
  ℕ, ◌≡◌, refl, ap, sym, ◌∙◌, ◌↔◌, ◌⊎◌, inl, inr, arith, Bool, true, ◌||◌, ||_iff, &&_iff, ==_iff,
  Bool-cases, Option, Option-cases, none, some, List, [], ◌∷◌, ◌++◌, Bytes, split, push, join, ◌==◌,
  if◌then◌else◌, to_lower,
}
use lynx_dns.Common.Dict.{Dict, lookup}
use lynx_dns.Rules.Matching.{IsUnder}
use lynx_dns.Resolver.Local.{Some}
use lynx_dns.Geodata.Manager.{
  Manager, flag, match_suffixes, match_domain_in_map, match_categories, match_geosite,
  match_ad_filter,
}

split_nonempty : (sep : ℕ) (s : Bytes) → (w : Bytes) × (ws : List Bytes) × (split sep s ≡ w ∷ ws)
unfolding split push
split_nonempty sep [] = ([], [], refl)
split_nonempty sep (c ∷ s) = elim (Bool-cases (c == sep)) [
  | inl e ↦ ([], split sep s, rw (e, split) refl)
  | inr e ↦ let (w, ws, p) = split_nonempty sep s in (c ∷ w, ws, rw (e, split) (ap (push c) p))
]

join-push :
    (sep c : ℕ) (w : Bytes) (ws : List Bytes) → join sep ((c ∷ w) ∷ ws) ≡ c ∷ join sep (w ∷ ws)
unfolding join
join-push sep c w [] = refl
join-push sep c w (v ∷ vs) = refl

join-split : (sep : ℕ) (s : Bytes) → join sep (split sep s) ≡ s
unfolding split push join
join-split sep [] = refl
join-split sep (c ∷ s) =
    let (w, ws, p) = split_nonempty sep s in
    let ih : join sep (w ∷ ws) ≡ s = sym (ap (join sep) p) ∙ join-split sep s in
    elim (Bool-cases (c == sep)) [
      | inl e ↦
          rw (e, split)
            (ap (λ ps. join sep ([] ∷ ps)) p
              ∙ ap (λ x. sep ∷ x) ih
              ∙ ap (λ x. x ∷ s) (sym ((==_iff c sep).0 e)))
      | inr e ↦
          rw (e, split)
            (ap (λ ps. join sep (push c ps)) p ∙ join-push sep c w ws ∙ ap (λ x. c ∷ x) ih)
    ]

-- The text has a separator with a flagged tail behind it.
abbrev HasTail : Dict Bool → Bytes → Type 0
HasTail m s = (u : Bytes) × (t : Bytes) × (s ≡ u ++ (b'.' ∷ t)) × (flag m (b'.' ∷ t) ≡ true)

match_suffixes-push :
    (m : Dict Bool) (c : ℕ) (w : Bytes) (ws : List Bytes)
    → match_suffixes m ((c ∷ w) ∷ ws) ≡ match_suffixes m (w ∷ ws)
unfolding match_suffixes
match_suffixes-push m c w [] = refl
match_suffixes-push m c w (v ∷ vs) = refl

match_suffixes-cons :
    (m : Dict Bool) (c : ℕ) (s : Bytes)
    → match_suffixes m (split b'.' (c ∷ s)) ≡ (
        if c == b'.'
        then flag m (b'.' ∷ s) || match_suffixes m (split b'.' s)
        else match_suffixes m (split b'.' s))
unfolding split push match_suffixes
match_suffixes-cons m c s =
    let (w, ws, p) = split_nonempty b'.' s in
    let j : join b'.' (w ∷ ws) ≡ s = sym (ap (join b'.') p) ∙ join-split b'.' s in
    elim (Bool-cases (c == b'.')) [
      | inl e ↦
          rw (e, split)
            (ap (λ ps. match_suffixes m ([] ∷ ps)) p
              ∙ ap (λ x. flag m (b'.' ∷ x) || match_suffixes m (w ∷ ws)) j
              ∙ ap (λ ps. flag m (b'.' ∷ s) || match_suffixes m ps) (sym p))
      | inr e ↦
          rw (e, split)
            (ap (λ ps. match_suffixes m (push c ps)) p
              ∙ match_suffixes-push m c w ws
              ∙ ap (match_suffixes m) (sym p))
    ]

no_suffix : (m : Dict Bool) → match_suffixes m (split b'.' []) ≡ true → ⊥
unfolding split match_suffixes
no_suffix m h = ground arith

match_suffixes→tail :
    (m : Dict Bool) (s : Bytes) → match_suffixes m (split b'.' s) ≡ true → HasTail m s
match_suffixes→tail m [] h = absurd (no_suffix m h)
match_suffixes→tail m (c ∷ s) h = elim (Bool-cases (c == b'.')) [
  | inl e ↦
      let both : (flag m (b'.' ∷ s) || match_suffixes m (split b'.' s)) ≡ true =
        sym (match_suffixes-cons m c s ∙ rw e refl) ∙ h in
      elim ((||_iff (flag m (b'.' ∷ s)) (match_suffixes m (split b'.' s))).0 both) [
        | inl f ↦ ([], s, ap (λ x. x ∷ s) ((==_iff c b'.').0 e), f)
        | inr g ↦ let (u, t, q, f) = match_suffixes→tail m s g in (c ∷ u, t, ap (λ x. c ∷ x) q, f)
      ]
  | inr e ↦
      let g : match_suffixes m (split b'.' s) ≡ true =
        sym (match_suffixes-cons m c s ∙ rw e refl) ∙ h in
      let (u, t, q, f) = match_suffixes→tail m s g in (c ∷ u, t, ap (λ x. c ∷ x) q, f)
]

tail→match_suffixes :
    (m : Dict Bool) (u t : Bytes)
    → flag m (b'.' ∷ t) ≡ true
    → match_suffixes m (split b'.' (u ++ (b'.' ∷ t))) ≡ true
tail→match_suffixes m [] t h =
    match_suffixes-cons m b'.' t
    ∙ (||_iff (flag m (b'.' ∷ t)) (match_suffixes m (split b'.' t))).1 (inl h)
tail→match_suffixes m (c ∷ u) t h =
    let s = u ++ (b'.' ∷ t) in
    let ih = tail→match_suffixes m u t h in
    match_suffixes-cons m c s ∙ elim (Bool-cases (c == b'.')) [
      | inl e ↦ rw e ((||_iff (flag m (b'.' ∷ s)) (match_suffixes m (split b'.' s))).1 (inr ih))
      | inr e ↦ rw e ih
    ]

-- A list matches a name that is an entry, or one that is the rest of an entry with a leading dot, or
-- below it.
abbrev pub IsListed : Dict Bool → Bytes → Type 0
IsListed m name = (flag m name ≡ true) ⊎ ((s : Bytes) × IsUnder name s × (flag m (b'.' ∷ s) ≡ true))

match_domain_in_map_iff :
    (name : Bytes) (m : Dict Bool) → (match_domain_in_map name m ≡ true) ↔ IsListed m name
unfolding match_domain_in_map
match_domain_in_map_iff name m = (
  λ h.
      elim ((||_iff (flag m name) (flag m (b'.' ∷ name) || match_suffixes m (split b'.' name))).0
        h) [
          | inl f ↦ inl f
          | inr g ↦
              elim ((||_iff (flag m (b'.' ∷ name)) (match_suffixes m (split b'.' name))).0 g) [
                | inl f ↦ inr (name, inl refl, f)
                | inr k ↦ let (u, t, q, f) = match_suffixes→tail m name k in inr (t, inr (u, q), f)
              ]
        ],
  λ h.
      (||_iff (flag m name) (flag m (b'.' ∷ name) || match_suffixes m (split b'.' name))).1
        (elim h [
          | inl f ↦ inl f
          | inr (s, i, f) ↦ inr (
              (||_iff (flag m (b'.' ∷ name)) (match_suffixes m (split b'.' name))).1 (elim i [
                | inl e ↦ inl (rw e f)
                | inr (u, e) ↦ inr (rw e (tail→match_suffixes m u s f))
              ]))
        ]),
)

-- The category, in lower case, is loaded and lists the name.
abbrev pub Lists : Dict (Dict Bool) → Bytes → Bytes → Type 0
Lists m name cat =
    (domains : Dict Bool) × (lookup (to_lower cat) m ≡ some domains) × IsListed domains name

unsome : Dict Bool → Option (Dict Bool) → Dict Bool
unsome d none = d
unsome d (some m) = m

some_inj : (a b : Dict Bool) → some a ≡ some b → a ≡ b
unfolding unsome
some_inj a b e = ap (unsome a) e

match_categories-head :
    (name : Bytes) (cat : Bytes) (cats : List Bytes) (m : Dict (Dict Bool))
    → (match_categories name (cat ∷ cats) m ≡ true)
      ↔ (Lists m name cat ⊎ (match_categories name cats m ≡ true))
unfolding match_categories
match_categories-head name cat cats m = elim (Option-cases (lookup (to_lower cat) m)) [
  | inl n ↦ (
    λ h. inr (sym (rw (n, match_categories) refl) ∙ h),
    λ h.
        rw (n, match_categories)
          (elim h [ inl (domains, e, l) ↦ absurd (ground (arith, sym n ∙ e)) | inr r ↦ r ]),
  )
  | inr (domains, e) ↦
      let rest = match_categories name cats m in
      let here = match_domain_in_map name domains in
      let listed = match_domain_in_map_iff name domains in
      let q : match_categories name (cat ∷ cats) m ≡ (here || rest) =
        rw (e, match_categories) refl in
      (
        λ h. elim ((||_iff here rest).0 (sym q ∙ h)) [
          | inl l ↦ inl (domains, e, listed.0 l)
          | inr r ↦ inr r
        ],
        λ h.
            q
            ∙ (||_iff here rest).1 (elim h [
              | inl (ds, f, l) ↦
                  inl (listed.1 (subst (λ x. IsListed x name) (some_inj ds domains (sym f ∙ e)) l))
              | inr r ↦ inr r
            ]),
      )
]

match_categories_iff :
    (name : Bytes) (cats : List Bytes) (m : Dict (Dict Bool))
    → (match_categories name cats m ≡ true) ↔ Some (Lists m name) cats
unfolding match_categories
match_categories_iff name [] m = (λ h. absurd (ground arith), λ h. elim h [ ])
match_categories_iff name (cat ∷ cats) m =
    let head = match_categories-head name cat cats m in
    let ih = match_categories_iff name cats m in
    (
      λ h. elim (head.0 h) [ inl l ↦ inl l | inr r ↦ inr (ih.0 r) ],
      λ h. head.1 (elim h [ inl l ↦ inl l | inr r ↦ inr (ih.1 r) ]),
    )

-- `MatchGeosite` holds exactly when the lists are loaded and, letters taken as lower case, one of the
-- categories lists the name: as an entry of its own, or as the rest, or below the rest, of an entry
-- with a leading dot.
pub match_geosite_iff :
    (name : Bytes) (cats : List Bytes) (mgr : Manager)
    → (match_geosite name cats mgr ≡ true)
      ↔ ((mgr.geosite_enabled ≡ true) × Some (Lists mgr.geosite_domains (to_lower name)) cats)
unfolding match_geosite
match_geosite_iff name cats mgr =
    let listed = match_categories_iff (to_lower name) cats mgr.geosite_domains in
    let test =
      &&_iff mgr.geosite_enabled (match_categories (to_lower name) cats mgr.geosite_domains) in
    (λ h. let (e, l) = test.0 h in (e, listed.0 l), λ h. test.1 (h.0, listed.1 h.1))

-- `MatchAdFilter` holds exactly when the filter is loaded and lists the name in lower case: as an
-- entry of its own, or as the rest, or below the rest, of an entry with a leading dot.
pub match_ad_filter_iff :
    (name : Bytes) (mgr : Manager)
    → (match_ad_filter name mgr ≡ true)
      ↔ ((mgr.ad_filter_enabled ≡ true) × IsListed mgr.ad_filter_domains (to_lower name))
unfolding match_ad_filter match_domain_in_map
match_ad_filter_iff name mgr =
    let listed = match_domain_in_map_iff (to_lower name) mgr.ad_filter_domains in
    let test =
      &&_iff mgr.ad_filter_enabled (match_domain_in_map (to_lower name) mgr.ad_filter_domains) in
    (λ h. let (e, l) = test.0 h in (e, listed.0 l), λ h. test.1 (h.0, listed.1 h.1))
