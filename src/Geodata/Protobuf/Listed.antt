-- ===== src/Geodata/Protobuf/Listed.antt =====
-- Which names a loaded list of sites holds (internal/geodata/geodata.go).
use lynx_dns.Common.{
  ℕ, ◌^◌, ◌≤◌, ◌<◌, ◌≡◌, ◌≢◌, ◌⊎◌, ◌↔◌, refl, ap, ◌∙◌, arith, Bool, true, false, ◌&&◌, ◌||◌, none,
  some, List, [], ◌∷◌, ◌++◌, Bytes, codes, to_lower, has_prefix, ◌==◌, if◌then◌else◌, length, All,
  Bool-cases, inl, inr, text_eq, text_eq_iff,
}
use lynx_dns.Common.Dict.{Dict, lookup, insert, lookup-insert}
use lynx_dns.Geodata.Manager.{flag}
use lynx_dns.Geodata.Text.{entries_of}
use lynx_dns.Geodata.Wire.{finished}
use lynx_dns.Geodata.Protobuf.{add_name, add_domain, parse_geosite_data}
use lynx_dns.Geodata.Protobuf.Sites.{
  Domain, Site, IsSite, name_of, domains_map, site_map, encode_sites, parse_geosite_protobuf-encode,
  is_protobuf-encode,
}
use lynx_dns.Resolver.Local.{Some}

-- m[c][name]
abbrev pub lists : Dict (Dict Bool) → Bytes → Bytes → Bool
lists m c name = flag (entries_of (lookup c m)) name

flag-insert : (m : Dict Bool) (k j : Bytes) → flag (insert k true m) j ≡ (text_eq k j || flag m j)
flag-insert m k j =
    rw (flag, lookup-insert k j true m)
      (elim (Bool-cases (text_eq k j)) [ inl h ↦ rw h refl | inr h ↦ rw h refl ])

lists-insert :
    (m : Dict (Dict Bool)) (c k n : Bytes) (names : Dict Bool)
    → lists (insert c names m) k n ≡ (if text_eq c k then flag names n else lists m k n)
lists-insert m c k n names =
    rw (flag, lookup-insert c k names m)
      (elim (Bool-cases (text_eq c k)) [ inl h ↦ rw h refl | inr h ↦ rw h refl ])

lists-add_name :
    (m : Dict (Dict Bool)) (c name k n : Bytes)
    → lists (add_name c name m) k n ≡ ((text_eq c k && text_eq name n) || lists m k n)
lists-add_name m c name k n =
    lists-insert m c k n (insert name true (entries_of (lookup c m)))
    ∙ elim (Bool-cases (text_eq c k)) [
      | inl h ↦
          let e = (text_eq_iff c k).0 h in
          rw h (
            flag-insert (entries_of (lookup c m)) name n
            ∙ ap (λ k. text_eq name n || lists m k n) e)
      | inr h ↦ rw h refl
    ]

lists-open :
    (m : Dict (Dict Bool)) (c k n : Bytes)
    → lists (insert c (entries_of (lookup c m)) m) k n ≡ lists m k n
lists-open m c k n =
    lists-insert m c k n (entries_of (lookup c m)) ∙ elim (Bool-cases (text_eq c k)) [
      | inl h ↦ rw h (ap (λ k. lists m k n) ((text_eq_iff c k).0 h))
      | inr h ↦ rw h refl
    ]

type_cases :
    (t : ℕ)
    → (t ≡ 0)
      ⊎ ((t ≡ 1)
          ⊎ ((t ≡ 2)
              ⊎ ((t ≡ 3)
                  ⊎ (((t == 0) ≡ false)
                      × ((t == 1) ≡ false)
                      × ((t == 2) ≡ false)
                      × ((t == 3) ≡ false)))))
type_cases t = ground arith

-- The domain makes the entry `n`.
abbrev Names : Domain → Bytes → Type 0
Names d n = name_of d ≡ some n

lists-add_name_iff :
    (m : Dict (Dict Bool)) (c name k n : Bytes)
    → (lists (add_name c name m) k n ≡ true)
      ↔ (((c ≡ k) × (some name ≡ some n)) ⊎ (lists m k n ≡ true))
lists-add_name_iff m c name k n =
    rw (lists-add_name m c name k n) (ground (arith, text_eq_iff c k, text_eq_iff name n))

none_iff : (b : Bool) (c k n : Bytes) → (b ≡ true) ↔ (((c ≡ k) × (none ≡ some n)) ⊎ (b ≡ true))
none_iff b c k n = ground arith

lists-add_domain :
    (m : Dict (Dict Bool)) (c : Bytes) (d : Domain) (k n : Bytes)
    → (lists (add_domain c d m) k n ≡ true) ↔ (((c ≡ k) × Names d n) ⊎ (lists m k n ≡ true))
unfolding add_domain
lists-add_domain m c (t, v) k n =
    let dot = if has_prefix v (codes ".") then v else (b'.' ∷ v) in
    elim (Bool-cases (length v == 0)) [
      | inl e ↦ rw e (none_iff (lists m k n) c k n)
      | inr e ↦ elim (type_cases t) [
        | inl h ↦ rw (e, h) (lists-add_name_iff m c v k n)
        | inr (inl h) ↦ rw (e, h) (lists-add_name_iff m c (codes "regexp:" ++ v) k n)
        | inr (inr (inl h)) ↦ rw (e, h) (lists-add_name_iff m c dot k n)
        | inr (inr (inr (inl h))) ↦ rw (e, h) (lists-add_name_iff m c v k n)
        | inr (inr (inr (inr (h0, h1, h2, h3)))) ↦
            rw (e, h0, h1, h2, h3) (none_iff (lists m k n) c k n)
      ]
    ]

lists-domains_map :
    (ds : List Domain) (m : Dict (Dict Bool)) (c k n : Bytes)
    → (lists (domains_map c ds m) k n ≡ true)
      ↔ (((c ≡ k) × Some (λ d. Names d n) ds) ⊎ (lists m k n ≡ true))
unfolding domains_map
lists-domains_map [] m c k n = ground arith
lists-domains_map (d ∷ ds) m c k n =
    let ih = lists-domains_map ds (add_domain c d m) c k n in
    let h = lists-add_domain m c d k n in ground (arith, ih, h)

empty_cases :
    (s : Bytes)
    → ((s ≡ []) × ((length (to_lower s) == 0) ≡ true))
      ⊎ ((s ≢ []) × ((length (to_lower s) == 0) ≡ false))
unfolding to_lower
empty_cases [] = inl (refl, refl)
empty_cases (b ∷ bs) = inr ((λ e. cc), ground arith)

lists_none : (c n : Bytes) → lists [] c n ≡ false
unfolding lookup
lists_none c n = refl

-- The site has the name `c`, folded, and a domain that makes the entry `n`.
abbrev pub Holds : Bytes → Bytes → Site → Type 0
Holds c n s = (s.0 ≢ []) × (to_lower s.0 ≡ c) × Some (λ d. name_of d ≡ some n) s.1

lists-site :
    (s : Site) (m : Dict (Dict Bool)) (c n : Bytes)
    → (lists (site_map (s ∷ []) m) c n ≡ true) ↔ (Holds c n s ⊎ (lists m c n ≡ true))
unfolding site_map
lists-site s m c n =
    let k = to_lower s.0 in
    elim (empty_cases s.0) [
      | inl (e, l) ↦ rw l (ground (arith, e))
      | inr (e, l) ↦
          let opened = insert k (entries_of (lookup k m)) m in
          let h = lists-domains_map s.1 opened k c n in
          let o = lists-open m k c n in rw l (ground (arith, h, o, e))
    ]

lists-site_map :
    (ss : List Site) (m : Dict (Dict Bool)) (c n : Bytes)
    → (lists (site_map ss m) c n ≡ true) ↔ (Some (Holds c n) ss ⊎ (lists m c n ≡ true))
unfolding site_map
lists-site_map [] m c n = ground arith
lists-site_map (s ∷ ss) m c n =
    let m' = site_map (s ∷ []) m in ground (arith, lists-site_map ss m' c n, lists-site s m c n)

-- A list of sites that is encoded by the protobuf documentation, in fewer than 2^62 bytes, loads,
-- and the loaded map lists a name in a category exactly if some site of the list has the category
-- as its name, which is not empty, folded to lower case, and a domain that makes that name: a domain
-- of type 0 or 3 its value, of type 1 its value after `regexp:`, of type 2 its value after a dot,
-- unless it starts with one; a domain without a value makes none.
pub parse_geosite_data-encode_sites :
    (s : Site) (ss : List Site) (spare : Bytes)
    → 1 ≤ length spare
    → All IsSite (s ∷ ss)
    → length (encode_sites (s ∷ ss)) < 2 ^ 62
    → (m : Dict (Dict Bool)) × (parse_geosite_data (encode_sites (s ∷ ss)) spare ≡ finished m)
      × ((c n : Bytes) → (lists m c n ≡ true) ↔ Some (Holds c n) (s ∷ ss))
unfolding parse_geosite_data
parse_geosite_data-encode_sites s ss spare cap ok small = (
  site_map (s ∷ ss) [],
  rw (is_protobuf-encode s ss) (parse_geosite_protobuf-encode (s ∷ ss) spare cap ok small),
  λ c n. ground (arith, lists-site_map (s ∷ ss) [] c n, lists_none c n),
)
