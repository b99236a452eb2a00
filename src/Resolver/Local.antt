-- ===== src/Resolver/Local.antt =====
-- Which names count as local (isLocalDomain of internal/resolver/resolver.go).
use mathlib.Core.Path.{subst}
use lynx_dns.Common.{
  ℕ, suc, ◌-◌, ◌≡◌, refl, ap, sym, ◌∙◌, ◌↔◌, ◌≢◌, ◌⊎◌, inl, inr, arith, true, ◌||◌, ||_iff, ==_iff,
  Bool-cases, List, [], ◌∷◌, ◌++◌, All, Bytes, text_eq, text_eq_iff, has_suffix, has_suffix-append,
  has_suffix→append, to_lower, split, push, ◌==◌, length, drop,
}
use lynx_dns.Rules.Matching.{IsUnder}
use lynx_dns.Resolver.Names.{
  local_domain_suffixes, any_suffix, any_tld, last_label, is_local_domain,
}

-- One of the elements has the property.
abbrev pub Some : {A : Type 0} → (A → Type 0) → List A → Type 0
Some P [] = ⊥
Some P (x ∷ xs) = P x ⊎ Some P xs

any_suffix_iff :
    (name : Bytes) (ss : List Bytes)
    → (any_suffix name ss ≡ true) ↔ Some (λ s. has_suffix name s ≡ true) ss
unfolding any_suffix
any_suffix_iff name [] = (λ h. ground arith, λ h. elim h [ ])
any_suffix_iff name (s ∷ ss) = ground (arith, any_suffix_iff name ss)

any_tld_iff :
    (label : Bytes) (ss : List Bytes)
    → (any_tld label ss ≡ true) ↔ Some (λ s. text_eq label (drop 1 s) ≡ true) ss
unfolding any_tld
any_tld_iff label [] = (λ h. ground arith, λ h. elim h [ ])
any_tld_iff label (s ∷ ss) = ground (arith, any_tld_iff label ss)

last_label-cons : (w v : Bytes) (vs : List Bytes) → last_label (w ∷ v ∷ vs) ≡ last_label (v ∷ vs)
unfolding last_label
last_label-cons w v vs =
    let e : suc (suc (length vs)) - 1 ≡ suc (length vs) = omega arith in
    let f : suc (length vs) - 1 ≡ length vs = omega arith in rw e (rw f refl)

-- The parts of a text: one part, which is the text and has no separator, or a last part that stands
-- behind a separator.
abbrev Parted : ℕ → Bytes → Type 0
Parted sep s =
    ((split sep s ≡ s ∷ []) × All (λ c. c ≢ sep) s)
    ⊎ ((u : Bytes) × (w : Bytes) × (v : Bytes) × (vs : List Bytes) × (split sep s ≡ w ∷ v ∷ vs)
        × (s ≡ u ++ (sep ∷ last_label (v ∷ vs))))

split-Parted : (sep : ℕ) (s : Bytes) → Parted sep s
unfolding split push last_label
split-Parted sep [] = inl (refl, tt)
split-Parted sep (c ∷ s) = elim (Bool-cases (c == sep)) [
  | inl e ↦ elim (split-Parted sep s) [
    | inl (p, a) ↦
        inr (
          [],
          [],
          s,
          [],
          rw (e, split) (ap (λ ps. [] ∷ ps) p),
          ap (λ x. x ∷ s) ((==_iff c sep).0 e),
        )
    | inr (u, w, v, vs, p, q) ↦ inr (
      c ∷ u,
      [],
      w,
      v ∷ vs,
      rw (e, split) (ap (λ ps. [] ∷ ps) p),
      ap (λ x. c ∷ x) (q ∙ ap (λ l. u ++ (sep ∷ l)) (sym (last_label-cons w v vs))),
    )
  ]
  | inr e ↦ elim (split-Parted sep s) [
    | inl (p, a) ↦ inl (rw (e, split) (ap (push c) p), (λ i. ground (arith, ==_iff c sep), a))
    | inr (u, w, v, vs, p, q) ↦
        inr (c ∷ u, c ∷ w, v, vs, rw (e, split) (ap (push c) p), ap (λ x. c ∷ x) q)
  ]
]

no_separator : (sep : ℕ) (u t : Bytes) → All (λ c. c ≢ sep) (u ++ (sep ∷ t)) → ⊥
no_separator sep [] t h = h.0 refl
no_separator sep (c ∷ u) t h = no_separator sep u t h.1

Some-map :
    {A : Type 0} (F P Q : A → Type 0) (xs : List A)
    → All F xs
    → ((x : A) → F x → P x → Q x)
    → Some P xs
    → Some Q xs
Some-map F P Q [] f g h = h
Some-map F P Q (x ∷ xs) f g (inl h) = inl (g x f.0 h)
Some-map F P Q (x ∷ xs) f g (inr h) = inr (Some-map F P Q xs f.1 g h)

-- Each suffix of the list is a dot and a name without one.
abbrev IsTld : Bytes → Type 0
IsTld s = (s ≡ b'.' ∷ drop 1 s) × ((length (split b'.' (drop 1 s)) == 1) ≡ true)

suffixes-IsTld : All IsTld local_domain_suffixes
unfolding split
suffixes-IsTld = (
  (refl, refl),
  (
    (refl, refl),
    (
      (refl, refl),
      (
        (refl, refl),
        (
          (refl, refl),
          ((refl, refl), ((refl, refl), ((refl, refl), ((refl, refl), ((refl, refl), tt))))),
        ),
      ),
    ),
  ),
)

Some-either :
    {A : Type 0} (P : A → Type 0) (R : Type 0) (xs : List A)
    → Some (λ x. P x ⊎ R) xs
    → Some P xs ⊎ R
Some-either P R [] h = elim h [ ]
Some-either P R (x ∷ xs) (inl (inl h)) = inl (inl h)
Some-either P R (x ∷ xs) (inl (inr h)) = inr h
Some-either P R (x ∷ xs) (inr h) = elim (Some-either P R xs h) [
  | inl g ↦ inl (inr g)
  | inr g ↦ inr g
]

abbrev UnderTld : Bytes → Type 0
UnderTld lower = Some (λ s. IsUnder lower (drop 1 s)) local_domain_suffixes

by_suffix :
    (lower : Bytes) → Some (λ s. has_suffix lower s ≡ true) local_domain_suffixes → UnderTld lower
by_suffix lower h =
    Some-map IsTld (λ s. has_suffix lower s ≡ true) (λ s. IsUnder lower (drop 1 s))
      local_domain_suffixes suffixes-IsTld
      (λ s t p. let (u, e) = has_suffix→append lower s p in inr (u, e ∙ ap (λ x. u ++ x) t.0)) h

by_count :
    (lower : Bytes)
    → (length (split b'.' lower) == 1) ≡ true
    → All (λ c. c ≢ b'.') lower ⊎ UnderTld lower
by_count lower one = elim (split-Parted b'.' lower) [
  | inl (p, a) ↦ inl a
  | inr (u, w, v, vs, p, q) ↦
      let two : suc (suc (length vs)) ≡ 1 =
        sym (ap (λ ps. length ps) p) ∙ (==_iff (length (split b'.' lower)) 1).0 one in
      absurd (omega (arith, two))
]

by_tld :
    (lower : Bytes)
    → Some (λ s. text_eq (last_label (split b'.' lower)) (drop 1 s) ≡ true) local_domain_suffixes
    → All (λ c. c ≢ b'.') lower ⊎ UnderTld lower
by_tld lower h = elim (split-Parted b'.' lower) [
  | inl (p, a) ↦ inl a
  | inr (u, w, v, vs, p, q) ↦
      let last : last_label (split b'.' lower) ≡ last_label (v ∷ vs) =
        ap last_label p ∙ last_label-cons w v vs in
      inr (
        Some-map IsTld (λ s. text_eq (last_label (split b'.' lower)) (drop 1 s) ≡ true)
          (λ s. IsUnder lower (drop 1 s)) local_domain_suffixes suffixes-IsTld
          (λ s t i. inr (
            u,
            q
                ∙ ap (λ l. u ++ (b'.' ∷ l))
                    (sym last ∙ (text_eq_iff (last_label (split b'.' lower)) (drop 1 s)).0 i),
          ))
          h)
]

one_part : (lower : Bytes) → All (λ c. c ≢ b'.') lower → (length (split b'.' lower) == 1) ≡ true
one_part lower n = elim (split-Parted b'.' lower) [
  | inl (p, a) ↦ rw p refl
  | inr (u, w, v, vs, p, q) ↦
      absurd (no_separator b'.' u (last_label (v ∷ vs)) (subst (λ x. All (λ c. c ≢ b'.') x) q n))
]

under_tld :
    (lower : Bytes)
    → UnderTld lower
    → Some (λ s. has_suffix lower s ≡ true) local_domain_suffixes
      ⊎ ((length (split b'.' lower) == 1) ≡ true)
under_tld lower h =
    Some-either (λ s. has_suffix lower s ≡ true) ((length (split b'.' lower) == 1) ≡ true)
      local_domain_suffixes
      (Some-map IsTld (λ s. IsUnder lower (drop 1 s))
        (λ s. (has_suffix lower s ≡ true) ⊎ ((length (split b'.' lower) == 1) ≡ true))
        local_domain_suffixes suffixes-IsTld
        (λ s t i. elim i [
          | inl e ↦ inr (ap (λ x. length (split b'.' x) == 1) e ∙ t.1)
          | inr (u, e) ↦ inl (
              subst (λ x. has_suffix x s ≡ true) (sym (e ∙ ap (λ x. u ++ x) (sym t.0)))
                (has_suffix-append u s))
        ])
        h)

-- A name is local exactly when, in lower case, it has no dot or is one of the ten local top-level
-- names (lan, local, localhost, home, internal, test, example, invalid, onion, arpa) or a name below
-- one of them.
pub is_local_domain_iff :
    (name : Bytes)
    → (is_local_domain name ≡ true) ↔ (
        All (λ c. c ≢ b'.') (to_lower name)
        ⊎ Some (λ s. IsUnder (to_lower name) (drop 1 s)) local_domain_suffixes)
unfolding is_local_domain
is_local_domain_iff name =
    let lower = to_lower name in
    let parts = split b'.' lower in
    let a = any_suffix lower local_domain_suffixes in
    let b = length parts == 1 in
    let c = any_tld (last_label parts) local_domain_suffixes in
    (
      λ h. elim ((||_iff a (b || c)).0 h) [
        | inl p ↦ inr (by_suffix lower ((any_suffix_iff lower local_domain_suffixes).0 p))
        | inr p ↦ elim ((||_iff b c).0 p) [
          | inl one ↦ by_count lower one
          | inr t ↦ by_tld lower ((any_tld_iff (last_label parts) local_domain_suffixes).0 t)
        ]
      ],
      λ h. elim h [
        | inl n ↦ (||_iff a (b || c)).1 (inr ((||_iff b c).1 (inl (one_part lower n))))
        | inr n ↦ elim (under_tld lower n) [
          | inl p ↦ (||_iff a (b || c)).1 (inl ((any_suffix_iff lower local_domain_suffixes).1 p))
          | inr p ↦ (||_iff a (b || c)).1 (inr ((||_iff b c).1 (inl p)))
        ]
      ],
    )
