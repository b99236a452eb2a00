-- ===== src/Rules/Matching.antt =====
-- `compile` and `match` against the meaning of the five forms of a rule's domain, and the order in
-- which `Match` tries the rules.
use lynx_dns.Common.{
  ◌≡◌, refl, ap, sym, ◌∙◌, ◌↔◌, ◌≢◌, ◌⊎◌, inl, inr, arith, Bool, true, false, Bool-cases, ◌&&◌,
  ◌||◌, ||_iff, Option, List, [], ◌∷◌, ◌++◌, All, Bytes, text_eq, text_eq_iff, to_lower,
  to_lower_idem, to_lower-append, length-to_lower, has_prefix, has_suffix, has_suffix-append,
  has_suffix→append, length,
}
use lynx_dns.Rules.{
  Rule, ok, rule_match, Engine, match_loop, match_rules, found, not_matched, bool_val,
}
use lynx_dns.Rules.Change.{compile}

-- The name `s` itself, or a name below it: something, a dot, and `s`.
abbrev pub IsUnder : Bytes → Bytes → Type 0
IsUnder name s = (name ≡ s) ⊎ ((u : Bytes) × (name ≡ u ++ (b'.' ∷ s)))

-- What a suffix rule and a wildcard rule test of a name in lower case.
dotted_test : Bytes → Bytes → Bool
dotted_test name s = has_suffix name (b'.' ∷ s) || text_eq name (to_lower s)

dotted_test_iff : (name s : Bytes) → to_lower s ≡ s → (dotted_test name s ≡ true) ↔ IsUnder name s
unfolding dotted_test
dotted_test_iff name s low = rw low (to, from)
  where
    to : (has_suffix name (b'.' ∷ s) || text_eq name s) ≡ true → IsUnder name s
    to h = elim ((||_iff (has_suffix name (b'.' ∷ s)) (text_eq name s)).0 h) [
      | inl p ↦ inr (has_suffix→append name (b'.' ∷ s) p)
      | inr q ↦ inl ((text_eq_iff name s).0 q)
    ]

    from : IsUnder name s → (has_suffix name (b'.' ∷ s) || text_eq name s) ≡ true
    from h = (||_iff (has_suffix name (b'.' ∷ s)) (text_eq name s)).1 (elim h [
      | inl e ↦ inr ((text_eq_iff name s).1 e)
      | inr (u, e) ↦ inl (rw e (has_suffix-append u (b'.' ∷ s)))
    ])

append_cancel : (a b s t : Bytes) → length a ≡ length b → a ++ s ≡ b ++ t → s ≡ t
append_cancel [] [] s t h e = e
append_cancel [] (y ∷ b) s t h e = absurd (omega arith)
append_cancel (x ∷ a) [] s t h e = absurd (omega arith)
append_cancel (x ∷ a) (y ∷ b) s t h e = append_cancel a b s t (omega arith) (cc)

-- A tail that is not in lower case is no tail of a name in lower case.
has_suffix_upper : (name s : Bytes) → to_lower s ≢ s → has_suffix (to_lower name) (b'.' ∷ s) ≡ false
has_suffix_upper name s up = elim (Bool-cases (has_suffix (to_lower name) (b'.' ∷ s))) [
  | inl h ↦
      let (u, e) = has_suffix→append (to_lower name) (b'.' ∷ s) h in
      let twice : to_lower u ++ to_lower (b'.' ∷ s) ≡ u ++ (b'.' ∷ s) =
        sym (to_lower-append u (b'.' ∷ s)) ∙ ap to_lower (sym e) ∙ to_lower_idem name ∙ e in
      let tails : to_lower (b'.' ∷ s) ≡ b'.' ∷ s =
        append_cancel (to_lower u) u _ _ (length-to_lower u) twice in
      absurd (up (unfold to_lower in cc tails))
  | inr h ↦ h
]

module _ (regexp_compile : Bytes → Option (Bytes → Bool)) where
  suffix-dotted_test :
      (r r' : Rule) (s name : Bytes)
      → r.domain ≡ b'.' ∷ s
      → compile regexp_compile r ≡ ok r'
      → rule_match r' name ≡ dotted_test (to_lower name) s
  unfolding compile rule_match has_prefix dotted_test to_lower
  suffix-dotted_test r r' s name d c = ground arith

  wildcard-dotted_test :
      (r r' : Rule) (s name : Bytes)
      → r.domain ≡ b'*' ∷ b'.' ∷ s
      → compile regexp_compile r ≡ ok r'
      → rule_match r' name ≡ dotted_test (to_lower name) s
  unfolding compile rule_match has_prefix dotted_test to_lower
  wildcard-dotted_test r r' s name d c = ground arith

  -- A rule `.s` and a rule `*.s`, with `s` in lower case, compile without an error and match, in
  -- either case, `s` itself and the names below it, and nothing else.
  pub dotted_iff :
      (r r' : Rule) (s name : Bytes)
      → (r.domain ≡ b'.' ∷ s) ⊎ (r.domain ≡ b'*' ∷ b'.' ∷ s)
      → to_lower s ≡ s
      → compile regexp_compile r ≡ ok r'
      → (rule_match r' name ≡ true) ↔ IsUnder (to_lower name) s
  dotted_iff r r' s name (inl d) low c =
      rw (suffix-dotted_test r r' s name d c) (dotted_test_iff (to_lower name) s low)
  dotted_iff r r' s name (inr d) low c =
      rw (wildcard-dotted_test r r' s name d c) (dotted_test_iff (to_lower name) s low)

  -- A rule `.s` or `*.s` in which `s` is not in lower case matches `s` alone and no name below it:
  -- the name is folded to lower case, and the tail it is compared with is not.
  pub dotted_upper :
      (r r' : Rule) (s name : Bytes)
      → (r.domain ≡ b'.' ∷ s) ⊎ (r.domain ≡ b'*' ∷ b'.' ∷ s)
      → to_lower s ≢ s
      → compile regexp_compile r ≡ ok r'
      → rule_match r' name ≡ text_eq (to_lower name) (to_lower s)
  unfolding dotted_test
  dotted_upper r r' s name (inl d) up c =
      rw (suffix-dotted_test r r' s name d c, has_suffix_upper name s up)
  dotted_upper r r' s name (inr d) up c =
      rw (wildcard-dotted_test r r' s name d c, has_suffix_upper name s up)

-- `r` is enabled and matches the name.
abbrev pub applies : Rule → Bytes → Bool
applies r name = bool_val r.enabled && rule_match r name

-- `r` is the first rule of the list that applies to the name.
pub record IsFirst (rules : List Rule) (name : Bytes) (r : Rule) : Type 0 where
  pub before : List Rule
  pub after : List Rule
  pub place : rules ≡ before ++ (r ∷ after)
  pub skipped : All (λ q. applies q name ≡ false) before
  pub hit : applies r name ≡ true

match_loop_skip :
    (r : Rule) (rs : List Rule) (name : Bytes)
    → applies r name ≡ false
    → match_loop (r ∷ rs) name ≡ match_loop rs name
unfolding match_loop
match_loop_skip r rs name h = ground arith

match_loop_cases :
    (rules : List Rule) (name : Bytes)
    → ((match_loop rules name ≡ not_matched) × All (λ q. applies q name ≡ false) rules)
      ⊎ ((r : Rule) × (match_loop rules name ≡ found r) × IsFirst rules name r)
match_loop_cases [] name = inl (unfold match_loop in refl, tt)
match_loop_cases (r ∷ rs) name = elim (Bool-cases (applies r name)) [
  | inl yes' ↦ inr (
    r,
    unfold match_loop in ground arith,
    record { before = []; after = rs; place = refl; skipped = tt; hit = yes' },
  )
  | inr no' ↦ elim (match_loop_cases rs name) [
    | inl (e, a) ↦ inl (match_loop_skip r rs name no' ∙ e, (no', a))
    | inr (q, e, f) ↦ inr (
      q,
      match_loop_skip r rs name no' ∙ e,
      record {
        before = r ∷ f.before;
        after = f.after;
        place = ap (◌∷◌ r) f.place;
        skipped = (no', f.skipped);
        hit = f.hit;
      },
    )
  ]
]

-- `Match` returns the first enabled rule of the list that matches the name, with its type, target,
-- identifier and domain, and reports no match exactly when every rule is disabled or does not match.
pub match_rules_cases :
    (e : Engine) (name : Bytes)
    → ((match_rules e name ≡ not_matched) × All (λ q. applies q name ≡ false) e.rules)
      ⊎ ((r : Rule) × (match_rules e name ≡ found r) × IsFirst e.rules name r)
unfolding match_rules
match_rules_cases e name = match_loop_cases e.rules name
