-- ===== src/Rules/Runs.antt =====
-- Concrete runs of the rule engine, and the theorems at concrete inputs.
use mathlib.Core.Path.{subst}
use mathlib.Core.List.{Permᴰ}
use lynx_dns.Common.{
  ◌≡◌, refl, ◌⊎◌, Bool, true, false, Option, none, some, [], ◌∷◌, All, Bytes, codes, text_eq,
  has_prefix, has_suffix, to_lower, contains, if◌then◌else◌,
}
use lynx_dns.Common.Dict
use lynx_dns.Rules
use lynx_dns.Rules.{
  Rule, Result, ok, err, invalid_regex, Engine, ConfigRule, new_rule, new_engine, exact, suffix,
  wildcard, rule_match, match_rules, match_loop, found, not_matched, delete, reorder, type_block,
  type_remote,
}
use lynx_dns.Rules.Change.{compile, add, add_begin, add_commit, update}
use lynx_dns.Rules.Ident.{rule_id}
use lynx_dns.Rules.Matching.{IsFirst, applies, match_rules_cases}
use lynx_dns.Rules.Invariant.{IsValid, new_engine-IsValid, add-IsValid}
use lynx_dns.Rules.Order.{reorder-perm}
use lynx_dns.Rules.Calls.{add_rule, update_rule, reorder_rules, calls, calls-IsValid}
use lynx_dns.Rules.Race.{racing_adds, update_not_undone}

-- A stand-in for `regexp.Compile`: the pattern `(` does not compile.
abbrev regexps : Bytes → Option (Bytes → Bool)
regexps p = if text_eq p (codes "(") then none else some (λ name. contains name p)

abbrev ads : Rule
ads = record (new_rule 7 (codes "rule_001") type_block (codes "*.ads.com") [] true) {
  match_mode = wildcard;
  suffix = codes ".ads.com";
}

abbrev upper : Rule
upper = record (new_rule 7 (codes "rule_002") type_remote (codes ".Ads.com") [] true) {
  match_mode = suffix;
  suffix = codes ".Ads.com";
}

abbrev two : Engine
two = record { rules = ads ∷ upper ∷ []; next_id = 3 }

built :
    (add regexps 7 type_remote
      (codes ".Ads.com")
      []
      true
      (add regexps 7 type_block (codes "*.ads.com") [] true new_engine).0).0
    ≡ two
unfolding add new_engine rule_id has_prefix
built = refl

blocked : match_rules two (codes "X.ads.COM") ≡ found ads
unfolding match_rules rule_match has_suffix to_lower
blocked = refl

two-IsValid : IsValid two
two-IsValid =
    subst (λ e. IsValid e) built
      (add-IsValid regexps 7 type_remote (codes ".Ads.com") [] true _ (
        add-IsValid regexps 7 type_block (codes "*.ads.com") [] true new_engine new_engine-IsValid))

compiled_ads : compile regexps ads ≡ ok ads
unfolding compile has_prefix
compiled_ads = refl

compiled_upper : compile regexps upper ≡ ok upper
unfolding compile has_prefix
compiled_upper = refl

calls-IsValid_example : IsValid (
    calls regexps (
      update_rule 9 (codes "rule_001") [] (codes "regexp:(") [] none
      ∷ reorder_rules (codes "rule_002" ∷ [])
      ∷ add_rule 8 type_block (codes "*.") [] true
      ∷ add_rule 7 type_block (codes "a.com") [] true
      ∷ []))
calls-IsValid_example = calls-IsValid regexps (
    update_rule 9 (codes "rule_001") [] (codes "regexp:(") [] none
    ∷ reorder_rules (codes "rule_002" ∷ [])
    ∷ add_rule 8 type_block (codes "*.") [] true
    ∷ add_rule 7 type_block (codes "a.com") [] true
    ∷ [])

match_rules_cases_example :
    ((match_rules two (codes "a.b") ≡ not_matched)
      × All (λ q. applies q (codes "a.b") ≡ false) (ads ∷ upper ∷ []))
    ⊎ ((r : Rule) × (match_rules two (codes "a.b") ≡ found r)
        × IsFirst (ads ∷ upper ∷ []) (codes "a.b") r)
match_rules_cases_example = match_rules_cases two (codes "a.b")

reorder-perm_example :
    Permᴰ (reorder (codes "rule_002" ∷ codes "rule_009" ∷ []) two).rules (ads ∷ upper ∷ [])
reorder-perm_example =
    reorder-perm (codes "rule_002" ∷ codes "rule_009" ∷ []) two two-IsValid.distinct

moved : (reorder (codes "rule_002" ∷ []) two).rules ≡ upper ∷ ads ∷ []
unfolding reorder text_eq Dict.lookup Dict.insert Dict.delete
moved = refl

update_not_undone_example :
    (r' : Rule) × ((update regexps 9 (codes "rule_001") [] (codes "regexp:(") [] none two).0.rules
      ≡ r' ∷ upper ∷ [])
    × ((update regexps 9 (codes "rule_001") [] (codes "regexp:(") [] none two).1
        ≡ err (invalid_regex (codes "(")))
    × (r'.domain ≡ codes "regexp:(")
    × (r'.match_mode ≡ wildcard)
    × (r'.regex ≡ none)
    × (r'.suffix ≡ codes ".ads.com")
    × (r'.keyword ≡ [])
unfolding text_eq
update_not_undone_example =
    update_not_undone regexps 9 [] [] (codes "(") none ads [] (upper ∷ []) two refl tt refl

abbrev third : Rule
third = record (new_rule 8 (codes "rule_003") type_block (codes "a.com") [] true) {
  match_mode = exact;
}

abbrev rival : Rule
rival = record (new_rule 9 (codes "rule_003") type_block (codes "b.com") [] true) {
  match_mode = exact;
}

racing_adds_example :
    (codes "rule_003" ≡ codes "rule_003")
    × ((add_commit regexps rival (add_commit regexps third two)).rules
        ≡ ads ∷ upper ∷ third ∷ rival ∷ [])
    × (Rules.get (codes "rule_003") (add_commit regexps rival (add_commit regexps third two))
        ≡ some third)
unfolding add_begin rule_id has_prefix
racing_adds_example =
    racing_adds regexps two 8 9 type_block (codes "a.com") [] type_block (codes "b.com") [] true
      true third rival two-IsValid refl refl
