-- ===== src/Rules.antt =====
-- lynxdns-core/internal/rules/rules.go: the rule engine. The engine runs under its mutex; a `*Rule`
-- in the slice is the rule itself, and `error` comes back beside the state that the method leaves.
-- The package `regexp` is a parameter: `regexp_compile` gives the test of `MatchString`, or fails.
-- `time.Now()` is an argument.
pub mod Ident
pub mod Change
pub mod Matching
pub mod Invariant
pub mod Pick
pub mod Order
pub mod Race
pub mod Calls
mod Runs
use Ident.{rule_id}
use lynx_dns.Common.{
  ℕ, suc, ◌+◌, Bool, true, false, not, ◌&&◌, ◌||◌, Option, none, some, List, [], ◌∷◌, ◌++◌, Bytes,
  codes, text_eq, has_prefix, has_suffix, contains, to_lower, trim_prefix, drop, if◌then◌else◌,
}
use lynx_dns.Common.Dict
use lynx_dns.Common.Dict.{Dict}

abbrev pub type_remote : Bytes
type_remote = codes "remote"

abbrev pub type_domestic : Bytes
type_domestic = codes "domestic"

abbrev pub type_redirect : Bytes
type_redirect = codes "redirect"

abbrev pub type_block : Bytes
type_block = codes "block"

-- `unset` is the empty string of a rule that is not compiled yet.
pub data MatchMode : Type 0 where
  unset exact suffix wildcard regex keyword : MatchMode

pub record Rule : Type 0 where
  pub id : Bytes
  pub rtype : Bytes
  pub domain : Bytes
  pub target : Bytes
  pub enabled : Option Bool
  pub created_at : ℕ
  pub updated_at : ℕ
  pub match_mode : MatchMode
  pub regex : Option (Bytes → Bool)
  pub suffix : Bytes
  pub keyword : Bytes

pub data Error : Type 0 where
  invalid_regex : Bytes → Error
  not_found : Bytes → Error
  failed_to_load : Bytes → Error → Error

pub data Result {ℓ} (A : Type ℓ) : Type ℓ where
  ok : A → Result A
  err : Error → Result A

pub record MatchResult : Type 0 where
  pub matched : Bool
  pub rule_type : Bytes
  pub target : Bytes
  pub rule_id : Bytes
  pub rule_domain : Bytes

pub record Engine : Type 0 where
  pub rules : List Rule
  pub next_id : ℕ

unfoldable pub new_engine : Engine
new_engine = record { rules = []; next_id = 1 }

abbrev pub bool_val : Option Bool → Bool
bool_val none = false
bool_val (some b) = b

-- `match`; the slices `target[1:]` and `target[2:]` are in bounds for a rule that was compiled.
unfoldable pub match_mode_test : MatchMode → Rule → Bytes → Bool
match_mode_test unset r domain = false
match_mode_test exact r domain = text_eq domain (to_lower r.domain)
match_mode_test suffix r domain =
    has_suffix domain r.suffix || text_eq domain (drop 1 (to_lower r.domain))
match_mode_test wildcard r domain =
    has_suffix domain r.suffix || text_eq domain (drop 2 (to_lower r.domain))
match_mode_test regex r domain = elim r.regex [ none ↦ false | some re ↦ re domain ]
match_mode_test keyword r domain = contains domain r.keyword

unfoldable pub rule_match : Rule → Bytes → Bool
unfolding match_mode_test
rule_match r domain = match_mode_test r.match_mode r (to_lower domain)

abbrev pub found : Rule → MatchResult
found r = record {
  matched = true;
  rule_type = r.rtype;
  target = r.target;
  rule_id = r.id;
  rule_domain = r.domain;
}

abbrev pub not_matched : MatchResult
not_matched = record {
  matched = false;
  rule_type = [];
  target = [];
  rule_id = [];
  rule_domain = [];
}

unfoldable pub match_loop : List Rule → Bytes → MatchResult
match_loop [] domain = not_matched
match_loop (r ∷ rs) domain =
    let rest = match_loop rs domain in
    if not (bool_val r.enabled) then rest else if rule_match r domain then found r else rest

unfoldable pub match_rules : Engine → Bytes → MatchResult
unfolding match_loop
match_rules e domain = match_loop e.rules domain

delete_loop : Bytes → List Rule → List Rule × Option Error
delete_loop id [] = ([], some (not_found id))
delete_loop id (r ∷ rs) =
    let rest = delete_loop id rs in if text_eq r.id id then (rs, none) else (r ∷ rest.0, rest.1)

unfoldable pub delete : Bytes → Engine → Engine × Option Error
unfolding delete_loop
delete id e = let out = delete_loop id e.rules in (record e { rules = out.0 }, out.1)

get_loop : Bytes → List Rule → Option Rule
get_loop id [] = none
get_loop id (r ∷ rs) = if text_eq r.id id then some r else get_loop id rs

unfoldable pub get : Bytes → Engine → Option Rule
unfolding get_loop
get id e = get_loop id e.rules

list_loop : Bytes → Bool → List Rule → List Rule
list_loop rtype enabled_only [] = []
list_loop rtype enabled_only (r ∷ rs) =
    let rest = list_loop rtype enabled_only rs in
    if not (text_eq rtype []) && not (text_eq r.rtype rtype)
    then rest
    else if enabled_only && not (bool_val r.enabled)
    then rest
    else r ∷ rest

-- `List`
unfoldable pub list_rules : Bytes → Bool → Engine → List Rule
unfolding list_loop
list_rules rtype enabled_only e = list_loop rtype enabled_only e.rules

-- The loops of `Reorder`: the map from identifiers to rules, the rules picked from it in the order
-- of `ids`, and those that are still in it in their old order.
pub rule_map : List Rule → Dict Rule → Dict Rule
rule_map [] m = m
rule_map (r ∷ rs) m = rule_map rs (Dict.insert r.id r m)

pick_rule : Option Rule → Bytes → Dict Rule → Dict Rule
pick_rule none id m = m
pick_rule (some r) id m = Dict.delete id m

picked : List Bytes → Dict Rule → List Rule
picked [] m = []
picked (id ∷ ids) m =
    let rest = picked ids (pick_rule (Dict.lookup id m) id m) in
    elim (Dict.lookup id m) [ none ↦ rest | some r ↦ r ∷ rest ]

left_over : List Bytes → Dict Rule → Dict Rule
left_over [] m = m
left_over (id ∷ ids) m = left_over ids (pick_rule (Dict.lookup id m) id m)

is_some : Option Rule → Bool
is_some none = false
is_some (some r) = true

pub keep_left : List Rule → Dict Rule → List Rule
keep_left [] m = []
keep_left (r ∷ rs) m =
    let rest = keep_left rs m in if is_some (Dict.lookup r.id m) then r ∷ rest else rest

-- `Reorder`; it never fails.
unfoldable pub reorder : List Bytes → Engine → Engine
unfolding rule_map pick_rule picked left_over is_some keep_left
reorder ids e =
    let m = rule_map e.rules [] in
    record e { rules = picked ids m ++ keep_left e.rules (left_over ids m) }

-- A rule of the configuration file, for `LoadFromConfig`.
pub record ConfigRule : Type 0 where
  pub rtype : Bytes
  pub domain : Bytes
  pub target : Bytes
  pub enabled : Option Bool

abbrev pub enabled_or_true : Option Bool → Bool
enabled_or_true none = true
enabled_or_true (some b) = b

-- The literal of `Add`.
abbrev pub new_rule : ℕ → Bytes → Bytes → Bytes → Bytes → Bool → Rule
new_rule now id rtype domain target enabled = record {
  id = id;
  rtype = rtype;
  domain = domain;
  target = target;
  enabled = some enabled;
  created_at = now;
  updated_at = now;
  match_mode = unset;
  regex = none;
  suffix = [];
  keyword = [];
}
