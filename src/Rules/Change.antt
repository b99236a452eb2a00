-- ===== src/Rules/Change.antt =====
-- The compilation of a rule, and the calls that add and update rules
-- (internal/rules/rules.go). `regexp.Compile` is a parameter.
use lynx_dns.Rules.Ident.{rule_id}
use lynx_dns.Common.{
  ℕ, ◌+◌, Bool, Option, none, some, List, [], ◌∷◌, ◌++◌, Bytes, codes, text_eq, has_prefix,
  trim_prefix, drop, if◌then◌else◌,
}
use lynx_dns.Rules.{
  exact, suffix, wildcard, regex, keyword, ConfigRule, Engine, Error, Result, Rule, enabled_or_true,
  err, failed_to_load, invalid_regex, new_rule, not_found, ok,
}

module _ (regexp_compile : Bytes → Option (Bytes → Bool)) where
  -- `compile` sets the fields that `match` reads; on an error it has changed nothing.
  unfoldable pub compile : Rule → Result Rule
  compile r =
      if has_prefix r.domain (codes "regexp:")
      then elim (regexp_compile (trim_prefix r.domain (codes "regexp:"))) [
        | none ↦ err (invalid_regex (trim_prefix r.domain (codes "regexp:")))
        | some re ↦ ok (record r { match_mode = regex; regex = some re })
      ]
      else if has_prefix r.domain (codes "keyword:")
      then ok (record r { match_mode = keyword; keyword = trim_prefix r.domain (codes "keyword:") })
      else if has_prefix r.domain (codes "*.")
      then ok (record r { match_mode = wildcard; suffix = drop 1 r.domain })
      else if has_prefix r.domain (codes ".")
      then ok (record r { match_mode = suffix; suffix = r.domain })
      else ok (record r { match_mode = exact })

  -- `Add` up to the lock: the rule, with the identifier that `nextID` gives before it is locked.
  unfoldable pub add_begin : ℕ → Bytes → Bytes → Bytes → Bool → Engine → Result Rule
  unfolding compile
  add_begin now rtype domain target enabled e =
      compile (new_rule now (rule_id e.next_id) rtype domain target enabled)

  -- `Add` under the lock.
  unfoldable pub add_commit : Rule → Engine → Engine
  add_commit r e = record { rules = e.rules ++ (r ∷ []); next_id = e.next_id + 1 }

  unfoldable pub add_result : Result Rule → Engine → Engine × Result Rule
  add_result (err x) e = (e, err x)
  add_result (ok r) e = (add_commit r e, ok r)

  unfoldable pub add : ℕ → Bytes → Bytes → Bytes → Bool → Engine → Engine × Result Rule
  unfolding add_begin add_commit add_result
  add now rtype domain target enabled e = add_result (add_begin now rtype domain target enabled e) e

  unfoldable pub or_old : Bytes → Bytes → Bytes
  or_old new old = if text_eq new [] then old else new

  -- The assignments of `Update`: an empty string and a nil pointer leave the field.
  unfoldable pub assign : ℕ → Bytes → Bytes → Bytes → Option Bool → Rule → Rule
  unfolding or_old
  assign now rtype domain target enabled r = record r {
    rtype = or_old rtype r.rtype;
    domain = or_old domain r.domain;
    target = or_old target r.target;
    enabled = elim enabled [ none ↦ r.enabled | some b ↦ some b ];
    updated_at = now;
  }

  -- The fields are written before the pattern is compiled, and stay written when that fails.
  unfoldable pub recompiled : Rule → Result Rule → Rule × Result Rule
  recompiled r (err x) = (r, err x)
  recompiled r (ok r') = (r', ok r')

  unfoldable pub update_rule : ℕ → Bytes → Bytes → Bytes → Option Bool → Rule → Rule × Result Rule
  unfolding compile assign recompiled
  update_rule now rtype domain target enabled r =
      let r' = assign now rtype domain target enabled r in recompiled r' (compile r')

  unfoldable pub update_loop :
      ℕ → Bytes → Bytes → Bytes → Bytes → Option Bool → List Rule → List Rule × Result Rule
  update_loop now id rtype domain target enabled [] = ([], err (not_found id))
  update_loop now id rtype domain target enabled (r ∷ rs) =
      let rest = update_loop now id rtype domain target enabled rs in
      let here = update_rule now rtype domain target enabled r in
      if text_eq r.id id then (here.0 ∷ rs, here.1) else (r ∷ rest.0, rest.1)

  unfoldable pub update :
      ℕ → Bytes → Bytes → Bytes → Bytes → Option Bool → Engine → Engine × Result Rule
  unfolding update_rule update_loop
  update now id rtype domain target enabled e =
      let out = update_loop now id rtype domain target enabled e.rules in
      (record e { rules = out.0 }, out.1)

  -- `LoadFromConfig` stops at the first rule that fails; those before it stay added.
  unfoldable pub load_from_config : ℕ → List ConfigRule → Engine → Engine × Option Error
  unfolding add
  load_from_config now [] e = (e, none)
  load_from_config now (c ∷ cs) e =
      let (e', out) = add now c.rtype c.domain c.target (enabled_or_true c.enabled) e in
      let rest = load_from_config now cs e' in
      elim out [ ok r ↦ rest | err x ↦ (e', some (failed_to_load c.domain x)) ]
