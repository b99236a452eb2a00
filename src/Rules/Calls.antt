-- ===== src/Rules/Calls.antt =====
-- The engine under any sequence of complete calls of its methods (internal/rules/rules.go).
use lynx_dns.Common.{ℕ, Bool, Option, List, [], ◌∷◌, Bytes}
use lynx_dns.Rules.{Engine, new_engine, delete, reorder, ConfigRule}
use lynx_dns.Rules.Change.{add, update, load_from_config}
use lynx_dns.Rules.Invariant.{
  IsValid, new_engine-IsValid, add-IsValid, update-IsValid, delete-IsValid,
  load_from_config-IsValid,
}
use lynx_dns.Rules.Order.{reorder-IsValid}

-- The calls that change an engine.
pub data Call : Type 0 where
  add_rule : (now : ℕ) (rtype domain target : Bytes) (enabled : Bool) → Call
  update_rule : (now : ℕ) (id rtype domain target : Bytes) (enabled : Option Bool) → Call
  delete_rule : (id : Bytes) → Call
  reorder_rules : (ids : List Bytes) → Call
  load_rules : (now : ℕ) (rules : List ConfigRule) → Call

module _ (regexp_compile : Bytes → Option (Bytes → Bool)) where
  unfoldable pub call : Call → Engine → Engine
  call (add_rule now rtype domain target enabled) e =
      (add regexp_compile now rtype domain target enabled e).0
  call (update_rule now id rtype domain target enabled) e =
      (update regexp_compile now id rtype domain target enabled e).0
  call (delete_rule id) e = (delete id e).0
  call (reorder_rules ids) e = reorder ids e
  call (load_rules now cs) e = (load_from_config regexp_compile now cs e).0

  unfoldable pub calls : List Call → Engine
  calls [] = new_engine
  calls (c ∷ older) = call c (calls older)

  call-IsValid : (c : Call) (e : Engine) → IsValid e → IsValid (call c e)
  unfolding call
  call-IsValid (add_rule now rtype domain target enabled) e v =
      add-IsValid regexp_compile now rtype domain target enabled e v
  call-IsValid (update_rule now id rtype domain target enabled) e v =
      update-IsValid regexp_compile now id rtype domain target enabled e v
  call-IsValid (delete_rule id) e v = delete-IsValid id e v
  call-IsValid (reorder_rules ids) e v = reorder-IsValid ids e v
  call-IsValid (load_rules now cs) e v = load_from_config-IsValid regexp_compile now cs e v

  -- After any sequence of complete calls that change an engine, failed ones included, its rules have
  -- distinct identifiers, each was issued with a number below the next one, and no rule is set to
  -- compare a tail that its domain is too short for, so that no match goes out of range.
  pub calls-IsValid : (cs : List Call) → IsValid (calls cs)
  unfolding calls
  calls-IsValid [] = new_engine-IsValid
  calls-IsValid (c ∷ older) = call-IsValid c (calls older) (calls-IsValid older)
