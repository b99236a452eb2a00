-- ===== src/Resolver/Branches.antt =====
-- The balance of the counters in each branch that a query may end in
-- (internal/resolver/resolver.go).
use lynx_dns.Common.{ℕ, ◌≡◌, refl, ◌⊎◌, inl, inr, arith, List, Bytes, text_eq}
use lynx_dns.Dns.{DnsLib, Question}
use lynx_dns.Rules.{MatchResult}
use lynx_dns.Resolver.State.{
  Action, domestic, remote, ad_block, leak_block, rule_block, redirect, default_group, failed,
  Answer, answered, errored, QueryResult, Upstreams,
}
use lynx_dns.Resolver.Forward.{
  State, block_query, redirect_query, forward_failed, forward_answered, forward_to_group,
}
use lynx_dns.Resolver.Balance.{Balanced, action-Balanced, failure-Balanced}

module _ (d : DnsLib) (u : Upstreams d.Msg) where
  abbrev pub BalancedOut : ℕ → ℕ → State d u × d.Msg → Type 0
  BalancedOut p s out = Balanced p s out.0.counters

  pub block_query-Balanced :
      (s now : ℕ) (q : Question) (domain client : Bytes) (action : Action) (rule : Bytes)
      (r : State d u)
      → Balanced 1 s r.counters
      → (action ≡ ad_block) ⊎ (action ≡ leak_block) ⊎ (action ≡ rule_block)
      → Balanced 0 s (block_query d u now q domain client action rule r).counters
  unfolding block_query text_eq
  block_query-Balanced s now q domain client action rule r b h = elim h [
    | inl e ↦ rw e (
        action-Balanced s ad_block r.counters _ 0 b refl refl refl refl (omega arith) (omega arith)
          (omega arith) refl)
    | inr (inl e) ↦ rw e (
        action-Balanced s leak_block r.counters _ 0 b refl refl refl refl (omega arith)
          (omega arith) (omega arith) refl)
    | inr (inr e) ↦ rw e (
        action-Balanced s rule_block r.counters _ 0 b refl refl refl refl (omega arith)
          (omega arith) (omega arith) refl)
  ]

  pub redirect_query-Balanced :
      (s now : ℕ) (q : Question) (domain client : Bytes) (m : MatchResult) (r : State d u)
      → Balanced 1 s r.counters
      → Balanced 0 s (redirect_query d u now q domain client m r).counters
  unfolding redirect_query text_eq
  redirect_query-Balanced s now q domain client m r b =
      action-Balanced s redirect r.counters _ 0 b refl refl refl refl (omega arith) (omega arith)
        (omega arith) refl

  -- An action whose counter is only the one of the map.
  abbrev pub IsGroup : Action → Type 0
  IsGroup a = (a ≡ remote) ⊎ (a ≡ domestic) ⊎ (a ≡ default_group)

  pub answered-Balanced :
      (s now : ℕ) (domain : Bytes) (q : Question) (client : Bytes) (action : Action) (rule : Bytes)
      (res : QueryResult d.Msg) (m : d.Msg) (r : State d u)
      → Balanced 1 s r.counters
      → IsGroup action
      → BalancedOut 0 s (forward_answered d u now domain q client action rule res m r)
  unfolding forward_answered text_eq
  answered-Balanced s now domain q client action rule res m r b h = elim h [
    | inl e ↦ rw e (
        action-Balanced s remote r.counters _ 0 b refl refl refl refl (omega arith) (omega arith)
          (omega arith) refl)
    | inr (inl e) ↦ rw e (
        action-Balanced s domestic r.counters _ 0 b refl refl refl refl (omega arith) (omega arith)
          (omega arith) refl)
    | inr (inr e) ↦ rw e (
        action-Balanced s default_group r.counters _ 0 b refl refl refl refl (omega arith)
          (omega arith) (omega arith) refl)
  ]

  pub after_answer-Balanced :
      (s now : ℕ) (req : d.Msg) (domain : Bytes) (q : Question) (client : Bytes)
      (servers : List Bytes) (action : Action) (rule : Bytes) (res : QueryResult d.Msg)
      (r : State d u)
      → Balanced 1 s r.counters
      → IsGroup action
      → (x : Answer d.Msg)
      → BalancedOut 0 s (elim x as (λ _. State d u × d.Msg) [
        | errored e ↦ forward_failed d u now req domain q client servers res e r
        | answered m ↦ forward_answered d u now domain q client action rule res m r
      ])
  unfolding forward_failed
  after_answer-Balanced s now req domain q client servers action rule res r b h (errored e) =
      failure-Balanced s failed r.counters _ 0 b refl refl
  after_answer-Balanced s now req domain q client servers action rule res r b h (answered m) =
      answered-Balanced s now domain q client action rule res m r b h

  pub forward_to_group-Balanced :
      (s now : ℕ) (req : d.Msg) (domain : Bytes) (q : Question) (client : Bytes)
      (servers : List Bytes) (action : Action) (rule : Bytes) (r : State d u)
      → Balanced 1 s r.counters
      → IsGroup action
      → BalancedOut 0 s (forward_to_group d u now req domain q client servers action rule r)
  unfolding forward_to_group
  forward_to_group-Balanced s now req domain q client servers action rule r b h =
      let out = u.query_group req servers r.cfg.concurrency r.client in
      after_answer-Balanced s now req domain q client servers action rule out.1
        (record r { client = out.0 }) b h out.1.answer
