-- ===== src/Resolver/Balance.antt =====
-- The balance of the counters of internal/resolver/resolver.go, and what each note does to it.
use lynx_dns.Common.{
  ℕ, suc, ◌+◌, ◌≡◌, refl, ap, inl, inr, arith, Bool, true, false, Bool-cases, [], ◌∷◌, Bytes, codes,
  text_eq, text_eq_iff,
}
use lynx_dns.Common.Dict.{Dict, lookup, insert, lookup-insert}
use lynx_dns.Resolver.State.{Action, failed, action_text, Counters, increment_map, count_of}

abbrev pub total : Dict ℕ → ℕ
total [] = 0
total ((k, n) ∷ m) = n + total m

abbrev pub count : Bytes → Dict ℕ → ℕ
count k m = count_of (lookup k m)

abbrev pub bit : Bool → ℕ
bit true = 1
bit false = 0

total-insert : (k : Bytes) (n : ℕ) (m : Dict ℕ) → total (insert k n m) + count k m ≡ total m + n
unfolding lookup insert
total-insert k n [] = omega arith
total-insert k n ((j, i) ∷ m) = ground (arith, total-insert k n m)

pub total-increment_map : (k : Bytes) (m : Dict ℕ) → total (increment_map k m) ≡ total m + 1
unfolding increment_map
total-increment_map k m = omega (arith, total-insert k (count k m + 1) m)

count-increment_map :
    (k j : Bytes) (m : Dict ℕ) → count j (increment_map k m) ≡ count j m + bit (text_eq k j)
unfolding increment_map
count-increment_map k j m = elim (Bool-cases (text_eq k j)) [
  | inl e ↦ rw (lookup-insert k j (count k m + 1) m) (rw (e, (text_eq_iff k j).0 e) refl)
  | inr e ↦ rw (lookup-insert k j (count k m + 1) m) (rw e (omega arith))
]

-- The totals of the maps are the number of queries, but for `p` queries whose action and `s` whose
-- outcome is still to be noted; a query that failed has a second outcome, the timeout.
pub record Balanced (p s : ℕ) (c : Counters) : Type 0 where
  pub types : total c.by_type ≡ c.total_queries
  pub actions : total c.by_action + p ≡ c.total_queries
  pub statuses : total c.by_status + s ≡ c.total_queries + count (codes "timeout") c.by_status
  pub hits : c.cache_hits ≡ count (codes "cache_hit") c.by_action
  pub blocked :
      c.blocked_queries
      ≡ count (codes "ad_block") c.by_action
        + count (codes "leak_block") c.by_action
        + count (codes "rule_block") c.by_action
  pub redirected : c.redirected_queries ≡ count (codes "redirected") c.by_action
  pub failures : count (codes "failed") c.by_action ≡ count (codes "timeout") c.by_status

-- The note of an action that moves the counters of its own kind with it.
module _ (s : ℕ) (a : Action) (c c' : Counters) where
  pub action-Balanced :
      (p : ℕ)
      → Balanced (suc p) s c
      → c'.total_queries ≡ c.total_queries
      → c'.by_type ≡ c.by_type
      → c'.by_status ≡ c.by_status
      → c'.by_action ≡ increment_map (action_text a) c.by_action
      → c'.cache_hits ≡ c.cache_hits + bit (text_eq (action_text a) (codes "cache_hit"))
      → c'.blocked_queries
        ≡ c.blocked_queries
          + bit (text_eq (action_text a) (codes "ad_block"))
          + bit (text_eq (action_text a) (codes "leak_block"))
          + bit (text_eq (action_text a) (codes "rule_block"))
      → c'.redirected_queries
        ≡ c.redirected_queries + bit (text_eq (action_text a) (codes "redirected"))
      → text_eq (action_text a) (codes "failed") ≡ false
      → Balanced p s c'
  action-Balanced p b et ey es ea eh eb er ef =
      let at : (k : Bytes)
          → count k c'.by_action ≡ count k c.by_action + bit (text_eq (action_text a) k) =
        λ k. rw ea (count-increment_map (action_text a) k c.by_action) in
      let sum : total c'.by_action ≡ total c.by_action + 1 =
        rw ea (total-increment_map (action_text a) c.by_action) in
      let none_failed : bit (text_eq (action_text a) (codes "failed")) ≡ 0 = ap bit ef in
      record {
        types = rw (ey, et) b.types;
        actions = omega (arith, sum, et, b.actions);
        statuses = rw (es, et) b.statuses;
        hits = omega (arith, at (codes "cache_hit"), eh, b.hits);
        blocked = omega (
          arith,
          at (codes "ad_block"),
          at (codes "leak_block"),
          at (codes "rule_block"),
          eb,
          b.blocked,
        );
        redirected = omega (arith, at (codes "redirected"), er, b.redirected);
        failures = rw es (omega (arith, at (codes "failed"), none_failed, b.failures));
      }

  pub failure-Balanced :
      (p : ℕ)
      → Balanced (suc p) s c
      → a ≡ failed
      → c' ≡ record c {
        by_status = increment_map (codes "timeout") c.by_status;
        by_action = increment_map (codes "failed") c.by_action;
      }
      → Balanced p s c'
  unfolding text_eq
  failure-Balanced p b ea e =
      let at : (k : Bytes)
          → count k (increment_map (codes "failed") c.by_action)
            ≡ count k c.by_action + bit (text_eq (codes "failed") k) =
        λ k. count-increment_map (codes "failed") k c.by_action in
      let st = count-increment_map (codes "timeout") (codes "timeout") c.by_status in
      let ta = total-increment_map (codes "failed") c.by_action in
      let ts = total-increment_map (codes "timeout") c.by_status in
      rw e (record {
        types = b.types;
        actions = omega (arith, ta, b.actions);
        statuses = omega (arith, ts, st, b.statuses);
        hits = omega (arith, at (codes "cache_hit"), b.hits);
        blocked = omega (
          arith,
          at (codes "ad_block"),
          at (codes "leak_block"),
          at (codes "rule_block"),
          b.blocked,
        );
        redirected = omega (arith, at (codes "redirected"), b.redirected);
        failures = omega (arith, at (codes "failed"), st, b.failures);
      })

  pub outcome-Balanced :
      (p : ℕ) (k : Bytes)
      → Balanced p (suc s) c
      → text_eq k (codes "timeout") ≡ false
      → c' ≡ record c { by_status = increment_map k c.by_status }
      → Balanced p s c'
  outcome-Balanced p k b n e =
      let st = count-increment_map k (codes "timeout") c.by_status in
      let no : bit (text_eq k (codes "timeout")) ≡ 0 = ap bit n in
      let ts = total-increment_map k c.by_status in
      rw e (record {
        types = b.types;
        actions = b.actions;
        statuses = omega (arith, ts, st, no, b.statuses);
        hits = b.hits;
        blocked = b.blocked;
        redirected = b.redirected;
        failures = omega (arith, st, no, b.failures);
      })
