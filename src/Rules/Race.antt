-- ===== src/Rules/Race.antt =====
-- Calls that leave the engine in a state that no sequence of complete calls would: `Add` reads
-- `nextID` before it takes the lock, and `Update` writes a rule before it compiles it.
use lynx_dns.Common.{
  ℕ, ◌≡◌, refl, sym, ◌∙◌, ◌≢◌, arith, Bool, Option, none, some, List, [], ◌∷◌, ◌++◌, append_assoc,
  All, Bytes, codes, text_eq, text_eq_iff, text_eq_ne, trim_prefix,
}
use lynx_dns.Rules.{Rule, ok, err, invalid_regex, Engine, get, get_loop}
use lynx_dns.Rules.Change.{
  compile, add_begin, add_commit, assign, update_rule, update_loop, update, recompiled, or_old,
}
use lynx_dns.Rules.Invariant.{IsValid, issued_fresh, add_begin_lem}

get_loop-append :
    (id : Bytes) (r : Rule) (rs qs : List Rule)
    → r.id ≡ id
    → All (λ q. q.id ≢ r.id) rs
    → get_loop id (rs ++ (r ∷ qs)) ≡ some r
unfolding get_loop
get_loop-append id r [] qs e h = rw ((text_eq_iff r.id id).1 e)
get_loop-append id r (q ∷ rs) qs e h =
    rw (text_eq_ne q.id id (λ i. h.0 (i ∙ sym e))) (get_loop-append id r rs qs e h.1)

module _ (regexp_compile : Bytes → Option (Bytes → Bool)) where
  -- Two calls of `Add` that both read `nextID` before either appends its rule give both rules the
  -- same identifier, and `Get` of that identifier then finds only the first of them.
  pub racing_adds :
      (e : Engine) (now now' : ℕ) (rtype domain target rtype' domain' target' : Bytes)
      (enabled enabled' : Bool) (r r' : Rule)
      → IsValid e
      → add_begin regexp_compile now rtype domain target enabled e ≡ ok r
      → add_begin regexp_compile now' rtype' domain' target' enabled' e ≡ ok r'
      → (r.id ≡ r'.id)
        × ((add_commit regexp_compile r' (add_commit regexp_compile r e)).rules
            ≡ e.rules ++ (r ∷ r' ∷ []))
        × (get r'.id (add_commit regexp_compile r' (add_commit regexp_compile r e)) ≡ some r)
  unfolding add_commit get
  racing_adds e now now' rtype domain target rtype' domain' target' enabled enabled' r r' v c c' =
      let i = (add_begin_lem regexp_compile now rtype domain target enabled e r c).0 in
      let i' = (add_begin_lem regexp_compile now' rtype' domain' target' enabled' e r' c').0 in
      let same : r.id ≡ r'.id = i ∙ sym i' in
      let both : (e.rules ++ (r ∷ [])) ++ (r' ∷ []) ≡ e.rules ++ (r ∷ r' ∷ []) =
        append_assoc e.rules (r ∷ []) (r' ∷ []) in
      (
        same,
        both,
        rw both (
            get_loop-append r'.id r e.rules (r' ∷ []) same
              (issued_fresh e.next_id r e.rules i v.issued)),
      )

  compile-bad_regex :
      (r : Rule) (p : Bytes)
      → r.domain ≡ codes "regexp:" ++ p
      → regexp_compile p ≡ none
      → compile regexp_compile r ≡ err (invalid_regex p)
  unfolding compile trim_prefix
  compile-bad_regex r p d n = ground arith

  update_rule-bad_regex :
      (now : ℕ) (rtype target p : Bytes) (enabled : Option Bool) (r : Rule)
      → regexp_compile p ≡ none
      → update_rule regexp_compile now rtype (codes "regexp:" ++ p) target enabled r ≡ (
        assign regexp_compile now rtype (codes "regexp:" ++ p) target enabled r,
        err (invalid_regex p),
      )
  unfolding update_rule assign recompiled or_old text_eq
  update_rule-bad_regex now rtype target p enabled r n = rw (
      compile-bad_regex (assign regexp_compile now rtype (codes "regexp:" ++ p) target enabled r) p
        refl n)

  update_loop-append :
      (now : ℕ) (rtype domain target : Bytes) (enabled : Option Bool) (r : Rule)
      (before after : List Rule)
      → All (λ q. q.id ≢ r.id) before
      → update_loop regexp_compile now r.id rtype domain target enabled (before ++ (r ∷ after)) ≡ (
        before ++ ((update_rule regexp_compile now rtype domain target enabled r).0 ∷ after),
        (update_rule regexp_compile now rtype domain target enabled r).1,
      )
  unfolding update_loop
  update_loop-append now rtype domain target enabled r [] after h =
      rw ((text_eq_iff r.id r.id).1 refl)
  update_loop-append now rtype domain target enabled r (q ∷ before) after h =
      rw (text_eq_ne q.id r.id h.0)
        (rw (update_loop-append now rtype domain target enabled r before after h.1))

  -- An `Update` to a pattern that does not compile fails and is not undone: the rule keeps the new
  -- domain, while its match mode, its compiled expression, its suffix and its keyword are those of
  -- the old one.
  pub update_not_undone :
      (now : ℕ) (rtype target p : Bytes) (enabled : Option Bool) (r : Rule)
      (before after : List Rule) (e : Engine)
      → e.rules ≡ before ++ (r ∷ after)
      → All (λ q. q.id ≢ r.id) before
      → regexp_compile p ≡ none
      → (r' : Rule) × ((update regexp_compile now r.id rtype
            (codes "regexp:" ++ p)
            target
            enabled
            e).0.rules
          ≡ before ++ (r' ∷ after))
        × ((update regexp_compile now r.id rtype (codes "regexp:" ++ p) target enabled e).1
            ≡ err (invalid_regex p))
        × (r'.domain ≡ codes "regexp:" ++ p)
        × (r'.match_mode ≡ r.match_mode)
        × (r'.regex ≡ r.regex)
        × (r'.suffix ≡ r.suffix)
        × (r'.keyword ≡ r.keyword)
  unfolding update assign or_old text_eq
  update_not_undone now rtype target p enabled r before after e at h n =
      let d = codes "regexp:" ++ p in
      let done = update_loop-append now rtype d target enabled r before after h in
      let bad = update_rule-bad_regex now rtype target p enabled r n in
      (
        assign regexp_compile now rtype d target enabled r,
        rw (at, done, bad),
        rw (at, done, bad),
        refl,
        refl,
        refl,
        refl,
        refl,
      )
