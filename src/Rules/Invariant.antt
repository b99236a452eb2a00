-- ===== src/Rules/Invariant.antt =====
-- The invariant of the engine under sequential calls: identifiers are distinct, each was given out
-- before the next one, and every compiled rule has room for the slices that `match` takes.
use lynx_dns.Common.{
  ℕ, ◌+◌, ◌≤◌, ◌<◌, ◌≡◌, refl, sym, ◌∙◌, ◌≢◌, inl, inr, arith, Bool, true, Bool-cases, Option, some,
  List, [], ◌∷◌, ◌++◌, All, All-append, Bytes, codes, text_eq, has_prefix, length,
}
use lynx_dns.Rules.{
  Rule, Result, ok, err, Error, Engine, suffix, wildcard, new_engine, delete_loop, delete,
  ConfigRule, enabled_or_true, failed_to_load, new_rule,
}
use lynx_dns.Rules.Change.{
  compile, add_begin, add_commit, add, update_rule, update_loop, update, assign, load_from_config,
  add_result, recompiled,
}
use lynx_dns.Rules.Ident.{rule_id, rule_id_inj}

abbrev pub Distinct : List Rule → Type 0
Distinct [] = Unit
Distinct (r ∷ rs) = All (λ q. r.id ≢ q.id) rs × Distinct rs

-- The identifier was given out by an engine whose next number is `n`.
abbrev pub IsIssued : ℕ → Bytes → Type 0
IsIssued n id = (k : ℕ) × (id ≡ rule_id k) × (k < n)

-- `match` reads `target[1:]` in suffix mode and `target[2:]` in wildcard mode.
abbrev pub HasRoom : Rule → Type 0
HasRoom r =
    (r.match_mode ≡ suffix → 1 ≤ length r.domain) × (r.match_mode ≡ wildcard → 2 ≤ length r.domain)

pub record IsValid (e : Engine) : Type 0 where
  pub distinct : Distinct e.rules
  pub issued : All (λ r. IsIssued e.next_id r.id) e.rules
  pub room : All HasRoom e.rules

pub new_engine-IsValid : IsValid new_engine
unfolding new_engine
new_engine-IsValid = record { distinct = tt; issued = tt; room = tt }

IsIssued-weaken :
    (n : ℕ) (rs : List Rule) → All (λ r. IsIssued n r.id) rs → All (λ r. IsIssued (n + 1) r.id) rs
IsIssued-weaken n [] h = tt
IsIssued-weaken n (r ∷ rs) ((k, e, lt), h) = ((k, e, omega arith), IsIssued-weaken n rs h)

pub issued_fresh :
    (n : ℕ) (r : Rule) (rs : List Rule)
    → r.id ≡ rule_id n
    → All (λ q. IsIssued n q.id) rs
    → All (λ q. q.id ≢ r.id) rs
issued_fresh n r [] e h = tt
issued_fresh n r (q ∷ rs) e ((k, p, lt), h) =
    (λ same. absurd (omega (arith, rule_id_inj k n (sym p ∙ same ∙ e))), issued_fresh n r rs e h)

Distinct-snoc :
    (rs : List Rule) (r : Rule)
    → Distinct rs
    → All (λ q. q.id ≢ r.id) rs
    → Distinct (rs ++ (r ∷ []))
Distinct-snoc [] r d h = (tt, tt)
Distinct-snoc (q ∷ rs) r (a, d) (n, h) =
    (All-append (λ p. q.id ≢ p.id) rs (r ∷ []) a (n, tt), Distinct-snoc rs r d h)

has_prefix-length : (s p : Bytes) → has_prefix s p ≡ true → length p ≤ length s
unfolding has_prefix
has_prefix-length s [] h = omega arith
has_prefix-length [] (b ∷ p) h = cc
has_prefix-length (c ∷ s) (b ∷ p) h = ground (arith, has_prefix-length s p)

module _ (regexp_compile : Bytes → Option (Bytes → Bool)) where
  compile-HasRoom : (r r' : Rule) → compile regexp_compile r ≡ ok r' → HasRoom r'
  unfolding compile
  compile-HasRoom r r' c =
      ground
        (arith, has_prefix-length r.domain (codes "*."), has_prefix-length r.domain (codes "."))

  pub compile-id : (r r' : Rule) → compile regexp_compile r ≡ ok r' → r'.id ≡ r.id
  unfolding compile
  compile-id r r' c = ground arith

  add_commit-IsValid :
      (r : Rule) (e : Engine)
      → r.id ≡ rule_id e.next_id
      → HasRoom r
      → IsValid e
      → IsValid (add_commit regexp_compile r e)
  unfolding add_commit
  add_commit-IsValid r e i room v = record {
    distinct = Distinct-snoc e.rules r v.distinct (issued_fresh e.next_id r e.rules i v.issued);
    issued =
        All-append (λ q. IsIssued (e.next_id + 1) q.id) e.rules (r ∷ [])
          (IsIssued-weaken e.next_id e.rules v.issued) ((e.next_id, i, omega arith), tt);
    room = All-append HasRoom e.rules (r ∷ []) v.room (room, tt);
  }

  add_result-IsValid :
      (out : Result Rule) (e : Engine)
      → ((r : Rule) → out ≡ ok r → (r.id ≡ rule_id e.next_id) × HasRoom r)
      → IsValid e
      → IsValid (add_result regexp_compile out e).0
  unfolding add_result
  add_result-IsValid (err x) e h v = v
  add_result-IsValid (ok r) e h v = let (i, room) = h r refl in add_commit-IsValid r e i room v

  pub add_begin_lem :
      (now : ℕ) (rtype domain target : Bytes) (enabled : Bool) (e : Engine) (r : Rule)
      → add_begin regexp_compile now rtype domain target enabled e ≡ ok r
      → (r.id ≡ rule_id e.next_id) × HasRoom r
  unfolding add_begin
  add_begin_lem now rtype domain target enabled e r c =
      let r0 = new_rule now (rule_id e.next_id) rtype domain target enabled in
      (compile-id r0 r c, compile-HasRoom r0 r c)

  pub add-IsValid :
      (now : ℕ) (rtype domain target : Bytes) (enabled : Bool) (e : Engine)
      → IsValid e
      → IsValid (add regexp_compile now rtype domain target enabled e).0
  unfolding add
  add-IsValid now rtype domain target enabled e v =
      add_result-IsValid (add_begin regexp_compile now rtype domain target enabled e) e
        (add_begin_lem now rtype domain target enabled e) v

  compile_err : (r : Rule) (x : Error) → compile regexp_compile r ≡ err x → 7 ≤ length r.domain
  unfolding compile
  compile_err r x c = ground (arith, has_prefix-length r.domain (codes "regexp:"))

  recompiled-HasRoom :
      (r : Rule) (out : Result Rule)
      → compile regexp_compile r ≡ out
      → HasRoom (recompiled regexp_compile r out).0
        × ((recompiled regexp_compile r out).0.id ≡ r.id)
  unfolding recompiled
  recompiled-HasRoom r (err x) c =
      ((λ e. omega (arith, compile_err r x c), λ e. omega (arith, compile_err r x c)), refl)
  recompiled-HasRoom r (ok r') c = (compile-HasRoom r r' c, compile-id r r' c)

  module _ (now : ℕ) (id rtype domain target : Bytes) (enabled : Option Bool) where
    update_rule_lem :
        (r : Rule)
        → HasRoom (update_rule regexp_compile now rtype domain target enabled r).0
          × ((update_rule regexp_compile now rtype domain target enabled r).0.id ≡ r.id)
    unfolding update_rule
    update_rule_lem r =
        recompiled-HasRoom (assign regexp_compile now rtype domain target enabled r) _ refl

    update_loop-All :
        (P : Bytes → Type 0) (rs : List Rule)
        → All (λ r. P r.id) rs
        → All (λ r. P r.id) (update_loop regexp_compile now id rtype domain target enabled rs).0
    unfolding update_loop
    update_loop-All P [] h = tt
    update_loop-All P (r ∷ rs) h = elim (Bool-cases (text_eq r.id id)) [
      | inl e ↦ rw e (rw ((update_rule_lem r).1) (h.0), h.1)
      | inr n ↦ rw n (h.0, update_loop-All P rs h.1)
    ]

    update_loop-HasRoom :
        (rs : List Rule)
        → All HasRoom rs
        → All HasRoom (update_loop regexp_compile now id rtype domain target enabled rs).0
    unfolding update_loop
    update_loop-HasRoom [] h = tt
    update_loop-HasRoom (r ∷ rs) h = elim (Bool-cases (text_eq r.id id)) [
      | inl e ↦ rw e ((update_rule_lem r).0, h.1)
      | inr n ↦ rw n (h.0, update_loop-HasRoom rs h.1)
    ]

    update_loop-Distinct :
        (rs : List Rule)
        → Distinct rs
        → Distinct (update_loop regexp_compile now id rtype domain target enabled rs).0
    unfolding update_loop
    update_loop-Distinct [] h = tt
    update_loop-Distinct (r ∷ rs) h = elim (Bool-cases (text_eq r.id id)) [
      | inl e ↦ rw e (rw ((update_rule_lem r).1) (h.0), h.1)
      | inr n ↦ rw n (update_loop-All (λ i. r.id ≢ i) rs h.0, update_loop-Distinct rs h.1)
    ]

    pub update-IsValid :
        (e : Engine)
        → IsValid e
        → IsValid (update regexp_compile now id rtype domain target enabled e).0
    unfolding update
    update-IsValid e v = record {
      distinct = update_loop-Distinct e.rules v.distinct;
      issued = update_loop-All (IsIssued e.next_id) e.rules v.issued;
      room = update_loop-HasRoom e.rules v.room;
    }

  pub load_from_config-IsValid :
      (now : ℕ) (cs : List ConfigRule) (e : Engine)
      → IsValid e
      → IsValid (load_from_config regexp_compile now cs e).0
  unfolding load_from_config
  load_from_config-IsValid now [] e v = v
  load_from_config-IsValid now (c ∷ cs) e v =
      let out = add regexp_compile now c.rtype c.domain c.target (enabled_or_true c.enabled) e in
      let v' = add-IsValid now c.rtype c.domain c.target (enabled_or_true c.enabled) e v in
      loaded out.1 out.0 v' (load_from_config-IsValid now cs out.0 v')
    where
      loaded :
          (res : Result Rule) (e' : Engine)
          → IsValid e'
          → IsValid (load_from_config regexp_compile now cs e').0
          → IsValid
              (elim res as (λ _. Engine × Option Error) [
                | ok r ↦ load_from_config regexp_compile now cs e'
                | err x ↦ (e', some (failed_to_load c.domain x))
              ]).0
      loaded (ok r) e' v' w = w
      loaded (err x) e' v' w = v'

delete_loop-All {κ} :
    (P : Rule → Type κ) (id : Bytes) (rs : List Rule) → All P rs → All P (delete_loop id rs).0
unfolding delete_loop
delete_loop-All P id [] h = tt
delete_loop-All P id (r ∷ rs) h = elim (Bool-cases (text_eq r.id id)) [
  | inl e ↦ rw e (h.1)
  | inr n ↦ rw n (h.0, delete_loop-All P id rs h.1)
]

delete_loop-Distinct : (id : Bytes) (rs : List Rule) → Distinct rs → Distinct (delete_loop id rs).0
unfolding delete_loop
delete_loop-Distinct id [] h = tt
delete_loop-Distinct id (r ∷ rs) h = elim (Bool-cases (text_eq r.id id)) [
  | inl e ↦ rw e (h.1)
  | inr n ↦ rw n (delete_loop-All (λ q. r.id ≢ q.id) id rs h.0, delete_loop-Distinct id rs h.1)
]

pub delete-IsValid : (id : Bytes) (e : Engine) → IsValid e → IsValid (delete id e).0
unfolding delete
delete-IsValid id e v = record {
  distinct = delete_loop-Distinct id e.rules v.distinct;
  issued = delete_loop-All (λ r. IsIssued e.next_id r.id) id e.rules v.issued;
  room = delete_loop-All HasRoom id e.rules v.room;
}
