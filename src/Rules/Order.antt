-- ===== src/Rules/Order.antt =====
-- `Reorder`: the rules are permuted, whatever identifiers it is given.
use mathlib.Core.List.{Memᴰ, Permᴰ, map-append}
use mathlib.Core.List.Permᴰ
use mathlib.Core.Path.{subst}
use lynx_dns.Common.{
  ◌≡◌, refl, ap, sym, ◌∙◌, ◌≢◌, inl, inr, arith, true, false, Bool-cases, none, some, Option-cases,
  List, [], ◌∷◌, ◌++◌, map, All, Bytes, text_eq, text_eq_iff, text_eq_ne, length, take, take-append,
}
use lynx_dns.Common.Dict
use lynx_dns.Common.Dict.{Dict, lookup-insert, lookup-delete}
use lynx_dns.Rules.{Rule, Engine, rule_map, pick_rule, picked, left_over, keep_left, reorder}
use lynx_dns.Rules.Invariant.{Distinct, IsIssued, HasRoom, IsValid}
use lynx_dns.Rules.Pick.{
  Sound, Sound-at, empty-Sound, has, has-delete, has-some, keep_left-All, keep_left-delete_other,
  keep_left_cons, members, not_member, rule_map-Sound, rule_map_complete,
}

-- Taking one rule out of the map takes it out of the rules that are left.
take_out :
    (r : Rule) (rs : List Rule) (m : Dict Rule)
    → Distinct rs
    → Memᴰ r rs
    → has m r.id ≡ true
    → Permᴰ (r ∷ keep_left rs (Dict.delete r.id m)) (keep_left rs m)
take_out r [] m d t h = elim t [ ]
take_out r (q ∷ rs) m d (Memᴰ.head e) h =
    rw (keep_left_cons q rs (Dict.delete r.id m), keep_left_cons q rs m)
      (rw (has-delete r.id q.id m) (
        let t : text_eq r.id q.id ≡ true = (text_eq_iff r.id q.id).1 (ap (λ x. x.id) e) in
        let hq : has m q.id ≡ true = rw (← e) h in
        rw (t, hq)
          (let other : All (λ p. r.id ≢ p.id) rs = rw e d.0 in
            rw (keep_left-delete_other rs m r.id other) (Permᴰ.cons e (Permᴰ.refl _)))))
take_out r (q ∷ rs) m d (Memᴰ.tail t) h =
    let ne : text_eq r.id q.id ≡ false =
      text_eq_ne r.id q.id (λ e. not_member q.id rs r d.0 t (sym e)) in
    rw (keep_left_cons q rs (Dict.delete r.id m), keep_left_cons q rs m)
      (rw (has-delete r.id q.id m) (
        rw ne (elim (Bool-cases (has m q.id)) [
          | inl hq ↦
              rw hq (Permᴰ.trans (Permᴰ.swap refl refl) (Permᴰ.cons refl (take_out r rs m d.1 t h)))
          | inr nq ↦ rw nq (take_out r rs m d.1 t h)
        ])))

delete-Sound :
    (m : Dict Rule) (rs : List Rule) (k : Bytes) → Sound m rs → Sound (Dict.delete k m) rs
unfolding Sound
delete-Sound m rs k s j r e = s j r (ground (arith, lookup-delete k j m))

picked-none :
    (id : Bytes) (ids : List Bytes) (m : Dict Rule)
    → Dict.lookup id m ≡ none
    → (picked (id ∷ ids) m ≡ picked ids m) × (left_over (id ∷ ids) m ≡ left_over ids m)
unfolding picked left_over pick_rule
picked-none id ids m e = ground arith

picked-some :
    (id : Bytes) (ids : List Bytes) (m : Dict Rule) (r : Rule)
    → Dict.lookup id m ≡ some r
    → (picked (id ∷ ids) m ≡ r ∷ picked ids (Dict.delete id m))
      × (left_over (id ∷ ids) m ≡ left_over ids (Dict.delete id m))
unfolding picked left_over pick_rule
picked-some id ids m r e = ground arith

picked-perm :
    (ids : List Bytes) (m : Dict Rule) (rs : List Rule)
    → Distinct rs
    → Sound m rs
    → Permᴰ (picked ids m ++ keep_left rs (left_over ids m)) (keep_left rs m)
picked-perm [] m rs d s = unfold picked left_over in Permᴰ.refl _
picked-perm (id ∷ ids) m rs d s = elim (Option-cases (Dict.lookup id m)) [
  | inl e ↦ let (p, l) = picked-none id ids m e in rw (p, l) (picked-perm ids m rs d s)
  | inr (r, e) ↦
      let (p, l) = picked-some id ids m r e in
      let at = Sound-at m rs s id r e in
      let out = take_out r rs m d at.0 (has-some id m r (at.1) e) in
      rw (p, l)
        (Permᴰ.trans
          (Permᴰ.cons refl (picked-perm ids (Dict.delete id m) rs d (delete-Sound m rs id s)))
          (subst (λ k. Permᴰ (r ∷ keep_left rs (Dict.delete k m)) (keep_left rs m)) at.1 out))
]

-- On distinct identifiers `Reorder` only permutes the rules: whatever it is given, identifiers
-- that repeat or that no rule has included, no rule is lost and none appears twice.
pub reorder-perm :
    (ids : List Bytes) (e : Engine) → Distinct e.rules → Permᴰ (reorder ids e).rules e.rules
unfolding reorder
reorder-perm ids e d =
    let m = rule_map e.rules [] in
    rw (keep_left-All e.rules m (rule_map_complete e.rules [])) at (
      picked-perm ids m e.rules d
        (rule_map-Sound e.rules e.rules [] (members e.rules) (empty-Sound e.rules)))

abbrev pub DistinctTexts : List Bytes → Type 0
DistinctTexts [] = Unit
DistinctTexts (s ∷ ss) = All (λ t. s ≢ t) ss × DistinctTexts ss

has-delete-All :
    (k : Bytes) (ids : List Bytes) (m : Dict Rule)
    → All (λ t. k ≢ t) ids
    → All (λ t. has m t ≡ true) ids
    → All (λ t. has (Dict.delete k m) t ≡ true) ids
has-delete-All k [] m n h = tt
has-delete-All k (t ∷ ids) m n h =
    (rw (has-delete k t m, text_eq_ne k t n.0) h.0, has-delete-All k ids m n.1 h.1)

has→some : (j : Bytes) (m : Dict Rule) → has m j ≡ true → (r : Rule) × (Dict.lookup j m ≡ some r)
unfolding has
has→some j m h = ground arith

picked-ids :
    (ids : List Bytes) (m : Dict Rule) (rs : List Rule)
    → Sound m rs
    → DistinctTexts ids
    → All (λ j. has m j ≡ true) ids
    → map (λ r. r.id) (picked ids m) ≡ ids
picked-ids [] m rs s d h = unfold picked in refl
picked-ids (id ∷ ids) m rs s d h =
    let (r, e) = has→some id m h.0 in
    let (p, l) = picked-some id ids m r e in
    let at = Sound-at m rs s id r e in
    rw p (
      rw (at.1) (
        ap (◌∷◌ id) (
          picked-ids ids (Dict.delete id m) rs (delete-Sound m rs id s) d.1
            (has-delete-All id ids m d.0 h.1))))

All-at : (P : Rule → Type 0) (rs : List Rule) (r : Rule) → All P rs → Memᴰ r rs → P r
All-at P [] r a t = elim t [ ]
All-at P (q ∷ rs) r a (Memᴰ.head e) = rw e (a.0)
All-at P (q ∷ rs) r a (Memᴰ.tail t) = All-at P rs r a.1 t

-- `j` is the identifier of a rule.
abbrev pub IsKnown : List Rule → Bytes → Type 0
IsKnown rs j = (r : Rule) × Memᴰ r rs × (r.id ≡ j)

known_has :
    (ids : List Bytes) (rs : List Rule)
    → All (IsKnown rs) ids
    → All (λ j. has (rule_map rs []) j ≡ true) ids
known_has [] rs h = tt
known_has (id ∷ ids) rs ((r, t, e), h) = (
  rw (← e) (All-at (λ q. has (rule_map rs []) q.id ≡ true) rs r (rule_map_complete rs []) t),
  known_has ids rs h,
)

-- Given identifiers of existing rules without repetition, `Reorder` puts their rules first, in the
-- order given.
pub reorder_first :
    (ids : List Bytes) (e : Engine)
    → All (IsKnown e.rules) ids
    → DistinctTexts ids
    → take (length ids) (map (λ r. r.id) (reorder ids e).rules) ≡ ids
unfolding reorder
reorder_first ids e k d =
    let m = rule_map e.rules [] in
    let s = rule_map-Sound e.rules e.rules [] (members e.rules) (empty-Sound e.rules) in
    let p = picked-ids ids m e.rules s d (known_has ids e.rules k) in
    rw (map-append (λ (r : Rule). r.id) (picked ids m) (keep_left e.rules (left_over ids m)))
      (rw p (take-append ids (map (λ r. r.id) (keep_left e.rules (left_over ids m)))))

Permᴰ-All : (P : Rule → Type 0) {rs qs : List Rule} → Permᴰ qs rs → All P rs → All P qs
Permᴰ-All P Permᴰ.nil h = tt
Permᴰ-All P (Permᴰ.cons e d) h = (rw e (h.0), Permᴰ-All P d h.1)
Permᴰ-All P (Permᴰ.swap e f) h = (rw e (h.1.0), (rw f (h.0), h.1.1))
Permᴰ-All P (Permᴰ.trans d c) h = Permᴰ-All P d (Permᴰ-All P c h)

Permᴰ-Distinct : {rs qs : List Rule} → Permᴰ qs rs → Distinct rs → Distinct qs
Permᴰ-Distinct Permᴰ.nil h = tt
Permᴰ-Distinct (Permᴰ.cons e d) h = (rw e (Permᴰ-All (λ q. _) d h.0), Permᴰ-Distinct d h.1)
Permᴰ-Distinct (Permᴰ.swap {a} {b} {a'} {b'} {l} e f) h = (
  (
    λ i. h.0.0 (sym (ap (λ x. x.id) f) ∙ sym i ∙ ap (λ x. x.id) e),
    subst (λ x. All (λ q. x.id ≢ q.id) l) (sym e) h.1.0,
  ),
  (subst (λ x. All (λ q. x.id ≢ q.id) l) (sym f) h.0.1, h.1.1),
)
Permᴰ-Distinct (Permᴰ.trans d c) h = Permᴰ-Distinct d (Permᴰ-Distinct c h)

next_id-reorder : (ids : List Bytes) (e : Engine) → (reorder ids e).next_id ≡ e.next_id
unfolding reorder
next_id-reorder ids e = refl

pub reorder-IsValid : (ids : List Bytes) (e : Engine) → IsValid e → IsValid (reorder ids e)
reorder-IsValid ids e v =
    let p = reorder-perm ids e v.distinct in
    record {
      distinct = Permᴰ-Distinct p v.distinct;
      issued = rw next_id-reorder (Permᴰ-All (λ r. IsIssued e.next_id r.id) p v.issued);
      room = Permᴰ-All HasRoom p v.room;
    }
