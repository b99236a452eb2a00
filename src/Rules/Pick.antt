-- ===== src/Rules/Pick.antt =====
-- The map of `Reorder` from identifiers to rules, and the loops that fill it and read it
-- (internal/rules/rules.go).
use mathlib.Core.List.{Memᴰ}
use lynx_dns.Common.{
  ◌≡◌, refl, ap, sym, ◌∙◌, ◌≢◌, inl, inr, arith, Bool, true, false, Bool-cases, some, List, [], ◌∷◌,
  All, Bytes, text_eq, text_eq_iff, text_eq_ne, if◌then◌else◌,
}
use lynx_dns.Common.Dict
use lynx_dns.Common.Dict.{Dict, lookup-insert, lookup-delete}
use lynx_dns.Rules.{Rule, rule_map, is_some, keep_left}

-- Every entry of the map is a rule of the list under its identifier.
unfoldable pub Sound : Dict Rule → List Rule → Type 0
Sound m rs = (j : Bytes) (r : Rule) → Dict.lookup j m ≡ some r → Memᴰ r rs × (r.id ≡ j)

pub Sound-at :
    (m : Dict Rule) (rs : List Rule)
    → Sound m rs
    → (j : Bytes) (r : Rule) → Dict.lookup j m ≡ some r
    → Memᴰ r rs × (r.id ≡ j)
unfolding Sound
Sound-at m rs s = s

pub All-map :
    (P Q : Rule → Type 0) (rs : List Rule) → ((r : Rule) → P r → Q r) → All P rs → All Q rs
All-map P Q [] f h = tt
All-map P Q (r ∷ rs) f h = (f r h.0, All-map P Q rs f h.1)

pub members : (rs : List Rule) → All (λ r. Memᴰ r rs) rs
members [] = tt
members (r ∷ rs) = (
  Memᴰ.head refl,
  All-map (λ q. Memᴰ q rs) (λ q. Memᴰ q (r ∷ rs)) rs (λ q h. Memᴰ.tail h) (members rs),
)

pub insert-Sound :
    (r : Rule) (m : Dict Rule) (rs : List Rule)
    → Memᴰ r rs
    → Sound m rs
    → Sound (Dict.insert r.id r m) rs
unfolding Sound
insert-Sound r m rs h s j q e = elim (Bool-cases (text_eq r.id j)) [
  | inl t ↦
      let same : r ≡ q = ground (arith, lookup-insert r.id j r m) in
      (rw (← same) h, ap (λ x. x.id) (sym same) ∙ (text_eq_iff r.id j).0 t)
  | inr f ↦ s j q (ground (arith, lookup-insert r.id j r m))
]

pub rule_map-Sound :
    (rs all : List Rule) (m : Dict Rule)
    → All (λ r. Memᴰ r all) rs
    → Sound m all
    → Sound (rule_map rs m) all
unfolding rule_map
rule_map-Sound [] all m h s = s
rule_map-Sound (r ∷ rs) all m h s =
    rule_map-Sound rs all (Dict.insert r.id r m) h.1 (insert-Sound r m all h.0 s)

unfoldable pub has : Dict Rule → Bytes → Bool
unfolding is_some
has m j = is_some (Dict.lookup j m)

pub has-insert :
    (r : Rule) (m : Dict Rule) (j : Bytes)
    → has (Dict.insert r.id r m) j ≡ (if text_eq r.id j then true else has m j)
unfolding has
has-insert r m j = ground (arith, lookup-insert r.id j r m)

pub has-delete :
    (k j : Bytes) (m : Dict Rule)
    → has (Dict.delete k m) j ≡ (if text_eq k j then false else has m j)
unfolding has
has-delete k j m = ground (arith, lookup-delete k j m)

pub rule_map_keeps :
    (rs : List Rule) (m : Dict Rule) (j : Bytes) → has m j ≡ true → has (rule_map rs m) j ≡ true
unfolding rule_map
rule_map_keeps [] m j h = h
rule_map_keeps (r ∷ rs) m j h =
    rule_map_keeps rs (Dict.insert r.id r m) j (ground (arith, has-insert r m j))

pub rule_map_complete :
    (rs : List Rule) (m : Dict Rule) → All (λ r. has (rule_map rs m) r.id ≡ true) rs
unfolding rule_map
rule_map_complete [] m = tt
rule_map_complete (r ∷ rs) m = (
  rule_map_keeps rs (Dict.insert r.id r m) r.id
      (ground (arith, has-insert r m r.id, text_eq_iff r.id r.id)),
  rule_map_complete rs (Dict.insert r.id r m),
)

pub keep_left-All :
    (rs : List Rule) (m : Dict Rule) → All (λ r. has m r.id ≡ true) rs → keep_left rs m ≡ rs
unfolding keep_left has
keep_left-All [] m h = refl
keep_left-All (r ∷ rs) m h = rw (h.0) (ap (◌∷◌ r) (keep_left-All rs m h.1))

pub keep_left-delete_other :
    (rs : List Rule) (m : Dict Rule) (k : Bytes)
    → All (λ q. k ≢ q.id) rs
    → keep_left rs (Dict.delete k m) ≡ keep_left rs m
unfolding keep_left
keep_left-delete_other [] m k h = refl
keep_left-delete_other (r ∷ rs) m k h =
    rw (lookup-delete k r.id m, text_eq_ne k r.id h.0, keep_left-delete_other rs m k h.1)

pub keep_left_cons :
    (r : Rule) (rs : List Rule) (m : Dict Rule)
    → keep_left (r ∷ rs) m ≡ (if has m r.id then r ∷ keep_left rs m else keep_left rs m)
unfolding keep_left has
keep_left_cons r rs m = refl

pub has-some :
    (id : Bytes) (m : Dict Rule) (r : Rule)
    → r.id ≡ id
    → Dict.lookup id m ≡ some r
    → has m r.id ≡ true
unfolding has
has-some id m r i e = rw (i, e)

pub not_member :
    (j : Bytes) (rs : List Rule) (r : Rule) → All (λ p. j ≢ p.id) rs → Memᴰ r rs → j ≢ r.id
not_member j (q ∷ rs) r a (Memᴰ.head e) i = a.0 (i ∙ ap (λ x. x.id) e)
not_member j (q ∷ rs) r a (Memᴰ.tail t) i = not_member j rs r a.1 t i
not_member j [] r a t i = elim t [ ]

pub empty-Sound : (rs : List Rule) → Sound [] rs
unfolding Sound Dict.lookup
empty-Sound rs j r e = cc
