-- ===== src/Geodata/Filter.antt =====
-- From the text of the advertisement filter to the names that it matches, and the test for protobuf
-- on text (internal/geodata/geodata.go).
use mathlib.Core.List.{Memᴰ}
use mathlib.Core.Path.{subst}
use lynx_dns.Common.{
  ℕ, zero, suc, ◌==◌, ||_iff, ◌-◌, ◌<◌, ◌≡◌, refl, ap, sym, ◌∙◌, inr, arith, Bool, true, false, not,
  ◌&&◌, ◌||◌, if_ind, List, [], ◌∷◌, ◌++◌, Bytes, codes, text_eq_iff, has_prefix, has_suffix,
  has_suffix-append, contains, split, trim_space, to_lower, to_lower_idem, inl, length,
  length-append, take, take-append, drop,
}
use lynx_dns.Common.Dict.{Dict, insert, lookup-insert}
use lynx_dns.Rules.Matching.{IsUnder}
use lynx_dns.Geodata.Manager.{Manager, flag, match_ad_filter}
use lynx_dns.Geodata.Match.{match_ad_filter_iff}
use lynx_dns.Geodata.Text.{
  has_newline, is_protobuf, is_blank, ad_filter_line, ad_filter_lines, parse_ad_filter_data,
}

flag-insert_self : (k : Bytes) (m : Dict Bool) → flag (insert k true m) k ≡ true
flag-insert_self k m = ground (arith, lookup-insert k k true m, text_eq_iff k k)

flag-insert : (k j : Bytes) (m : Dict Bool) → flag m j ≡ true → flag (insert k true m) j ≡ true
flag-insert k j m h = ground (arith, lookup-insert k j true m)

ad_filter_line-flag :
    (raw j : Bytes) (m : Dict Bool) → flag m j ≡ true → flag (ad_filter_line raw m) j ≡ true
unfolding ad_filter_line
ad_filter_line-flag raw j m h =
    let line = trim_space raw in
    let domain = take (length line - 3) (drop 2 line) in
    let P : Dict Bool → Type 0 = λ x. flag x j ≡ true in
    if_ind P (is_blank line || has_prefix line (codes "!")) (λ t. h)
      (λ t.
        if_ind P (has_prefix line (codes "||") && has_suffix line (codes "^"))
          (λ s.
            flag-insert domain j (insert (b'.' ∷ domain) true m)
              (flag-insert (b'.' ∷ domain) j m h))
          (λ s.
            if_ind P
              (contains line (codes ".")
                && (not (has_prefix line (codes "/")) && not (contains line (codes " "))))
              (λ v. flag-insert line j m h) (λ v. h)))

ad_filter_lines-flag :
    (ls : List Bytes) (j : Bytes) (m : Dict Bool)
    → flag m j ≡ true
    → flag (ad_filter_lines ls m) j ≡ true
unfolding ad_filter_lines
ad_filter_lines-flag [] j m h = h
ad_filter_lines-flag (l ∷ ls) j m h =
    ad_filter_lines-flag ls j (ad_filter_line l m) (ad_filter_line-flag l j m h)

-- The text of a rule for a name.
abbrev pub rule_text : Bytes → Bytes
rule_text d = codes "||" ++ (d ++ codes "^")

ad_filter_line-rule :
    (raw d : Bytes) (m : Dict Bool)
    → trim_space raw ≡ rule_text d
    → flag (ad_filter_line raw m) (b'.' ∷ d) ≡ true
unfolding ad_filter_line has_prefix
ad_filter_line-rule raw d m e =
    let cut : take (length (rule_text d) - 3) (d ++ codes "^") ≡ d =
      ap (λ n. take n (d ++ codes "^")) (omega (arith, length-append d (codes "^")))
      ∙ take-append d (codes "^") in
    let ends : has_suffix (rule_text d) (codes "^") ≡ true =
      has_suffix-append (codes "||" ++ d) (codes "^") in
    let full : (length (rule_text d) == 0) ≡ false = ground (arith, length-append d (codes "^")) in
    rw e (
      rw full (
        rw ends (
          rw cut
            (flag-insert d (b'.' ∷ d) (insert (b'.' ∷ d) true m) (flag-insert_self (b'.' ∷ d) m)))))

ad_filter_lines-rule :
    (ls : List Bytes) (raw d : Bytes) (m : Dict Bool)
    → Memᴰ raw ls
    → trim_space raw ≡ rule_text d
    → flag (ad_filter_lines ls m) (b'.' ∷ d) ≡ true
unfolding ad_filter_lines
ad_filter_lines-rule [] raw d m i e = elim i [ ]
ad_filter_lines-rule (l ∷ ls) raw d m (Memᴰ.head i) e =
    ad_filter_lines-flag ls (b'.' ∷ d) (ad_filter_line l m)
      (ad_filter_line-rule l d m (ap trim_space (sym i) ∙ e))
ad_filter_lines-rule (l ∷ ls) raw d m (Memᴰ.tail i) e =
    ad_filter_lines-rule ls raw d (ad_filter_line l m) i e

under_lower : (u s : Bytes) → to_lower (u ++ s) ≡ u ++ s → to_lower s ≡ s
unfolding to_lower
under_lower [] s h = h
under_lower (c ∷ u) s h = under_lower u s (ap (drop 1) h)

IsUnder-lower : (name d : Bytes) → IsUnder (to_lower name) d → to_lower d ≡ d
unfolding to_lower
IsUnder-lower name d (inl e) = subst (λ s. to_lower s ≡ s) e (to_lower_idem name)
IsUnder-lower name d (inr (u, e)) =
    let all = subst (λ s. to_lower s ≡ s) e (to_lower_idem name) in
    ap (drop 1) (under_lower u (b'.' ∷ d) all)

-- Where a line of the filter's text is `||d^`, white space around it aside, the loaded filter matches
-- every name that, in lower case, is `d` or below it, whatever the other lines are. There is such a
-- name only if `d` itself is in lower case: the filter keeps the case of its lines.
pub parse_ad_filter_data-match_ad_filter :
    (data_bytes raw d name : Bytes) (mgr : Manager)
    → Memᴰ raw (split 10 data_bytes)
    → trim_space raw ≡ rule_text d
    → mgr.ad_filter_enabled ≡ true
    → mgr.ad_filter_domains ≡ parse_ad_filter_data data_bytes
    → IsUnder (to_lower name) d
    → (match_ad_filter name mgr ≡ true) × (to_lower d ≡ d)
unfolding parse_ad_filter_data
parse_ad_filter_data-match_ad_filter data_bytes raw d name mgr i e on p under =
    let f = ad_filter_lines-rule (split 10 data_bytes) raw d [] i e in
    (
      (match_ad_filter_iff name mgr).1
          (on, inr (d, under, subst (λ m. flag m (b'.' ∷ d) ≡ true) (sym p) f)),
      IsUnder-lower name d under,
    )

ne_zero : (n : ℕ) → 0 < n → (n == 0) ≡ false
ne_zero n h = ground arith

has_newline-take :
    (n : ℕ) (s rest : Bytes) → length s < n → has_newline (take n (s ++ (10 ∷ rest))) ≡ true
unfolding has_newline
has_newline-take zero s rest h = absurd (omega arith)
has_newline-take (suc n) [] rest h = refl
has_newline-take (suc n) (c ∷ s) rest h =
    (||_iff (c == 10) (has_newline (take n (s ++ (10 ∷ rest))))).1
      (inr (has_newline-take n s rest (omega arith)))

-- A text whose first line has fewer than eight characters is taken for protobuf.
pub is_protobuf_short_line : (s rest : Bytes) → length s < 8 → is_protobuf (s ++ (10 ∷ rest)) ≡ true
unfolding is_protobuf
is_protobuf_short_line s rest h =
    let some_bytes : (length (s ++ (10 ∷ rest)) == 0) ≡ false =
      ne_zero (length (s ++ (10 ∷ rest))) (omega (arith, length-append s (10 ∷ rest))) in
    rw some_bytes (rw (has_newline-take 8 s rest h) refl)
