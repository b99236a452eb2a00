-- ===== src/Rules/Ident.antt =====
-- fmt.Sprintf("rule_%03d", n), the identifier of a rule.
use lynx_dns.Common.{
  ℕ, zero, suc, ◌+◌, ◌-◌, ◌*◌, ◌/◌, ◌%◌, ◌≤◌, ◌≡◌, refl, ap, sym, ◌∙◌, arith, ltb, if◌then◌else◌,
  [], ◌∷◌, ◌++◌, length, replicate, Bytes, codes, drop,
}

-- The decimal digits of `n`, most significant first; `n` rounds are enough.
unfoldable pub digits_loop : ℕ → ℕ → Bytes
digits_loop zero n = (b'0' + n % 10) ∷ []
digits_loop (suc fuel) n =
    let rest = digits_loop fuel (n / 10) ++ ((b'0' + n % 10) ∷ []) in
    if ltb n 10 then (b'0' + n % 10) ∷ [] else rest

unfoldable pub decimal : ℕ → Bytes
unfolding digits_loop
decimal n = digits_loop n n

-- The flags `%03d`: zeros on the left up to three digits.
pub pad3 : Bytes → Bytes
pad3 s = replicate (3 - length s) b'0' ++ s

unfoldable pub rule_id : ℕ → Bytes
unfolding decimal pad3
rule_id n = codes "rule_" ++ pad3 (decimal n)

-- The number that a string of digits stands for, read on from `acc`.
unfoldable pub value : ℕ → Bytes → ℕ
value acc [] = acc
value acc (c ∷ s) = value (acc * 10 + (c - b'0')) s

pub value-append : (acc : ℕ) (s t : Bytes) → value acc (s ++ t) ≡ value (value acc s) t
unfolding value
value-append acc [] t = refl
value-append acc (c ∷ s) t = value-append (acc * 10 + (c - b'0')) s t

pub value-digits_loop : (fuel n : ℕ) → n ≤ fuel → value 0 (digits_loop fuel n) ≡ n
unfolding value digits_loop
value-digits_loop zero n h = omega arith
value-digits_loop (suc fuel) n h = ground (
  arith,
  value-append 0 (digits_loop fuel (n / 10)) ((b'0' + n % 10) ∷ []),
  value-digits_loop fuel (n / 10),
)

value-zeros : (k : ℕ) (s : Bytes) → value 0 (replicate k b'0' ++ s) ≡ value 0 s
unfolding value
value-zeros zero s = refl
value-zeros (suc k) s = value-zeros k s

-- The number of a rule can be read back from its identifier.
value-rule_id : (n : ℕ) → value 0 (drop 5 (rule_id n)) ≡ n
unfolding rule_id
value-rule_id n =
    value-zeros (3 - length (decimal n)) (decimal n) ∙ value-digits_loop n n (omega arith)

-- Two rules with the same identifier have the same number.
pub rule_id_inj : (m n : ℕ) → rule_id m ≡ rule_id n → m ≡ n
rule_id_inj m n e = sym (value-rule_id m) ∙ ap (λ s. value 0 (drop 5 s)) e ∙ value-rule_id n
