-- ===== src/Main/Zone.antt =====
-- What offset a time zone gives (cmd/lynxdns/main.go).
use mathlib.Core.Path.{subst}
use lynx_dns.Common.{
  ℕ, zero, suc, ◌+◌, ◌-◌, ◌*◌, ◌/◌, ◌%◌, ◌^◌, ◌<◌, ◌≡◌, refl, sym, ap, ◌∙◌, arith, true, false,
  ◌||◌, none, some, [], ◌∷◌, ◌++◌, Bytes, ltb, lt→ltb, ◌==◌, All, All-append, if_ind, pos,
}
use lynx_dns.Rules.Ident.{digits_loop, decimal, value, value-digits_loop}
use lynx_dns.Main.{
  int_of, negate, is_digit, digits_from, atoi, last_sign, split_colon, seconds_of, parse_tz_offset,
}

abbrev pub IsDigit : ℕ → Type 0
IsDigit c = is_digit c ≡ true

digits_from-value : (acc : ℕ) (s : Bytes) → All IsDigit s → digits_from acc s ≡ some (value acc s)
unfolding digits_from value
digits_from-value acc [] h = refl
digits_from-value acc (c ∷ s) h =
    rw (h.0, digits_from) (digits_from-value (acc * 10 + (c - b'0')) s h.1)

mod-IsDigit : (n : ℕ) → IsDigit (b'0' + n % 10)
mod-IsDigit n = ground arith

digits_loop-IsDigit : (k n : ℕ) → All IsDigit (digits_loop k n)
unfolding digits_loop
digits_loop-IsDigit zero n = (mod-IsDigit n, tt)
digits_loop-IsDigit (suc k) n =
    let last = (b'0' + n % 10) ∷ [] in
    if_ind (All IsDigit) (ltb n 10) (λ t. (mod-IsDigit n, tt))
      (λ f.
        All-append IsDigit (digits_loop k (n / 10)) last (digits_loop-IsDigit k (n / 10))
          (mod-IsDigit n, tt))

-- A byte that is neither a sign nor a colon.
abbrev pub IsPart : ℕ → Type 0
IsPart c = ((c == b'+') ≡ false) × ((c == b'-') ≡ false) × ((c == b':') ≡ false)

last_sign-none : (s : Bytes) → All IsPart s → last_sign s ≡ none
unfolding last_sign
last_sign-none [] h = refl
last_sign-none (c ∷ s) h = rw (last_sign-none s h.1, h.0.0, h.0.1) refl

last_sign-append :
    (name s : Bytes) (c : ℕ)
    → ((c == b'+' || c == b'-') ≡ true)
    → All IsPart s
    → last_sign (name ++ (c ∷ s)) ≡ some (c, s)
unfolding last_sign
last_sign-append [] s c hc h = rw (last_sign-none s h, hc) refl
last_sign-append (x ∷ name) s c hc h = rw (last_sign-append name s c hc h) refl

split_colon-none : (s : Bytes) → All IsPart s → split_colon s ≡ (s, none)
unfolding split_colon
split_colon-none [] h = refl
split_colon-none (c ∷ s) h = rw (h.0.2, split_colon) (rw (split_colon-none s h.1) refl)

digit-IsPart : (c : ℕ) → IsDigit c → IsPart c
digit-IsPart c h = (ground arith, ground arith, ground arith)

digits-IsPart : (s : Bytes) → All IsDigit s → All IsPart s
digits-IsPart [] h = tt
digits-IsPart (c ∷ s) h = (digit-IsPart c h.0, digits-IsPart s h.1)

atoi-value : (s : Bytes) → All IsDigit s → value 0 s < 2 ^ 63 → atoi s ≡ value 0 s
unfolding atoi value
atoi-value [] h k = refl
atoi-value (c ∷ s) h k =
    let fits : ltb (value 0 (c ∷ s)) (2 ^ 63) ≡ true = lt→ltb (value 0 (c ∷ s)) (2 ^ 63) k in
    rw (digits_from-value 0 (c ∷ s) h, atoi) (rw fits refl)

seconds_of-hours : (s : Bytes) → All IsPart s → seconds_of s ≡ atoi s * 3600
unfolding seconds_of
seconds_of-hours s h = rw (split_colon-none s h) (omega arith)

int_of-small : (n : ℕ) → n < 2 ^ 63 → int_of n ≡ pos n
unfolding int_of
int_of-small n h =
    let w : n % 2 ^ 64 ≡ n = omega arith in rw (w, int_of) (rw (lt→ltb n (2 ^ 63) h) refl)

-- A zone of a name, a sign and a number of hours below 2^40 is that many hours ahead of UTC for the
-- sign -, and behind it for the sign +.
pub parse_tz_offset-decimal :
    (name : Bytes) (hours : ℕ)
    → hours < 2 ^ 40
    → (parse_tz_offset (name ++ (b'-' ∷ decimal hours)) ≡ some (pos (hours * 3600)))
      × (parse_tz_offset (name ++ (b'+' ∷ decimal hours)) ≡ some (negate (pos (hours * 3600))))
unfolding parse_tz_offset decimal
parse_tz_offset-decimal name hours h =
    let s = decimal hours in
    let digits = digits_loop-IsDigit hours hours in
    let parts = digits-IsPart s digits in
    let number : value 0 s ≡ hours = value-digits_loop hours hours (omega arith) in
    let small : value 0 s < 2 ^ 63 = subst (λ n. n < 2 ^ 63) (sym number) (omega arith) in
    let seconds =
      seconds_of-hours s parts ∙ ap (λ n. n * 3600) (atoi-value s digits small ∙ number) in
    let offset = ap int_of seconds ∙ int_of-small (hours * 3600) (omega arith) in
    (
      rw (last_sign-append name s b'-' refl parts, parse_tz_offset) (ap some offset),
      rw (last_sign-append name s b'+' refl parts, parse_tz_offset)
          (ap (λ n. some (negate n)) offset),
    )

atoi_bad : (s : Bytes) → digits_from 0 s ≡ none → atoi s ≡ 0
unfolding atoi
atoi_bad [] h = refl
atoi_bad (c ∷ s) h = rw (h, atoi) refl

-- A zone whose part behind the last sign is no number, as with the rules of daylight saving time,
-- counts as UTC, whatever the number of hours is that it begins with.
pub parse_tz_offset_rules :
    (name s : Bytes)
    → All IsPart s
    → digits_from 0 s ≡ none
    → parse_tz_offset (name ++ (b'-' ∷ s)) ≡ some (pos 0)
unfolding parse_tz_offset atoi
parse_tz_offset_rules name s parts none_such =
    let zero_hours = atoi_bad s none_such in
    let offset =
      ap int_of (seconds_of-hours s parts ∙ ap (λ n. n * 3600) zero_hours)
      ∙ int_of-small 0 (omega arith) in
    rw (last_sign-append name s b'-' refl parts, parse_tz_offset) (ap some offset)
