-- ===== src/Main.antt =====
-- cmd/lynxdns/main.go: the time zone that init reads from /etc/TZ.
use lynx_dns.Common.{
  ℕ, suc, ◌+◌, ◌-◌, ◌*◌, ◌%◌, ◌^◌, Bool, true, false, ◌&&◌, ◌||◌, Option, none, some, List, [], ◌∷◌,
  ◌++◌, Bytes, codes, leb, ltb, ◌==◌, if◌then◌else◌, length, trim_space, ℤ, pos, negsuc,
}
pub mod Zone
mod Runs

-- A number of 64 bits, which wraps, and its negation.
unfoldable pub int_of : ℕ → ℤ
int_of n = let w = n % 2 ^ 64 in if ltb w (2 ^ 63) then pos w else negsuc (2 ^ 64 - 1 - w)

unfoldable pub negate : ℤ → ℤ
negate (pos n) = if n == 0 then pos 0 else negsuc (n - 1)
negate (negsuc n) = if n == 2 ^ 63 - 1 then negsuc n else pos (suc n)

abbrev pub is_digit : ℕ → Bool
is_digit c = leb b'0' c && leb c b'9'

unfoldable pub digits_from : ℕ → Bytes → Option ℕ
digits_from acc [] = some acc
digits_from acc (c ∷ cs) = elim (is_digit c) [
  | true ↦ digits_from (acc * 10 + (c - b'0')) cs
  | false ↦ none
]

-- strconv.Atoi of a text without a sign, its error left out: 0, or the largest number where the
-- digits stand for a larger one.
unfoldable pub atoi : Bytes → ℕ
unfolding digits_from
atoi [] = 0
atoi (c ∷ cs) = elim (digits_from 0 (c ∷ cs)) [
  | none ↦ 0
  | some n ↦ if ltb n (2 ^ 63) then n else 2 ^ 63 - 1
]

-- The last sign of the text, and what follows it.
unfoldable pub last_sign : Bytes → Option (ℕ × Bytes)
last_sign [] = none
last_sign (c ∷ cs) = elim (last_sign cs) [
  | some r ↦ some r
  | none ↦ if c == b'+' || c == b'-' then some (c, cs) else none
]

-- strings.SplitN(s, ":", 2)
unfoldable pub split_colon : Bytes → Bytes × Option Bytes
split_colon [] = ([], none)
split_colon (c ∷ cs) = elim (c == b':') [
  | true ↦ ([], some cs)
  | false ↦ let r = split_colon cs in (c ∷ r.0, r.1)
]

abbrev pub minutes_of : Option Bytes → ℕ
minutes_of none = 0
minutes_of (some s) = atoi s

unfoldable pub seconds_of : Bytes → ℕ
unfolding atoi split_colon
seconds_of s = let parts = split_colon s in atoi parts.0 * 3600 + minutes_of parts.1 * 60

-- The sign is that of POSIX: CST-8 is eight hours ahead of UTC.
unfoldable pub parse_tz_offset : Bytes → Option ℤ
unfolding last_sign seconds_of int_of negate
parse_tz_offset tz = elim (last_sign tz) [
  | none ↦ none
  | some r ↦
      some (if r.0 == b'-' then int_of (seconds_of r.1) else negate (int_of (seconds_of r.1)))
]

-- The offset of the local zone from what is read of /etc/TZ, if it is set.
unfoldable pub local_offset : Option Bytes → Option ℤ
unfolding parse_tz_offset trim_space
local_offset none = none
local_offset (some text) =
    let s = trim_space text in if length s == 0 then none else parse_tz_offset s
