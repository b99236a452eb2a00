-- ===== src/Server/Limit.antt =====
-- How long a reply over UDP is (internal/server/server.go).
use mathlib.Core.Path.{subst}
use lynx_dns.Common.{
  sym, ℕ, ◌%◌, ◌^◌, ◌≤◌, ◌<◌, ◌≡◌, refl, arith, ltb, Bool-cases, true, false, Option, none, some,
  ◌⊎◌, inl, inr, min, max, ltb, if◌then◌else◌,
}
use lynx_dns.Server.{
  Sizes, Proto, udp, min_msg_size, max_edns_size, max_reply_size, offered_size, fit, serve,
}

-- Truncate: the message fits into the size, which is at least the smallest one.
abbrev pub Truncates : Sizes → Type 0
Truncates d = (n : ℕ) (m : d.Msg) → min_msg_size ≤ n → d.len (d.truncate n m) ≤ n

-- What the client offers, or nothing.
abbrev pub offered : Option ℕ → ℕ
offered none = 0
offered (some n) = n

-- The reply is within the limit, and is the handler's unless that one is too long; or the handler's is
-- written whole, since its length modulo 2^16 is within the limit.
abbrev pub Written : ℕ → ℕ → ℕ → Type 0 → Type 0
Written limit whole out Same =
    ((out ≤ limit) × (Same ⊎ (limit < whole)))
    ⊎ ((2 ^ 16 ≤ whole) × (whole % 2 ^ 16 ≤ limit) × Same)

-- The largest reply: what the client offers, but from 512 to 4096.
abbrev pub limit_of : Option ℕ → ℕ
limit_of o = max min_msg_size (min max_edns_size (offered o))

offered_size_lem :
    (o : Option ℕ)
    → (if ltb max_edns_size (offered_size o) then max_edns_size else offered_size o) ≡ limit_of o
offered_size_lem none = refl
offered_size_lem (some n) = ground arith

too_long : (limit whole : ℕ) → ltb limit (whole % 2 ^ 16) ≡ true → limit < whole
too_long limit whole h = ground arith

short_enough :
    (limit whole : ℕ)
    → ltb limit (whole % 2 ^ 16) ≡ false
    → (whole ≤ limit) ⊎ ((2 ^ 16 ≤ whole) × (whole % 2 ^ 16 ≤ limit))
short_enough limit whole h = ground arith

at_least_min : (o : Option ℕ) → min_msg_size ≤ limit_of o
at_least_min o = omega arith

fit_lem :
    (d : Sizes)
    → Truncates d
    → (r resp : d.Msg)
    → Written (limit_of (d.udp_size r)) (d.len resp) (d.len (fit d r resp)) (fit d r resp ≡ resp)
unfolding fit max_reply_size
fit_lem d cut r resp =
    let limit = limit_of (d.udp_size r) in
    let at = λ (n : ℕ).
      let m = if ltb n (d.len resp % 2 ^ 16) then d.truncate n resp else resp in
      Written limit (d.len resp) (d.len m) (m ≡ resp) in
    subst at (sym (offered_size_lem (d.udp_size r)))
      (elim (Bool-cases (ltb limit (d.len resp % 2 ^ 16))) [
        | inl long ↦ rw long (
            inl (
              cut limit resp (at_least_min (d.udp_size r)),
              inr (too_long limit (d.len resp) long),
            ))
        | inr short ↦ rw short (elim (short_enough limit (d.len resp) short) [
          | inl fits ↦ inl (fits, inl refl)
          | inr (big, wraps) ↦ inr (big, wraps, refl)
        ])
      ])

-- A reply to a client that is not on TCP, over a library whose Truncate keeps to the size that it is
-- given, is not longer than the client's EDNS0 record offers, at least 512 and at most 4096 bytes,
-- and is the handler's reply unless that one is too long; the exception is a reply of 2^16 bytes or
-- more whose length modulo 2^16 is within the limit, which is written whole.
pub serve-Written :
    (d : Sizes) (Addr : Type 0) (handler : d.Msg → Proto → Addr → Option d.Msg) (r resp : d.Msg)
    (remote : Addr)
    → Truncates d
    → handler r udp remote ≡ some resp
    → (out : d.Msg) × (serve d handler r udp remote ≡ some out)
      × Written (limit_of (d.udp_size r)) (d.len resp) (d.len out) (out ≡ resp)
unfolding serve
serve-Written d Addr handler r resp remote cut h =
    (fit d r resp, rw (h, serve) refl, fit_lem d cut r resp)
