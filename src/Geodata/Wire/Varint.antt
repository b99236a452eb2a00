-- ===== src/Geodata/Wire/Varint.antt =====
-- The varints (internal/geodata/geodata.go): their sizes and bounds, and that reading undoes writing.
use lynx_dns.Common.{
  ℕ, zero, suc, ◌+◌, ◌*◌, ◌/◌, ◌%◌, ◌^◌, ◌≤◌, ◌<◌, ◌≡◌, ◌≢◌, ◌⊎◌, refl, sym, ap, ◌∙◌, arith, true,
  false, ◌&&◌, [], ◌∷◌, ◌++◌, Bytes, ltb, leb, leb→le, ◌==◌, length, Bool-cases, inl, inr,
}
use mathlib.Core.Path.{subst}
use native.Mathlib.Nat.{mul-le-mul_left, mul_comm, mul-suc, mul_assoc, add-mul}
use lynx_dns.Geodata.Wire.{
  uvarint_from, decode_varint, varint_size_from, varint_size, put_uvarint_from, put_uvarint,
}

digit_bound : (s m x d : ℕ) → x < s → d < m → x + d * s < s * m
digit_bound s m x d h k =
    ground (arith, mul-le-mul_left {m = suc d} {n = m} s k, mul_comm s d, mul-suc s d)

group_sum : (x s v : ℕ) → x + v % 128 * s + v / 128 * (s * 128) ≡ x + v * s
group_sum x s v =
    let r = v % 128 in
    let q = v / 128 in
    let h : r + 128 * q ≡ v = omega arith in
    subst (λ t. x + r * s + q * (s * 128) ≡ x + t * s) h
      (ground (arith, mul_assoc q s 128, mul_comm q s, add-mul r (128 * q) s, mul_assoc 128 q s))

-- The values below 2 * 128 ^ k, which the last `k + 1` of ten bytes can hold.
abbrev room : ℕ → ℕ
room zero = 2
room (suc k) = 128 * room k

room_pos : (k : ℕ) → 1 ≤ room k
room_pos zero = omega arith
room_pos (suc k) = let ih = room_pos k in omega arith

compare_two : (b : ℕ) → (b < 2) ⊎ (((2 ≤ b) × (b < 128)) ⊎ (128 ≤ b))
compare_two b = ground arith

uvarint_from_more :
    (i s x b : ℕ) (bs : Bytes)
    → i ≤ 9
    → 128 ≤ b
    → uvarint_from i s x (b ∷ bs) ≡ uvarint_from (suc i) (s * 128) (x + b % 128 * s) bs
unfolding uvarint_from
uvarint_from_more i s x b bs h k =
    let i10 : (i == 10) ≡ false = ground arith in
    let large : ltb b 128 ≡ false = ground arith in
    rw (i10, uvarint_from) (rw (large, uvarint_from) refl)

uvarint_from_last :
    (i s x b : ℕ) (bs : Bytes)
    → i ≤ 9
    → b < 128
    → (i ≡ 9 → b < 2)
    → uvarint_from i s x (b ∷ bs) ≡ x + b * s
unfolding uvarint_from
uvarint_from_last i s x b bs h k tenth =
    let i10 : (i == 10) ≡ false = ground arith in
    let small : ltb b 128 ≡ true = ground arith in
    let fits : (i == 9 && ltb 1 b) ≡ false = ground arith in
    rw (i10, uvarint_from) (rw (small, uvarint_from) (rw (fits, uvarint_from) refl))

uvarint_from_late : (s x : ℕ) (bs : Bytes) → uvarint_from 10 s x bs ≡ 0
unfolding uvarint_from
uvarint_from_late s x [] = refl
uvarint_from_late s x (b ∷ bs) = refl

uvarint_from_overflow : (s x b : ℕ) (bs : Bytes) → 2 ≤ b → b < 128 → uvarint_from 9 s x (b ∷ bs) ≡ 0
unfolding uvarint_from
uvarint_from_overflow s x b bs h k =
    let small : ltb b 128 ≡ true = ground arith in
    let big : ltb 1 b ≡ true = ground arith in
    rw (small, uvarint_from) (rw (big, uvarint_from) refl)

uvarint_from-put :
    (k i s x v : ℕ) (rest : Bytes)
    → k + i ≡ 9
    → v < room k
    → uvarint_from i s x (put_uvarint_from k v ++ rest) ≡ x + v * s
unfolding put_uvarint_from
uvarint_from-put zero i s x v rest hi h =
    let v256 : v % 256 ≡ v = omega arith in
    rw v256 (uvarint_from_last i s x v rest (omega arith) (omega arith) (λ e. omega arith))
uvarint_from-put (suc k) i s x v rest hi h = elim (Bool-cases (leb 128 v)) [
  | inr l ↦ rw l (uvarint_from_last i s x v rest (omega arith) (ground arith) (λ e. ground arith))
  | inl l ↦
      let digit : (v % 128 + 128) % 128 ≡ v % 128 = omega arith in
      let ih =
        uvarint_from-put k (suc i) (s * 128) (x + v % 128 * s) (v / 128) rest (omega arith)
          (omega arith) in
      let more =
        uvarint_from_more i s x (v % 128 + 128) (put_uvarint_from k (v / 128) ++ rest) (omega arith)
          (omega arith) in
      rw (l, more, digit, ih) (group_sum x s v)
]

uvarint_from_bound :
    (bs : Bytes) (k i s x : ℕ)
    → k + i ≡ 9
    → x < s
    → s * room k ≡ 2 ^ 64
    → uvarint_from i s x bs < 2 ^ 64
unfolding uvarint_from
uvarint_from_bound [] k i s x hi hx hs = omega arith
uvarint_from_bound (b ∷ bs) zero i s x hi hx hs =
    let i9 : i ≡ 9 = omega arith in
    elim (compare_two b) [
      | inl l ↦
          let e = uvarint_from_last i s x b bs (omega arith) (omega arith) (λ e. l) in
          subst (λ n. n < 2 ^ 64) (sym e) (ground (arith, digit_bound s 2 x b hx l))
      | inr (inl l) ↦ let e = uvarint_from_overflow s x b bs l.0 l.1 in rw (i9, e) (omega arith)
      | inr (inr l) ↦
          let e = uvarint_from_more 9 s x b bs (omega arith) l in
          rw (i9, e, uvarint_from_late (s * 128) (x + b % 128 * s) bs) (omega arith)
    ]
uvarint_from_bound (b ∷ bs) (suc k) i s x hi hx hs = elim (Bool-cases (ltb b 128)) [
  | inr l ↦
      let e = uvarint_from_more i s x b bs (omega arith) (ground arith) in
      subst (λ n. n < 2 ^ 64) (sym e)
        (uvarint_from_bound bs k (suc i) (s * 128) (x + b % 128 * s) (omega arith)
          (digit_bound s 128 x (b % 128) hx (omega arith)) (mul_assoc s 128 (room k) ∙ hs))
  | inl l ↦
      let e =
        uvarint_from_last i s x b bs (omega arith) (ground arith) (λ e. absurd (omega arith)) in
      let d : b < room (suc k) = ground (arith, room_pos k) in
      subst (λ n. n < 2 ^ 64) (sym e) (ground (arith, digit_bound s (room (suc k)) x b hx d))
]

-- The number that is read fits a uint64, whatever the bytes are.
pub decode_varint_bound : (text : Bytes) → decode_varint text < 2 ^ 64
unfolding decode_varint
decode_varint_bound text = uvarint_from_bound text 9 0 1 0 refl (omega arith) refl

-- A number of 64 bits is read back from its encoding, whatever follows.
pub decode_varint-put_uvarint :
    (v : ℕ) (rest : Bytes) → v < 2 ^ 64 → decode_varint (put_uvarint v ++ rest) ≡ v
unfolding decode_varint put_uvarint
decode_varint-put_uvarint v rest h = uvarint_from-put 9 0 1 0 v rest refl h ∙ omega arith

-- The values of `n` groups of seven bits.
abbrev groups : ℕ → ℕ
groups zero = 1
groups (suc n) = 128 * groups n

groups_pos : (n : ℕ) → 1 ≤ groups n
groups_pos zero = omega arith
groups_pos (suc n) = let ih = groups_pos n in omega arith

-- What a byte does to the number: it spoils it, ends it or continues it.
uvarint_from_cases :
    (i s x b : ℕ) (bs : Bytes)
    → i ≤ 10
    → (uvarint_from i s x (b ∷ bs) ≡ 0)
      ⊎ (((b < 128) × (uvarint_from i s x (b ∷ bs) ≡ x + b * s))
          ⊎ ((i ≤ 9)
              × (uvarint_from i s x (b ∷ bs)
                  ≡ uvarint_from (suc i) (s * 128) (x + b % 128 * s) bs)))
uvarint_from_cases i s x b bs h = elim (Bool-cases (leb i 9)) [
  | inr l ↦ let i10 : i ≡ 10 = ground arith in inl (rw (i10, uvarint_from_late s x (b ∷ bs)) refl)
  | inl l ↦
      let i9 : i ≤ 9 = ground arith in
      elim (compare_two b) [
        | inl k ↦ inr (inl (omega arith, uvarint_from_last i s x b bs i9 (omega arith) (λ e. k)))
        | inr (inl k) ↦ elim (Bool-cases (i == 9)) [
          | inl e ↦
              let e9 : i ≡ 9 = ground arith in
              inl (rw (e9, uvarint_from_overflow s x b bs k.0 k.1) refl)
          | inr e ↦
              inr (inl (k.1, uvarint_from_last i s x b bs i9 k.1 (λ n. absurd (ground arith))))
        ]
        | inr (inr k) ↦ inr (inr (i9, uvarint_from_more i s x b bs i9 k))
      ]
]

uvarint_from-groups :
    (bs : Bytes) (i s x : ℕ) → i ≤ 10 → x < s → uvarint_from i s x bs < s * groups (length bs)
unfolding uvarint_from
uvarint_from-groups [] i s x hi hx = omega arith
uvarint_from-groups (b ∷ bs) i s x hi hx =
    let m : ℕ = 128 * groups (length bs) in
    let m1 : 128 ≤ m = ground (arith, groups_pos (length bs)) in
    elim (uvarint_from_cases i s x b bs hi) [
      | inl e ↦
          subst (λ n. n < s * m) (sym e) (ground (arith, digit_bound s m x 0 hx (omega arith)))
      | inr (inl (small, e)) ↦ subst (λ n. n < s * m) (sym e) (digit_bound s m x b hx (omega arith))
      | inr (inr (i9, e)) ↦
          let ih =
            uvarint_from-groups bs (suc i) (s * 128) (x + b % 128 * s) (omega arith)
              (digit_bound s 128 x (b % 128) hx (omega arith)) in
          subst (λ n. n < s * m) (sym e) (ground (arith, ih, mul_assoc s 128 (groups (length bs))))
    ]

groups_more : (n v : ℕ) → 128 ≤ v → v < groups (suc n) → 1 ≤ n
groups_more zero v k h = absurd (omega arith)
groups_more (suc n) v k h = omega arith

varint_size_from_le : (k n v : ℕ) → 1 ≤ n → v < groups n → varint_size_from k v ≤ n
unfolding varint_size_from
varint_size_from_le zero n v hn h = hn
varint_size_from_le (suc k) zero v hn h = absurd (omega arith)
varint_size_from_le (suc k) (suc n) v hn h = elim (Bool-cases (leb 128 v)) [
  | inr l ↦ rw l (omega arith)
  | inl l ↦
      let big = leb→le 128 v l in
      let n1 : 1 ≤ n = groups_more n v big h in
      let ih = varint_size_from_le k n (v / 128) n1 (omega arith) in rw l (omega arith)
]

pub varint_size_pos : (v : ℕ) → 1 ≤ varint_size v
unfolding varint_size varint_size_from
varint_size_pos v = elim (Bool-cases (leb 128 v)) [
  | inl l ↦ rw l (omega arith)
  | inr l ↦ rw l (omega arith)
]

-- The minimal size of the number that is read is at most the bytes there are.
pub varint_size-decode_varint :
    (text : Bytes) → 1 ≤ length text → varint_size (decode_varint text) ≤ length text
unfolding varint_size decode_varint
varint_size-decode_varint text h =
    let b = uvarint_from-groups text 0 1 0 (omega arith) (omega arith) in
    varint_size_from_le 9 (length text) (decode_varint text) h (omega arith)

-- A number other than 0 stands in a byte at least.
pub decode_varint_nonempty : (text : Bytes) → decode_varint text ≢ 0 → 1 ≤ length text
unfolding decode_varint uvarint_from
decode_varint_nonempty [] h = absurd (h refl)
decode_varint_nonempty (b ∷ bs) h = omega arith

length-put_uvarint_from : (k v : ℕ) → length (put_uvarint_from k v) ≡ varint_size_from k v
unfolding put_uvarint_from varint_size_from
length-put_uvarint_from zero v = refl
length-put_uvarint_from (suc k) v = elim (Bool-cases (leb 128 v)) [
  | inl l ↦ rw l (ap suc (length-put_uvarint_from k (v / 128)))
  | inr l ↦ rw l refl
]

pub length-put_uvarint : (v : ℕ) → length (put_uvarint v) ≡ varint_size v
unfolding put_uvarint varint_size
length-put_uvarint v = length-put_uvarint_from 9 v

varint_size_from_bound : (k v : ℕ) → varint_size_from k v ≤ suc k
unfolding varint_size_from
varint_size_from_bound zero v = omega arith
varint_size_from_bound (suc k) v =
    let ih = varint_size_from_bound k (v / 128) in
    elim (Bool-cases (leb 128 v)) [ inl l ↦ rw l (omega arith) | inr l ↦ rw l (omega arith) ]

pub varint_size_bound : (v : ℕ) → varint_size v ≤ 10
unfolding varint_size
varint_size_bound v = varint_size_from_bound 9 v
