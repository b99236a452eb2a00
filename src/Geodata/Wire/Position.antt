-- ===== src/Geodata/Wire/Position.antt =====
-- What the readers of fields find at a position of the data (internal/geodata/geodata.go).
use lynx_dns.Common.{
  ℕ, zero, suc, ◌+◌, ◌-◌, ◌^◌, ◌≤◌, ◌<◌, ◌≡◌, refl, sym, ap, ◌∙◌, arith, false, ◌&&◌, ◌||◌, some,
  [], ◌∷◌, ◌++◌, Bytes, ltb, leb, length, drop, length-drop, length-append, drop-append,
  take-append,
}
use lynx_dns.Geodata.Wire.Varint.{length-put_uvarint, decode_varint-put_uvarint}
use lynx_dns.Geodata.Wire.{
  field_of, next, decode_varint, varint_size, put_uvarint, slice, end_of, fixed_turn, bytes_turn,
}

drop-nil : (n : ℕ) → let xs : Bytes = [] in drop n xs ≡ xs
drop-nil zero = refl
drop-nil (suc n) = refl

drop-drop : (i n : ℕ) (xs : Bytes) → drop (i + n) xs ≡ drop n (drop i xs)
drop-drop zero n xs = ap (λ k. drop k xs) (omega arith)
drop-drop (suc i) n [] = drop-nil (suc i + n) ∙ sym (drop-nil n)
drop-drop (suc i) n (x ∷ xs) =
    let e : suc i + n ≡ suc (i + n) = omega arith in ap (λ k. drop k (x ∷ xs)) e ∙ drop-drop i n xs

-- The part of the data from `i` on.
abbrev pub Stands : Bytes → ℕ → Bytes → Type 0
Stands text i xs = (i ≤ length text) × (drop i text ≡ xs)

pub Stands-length :
    (text : Bytes) (i : ℕ) (xs : Bytes) → Stands text i xs → i + length xs ≡ length text
Stands-length text i xs h = ground (arith, length-drop i text, ap (λ ys. length ys) h.1, h.0)

pub Stands-past :
    (text : Bytes) (i : ℕ) (xs ys : Bytes) (n : ℕ)
    → n ≡ length xs
    → Stands text i (xs ++ ys)
    → Stands text (i + n) ys
Stands-past text i xs ys n hn h =
    let l = Stands-length text i (xs ++ ys) h in
    (
      ground (arith, length-append xs ys, l),
      drop-drop i n text
          ∙ ap (λ zs. drop n zs) h.1
          ∙ ap (λ k. drop k (xs ++ ys)) hn
          ∙ drop-append xs ys,
    )

-- The slice that holds `d`.
pub slice_reads :
    (text : Bytes) (i : ℕ) (d rest : Bytes) (end : ℕ)
    → end ≡ i + length d
    → Stands text i (d ++ rest)
    → slice text i end ≡ d
slice_reads text i d rest end he h =
    let n : end - i ≡ length d = omega arith in rw (n, h.1) (take-append d rest)

pub fixed_turn_reads :
    (text : Bytes) (num wire i size : ℕ) (d rest : Bytes)
    → length d ≡ size
    → Stands text i (d ++ rest)
    → fixed_turn text num wire i size ≡ next (i + size) (some (field_of num wire d))
unfolding fixed_turn
fixed_turn_reads text num wire i size d rest hd h =
    let l = Stands-length text i (d ++ rest) h in
    let fits : ltb (length text) (i + size) ≡ false = ground (arith, length-append d rest, l, hd) in
    let s = slice_reads text i d rest (i + size) (ap (λ k. i + k) (sym hd)) h in rw (fits, s) refl

pub bytes_turn_reads :
    (text : Bytes) (num at : ℕ) (d rest : Bytes)
    → length text < 2 ^ 62
    → Stands text at (d ++ rest)
    → bytes_turn text num at (length d) ≡ next (at + length d) (some (field_of num 2 d))
unfolding bytes_turn
bytes_turn_reads text num at d rest hl h =
    let l = Stands-length text at (d ++ rest) h in
    let m = length-append d rest in
    let e : end_of at (length d) ≡ at + length d = omega arith in
    let a : (ltb (at + length d) (2 ^ 63) && ltb (length text) (at + length d)) ≡ false =
      ground (arith, l, m) in
    let b : (leb (2 ^ 63) (at + length d) || ltb (at + length d) at) ≡ false =
      ground (arith, l, m) in
    let s = slice_reads text at d rest (at + length d) refl h in rw (e, a, b, s) refl

-- The number at `i`, and the index after it.
pub varint_reads :
    (text : Bytes) (i v : ℕ) (rest : Bytes)
    → v < 2 ^ 64
    → Stands text i (put_uvarint v ++ rest)
    → (decode_varint (drop i text) ≡ v) × Stands text (i + varint_size v) rest
varint_reads text i v rest hv h = (
  ap decode_varint h.1 ∙ decode_varint-put_uvarint v rest hv,
  Stands-past text i (put_uvarint v) rest (varint_size v) (sym (length-put_uvarint v)) h,
)
