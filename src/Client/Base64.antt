-- ===== src/Client/Base64.antt =====
-- dnsMsgToBase64URL of internal/client/client.go. Shifts and masks of bytes are quotients and
-- remainders by powers of two, and an `|` of parts that share no bit is their sum.
use lynx_dns.Common.{
  ℕ, zero, suc, ◌+◌, ◌-◌, ◌*◌, ◌/◌, ◌%◌, ◌<◌, ◌≡◌, refl, ap, ◌∙◌, arith, ◌&&◌, [], ◌∷◌, All, Bytes,
  codes, leb, ◌==◌, if◌then◌else◌, get_or, length,
}

abbrev pub encode_url : Bytes
encode_url = codes "ABCDEFGHIJKLMNOPQRSTUVWXYZabcdefghijklmnopqrstuvwxyz0123456789-_"

-- encodeURL[i], for an index that is always below 64
abbrev pub letter : ℕ → ℕ
letter i = get_or encode_url i 0

-- The loop, three bytes a turn; the missing bytes of the last turn are 0.
unfoldable pub dns_msg_to_base64_url : Bytes → Bytes
dns_msg_to_base64_url [] = []
dns_msg_to_base64_url (b0 ∷ []) = letter (b0 / 4) ∷ letter (b0 % 4 * 16) ∷ []
dns_msg_to_base64_url (b0 ∷ b1 ∷ []) =
    letter (b0 / 4) ∷ letter (b0 % 4 * 16 + b1 / 16) ∷ letter (b1 % 16 * 4) ∷ []
dns_msg_to_base64_url (b0 ∷ b1 ∷ b2 ∷ rest) =
    letter (b0 / 4)
    ∷ letter (b0 % 4 * 16 + b1 / 16)
    ∷ letter (b1 % 16 * 4 + b2 / 64)
    ∷ letter (b2 % 64)
    ∷ dns_msg_to_base64_url rest

-- The value of a letter, and a decoder by the alphabet of RFC 4648 without padding.
abbrev pub value_of : ℕ → ℕ
value_of c =
    if leb b'A' c && leb c b'Z'
    then c - b'A'
    else if leb b'a' c && leb c b'z'
    then c - b'a' + 26
    else if leb b'0' c && leb c b'9'
    then c - b'0' + 52
    else if c == b'-'
    then 62
    else 63

unfoldable pub decode : Bytes → Bytes
decode [] = []
decode (c ∷ []) = []
decode (c0 ∷ c1 ∷ []) = (value_of c0 * 4 + value_of c1 / 16) ∷ []
decode (c0 ∷ c1 ∷ c2 ∷ []) =
    (value_of c0 * 4 + value_of c1 / 16) ∷ (value_of c1 % 16 * 16 + value_of c2 / 4) ∷ []
decode (c0 ∷ c1 ∷ c2 ∷ c3 ∷ rest) =
    (value_of c0 * 4 + value_of c1 / 16)
    ∷ (value_of c1 % 16 * 16 + value_of c2 / 4)
    ∷ (value_of c2 % 4 * 64 + value_of c3)
    ∷ decode rest

-- The first letters of a list from `i` on have the values from `i` on.
abbrev Counts : ℕ → Bytes → Type 0
Counts i [] = Unit
Counts i (c ∷ cs) = (value_of c ≡ i) × Counts (suc i) cs

Counts-at : (i j : ℕ) (cs : Bytes) → Counts i cs → j < length cs → value_of (get_or cs j 0) ≡ i + j
Counts-at i j [] h lt = absurd (omega arith)
Counts-at i zero (c ∷ cs) h lt = h.0 ∙ omega arith
Counts-at i (suc j) (c ∷ cs) h lt = Counts-at (suc i) j cs h.1 (omega arith) ∙ omega arith

value_of-letter : (i : ℕ) → i < 64 → value_of (letter i) ≡ i
value_of-letter i h = Counts-at 0 i encode_url (ground arith) h ∙ omega arith

first_byte : (b0 y : ℕ) → y < 16 → b0 / 4 * 4 + (b0 % 4 * 16 + y) / 16 ≡ b0
first_byte b0 y h = omega arith

second_byte :
    (b0 b1 z : ℕ)
    → b1 < 256
    → z < 4
    → (b0 % 4 * 16 + b1 / 16) % 16 * 16 + (b1 % 16 * 4 + z) / 4 ≡ b1
second_byte b0 b1 z h k = omega arith

third_byte : (b1 b2 : ℕ) → b2 < 256 → (b1 % 16 * 4 + b2 / 64) % 4 * 64 + b2 % 64 ≡ b2
third_byte b1 b2 h = omega arith

-- The encoding of a message is read back, whatever its length.
pub decode-dns_msg_to_base64_url :
    (data_bytes : Bytes)
    → All (λ b. b < 256) data_bytes
    → decode (dns_msg_to_base64_url data_bytes) ≡ data_bytes
unfolding dns_msg_to_base64_url decode
decode-dns_msg_to_base64_url [] h = refl
decode-dns_msg_to_base64_url (b0 ∷ []) h =
    rw (value_of-letter (b0 / 4) (omega arith))
      (rw (value_of-letter (b0 % 4 * 16) (omega arith)) (ap (λ b. b ∷ []) (omega arith)))
decode-dns_msg_to_base64_url (b0 ∷ b1 ∷ []) h = rw (value_of-letter (b0 / 4) (omega arith)) (
    rw (value_of-letter (b0 % 4 * 16 + b1 / 16) (omega arith)) (
      rw (value_of-letter (b1 % 16 * 4) (omega arith))
        (rw (first_byte b0 (b1 / 16) (omega arith)) (ap (λ b. b0 ∷ b ∷ []) (omega arith)))))
decode-dns_msg_to_base64_url (b0 ∷ b1 ∷ b2 ∷ rest) h = rw (value_of-letter (b0 / 4) (omega arith)) (
    rw (value_of-letter (b0 % 4 * 16 + b1 / 16) (omega arith)) (
      rw (value_of-letter (b1 % 16 * 4 + b2 / 64) (omega arith)) (
        rw (value_of-letter (b2 % 64) (omega arith)) (
          rw (first_byte b0 (b1 / 16) (omega arith)) (
            rw (second_byte b0 b1 (b2 / 64) (omega arith) (omega arith)) (
              rw (third_byte b1 b2 (omega arith))
                (rw (decode-dns_msg_to_base64_url rest h.1.1.1) refl)))))))
