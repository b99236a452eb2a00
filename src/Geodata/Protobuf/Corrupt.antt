-- ===== src/Geodata/Protobuf/Corrupt.antt =====
-- Corrupted lists in the protobuf format (internal/geodata/geodata.go).
use mathlib.Core.Path.{subst}
use lynx_dns.Common.{ℕ, ◌^◌, ◌≤◌, ◌<◌, ◌≡◌, sym, ap, ◌∙◌, arith, true, [], ◌∷◌, ◌++◌, Bytes, length}
use lynx_dns.Geodata.Text.{is_protobuf}
use lynx_dns.Geodata.Filter.{is_protobuf_short_line}
use lynx_dns.Geodata.Wire.{panicked, map_outcome, put_uvarint, decode_protobuf_fields}
use lynx_dns.Geodata.Wire.Agree.{wanted, decode_protobuf_repeated-decode_protobuf_fields}
use lynx_dns.Geodata.Wire.Panics.{decode_protobuf_fields_panics}
use lynx_dns.Geodata.Protobuf.{
  then_outcome, geosite_entries, geoip_entries, parse_geosite_protobuf, parse_geosite_data,
  parse_geoip_protobuf, parse_geoip_data,
}
use lynx_dns.Geodata.Protobuf.Sites.{tag_byte}

-- A file that starts with the tag of an entry and announces a length of 2^63 bytes or more.
abbrev pub corrupt : ℕ → Bytes → Bytes
corrupt size rest = put_uvarint 10 ++ (put_uvarint size ++ rest)

is_protobuf-corrupt : (size : ℕ) (rest : Bytes) → is_protobuf (corrupt size rest) ≡ true
is_protobuf-corrupt size rest =
    let e : corrupt size rest ≡ 10 ∷ (put_uvarint size ++ rest) =
      ap (λ t. t ++ (put_uvarint size ++ rest)) tag_byte in
    subst (λ t. is_protobuf t ≡ true) (sym e)
      (is_protobuf_short_line [] (put_uvarint size ++ rest) (omega arith))

-- With an int of 64 bits, both lists panic on a file that starts with the tag of an entry and a length
-- from 2^63 on, whatever follows, instead of refusing it with an error.
pub parse_data_panics :
    (size : ℕ) (rest spare : Bytes)
    → 2 ^ 63 ≤ size
    → size < 2 ^ 64
    → length rest < 2 ^ 61
    → 1 ≤ length spare
    → (parse_geosite_data (corrupt size rest) spare ≡ panicked)
      × (parse_geoip_data (corrupt size rest) spare ≡ panicked)
unfolding parse_geosite_data parse_geoip_data parse_geosite_protobuf parse_geoip_protobuf
    then_outcome map_outcome
parse_data_panics size rest spare l u small cap =
    let text = corrupt size rest in
    let r =
      decode_protobuf_repeated-decode_protobuf_fields text spare cap 1 2
        (λ e. absurd (omega arith)) in
    let d : decode_protobuf_fields text ≡ panicked =
      decode_protobuf_fields_panics 1 size rest (omega arith) (omega arith) l u small in
    let q = r ∙ ap (λ o. map_outcome (λ fs. wanted 1 2 fs) o) d in
    let p = is_protobuf-corrupt size rest in
    (
      rw p (ap (λ o. then_outcome o (λ es. geosite_entries es [])) q),
      rw p (ap (λ o. then_outcome o (λ es. geoip_entries es [])) q),
    )
