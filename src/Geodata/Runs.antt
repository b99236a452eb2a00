-- ===== src/Geodata/Runs.antt =====
-- Concrete runs of the geographic lists, and the theorems at concrete inputs.
use mathlib.Core.List.{Memᴰ}
use lynx_dns.Common.{
  zero, suc, ◌^◌, ◌≡◌, refl, ◌↔◌, inl, inr, arith, Bool, true, false, List, [], ◌∷◌, ◌++◌, Bytes,
  codes, text_eq, split, join, trim_space, to_lower, has_prefix,
}
use lynx_dns.Geodata.Address.{ip_text}
use lynx_dns.Geodata.Wire.{
  finished, panicked, map_outcome, ProtoField, field_of, put_uvarint, decode_varint,
  decode_protobuf_fields, decode_protobuf_repeated,
}
use lynx_dns.Geodata.Wire.Encode.{encode_fields, decode_protobuf_fields-encode_fields}
use lynx_dns.Geodata.Wire.Agree.{wanted, decode_protobuf_repeated-decode_protobuf_fields}
use lynx_dns.Geodata.Wire.Panics.{Announces62, decode_protobuf_fields_total}
use lynx_dns.Geodata.Protobuf.{then_outcome, parse_geosite_data, parse_geoip_data}
use lynx_dns.Geodata.Protobuf.Sites.{Site, encode_sites}
use lynx_dns.Geodata.Protobuf.Listed.{lists, Holds, parse_geosite_data-encode_sites}
use lynx_dns.Geodata.Protobuf.Corrupt.{corrupt, parse_data_panics}
use lynx_dns.Common.Dict
use lynx_dns.Common.Dict.{Dict, lookup}
use lynx_dns.Resolver.Local.{Some}
use lynx_dns.Geodata.Manager.{
  Manager, new_manager, match_geosite, match_ad_filter, match_domain_in_map, match_suffixes,
}
use lynx_dns.Geodata.Match.{Lists, match_geosite_iff}
use lynx_dns.Geodata.Text.{parse_ad_filter_data}
use lynx_dns.Geodata.Filter.{parse_ad_filter_data-match_ad_filter}

abbrev filter_text : Bytes
filter_text = codes "! ads" ++ (10 ∷ (codes " ||ads.com^" ++ (10 ∷ [])))

abbrev loaded : Manager
loaded = record (new_manager (codes "/etc")) {
  ad_filter_enabled = true;
  ad_filter_domains = parse_ad_filter_data filter_text;
  geosite_enabled = true;
  geosite_domains = (codes "cn", (codes ".baidu.com", true) ∷ (codes "qq.com", true) ∷ []) ∷ [];
}

below : match_geosite (codes "www.Baidu.com") (codes "CN" ∷ []) loaded ≡ true
unfolding match_geosite match_domain_in_map match_suffixes to_lower split join text_eq Dict.lookup
below = refl

plain : match_geosite (codes "www.qq.com") (codes "cn" ∷ []) loaded ≡ false
unfolding match_geosite match_domain_in_map match_suffixes to_lower split join text_eq Dict.lookup
plain = refl

match_geosite_iff_example : (match_geosite (codes "a.b") (codes "cn" ∷ []) loaded ≡ true) ↔ (
    (true ≡ true)
    × Some
        (Lists
          ((codes "cn", (codes ".baidu.com", true) ∷ (codes "qq.com", true) ∷ []) ∷ [])
          (to_lower (codes "a.b")))
        (codes "cn" ∷ []))
unfolding new_manager
match_geosite_iff_example = match_geosite_iff (codes "a.b") (codes "cn" ∷ []) loaded

parse_ad_filter_data-match_ad_filter_example :
    (match_ad_filter (codes "X.ads.COM") loaded ≡ true)
    × (to_lower (codes "ads.com") ≡ codes "ads.com")
unfolding split trim_space to_lower new_manager
parse_ad_filter_data-match_ad_filter_example =
    parse_ad_filter_data-match_ad_filter filter_text (codes " ||ads.com^") (codes "ads.com")
      (codes "X.ads.COM") loaded (Memᴰ.tail (Memᴰ.head refl)) refl refl refl (inr (codes "x", refl))

-- A list of one site in the protobuf format.
abbrev qq : Site
qq = (codes "CN", (0, codes "qq.com") ∷ (2, codes "baidu.com") ∷ [])

qq_listed :
    then_outcome
      (parse_geosite_data (encode_sites (qq ∷ [])) (0 ∷ []))
      (λ m. finished (lists m (codes "cn") (codes ".baidu.com")))
    ≡ finished true
unfolding parse_geosite_data encode_sites then_outcome text_eq Dict.lookup Dict.insert map_outcome
    to_lower has_prefix
qq_listed = refl

parse_geosite_data-encode_sites_example :
    (m : Dict (Dict Bool)) × (parse_geosite_data (encode_sites (qq ∷ [])) (0 ∷ []) ≡ finished m)
    × ((c n : Bytes) → (lists m c n ≡ true) ↔ Some (Holds c n) (qq ∷ []))
unfolding encode_sites
parse_geosite_data-encode_sites_example =
    parse_geosite_data-encode_sites qq [] (0 ∷ []) (omega arith)
      ((omega arith, (omega arith, tt)), tt) (omega arith)

-- A varint, four and eight bytes, and text.
abbrev some_fields : List ProtoField
some_fields =
    field_of 1 0 (put_uvarint 300)
    ∷ field_of 2 5 (1 ∷ 2 ∷ 3 ∷ 4 ∷ [])
    ∷ field_of 3 1 (1 ∷ 2 ∷ 3 ∷ 4 ∷ 5 ∷ 6 ∷ 7 ∷ 8 ∷ [])
    ∷ field_of 4 2 (codes "cn")
    ∷ []

decode_protobuf_fields-encode_fields_example :
    decode_protobuf_fields (encode_fields some_fields) ≡ finished some_fields
unfolding encode_fields put_uvarint
decode_protobuf_fields-encode_fields_example =
    decode_protobuf_fields-encode_fields some_fields
      (
        (omega arith, omega arith, inl (inr (refl, (300, omega arith, refl)))),
        (
          (omega arith, omega arith, inr (inr (refl, refl))),
          (
            (omega arith, omega arith, inr (inl (refl, refl))),
            ((omega arith, omega arith, inl (inl refl)), tt),
          ),
        ),
      )
      (omega arith)

decode_protobuf_repeated-decode_protobuf_fields_example :
    decode_protobuf_repeated (10 ∷ 2 ∷ 65 ∷ 66 ∷ 18 ∷ 1 ∷ []) (0 ∷ []) 1 2
    ≡ map_outcome (λ fs. wanted 1 2 fs) (decode_protobuf_fields (10 ∷ 2 ∷ 65 ∷ 66 ∷ 18 ∷ 1 ∷ []))
decode_protobuf_repeated-decode_protobuf_fields_example =
    decode_protobuf_repeated-decode_protobuf_fields (10 ∷ 2 ∷ 65 ∷ 66 ∷ 18 ∷ 1 ∷ []) (0 ∷ [])
      (omega arith) 1 2 (λ e. absurd (omega arith))

abbrev small_text : Bytes
small_text = 10 ∷ 9 ∷ 65 ∷ []

small_text-Announces62 : Announces62 small_text
unfolding decode_varint
small_text-Announces62 zero = omega arith
small_text-Announces62 (suc zero) = omega arith
small_text-Announces62 (suc (suc zero)) = omega arith
small_text-Announces62 (suc (suc (suc zero))) = omega arith
small_text-Announces62 (suc (suc (suc (suc n)))) = omega arith

decode_protobuf_fields_total_example :
    (fs : List ProtoField) × (decode_protobuf_fields small_text ≡ finished fs)
decode_protobuf_fields_total_example =
    decode_protobuf_fields_total small_text (omega arith) small_text-Announces62

parse_data_panics_example :
    (parse_geosite_data (corrupt (2 ^ 63) (codes "cn")) (0 ∷ []) ≡ panicked)
    × (parse_geoip_data (corrupt (2 ^ 63) (codes "cn")) (0 ∷ []) ≡ panicked)
parse_data_panics_example =
    parse_data_panics (2 ^ 63) (codes "cn") (0 ∷ []) (omega arith) (omega arith) (omega arith)
      (omega arith)

-- 2001:db8::1 and 10.0.0.8
ip6 :
    ip_text (32 ∷ 1 ∷ 13 ∷ 184 ∷ 0 ∷ 0 ∷ 0 ∷ 0 ∷ 0 ∷ 0 ∷ 0 ∷ 0 ∷ 0 ∷ 0 ∷ 0 ∷ 1 ∷ [])
    ≡ codes "2001:db8::1"
unfolding ip_text text_eq
ip6 = refl

ip4 : ip_text (10 ∷ 0 ∷ 0 ∷ 8 ∷ []) ≡ codes "10.0.0.8"
unfolding ip_text
ip4 = refl
