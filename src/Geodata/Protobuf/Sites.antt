-- ===== src/Geodata/Protobuf/Sites.antt =====
-- What a list of sites in the protobuf format loads as (internal/geodata/geodata.go).
use mathlib.Core.Path.{subst}
use lynx_dns.Common.{
  ℕ, ◌+◌, ◌*◌, ◌%◌, ◌^◌, ◌≤◌, ◌<◌, ◌≡◌, refl, sym, ap, ◌∙◌, arith, Bool, true, ◌||◌, Option, none,
  some, List, [], ◌∷◌, ◌++◌, map, Bytes, codes, to_lower, has_prefix, ◌==◌, if◌then◌else◌, length,
  All, Bool-cases, inl, inr, length-append, append-nil, append_assoc,
}
use lynx_dns.Common.Dict.{Dict, lookup, insert}
use lynx_dns.Geodata.Text.{is_protobuf, entries_of}
use lynx_dns.Geodata.Filter.{is_protobuf_short_line}
use lynx_dns.Geodata.Wire.{
  finished, map_outcome, ProtoField, field_of, decode_varint, put_uvarint, put_uvarint_from,
}
use lynx_dns.Geodata.Wire.Varint.{decode_varint-put_uvarint}
use lynx_dns.Geodata.Wire.Agree.{wanted, decode_protobuf_repeated-decode_protobuf_fields}
use lynx_dns.Geodata.Wire.Encode.{
  encode_payload, encode_field, encode_fields, IsField, decode_protobuf_fields-encode_fields,
}
use lynx_dns.Geodata.Protobuf.{
  then_outcome, domain_fields, add_domain, geosite_domains, entry_fields, geosite_entry,
  geosite_entries, parse_geosite_protobuf,
}

-- A domain has a type and a value, a site a name and its domains.
abbrev pub Domain : Type 0
Domain = ℕ × Bytes

abbrev pub Site : Type 0
Site = Bytes × List Domain

unfoldable pub encode_domain : Domain → Bytes
unfolding encode_fields
encode_domain d = encode_fields (field_of 1 0 (put_uvarint d.0) ∷ field_of 2 2 d.1 ∷ [])

abbrev pub domain_item : Domain → ProtoField
domain_item d = field_of 2 2 (encode_domain d)

unfoldable pub encode_site : Site → Bytes
unfolding encode_domain encode_fields
encode_site s = encode_fields (field_of 1 2 s.0 ∷ map domain_item s.1)

abbrev pub site_item : Site → ProtoField
site_item s = field_of 1 2 (encode_site s)

unfoldable pub encode_sites : List Site → Bytes
unfolding encode_site encode_fields
encode_sites ss = encode_fields (map site_item ss)

-- Types are 32-bit numbers.
abbrev pub IsDomain : Domain → Type 0
IsDomain d = d.0 < 2 ^ 32

abbrev pub IsSite : Site → Type 0
IsSite s = All IsDomain s.1

-- The entry that a domain makes, if any.
abbrev pub name_of : Domain → Option Bytes
name_of d =
    if length d.1 == 0
    then none
    else if d.0 == 0 || d.0 == 3
    then some d.1
    else if d.0 == 1
    then some (codes "regexp:" ++ d.1)
    else if d.0 == 2
    then some (if has_prefix d.1 (codes ".") then d.1 else (b'.' ∷ d.1))
    else none

unfoldable pub domains_map : Bytes → List Domain → Dict (Dict Bool) → Dict (Dict Bool)
unfolding add_domain
domains_map c [] m = m
domains_map c (d ∷ ds) m = domains_map c ds (add_domain c d m)

unfoldable pub site_map : List Site → Dict (Dict Bool) → Dict (Dict Bool)
unfolding domains_map
site_map [] m = m
site_map (s ∷ ss) m =
    let c = to_lower s.0 in
    site_map ss
      (if length c == 0 then m else domains_map c s.1 (insert c (entries_of (lookup c m)) m))

-- The bytes of an item are no more than those of the encoding.
items-short :
    {A : Type 0} (item : A → Bytes) (num n : ℕ) (xs : List A)
    → length (encode_fields (map (λ x. field_of num 2 (item x)) xs)) < n
    → All (λ x. length (item x) < n) xs
unfolding encode_fields encode_field encode_payload
items-short item num n [] h = tt
items-short item num n (x ∷ xs) h =
    let tag = put_uvarint (num * 8 + 2) in
    let size = put_uvarint (length (item x)) in
    let rest = encode_fields (map (λ x. field_of num 2 (item x)) xs) in
    let a = length-append (tag ++ (size ++ item x)) rest in
    let b = length-append tag (size ++ item x) in
    let c = length-append size (item x) in
    (ground (arith, h, a, b, c), items-short item num n xs (ground (arith, h, a)))

encode_fields-tail :
    (f : ProtoField) (fs : List ProtoField)
    → length (encode_fields fs) ≤ length (encode_fields (f ∷ fs))
unfolding encode_fields
encode_fields-tail f fs = ground (arith, length-append (encode_field f) (encode_fields fs))

items-IsField :
    {A : Type 0} (item : A → Bytes) (num : ℕ)
    → 1 ≤ num
    → num < 2 ^ 29
    → (xs : List A) → All IsField (map (λ x. field_of num 2 (item x)) xs)
items-IsField item num h k [] = tt
items-IsField item num h k (x ∷ xs) = ((h, k, inl (inl refl)), items-IsField item num h k xs)

domain_fields-encode :
    (d : Domain)
    → IsDomain d
    → domain_fields (field_of 1 0 (put_uvarint d.0) ∷ field_of 2 2 d.1 ∷ []) 0 [] ≡ d
unfolding domain_fields
domain_fields-encode d h =
    let e = decode_varint-put_uvarint d.0 [] (omega arith) in
    let n : put_uvarint d.0 ++ [] ≡ put_uvarint d.0 = append-nil (put_uvarint d.0) in
    let r : decode_varint (put_uvarint d.0) ≡ d.0 = ap decode_varint (sym n) ∙ e in
    let m : d.0 % 2 ^ 32 ≡ d.0 = omega arith in rw (r, m) refl

domain-IsField :
    (d : Domain) → IsDomain d → All IsField (field_of 1 0 (put_uvarint d.0) ∷ field_of 2 2 d.1 ∷ [])
domain-IsField d h = (
  (omega arith, omega arith, inl (inr (refl, (d.0, omega arith, refl)))),
  ((omega arith, omega arith, inl (inl refl)), tt),
)

geosite_domains-encode :
    (c : Bytes) (ds : List Domain) (m : Dict (Dict Bool))
    → All IsDomain ds
    → All (λ d. length (encode_domain d) < 2 ^ 62) ds
    → geosite_domains c (map encode_domain ds) m ≡ finished (domains_map c ds m)
unfolding geosite_domains domains_map encode_domain then_outcome
geosite_domains-encode c [] m ok small = refl
geosite_domains-encode c (d ∷ ds) m ok small =
    let fs : List ProtoField = field_of 1 0 (put_uvarint d.0) ∷ field_of 2 2 d.1 ∷ [] in
    let r = decode_protobuf_fields-encode_fields fs (domain-IsField d ok.0) small.0 in
    let more = λ (d : Domain). geosite_domains c (map encode_domain ds) (add_domain c d m) in
    ap (λ o. then_outcome o (λ fs. more (domain_fields fs 0 []))) r
    ∙ ap more (domain_fields-encode d ok.0)
    ∙ geosite_domains-encode c ds (add_domain c d m) ok.1 small.1

entry_fields-items :
    (norm : Bytes → Bytes) (ds : List Domain) (c : Bytes) (items : List Bytes)
    → entry_fields norm (map domain_item ds) c items ≡ (c, items ++ map encode_domain ds)
unfolding entry_fields
entry_fields-items norm [] c items = ap (λ xs. (c, xs)) (sym (append-nil items))
entry_fields-items norm (d ∷ ds) c items =
    entry_fields-items norm ds c (items ++ (encode_domain d ∷ []))
    ∙ ap (λ xs. (c, xs)) (append_assoc items (encode_domain d ∷ []) (map encode_domain ds))

geosite_entry-encode :
    (s : Site) (m : Dict (Dict Bool))
    → IsSite s
    → All (λ d. length (encode_domain d) < 2 ^ 62) s.1
    → geosite_entry (to_lower s.0, map encode_domain s.1) m ≡ finished (site_map (s ∷ []) m)
unfolding geosite_entry site_map
geosite_entry-encode s m ok small =
    let c = to_lower s.0 in
    elim (Bool-cases (length c == 0)) [
      | inl l ↦ rw l refl
      | inr l ↦ rw l (geosite_domains-encode c s.1 (insert c (entries_of (lookup c m)) m) ok small)
    ]

geosite_entries-encode :
    (ss : List Site) (m : Dict (Dict Bool))
    → All IsSite ss
    → All (λ s. length (encode_site s) < 2 ^ 62) ss
    → geosite_entries (map encode_site ss) m ≡ finished (site_map ss m)
unfolding geosite_entries site_map encode_site then_outcome entry_fields
geosite_entries-encode [] m ok small = refl
geosite_entries-encode (s ∷ ss) m ok small =
    let items = map domain_item s.1 in
    let fs : List ProtoField = field_of 1 2 s.0 ∷ items in
    let fields : All IsField fs = (
      (omega arith, omega arith, inl (inl refl)),
      items-IsField encode_domain 2 (omega arith) (omega arith) s.1,
    ) in
    let r = decode_protobuf_fields-encode_fields fs fields small.0 in
    let short : All (λ d. length (encode_domain d) < 2 ^ 62) s.1 =
      items-short encode_domain 2 (2 ^ 62) s.1
        (ground (arith, small.0, encode_fields-tail (field_of 1 2 s.0) items)) in
    let more = λ (m : Dict (Dict Bool)). geosite_entries (map encode_site ss) m in
    ap
      (λ o.
        then_outcome o (λ fs. then_outcome (geosite_entry (entry_fields to_lower fs [] []) m) more))
      r
    ∙ ap (λ e. then_outcome (geosite_entry e m) more)
        (entry_fields-items to_lower s.1 (to_lower s.0) [])
    ∙ ap (λ o. then_outcome o more) (geosite_entry-encode s m ok.0 short)
    ∙ geosite_entries-encode ss (site_map (s ∷ []) m) ok.1 small.1

wanted-items : (ss : List Site) → wanted 1 2 (map site_item ss) ≡ map encode_site ss
unfolding wanted
wanted-items [] = refl
wanted-items (s ∷ ss) = ap (λ xs. encode_site s ∷ xs) (wanted-items ss)

pub parse_geosite_protobuf-encode :
    (ss : List Site) (spare : Bytes)
    → 1 ≤ length spare
    → All IsSite ss
    → length (encode_sites ss) < 2 ^ 62
    → parse_geosite_protobuf (encode_sites ss) spare ≡ finished (site_map ss [])
unfolding parse_geosite_protobuf encode_sites then_outcome map_outcome
parse_geosite_protobuf-encode ss spare cap ok small =
    let fs = map site_item ss in
    let fields = items-IsField encode_site 1 (omega arith) (omega arith) ss in
    let more = λ (es : List Bytes). geosite_entries es [] in
    let r =
      decode_protobuf_repeated-decode_protobuf_fields (encode_fields fs) spare cap 1 2
        (λ e. absurd (omega arith)) in
    let d = decode_protobuf_fields-encode_fields fs fields small in
    ap (λ o. then_outcome o more) (r ∙ ap (λ o. map_outcome (λ fs. wanted 1 2 fs) o) d)
    ∙ ap more (wanted-items ss)
    ∙ geosite_entries-encode ss [] ok (items-short encode_site 1 (2 ^ 62) ss small)

pub tag_byte : put_uvarint 10 ≡ 10 ∷ []
unfolding put_uvarint put_uvarint_from
tag_byte = refl

-- A list of sites begins with the tag of its first site, the byte 10.
pub is_protobuf-encode : (s : Site) (ss : List Site) → is_protobuf (encode_sites (s ∷ ss)) ≡ true
unfolding encode_sites encode_fields encode_field
is_protobuf-encode s ss =
    let body = encode_payload 2 (encode_site s) in
    let rest = encode_fields (map site_item ss) in
    let e : encode_sites (s ∷ ss) ≡ 10 ∷ (body ++ rest) = ap (λ t. (t ++ body) ++ rest) tag_byte in
    subst (λ t. is_protobuf t ≡ true) (sym e)
      (is_protobuf_short_line [] (body ++ rest) (omega arith))
