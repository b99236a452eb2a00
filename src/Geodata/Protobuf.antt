-- ===== src/Geodata/Protobuf.antt =====
-- The lists in the protobuf format, and the choice between the two formats
-- (internal/geodata/geodata.go).
use lynx_dns.Common.{
  ℕ, zero, suc, ◌+◌, ◌-◌, ◌*◌, ◌/◌, ◌%◌, ◌^◌, Bool, true, false, ◌&&◌, List, [], ◌∷◌, ◌++◌, Bytes,
  codes, to_lower, has_prefix, ltb, ◌==◌, if◌then◌else◌, length, take, drop,
}
use lynx_dns.Common.Dict.{Dict, lookup, insert}
use lynx_dns.Geodata.Address.{ip_text}
use lynx_dns.Geodata.Text.{is_protobuf, entries_of, items_of, parse_geosite_text, parse_geoip_text}
use lynx_dns.Geodata.Wire.{
  Outcome, finished, panicked, out_of_fuel, ProtoField, decode_varint, decode_protobuf_fields,
  decode_protobuf_repeated,
}
use lynx_dns.Rules.Ident.{decimal}
pub mod Sites
pub mod Listed
pub mod Corrupt

unfoldable pub then_outcome {ℓ κ} :
    {A : Type ℓ} {B : Type κ} → Outcome A → (A → Outcome B) → Outcome B
then_outcome (finished a) f = f a
then_outcome panicked f = panicked
then_outcome out_of_fuel f = out_of_fuel

-- The type and the value of a domain, from its fields; the type is an int32.
unfoldable pub domain_fields : List ProtoField → ℕ → Bytes → ℕ × Bytes
unfolding decode_varint
domain_fields [] type_ value = (type_, value)
domain_fields (f ∷ fs) type_ value =
    if f.field_num == 1
    then domain_fields fs (decode_varint f.data_bytes % 2 ^ 32) value
    else if f.field_num == 2
    then domain_fields fs type_ f.data_bytes
    else domain_fields fs type_ value

-- result[country][name] = true
abbrev pub add_name : Bytes → Bytes → Dict (Dict Bool) → Dict (Dict Bool)
add_name country name m = insert country (insert name true (entries_of (lookup country m))) m

-- The switch over the type of a domain.
unfoldable pub add_domain : Bytes → ℕ × Bytes → Dict (Dict Bool) → Dict (Dict Bool)
add_domain country (type_, value) m =
    if length value == 0
    then m
    else if type_ == 0
    then add_name country value m
    else if type_ == 1
    then add_name country (codes "regexp:" ++ value) m
    else if type_ == 2
    then add_name country (if has_prefix value (codes ".") then value else (b'.' ∷ value)) m
    else if type_ == 3
    then add_name country value m
    else m

unfoldable pub geosite_domains : Bytes → List Bytes → Dict (Dict Bool) → Outcome (Dict (Dict Bool))
unfolding domain_fields add_domain then_outcome decode_protobuf_fields
geosite_domains country [] m = finished m
geosite_domains country (d ∷ ds) m =
    then_outcome (decode_protobuf_fields d)
      (λ fs. geosite_domains country ds (add_domain country (domain_fields fs 0 []) m))

-- The name of an entry, kept by `norm`, and what it lists.
unfoldable pub entry_fields :
    (Bytes → Bytes) → List ProtoField → Bytes → List Bytes → Bytes × List Bytes
entry_fields norm [] country items = (country, items)
entry_fields norm (f ∷ fs) country items =
    if f.field_num == 1
    then entry_fields norm fs (norm f.data_bytes) items
    else if f.field_num == 2
    then entry_fields norm fs country (items ++ (f.data_bytes ∷ []))
    else entry_fields norm fs country items

-- An entry without a name is skipped; the map of the others is made before their domains are read.
unfoldable pub geosite_entry : Bytes × List Bytes → Dict (Dict Bool) → Outcome (Dict (Dict Bool))
unfolding geosite_domains
geosite_entry (country, items) m =
    if length country == 0
    then finished m
    else geosite_domains country items (insert country (entries_of (lookup country m)) m)

unfoldable pub geosite_entries : List Bytes → Dict (Dict Bool) → Outcome (Dict (Dict Bool))
unfolding entry_fields geosite_entry then_outcome decode_protobuf_fields
geosite_entries [] m = finished m
geosite_entries (e ∷ es) m = then_outcome (decode_protobuf_fields e) (λ fs.
    then_outcome (geosite_entry (entry_fields to_lower fs [] []) m) (λ m. geosite_entries es m))

-- `spare` is what the slice has of capacity beyond the data.
unfoldable pub parse_geosite_protobuf : Bytes → Bytes → Outcome (Dict (Dict Bool))
unfolding geosite_entries decode_protobuf_repeated then_outcome
parse_geosite_protobuf text spare =
    then_outcome (decode_protobuf_repeated text spare 1 2) (λ es. geosite_entries es [])

unfoldable pub parse_geosite_data : Bytes → Bytes → Outcome (Dict (Dict Bool))
unfolding is_protobuf parse_geosite_protobuf parse_geosite_text
parse_geosite_data text spare =
    if is_protobuf text
    then parse_geosite_protobuf text spare
    else finished (parse_geosite_text text)

-- The bytes and the prefix of a network, from its fields; the prefix is a uint32.
unfoldable pub cidr_fields : List ProtoField → Bytes → ℕ → Bytes × ℕ
unfolding decode_varint
cidr_fields [] ip prefix = (ip, prefix)
cidr_fields (f ∷ fs) ip prefix =
    if f.field_num == 1
    then cidr_fields fs f.data_bytes prefix
    else if f.field_num == 2
    then cidr_fields fs ip (decode_varint f.data_bytes % 2 ^ 32)
    else cidr_fields fs ip prefix

unfoldable pub add_cidr : Bytes → Bytes × ℕ → Dict (List Bytes) → Dict (List Bytes)
unfolding ip_text decimal
add_cidr country (ip, prefix) m =
    if length ip == 0
    then m
    else insert country
        (items_of (lookup country m) ++ ((ip_text ip ++ codes "/" ++ decimal prefix) ∷ [])) m

unfoldable pub geoip_cidrs : Bytes → List Bytes → Dict (List Bytes) → Outcome (Dict (List Bytes))
unfolding cidr_fields add_cidr then_outcome decode_protobuf_fields
geoip_cidrs country [] m = finished m
geoip_cidrs country (c ∷ cs) m =
    then_outcome (decode_protobuf_fields c)
      (λ fs. geoip_cidrs country cs (add_cidr country (cidr_fields fs [] 0) m))

unfoldable pub geoip_entry : Bytes × List Bytes → Dict (List Bytes) → Outcome (Dict (List Bytes))
unfolding geoip_cidrs
geoip_entry (country, items) m =
    if length country == 0 then finished m else geoip_cidrs country items m

unfoldable pub geoip_entries : List Bytes → Dict (List Bytes) → Outcome (Dict (List Bytes))
unfolding entry_fields geoip_entry then_outcome decode_protobuf_fields
geoip_entries [] m = finished m
geoip_entries (e ∷ es) m =
    then_outcome (decode_protobuf_fields e) (λ fs.
      then_outcome (geoip_entry (entry_fields (λ s. s) fs [] []) m) (λ m. geoip_entries es m))

unfoldable pub parse_geoip_protobuf : Bytes → Bytes → Outcome (Dict (List Bytes))
unfolding geoip_entries decode_protobuf_repeated then_outcome
parse_geoip_protobuf text spare =
    then_outcome (decode_protobuf_repeated text spare 1 2) (λ es. geoip_entries es [])

unfoldable pub parse_geoip_data : Bytes → Bytes → Outcome (Dict (List Bytes))
unfolding is_protobuf parse_geoip_protobuf parse_geoip_text
parse_geoip_data text spare =
    if is_protobuf text then parse_geoip_protobuf text spare else finished (parse_geoip_text text)
