-- ===== src/Geodata/Wire/Encode.antt =====
-- The encoding of fields by the protobuf documentation, which decodeProtobufFields undoes
-- (internal/geodata/geodata.go).
use mathlib.Core.Path.{subst}
use lynx_dns.Common.{
  ℕ, zero, suc, ◌+◌, ◌*◌, ◌/◌, ◌%◌, ◌^◌, ◌≤◌, ◌<◌, ◌≡◌, ◌⊎◌, refl, sym, ap, ◌∙◌, arith, true, false,
  some, List, [], ◌∷◌, ◌++◌, Bytes, ltb, ◌==◌, if◌then◌else◌, length, All, inl, inr, length-append,
  append_assoc,
}
use lynx_dns.Geodata.Wire.Varint.{length-put_uvarint, varint_size_pos}
use lynx_dns.Geodata.Wire.Loops.{MovesTo, MovesTo-fields_turn}
use lynx_dns.Geodata.Wire.{
  finished, ProtoField, field_of, Turn, next, varint_size, put_uvarint, fields_switch, fields_turn,
  fields_loop, decode_protobuf_fields,
}
use lynx_dns.Geodata.Wire.Position.{
  Stands, Stands-length, Stands-past, fixed_turn_reads, bytes_turn_reads, varint_reads,
}

-- What follows the tag: the length stands before the bytes of a field of bytes only.
unfoldable pub encode_payload : ℕ → Bytes → Bytes
unfolding put_uvarint
encode_payload wire text = if wire == 2 then put_uvarint (length text) ++ text else text

unfoldable pub encode_field : ProtoField → Bytes
unfolding encode_payload
encode_field f =
    put_uvarint (f.field_num * 8 + f.wire_type) ++ encode_payload f.wire_type f.data_bytes

unfoldable pub encode_fields : List ProtoField → Bytes
unfolding encode_field
encode_fields [] = []
encode_fields (f ∷ fs) = encode_field f ++ encode_fields fs

-- The bytes that a field of the wire type holds.
abbrev pub HoldsFor : ℕ → Bytes → Type 0
HoldsFor wire text =
    ((wire ≡ 2) ⊎ ((wire ≡ 0) × ((v : ℕ) × (v < 2 ^ 64) × (text ≡ put_uvarint v))))
    ⊎ (((wire ≡ 1) × (length text ≡ 8)) ⊎ ((wire ≡ 5) × (length text ≡ 4)))

-- The numbers of fields are from 1 to 2^29 - 1.
abbrev pub IsField : ProtoField → Type 0
IsField f = (1 ≤ f.field_num) × (f.field_num < 2 ^ 29) × HoldsFor f.wire_type f.data_bytes

-- A turn at the bytes `xs` that reads the field `f`, and leaves `rest`.
abbrev Reads : Bytes → ProtoField → Bytes → Turn → Type 0
Reads text f rest t = (j : ℕ) × (t ≡ next j (some f)) × Stands text j rest

module _ (text : Bytes) (small : length text < 2 ^ 62) (num i : ℕ) (rest : Bytes) where
  varint_field :
      (v : ℕ)
      → v < 2 ^ 64
      → Stands text i (put_uvarint v ++ rest)
      → Reads text (field_of num 0 (put_uvarint v)) rest (fields_switch text num 0 i)
  unfolding fields_switch
  varint_field v hv h =
      let r = varint_reads text i v rest hv h in
      let inside : ltb (length text) i ≡ false = ground (arith, h.0) in
      (i + varint_size v, rw (inside, r.0) refl, r.1)

  bytes_field :
      (d : Bytes)
      → Stands text i (put_uvarint (length d) ++ (d ++ rest))
      → Reads text (field_of num 2 d) rest (fields_switch text num 2 i)
  unfolding fields_switch
  bytes_field d h =
      let l = Stands-length text i (put_uvarint (length d) ++ (d ++ rest)) h in
      let m = length-append (put_uvarint (length d)) (d ++ rest) in
      let r =
        varint_reads text i (length d) (d ++ rest) (ground (arith, l, m, length-append d rest)) h in
      let inside : ltb (length text) i ≡ false = ground (arith, h.0) in
      let at = i + varint_size (length d) in
      (
        at + length d,
        rw (inside, r.0) (bytes_turn_reads text num at d rest small r.1),
        Stands-past text at d rest (length d) refl r.1,
      )

  fixed_field :
      (wire size : ℕ) (d : Bytes)
      → ((wire ≡ 1) × (size ≡ 8)) ⊎ ((wire ≡ 5) × (size ≡ 4))
      → length d ≡ size
      → Stands text i (d ++ rest)
      → Reads text (field_of num wire d) rest (fields_switch text num wire i)
  unfolding fields_switch
  fixed_field wire size d (inl w) hd h =
      let inside : ltb (length text) i ≡ false = ground (arith, h.0) in
      let r = fixed_turn_reads text num 1 i 8 d rest (hd ∙ w.1) h in
      (i + size, rw (w.0, w.1, inside) r, Stands-past text i d rest size (sym hd) h)
  fixed_field wire size d (inr w) hd h =
      let inside : ltb (length text) i ≡ false = ground (arith, h.0) in
      let r = fixed_turn_reads text num 5 i 4 d rest (hd ∙ w.1) h in
      (i + size, rw (w.0, w.1, inside) r, Stands-past text i d rest size (sym hd) h)

  -- The same at a wire type that is known.
  at_wire :
      (wire k : ℕ) (d : Bytes)
      → wire ≡ k
      → (Stands text i (encode_payload k d ++ rest)
          → Reads text (field_of num k d) rest (fields_switch text num k i))
      → Stands text i (encode_payload wire d ++ rest)
      → Reads text (field_of num wire d) rest (fields_switch text num wire i)
  at_wire wire k d e h =
      subst
        (λ w.
          Stands text i (encode_payload w d ++ rest)
          → Reads text (field_of num w d) rest (fields_switch text num w i))
        (sym e) h

  payload_reads :
      (wire : ℕ) (d : Bytes)
      → HoldsFor wire d
      → Stands text i (encode_payload wire d ++ rest)
      → Reads text (field_of num wire d) rest (fields_switch text num wire i)
  unfolding encode_payload
  payload_reads wire d (inl (inl w)) h =
      at_wire wire 2 d w
        (λ s. bytes_field d (s.0, s.1 ∙ append_assoc (put_uvarint (length d)) d rest)) h
  payload_reads wire d (inl (inr (w, ve))) h =
      at_wire wire 0 d w
        (λ s.
          subst (λ b. Reads text (field_of num 0 b) rest (fields_switch text num 0 i)) (sym ve.2)
            (varint_field ve.0 ve.1 (s.0, s.1 ∙ ap (λ b. b ++ rest) ve.2)))
        h
  payload_reads wire d (inr (inl (w, e))) h =
      at_wire wire 1 d w (λ s. fixed_field 1 8 d (inl (refl, refl)) e s) h
  payload_reads wire d (inr (inr (w, e))) h =
      at_wire wire 5 d w (λ s. fixed_field 5 4 d (inr (refl, refl)) e s) h

fields_turn_reads :
    (text : Bytes)
    → length text < 2 ^ 62
    → (i : ℕ) (f : ProtoField) (rest : Bytes) → IsField f
    → Stands text i (encode_field f ++ rest)
    → Reads text f rest (fields_turn text i)
unfolding encode_field fields_turn
fields_turn_reads text small i f rest ok h =
    let tag = f.field_num * 8 + f.wire_type in
    let wire8 : f.wire_type < 8 = ground (arith, ok.2) in
    let num1 = ok.0 in
    let num2 = ok.1 in
    let body = encode_payload f.wire_type f.data_bytes in
    let r =
      varint_reads text i tag (body ++ rest) (omega arith)
        (h.0, h.1 ∙ append_assoc (put_uvarint tag) body rest) in
    let go_on : (tag == 0) ≡ false = ground arith in
    let n : tag / 8 ≡ f.field_num = omega arith in
    let w : tag % 8 ≡ f.wire_type = omega arith in
    rw (r.0, go_on, n, w)
      (payload_reads text small f.field_num (i + varint_size tag) rest f.wire_type f.data_bytes ok.2
        r.1)

encode_fields_pos : (f : ProtoField) (fs : List ProtoField) → 1 ≤ length (encode_fields (f ∷ fs))
unfolding encode_fields encode_field
encode_fields_pos f fs =
    let tag = f.field_num * 8 + f.wire_type in
    let body = encode_payload f.wire_type f.data_bytes in
    ground (
      arith,
      length-append (encode_field f) (encode_fields fs),
      length-append (put_uvarint tag) body,
      length-put_uvarint tag,
      varint_size_pos tag,
    )

fields_loop_reads :
    (text : Bytes)
    → length text < 2 ^ 62
    → (fs : List ProtoField) → All IsField fs
    → (n i : ℕ) → length text ≤ n + i
    → Stands text i (encode_fields fs)
    → fields_loop n text i ≡ finished fs
unfolding encode_fields fields_loop
fields_loop_reads text small [] ok zero i hn h =
    let out : ltb i (length text) ≡ false = ground (arith, Stands-length text i [] h) in rw out refl
fields_loop_reads text small [] ok (suc n) i hn h =
    let out : ltb i (length text) ≡ false = ground (arith, Stands-length text i [] h) in
    rw (out, fields_loop) refl
fields_loop_reads text small (f ∷ fs) ok zero i hn h =
    absurd (ground (arith, Stands-length text i (encode_fields (f ∷ fs)) h, encode_fields_pos f fs))
fields_loop_reads text small (f ∷ fs) ok (suc n) i hn h =
    let l = Stands-length text i (encode_fields (f ∷ fs)) h in
    let inside : ltb i (length text) ≡ true = ground (arith, l, encode_fields_pos f fs) in
    let r = fields_turn_reads text small i f (encode_fields fs) ok.0 h in
    let j = r.0 in
    let moved : suc i ≤ j = subst (λ t. MovesTo (suc i) t) r.1 (MovesTo-fields_turn text i) in
    let rest = fields_loop_reads text small fs ok.1 n j (omega arith) r.2 in
    rw (inside, fields_loop) (rw (r.1, rest) refl)

-- The reader returns the fields of an encoding: any fields with numbers from 1 to 2^29 - 1, of the
-- four wire types, each with the bytes that its wire type holds, in fewer than 2^62 bytes.
pub decode_protobuf_fields-encode_fields :
    (fs : List ProtoField)
    → All IsField fs
    → length (encode_fields fs) < 2 ^ 62
    → decode_protobuf_fields (encode_fields fs) ≡ finished fs
unfolding decode_protobuf_fields
decode_protobuf_fields-encode_fields fs ok small =
    let text = encode_fields fs in
    fields_loop_reads text small fs ok (length text) 0 (omega arith) (omega arith, refl)
