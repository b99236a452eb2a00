-- ===== src/Geodata/Wire.antt =====
-- The varints of protobuf and the two readers of its fields (internal/geodata/geodata.go). Shifts
-- and masks are quotients and remainders by powers of two, and an `|` of parts that share no bit is
-- their sum. A slice beyond its bounds, or a make of a negative length, panics.
use lynx_dns.Common.{
  ℕ, zero, suc, ◌+◌, ◌-◌, ◌*◌, ◌/◌, ◌%◌, ◌^◌, Bool, true, false, ◌&&◌, ◌||◌, Option, none, some,
  List, [], ◌∷◌, ◌++◌, Bytes, ltb, leb, ◌==◌, if◌then◌else◌, length, take, drop,
}
pub mod Varint
pub mod Loops
pub mod Position
pub mod Encode
pub mod Agree
pub mod Panics

-- How a loop on fuel ends.
pub data Outcome {ℓ} (A : Type ℓ) : Type ℓ where
  finished : A → Outcome A
  panicked : Outcome A
  out_of_fuel : Outcome A

unfoldable pub map_outcome {ℓ κ} : {A : Type ℓ} {B : Type κ} → (A → B) → Outcome A → Outcome B
map_outcome f (finished a) = finished (f a)
map_outcome f panicked = panicked
map_outcome f out_of_fuel = out_of_fuel

-- binary.Uvarint, from the byte `i`, whose digit counts `scale`. After ten bytes, or for a tenth
-- byte above 1, the number is too large, and 0 is returned, as at the end of the buffer.
unfoldable pub uvarint_from : ℕ → ℕ → ℕ → Bytes → ℕ
uvarint_from i scale x [] = 0
uvarint_from i scale x (b ∷ bs) = elim (i == 10) [
  | true ↦ 0
  | false ↦ elim (ltb b 128) [
    | true ↦ if i == 9 && ltb 1 b then 0 else x + b * scale
    | false ↦ uvarint_from (suc i) (scale * 128) (x + b % 128 * scale) bs
  ]
]

unfoldable pub decode_varint : Bytes → ℕ
unfolding uvarint_from
decode_varint text = uvarint_from 0 1 0 text

-- A uint64 has at most ten groups of seven bits.
unfoldable pub varint_size_from : ℕ → ℕ → ℕ
varint_size_from zero v = 1
varint_size_from (suc n) v =
    let rest = varint_size_from n (v / 128) in if leb 128 v then suc rest else 1

unfoldable pub varint_size : ℕ → ℕ
unfolding varint_size_from
varint_size v = varint_size_from 9 v

-- binary.PutUvarint
unfoldable pub put_uvarint_from : ℕ → ℕ → Bytes
put_uvarint_from zero v = (v % 256) ∷ []
put_uvarint_from (suc n) v =
    let rest = put_uvarint_from n (v / 128) in if leb 128 v then (v % 128 + 128) ∷ rest else v ∷ []

unfoldable pub put_uvarint : ℕ → Bytes
unfolding put_uvarint_from
put_uvarint v = put_uvarint_from 9 v

pub record ProtoField : Type 0 where
  pub field_num : ℕ
  pub wire_type : ℕ
  pub data_bytes : Bytes

abbrev pub field_of : ℕ → ℕ → Bytes → ProtoField
field_of num wire text = record { field_num = num; wire_type = wire; data_bytes = text }

-- What a turn of a loop does: it leaves the loop, it panics, or it moves to an index, with the
-- field that it has read, if any.
pub data Turn : Type 0 where
  stop : Turn
  panic : Turn
  next : ℕ → Option ProtoField → Turn

abbrev pub slice : Bytes → ℕ → ℕ → Bytes
slice text i end = take (end - i) (drop i text)

-- `i + int(length)` where an int has 64 bits: the sum wraps, and is negative from 2^63 on. Where it has
-- 32 bits, lengths from 2^31 on differ.
abbrev pub end_of : ℕ → ℕ → ℕ
end_of i length_ = (i + length_) % 2 ^ 64

-- A field of eight or four bytes.
unfoldable pub fixed_turn : Bytes → ℕ → ℕ → ℕ → ℕ → Turn
fixed_turn text num wire i size =
    if ltb (length text) (i + size)
    then next i none
    else next (i + size) (some (field_of num wire (slice text i (i + size))))

-- A field of bytes: an end beyond the data leaves the switch only, a negative one panics, and so
-- does an end before the start.
unfoldable pub bytes_turn : Bytes → ℕ → ℕ → ℕ → Turn
bytes_turn text num at size =
    let end = end_of at size in
    if ltb end (2 ^ 63) && ltb (length text) end
    then next at none
    else if leb (2 ^ 63) end || ltb end at
    then panic
    else next end (some (field_of num 2 (slice text at end)))

-- The switch of decodeProtobufFields, after the tag.
unfoldable pub fields_switch : Bytes → ℕ → ℕ → ℕ → Turn
unfolding decode_varint varint_size put_uvarint bytes_turn fixed_turn
fields_switch text num wire i =
    let val = decode_varint (drop i text) in
    if ltb (length text) i
    then panic
    else if wire == 0
    then next (i + varint_size val) (some (field_of num wire (put_uvarint val)))
    else if wire == 2
    then bytes_turn text num (i + varint_size val) val
    else if wire == 1
    then fixed_turn text num wire i 8
    else if wire == 5
    then fixed_turn text num wire i 4
    else next i none

unfoldable pub fields_turn : Bytes → ℕ → Turn
unfolding fields_switch
fields_turn text i =
    let tag = decode_varint (drop i text) in
    if tag == 0 then stop else fields_switch text (tag / 8) (tag % 8) (i + varint_size tag)

-- The switch of decodeProtobufRepeated. `spare` holds the bytes between the length of the slice and
-- its capacity, which `data[i : i+sz]` may reach.
unfoldable pub repeated_switch : Bytes → Bytes → ℕ → ℕ → ℕ → Turn
unfolding decode_varint varint_size bytes_turn fixed_turn
repeated_switch text spare num wire i =
    let val = decode_varint (drop i text) in
    let end = i + varint_size val in
    if ltb (length text) i
    then panic
    else if wire == 0
    then (if ltb (length (text ++ spare)) end
        then panic
        else next end (some (field_of num wire (slice (text ++ spare) i end))))
    else if wire == 2
    then bytes_turn text num end val
    else if wire == 1
    then fixed_turn text num wire i 8
    else if wire == 5
    then fixed_turn text num wire i 4
    else next i none

unfoldable pub repeated_turn : Bytes → Bytes → ℕ → Turn
unfolding repeated_switch
repeated_turn text spare i =
    let tag = decode_varint (drop i text) in
    if tag == 0 then stop else repeated_switch text spare (tag / 8) (tag % 8) (i + varint_size tag)

unfoldable pub add_field : Option ProtoField → Outcome (List ProtoField) → Outcome (List ProtoField)
unfolding map_outcome
add_field none r = r
add_field (some f) r = map_outcome (λ fs. f ∷ fs) r

-- The loop of decodeProtobufFields from the index `i`.
unfoldable pub fields_loop : ℕ → Bytes → ℕ → Outcome (List ProtoField)
unfolding fields_turn add_field
fields_loop zero text i = if ltb i (length text) then out_of_fuel else finished []
fields_loop (suc n) text i = elim (ltb i (length text)) [
  | false ↦ finished []
  | true ↦ elim (fields_turn text i) [
    | stop ↦ finished []
    | panic ↦ panicked
    | next j f ↦ add_field f (fields_loop n text j)
  ]
]

-- Every turn moves on by a byte at least, so the length of the data is fuel enough.
unfoldable pub decode_protobuf_fields : Bytes → Outcome (List ProtoField)
unfolding fields_loop
decode_protobuf_fields text = fields_loop (length text) text 0

unfoldable pub add_wanted : ℕ → ℕ → Option ProtoField → Outcome (List Bytes) → Outcome (List Bytes)
unfolding map_outcome
add_wanted num wire none r = r
add_wanted num wire (some f) r =
    if f.field_num == num && f.wire_type == wire then map_outcome (λ xs. f.data_bytes ∷ xs) r else r

-- The loop of decodeProtobufRepeated from the index `i`.
unfoldable pub repeated_loop : ℕ → Bytes → Bytes → ℕ → ℕ → ℕ → Outcome (List Bytes)
unfolding repeated_turn add_wanted
repeated_loop zero text spare num wire i = if ltb i (length text) then out_of_fuel else finished []
repeated_loop (suc n) text spare num wire i = elim (ltb i (length text)) [
  | false ↦ finished []
  | true ↦ elim (repeated_turn text spare i) [
    | stop ↦ finished []
    | panic ↦ panicked
    | next j f ↦ add_wanted num wire f (repeated_loop n text spare num wire j)
  ]
]

unfoldable pub decode_protobuf_repeated : Bytes → Bytes → ℕ → ℕ → Outcome (List Bytes)
unfolding repeated_loop
decode_protobuf_repeated text spare num wire = repeated_loop (length text) text spare num wire 0
