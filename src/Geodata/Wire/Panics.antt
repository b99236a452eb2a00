-- ===== src/Geodata/Wire/Panics.antt =====
-- When the readers of fields panic, and when they do not (internal/geodata/geodata.go).
use lynx_dns.Common.{
  ℕ, zero, suc, ◌+◌, ◌*◌, ◌/◌, ◌%◌, ◌^◌, ◌≤◌, ◌<◌, ◌≡◌, ◌⊎◌, refl, arith, true, false, ◌&&◌, ◌||◌,
  none, some, List, [], ◌∷◌, ◌++◌, Bytes, ltb, leb, ◌==◌, length, drop, Bool-cases, inl, inr,
  if_ind, length-drop, length-append,
}
use lynx_dns.Geodata.Wire.Varint.{
  varint_size_pos, varint_size_bound, varint_size-decode_varint, decode_varint_nonempty,
  length-put_uvarint,
}
use lynx_dns.Geodata.Wire.{
  Outcome, finished, panicked, out_of_fuel, map_outcome, ProtoField, Turn, stop, panic, next,
  decode_varint, varint_size, put_uvarint, end_of, fixed_turn, bytes_turn, fields_switch,
  fields_turn, add_field, fields_loop, decode_protobuf_fields,
}
use lynx_dns.Geodata.Wire.Loops.{Ends, Ends-fields_loop}
use lynx_dns.Geodata.Wire.Position.{Stands, varint_reads}

-- A turn that does not panic.
abbrev Goes : Turn → Type 0
Goes panic = ⊥
Goes stop = Unit
Goes (next j f) = Unit

abbrev Kept {ℓ} : {A : Type ℓ} → Outcome A → Type 0
Kept panicked = ⊥
Kept (finished a) = Unit
Kept out_of_fuel = Unit

-- No number in the data is from 2^62 on, wherever one starts to read.
abbrev pub Announces62 : Bytes → Type 0
Announces62 text = (i : ℕ) → decode_varint (drop i text) < 2 ^ 62

Goes-bytes_turn :
    (text : Bytes) (num at size : ℕ)
    → at ≤ 2 ^ 62
    → size < 2 ^ 62
    → Goes (bytes_turn text num at size)
unfolding bytes_turn
Goes-bytes_turn text num at size h k =
    let end = end_of at size in
    let e : end ≡ at + size = omega arith in
    if_ind Goes (ltb end (2 ^ 63) && ltb (length text) end) (λ t. tt)
      (λ f.
        if_ind Goes (leb (2 ^ 63) end || ltb end at) (λ t. absurd (ground (arith, e, t))) (λ f. tt))

Goes-fixed_turn : (text : Bytes) (num wire i size : ℕ) → Goes (fixed_turn text num wire i size)
unfolding fixed_turn
Goes-fixed_turn text num wire i size =
    if_ind Goes (ltb (length text) (i + size)) (λ t. tt) (λ f. tt)

after_size : (i v : ℕ) → i < 2 ^ 61 → i + varint_size v ≤ 2 ^ 62
after_size i v h = ground (arith, varint_size_bound v, h)

Goes-fields_switch :
    (text : Bytes) (num wire i : ℕ)
    → length text < 2 ^ 61
    → Announces62 text
    → i ≤ length text
    → Goes (fields_switch text num wire i)
unfolding fields_switch
Goes-fields_switch text num wire i small h hi =
    let val = decode_varint (drop i text) in
    let size = after_size i val (omega arith) in
    if_ind Goes (ltb (length text) i) (λ t. absurd (ground arith))
      (λ f.
        if_ind Goes (wire == 0) (λ t. tt)
          (λ f.
            if_ind Goes (wire == 2)
              (λ t. Goes-bytes_turn text num (i + varint_size val) val size (h i))
              (λ f.
                if_ind Goes (wire == 1) (λ t. Goes-fixed_turn text num wire i 8)
                  (λ f.
                    if_ind Goes (wire == 5) (λ t. Goes-fixed_turn text num wire i 4) (λ f. tt)))))

Goes-fields_turn :
    (text : Bytes) (i : ℕ) → length text < 2 ^ 61 → Announces62 text → Goes (fields_turn text i)
unfolding fields_turn
Goes-fields_turn text i small h =
    let tag = decode_varint (drop i text) in
    if_ind Goes (tag == 0) (λ t. tt)
      (λ f.
        let some_byte = decode_varint_nonempty (drop i text) (λ e. absurd (ground arith)) in
        let n = varint_size-decode_varint (drop i text) some_byte in
        Goes-fields_switch text (tag / 8) (tag % 8) (i + varint_size tag) small h
          (ground (arith, n, length-drop i text, some_byte)))

Kept-turn :
    (loop : ℕ → Outcome (List ProtoField)) (t : Turn)
    → Goes t
    → ((j : ℕ) → Kept (loop j))
    → Kept (elim t [ stop ↦ finished [] | panic ↦ panicked | next j f ↦ add_field f (loop j) ])
unfolding add_field map_outcome
Kept-turn loop stop g h = tt
Kept-turn loop panic g h = g
Kept-turn loop (next j none) g h = h j
Kept-turn loop (next j (some f)) g h = mapped (loop j) (h j)
  where
    mapped : (r : Outcome (List ProtoField)) → Kept r → Kept (map_outcome (λ fs. f ∷ fs) r)
    mapped (finished fs) k = tt
    mapped panicked k = k
    mapped out_of_fuel k = k

Kept-fields_loop :
    (text : Bytes)
    → length text < 2 ^ 61
    → Announces62 text
    → (n i : ℕ) → Kept (fields_loop n text i)
unfolding fields_loop
Kept-fields_loop text small h zero i =
    if_ind (λ r. Kept {A = List ProtoField} r) (ltb i (length text)) (λ t. tt) (λ f. tt)
Kept-fields_loop text small h (suc n) i = elim (Bool-cases (ltb i (length text))) [
  | inr l ↦ rw (l, fields_loop) tt
  | inl l ↦
      rw (l, fields_loop)
        (Kept-turn (λ j. fields_loop n text j) (fields_turn text i)
          (Goes-fields_turn text i small h) (λ j. Kept-fields_loop text small h n j))
]

result : {A : Type 0} (r : Outcome A) → Ends r → Kept r → (a : A) × (r ≡ finished a)
result (finished a) e k = (a, refl)
result panicked e k = absurd k
result out_of_fuel e k = absurd e

-- For data of fewer than 2^61 bytes in which no number is from 2^62 on, wherever one starts to read,
-- and an int of 64 bits, the reader of fields ends and yields a list of fields: no slice is out of
-- bounds, whatever is truncated or of an unknown wire type. The list need not cover all of the data,
-- since the reader leaves its loop at a tag that is 0, truncated or too long.
pub decode_protobuf_fields_total :
    (text : Bytes)
    → length text < 2 ^ 61
    → Announces62 text
    → (fs : List ProtoField) × (decode_protobuf_fields text ≡ finished fs)
unfolding decode_protobuf_fields
decode_protobuf_fields_total text small h =
    result (fields_loop (length text) text 0) (Ends-fields_loop (length text) text 0 (omega arith))
      (Kept-fields_loop text small h (length text) 0)

bytes_turn_panics :
    (text : Bytes) (num at size : ℕ)
    → at ≤ length text
    → length text < 2 ^ 62
    → 2 ^ 63 ≤ size
    → size < 2 ^ 64
    → bytes_turn text num at size ≡ panic
unfolding bytes_turn
bytes_turn_panics text num at size h small l u =
    let end = end_of at size in
    let wraps : (at + size < 2 ^ 64) ⊎ (2 ^ 64 ≤ at + size) = omega arith in
    let e : (2 ^ 63 ≤ end) ⊎ (end < at) = omega arith in
    let a : (ltb end (2 ^ 63) && ltb (length text) end) ≡ false = ground (arith, e) in
    let b : (leb (2 ^ 63) end || ltb end at) ≡ true = ground (arith, e) in rw (a, b) refl

not_ltb : (a b : ℕ) → b ≤ a → ltb a b ≡ false
not_ltb a b h = ground arith

tag_test : (num : ℕ) → ((num * 8 + 2) == 0) ≡ false
tag_test num = ground arith

fields_turn_panics :
    (text : Bytes) (i num size : ℕ) (rest : Bytes)
    → 1 ≤ num
    → num < 2 ^ 29
    → 2 ^ 63 ≤ size
    → size < 2 ^ 64
    → length text < 2 ^ 62
    → Stands text i (put_uvarint (num * 8 + 2) ++ (put_uvarint size ++ rest))
    → fields_turn text i ≡ panic
unfolding fields_turn fields_switch
fields_turn_panics text i num size rest h k l u small s =
    let tag = num * 8 + 2 in
    let r = varint_reads text i tag (put_uvarint size ++ rest) (omega arith) s in
    let j = i + varint_size tag in
    let q = varint_reads text j size rest u r.1 in
    let inside : ltb (length text) j ≡ false = not_ltb (length text) j r.1.0 in
    let go_on : (tag == 0) ≡ false = tag_test num in
    let n : tag / 8 ≡ num = omega arith in
    let w : tag % 8 ≡ 2 = omega arith in
    rw (r.0, go_on, n, w)
      (rw (inside, q.0) (bytes_turn_panics text num (j + varint_size size) size q.1.0 small l u))

fields_loop_panics :
    (n : ℕ) (text : Bytes)
    → 1 ≤ n
    → 1 ≤ length text
    → fields_turn text 0 ≡ panic
    → fields_loop n text 0 ≡ panicked
unfolding fields_loop
fields_loop_panics zero text h k e = absurd (omega arith)
fields_loop_panics (suc n) text h k e =
    let inside : ltb 0 (length text) ≡ true = ground arith in rw (inside, fields_loop) (rw e refl)

length_lem :
    (tag size : ℕ) (rest : Bytes)
    → (1 ≤ length (put_uvarint tag ++ (put_uvarint size ++ rest)))
      × (length (put_uvarint tag ++ (put_uvarint size ++ rest)) ≤ 20 + length rest)
length_lem tag size rest =
    let a = length-append (put_uvarint tag) (put_uvarint size ++ rest) in
    let b = length-append (put_uvarint size) rest in
    ground (
      arith,
      a,
      b,
      length-put_uvarint tag,
      length-put_uvarint size,
      varint_size_pos tag,
      varint_size_bound tag,
      varint_size_bound size,
    )

-- Data that starts with a field of bytes whose length is from 2^63 on panics.
pub decode_protobuf_fields_panics :
    (num size : ℕ) (rest : Bytes)
    → 1 ≤ num
    → num < 2 ^ 29
    → 2 ^ 63 ≤ size
    → size < 2 ^ 64
    → length rest < 2 ^ 61
    → decode_protobuf_fields (put_uvarint (num * 8 + 2) ++ (put_uvarint size ++ rest)) ≡ panicked
unfolding decode_protobuf_fields
decode_protobuf_fields_panics num size rest h k l u small =
    let text = put_uvarint (num * 8 + 2) ++ (put_uvarint size ++ rest) in
    let a = length_lem (num * 8 + 2) size rest in
    fields_loop_panics (length text) text a.0 a.0
      (fields_turn_panics text 0 num size rest h k l u (omega arith) (omega arith, refl))
