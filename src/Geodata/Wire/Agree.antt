-- ===== src/Geodata/Wire/Agree.antt =====
-- The two readers of fields, decodeProtobufFields and decodeProtobufRepeated, against each other
-- (internal/geodata/geodata.go).
use lynx_dns.Common.{
  ℕ, zero, suc, ◌+◌, ◌/◌, ◌%◌, ◌≤◌, ◌≡◌, ◌≢◌, ◌⊎◌, refl, ap, ◌∙◌, arith, false, ◌&&◌, Option, none,
  some, List, [], ◌∷◌, ◌++◌, Bytes, ltb, ◌==◌, if◌then◌else◌, length, drop, Bool-cases, inl, inr,
  if_ind, length-drop, length-append,
}
use lynx_dns.Geodata.Wire.Varint.{varint_size-decode_varint}
use lynx_dns.Geodata.Wire.{
  Outcome, finished, panicked, out_of_fuel, map_outcome, ProtoField, field_of, Turn, stop, panic,
  next, decode_varint, varint_size, fields_switch, fields_turn, uvarint_from, varint_size_from,
  repeated_switch, repeated_turn, add_field, fields_loop, decode_protobuf_fields, add_wanted,
  repeated_loop, decode_protobuf_repeated,
}

-- What stays of the fields: the bytes of those with the number and the wire type.
unfoldable pub wanted : ℕ → ℕ → List ProtoField → List Bytes
wanted num wire [] = []
wanted num wire (f ∷ fs) =
    let rest = wanted num wire fs in
    if f.field_num == num && f.wire_type == wire then f.data_bytes ∷ rest else rest

-- Two turns that differ at most in a field that is not wanted.
abbrev Matches : ℕ → ℕ → Turn → Turn → Type 0
Matches num wire stop stop = Unit
Matches num wire panic panic = Unit
Matches num wire (next j f) (next k g) =
    (j ≡ k) × ((r : Outcome (List Bytes)) → add_wanted num wire f r ≡ add_wanted num wire g r)
Matches num wire t u = ⊥

Matches-refl : (num wire : ℕ) (t : Turn) → Matches num wire t t
Matches-refl num wire stop = tt
Matches-refl num wire panic = tt
Matches-refl num wire (next j f) = (refl, λ r. refl)

list_cases : (bs : Bytes) → (bs ≡ []) ⊎ (1 ≤ length bs)
list_cases [] = inl refl
list_cases (b ∷ bs) = inr (omega arith)

module _ (text spare : Bytes) (room : 1 ≤ length spare) (num wire : ℕ) (framed : wire ≢ 0) where
  unwanted :
      (f g : ProtoField)
      → f.wire_type ≡ 0
      → g.wire_type ≡ 0
      → (r : Outcome (List Bytes)) → add_wanted num wire (some f) r ≡ add_wanted num wire (some g) r
  unfolding add_wanted
  unwanted f g hf hg r =
      let zf : (f.field_num == num && f.wire_type == wire) ≡ false = ground arith in
      let zg : (g.field_num == num && g.wire_type == wire) ≡ false = ground arith in
      rw (zf, zg) refl

  within :
      (i : ℕ)
      → i ≤ length text
      → i + varint_size (decode_varint (drop i text)) ≤ length (text ++ spare)
  unfolding decode_varint uvarint_from varint_size varint_size_from
  within i h =
      let n = length-drop i text in
      let m = length-append text spare in
      elim (list_cases (drop i text)) [
        | inl e ↦ rw e (ground (arith, m, room))
        | inr e ↦ ground (arith, varint_size-decode_varint (drop i text) e, n, m)
      ]

  Matches-switch :
      (n w i : ℕ) → Matches num wire (repeated_switch text spare n w i) (fields_switch text n w i)
  unfolding repeated_switch fields_switch
  Matches-switch n w i = elim (Bool-cases (ltb (length text) i)) [
    | inl l ↦ rw l tt
    | inr l ↦ elim (Bool-cases (w == 0)) [
      | inr k ↦ rw (l, k) (Matches-refl num wire _)
      | inl k ↦
          let w0 : w ≡ 0 = ground arith in
          let cap : ltb (length (text ++ spare)) (i + varint_size (decode_varint (drop i text)))
              ≡ false =
            ground (arith, within i (ground arith)) in
          rw (l, k, cap) (refl, unwanted (field_of n w _) (field_of n w _) w0 w0)
    ]
  ]

  Matches-repeated_turn :
      (i : ℕ) → Matches num wire (repeated_turn text spare i) (fields_turn text i)
  unfolding repeated_turn fields_turn
  Matches-repeated_turn i =
      let tag = decode_varint (drop i text) in
      elim (Bool-cases (tag == 0)) [
        | inl l ↦ rw l tt
        | inr l ↦ rw l (Matches-switch (tag / 8) (tag % 8) (i + varint_size tag))
      ]

add_wanted-map :
    (num wire : ℕ) (f : Option ProtoField) (r : Outcome (List ProtoField))
    → add_wanted num wire f (map_outcome (λ fs. wanted num wire fs) r)
      ≡ map_outcome (λ fs. wanted num wire fs) (add_field f r)
unfolding add_wanted add_field map_outcome wanted
add_wanted-map num wire none r = refl
add_wanted-map num wire (some f) (finished fs) =
    elim (Bool-cases (f.field_num == num && f.wire_type == wire)) [
      | inl h ↦ rw h refl
      | inr h ↦ rw h refl
    ]
add_wanted-map num wire (some f) panicked =
    if_ind (λ r. r ≡ map_outcome (λ fs. wanted num wire fs) panicked)
      (f.field_num == num && f.wire_type == wire) (λ t. refl) (λ t. refl)
add_wanted-map num wire (some f) out_of_fuel =
    if_ind (λ r. r ≡ map_outcome (λ fs. wanted num wire fs) out_of_fuel)
      (f.field_num == num && f.wire_type == wire) (λ t. refl) (λ t. refl)

turns :
    (num wire : ℕ) (more : ℕ → Outcome (List ProtoField)) (rest : ℕ → Outcome (List Bytes))
    → ((j : ℕ) → rest j ≡ map_outcome (λ fs. wanted num wire fs) (more j))
    → (t u : Turn) → Matches num wire t u
    → elim t [ stop ↦ finished [] | panic ↦ panicked | next j f ↦ add_wanted num wire f (rest j) ]
      ≡ map_outcome
          (λ fs. wanted num wire fs)
          (elim u [ stop ↦ finished [] | panic ↦ panicked | next j f ↦ add_field f (more j) ])
unfolding map_outcome wanted
turns num wire more rest h stop stop m = refl
turns num wire more rest h panic panic m = refl
turns num wire more rest h stop panic m = elim m [ ]
turns num wire more rest h stop (next k g) m = elim m [ ]
turns num wire more rest h panic stop m = elim m [ ]
turns num wire more rest h panic (next k g) m = elim m [ ]
turns num wire more rest h (next j f) stop m = elim m [ ]
turns num wire more rest h (next j f) panic m = elim m [ ]
turns num wire more rest h (next j f) (next k g) m =
    ap (λ i. add_wanted num wire f (rest i)) m.0
    ∙ m.1 (rest k)
    ∙ ap (λ r. add_wanted num wire g r) (h k)
    ∙ add_wanted-map num wire g (more k)

repeated_loop-fields_loop :
    (text spare : Bytes)
    → 1 ≤ length spare
    → (num wire : ℕ) → wire ≢ 0
    → (n i : ℕ)
    → repeated_loop n text spare num wire i
      ≡ map_outcome (λ fs. wanted num wire fs) (fields_loop n text i)
unfolding repeated_loop fields_loop map_outcome wanted
repeated_loop-fields_loop text spare cap num wire framed zero i =
    elim (Bool-cases (ltb i (length text))) [ inl l ↦ rw l refl | inr l ↦ rw l refl ]
repeated_loop-fields_loop text spare cap num wire framed (suc n) i =
    elim (Bool-cases (ltb i (length text))) [
      | inl l ↦
          rw (l, repeated_loop, fields_loop)
            (turns num wire (λ j. fields_loop n text j) (λ j. repeated_loop n text spare num wire j)
              (λ j. repeated_loop-fields_loop text spare cap num wire framed n j)
              (repeated_turn text spare i) (fields_turn text i)
              (Matches-repeated_turn text spare cap num wire framed i))
      | inr l ↦ rw (l, repeated_loop, fields_loop) refl
    ]

-- The reader of a repeated field that is no varint returns exactly the bytes of those fields of the
-- general reader that have its number and its wire type, in their order, and it panics where that
-- one does, for an int of 64 bits, and data whose slice has capacity beyond its length, as os.ReadFile
-- returns it.
pub decode_protobuf_repeated-decode_protobuf_fields :
    (text spare : Bytes)
    → 1 ≤ length spare
    → (num wire : ℕ) → wire ≢ 0
    → decode_protobuf_repeated text spare num wire
      ≡ map_outcome (λ fs. wanted num wire fs) (decode_protobuf_fields text)
unfolding decode_protobuf_repeated decode_protobuf_fields
decode_protobuf_repeated-decode_protobuf_fields text spare cap num wire framed =
    repeated_loop-fields_loop text spare cap num wire framed (length text) 0
