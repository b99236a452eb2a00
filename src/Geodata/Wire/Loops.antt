-- ===== src/Geodata/Wire/Loops.antt =====
-- The loops over the fields (internal/geodata/geodata.go): they end, when they panic, and that
-- the two readers agree.
use mathlib.Core.Path.{subst}
use lynx_dns.Common.{
  ℕ, zero, suc, ◌+◌, ◌/◌, ◌%◌, ◌^◌, ◌≤◌, ◌≢◌, arith, ◌&&◌, ◌||◌, Option, none, some, List, [],
  Bytes, ltb, leb, ◌==◌, length, drop, Bool-cases, inl, inr, if_ind,
}
use lynx_dns.Geodata.Wire.Varint.{varint_size_pos}
use lynx_dns.Geodata.Wire.{
  Outcome, finished, panicked, out_of_fuel, map_outcome, ProtoField, Turn, stop, panic, next,
  decode_varint, varint_size, end_of, fixed_turn, bytes_turn, fields_switch, fields_turn, add_field,
  fields_loop, decode_protobuf_fields,
}

-- A turn that moves on does not move before the index `i`.
abbrev pub MovesTo : ℕ → Turn → Type 0
MovesTo i stop = Unit
MovesTo i panic = Unit
MovesTo i (next j f) = i ≤ j

abbrev pub Ends {ℓ} : {A : Type ℓ} → Outcome A → Type 0
Ends (finished a) = Unit
Ends panicked = Unit
Ends out_of_fuel = ⊥

Ends→ne {ℓ} : {A : Type ℓ} (r : Outcome A) → Ends r → r ≢ out_of_fuel
Ends→ne r h e = subst (λ o. Ends o) e h

MovesTo-fixed_turn :
    (text : Bytes) (num wire i size : ℕ) → MovesTo i (fixed_turn text num wire i size)
unfolding fixed_turn
MovesTo-fixed_turn text num wire i size =
    if_ind (λ t. MovesTo i t) (ltb (length text) (i + size)) (λ t. omega arith) (λ f. omega arith)

MovesTo-bytes_turn :
    (text : Bytes) (num i at size : ℕ) → i ≤ at → MovesTo i (bytes_turn text num at size)
unfolding bytes_turn
MovesTo-bytes_turn text num i at size h =
    let end = end_of at size in
    if_ind (λ t. MovesTo i t) (ltb end (2 ^ 63) && ltb (length text) end) (λ t. h)
      (λ f.
        if_ind (λ t. MovesTo i t) (leb (2 ^ 63) end || ltb end at) (λ t. tt) (λ g. ground arith))

MovesTo-fields_switch : (text : Bytes) (num wire i : ℕ) → MovesTo i (fields_switch text num wire i)
unfolding fields_switch
MovesTo-fields_switch text num wire i =
    let val = decode_varint (drop i text) in
    let P : Turn → Type 0 = λ t. MovesTo i t in
    if_ind P (ltb (length text) i) (λ t. tt)
      (λ f.
        if_ind P (wire == 0) (λ t. omega arith)
          (λ f.
            if_ind P (wire == 2)
              (λ t. MovesTo-bytes_turn text num i (i + varint_size val) val (omega arith))
              (λ f.
                if_ind P (wire == 1) (λ t. MovesTo-fixed_turn text num wire i 8)
                  (λ f.
                    if_ind P (wire == 5) (λ t. MovesTo-fixed_turn text num wire i 4)
                      (λ f. omega arith)))))

pub MovesTo-fields_turn : (text : Bytes) (i : ℕ) → MovesTo (suc i) (fields_turn text i)
unfolding fields_turn
MovesTo-fields_turn text i =
    let tag = decode_varint (drop i text) in
    if_ind (λ t. MovesTo (suc i) t) (tag == 0) (λ t. tt)
      (λ f.
        later (suc i) (i + varint_size tag) (ground (arith, varint_size_pos tag))
          (fields_switch text (tag / 8) (tag % 8) (i + varint_size tag))
          (MovesTo-fields_switch text (tag / 8) (tag % 8) (i + varint_size tag)))
  where
    later : (i k : ℕ) → i ≤ k → (t : Turn) → MovesTo k t → MovesTo i t
    later i k h stop m = tt
    later i k h panic m = tt
    later i k h (next j f) m = omega arith

Ends-add_field :
    (f : Option ProtoField) (r : Outcome (List ProtoField)) → Ends r → Ends (add_field f r)
unfolding add_field map_outcome
Ends-add_field none r h = h
Ends-add_field (some f) (finished fs) h = tt
Ends-add_field (some f) panicked h = tt
Ends-add_field (some f) out_of_fuel h = h

Ends-turn :
    (loop : ℕ → Outcome (List ProtoField)) (i : ℕ) (t : Turn)
    → MovesTo i t
    → ((j : ℕ) → i ≤ j → Ends (loop j))
    → Ends (elim t [ stop ↦ finished [] | panic ↦ panicked | next j f ↦ add_field f (loop j) ])
Ends-turn loop i stop m h = tt
Ends-turn loop i panic m h = tt
Ends-turn loop i (next j f) m h = Ends-add_field f (loop j) (h j m)

pub Ends-fields_loop :
    (n : ℕ) (text : Bytes) (i : ℕ) → length text ≤ n + i → Ends (fields_loop n text i)
unfolding fields_loop
Ends-fields_loop zero text i h =
    if_ind (λ r. Ends {A = List ProtoField} r) (ltb i (length text)) (λ t. absurd (ground arith))
      (λ f. tt)
Ends-fields_loop (suc n) text i h = elim (Bool-cases (ltb i (length text))) [
  | inr l ↦ rw (l, fields_loop) tt
  | inl l ↦
      rw (l, fields_loop)
        (Ends-turn (λ j. fields_loop n text j) (suc i) (fields_turn text i)
          (MovesTo-fields_turn text i) (λ j m. Ends-fields_loop n text j (omega arith)))
]

-- The length of the data is fuel enough: whatever the bytes are, the reader comes to an end.
pub decode_protobuf_fields_ends : (text : Bytes) → decode_protobuf_fields text ≢ out_of_fuel
unfolding decode_protobuf_fields
decode_protobuf_fields_ends text =
    Ends→ne (fields_loop (length text) text 0) (Ends-fields_loop (length text) text 0 (omega arith))
