-- ===== src/Log/Ansi.antt =====
-- stripANSI of internal/log/log.go.
use lynx_dns.Common.{
  ℕ, ◌≡◌, inl, inr, refl, sym, ap, ◌∙◌, Bool, true, false, ◌&&◌, ◌||◌, [], ◌∷◌, ◌++◌, Bytes, leb,
  ◌==◌, All, Bool-cases, append-nil, append_assoc,
}

-- Where the loops stand: before a byte of the text, behind an escape, or among the parameters of a
-- sequence.
pub data Place : Type 0 where
  in_text : Place
  behind_escape : Place
  in_params : Place

abbrev pub is_param : ℕ → Bool
is_param c = (leb b'0' c && leb c b'9') || c == b';'

-- The loops from a byte on. A bracket opens the parameters, the first other byte behind them
-- ends the sequence and is dropped, and behind an escape without a bracket the text goes on.
unfoldable pub strip_from : Place → Bytes → Bytes
strip_from place [] = []
strip_from in_text (c ∷ cs) = elim (c == 27) [
  | true ↦ strip_from behind_escape cs
  | false ↦ c ∷ strip_from in_text cs
]
strip_from behind_escape (c ∷ cs) = elim (c == b'[') [
  | true ↦ strip_from in_params cs
  | false ↦ elim (c == 27) [
    | true ↦ strip_from behind_escape cs
    | false ↦ c ∷ strip_from in_text cs
  ]
]
strip_from in_params (c ∷ cs) = elim (is_param c) [
  | true ↦ strip_from in_params cs
  | false ↦ strip_from in_text cs
]

unfoldable pub strip_ansi : Bytes → Bytes
unfolding strip_from
strip_ansi s = strip_from in_text s

-- A byte that is no escape.
abbrev pub IsPlain : ℕ → Type 0
IsPlain c = (c == 27) ≡ false

strip_from-IsPlain : (p : Place) (s : Bytes) → All IsPlain (strip_from p s)
unfolding strip_from
strip_from-IsPlain in_text [] = tt
strip_from-IsPlain behind_escape [] = tt
strip_from-IsPlain in_params [] = tt
strip_from-IsPlain in_text (c ∷ cs) = elim (Bool-cases (c == 27)) [
  | inl e ↦ rw (e, strip_from) (strip_from-IsPlain behind_escape cs)
  | inr e ↦ rw (e, strip_from) (e, strip_from-IsPlain in_text cs)
]
strip_from-IsPlain behind_escape (c ∷ cs) = elim (Bool-cases (c == b'[')) [
  | inl b ↦ rw (b, strip_from) (strip_from-IsPlain in_params cs)
  | inr b ↦ elim (Bool-cases (c == 27)) [
    | inl e ↦ rw (b, strip_from) (rw (e, strip_from) (strip_from-IsPlain behind_escape cs))
    | inr e ↦ rw (b, strip_from) (rw (e, strip_from) (e, strip_from-IsPlain in_text cs))
  ]
]
strip_from-IsPlain in_params (c ∷ cs) = elim (Bool-cases (is_param c)) [
  | inl e ↦ rw (e, strip_from) (strip_from-IsPlain in_params cs)
  | inr e ↦ rw (e, strip_from) (strip_from-IsPlain in_text cs)
]

-- Plain text stays as it is, and the loop goes on behind it.
strip_ansi-plain : (s t : Bytes) → All IsPlain s → strip_ansi (s ++ t) ≡ s ++ strip_ansi t
unfolding strip_ansi strip_from
strip_ansi-plain [] t h = refl
strip_ansi-plain (c ∷ s) t h = rw (h.0, strip_from) (ap (λ xs. c ∷ xs) (strip_ansi-plain s t h.1))

-- The parameters of a sequence are bytes that do not end it.
abbrev pub IsParam : ℕ → Type 0
IsParam c = is_param c ≡ true

params_skipped :
    (ps t : Bytes) (end : ℕ)
    → All IsParam ps
    → is_param end ≡ false
    → strip_from in_params (ps ++ (end ∷ t)) ≡ strip_from in_text t
unfolding strip_from
params_skipped [] t end h e = rw (e, strip_from) refl
params_skipped (p ∷ ps) t end h e = rw (h.0, strip_from) (params_skipped ps t end h.1 e)

-- An escape sequence: the escape, a bracket, the parameters and a last byte.
abbrev pub sequence : Bytes → ℕ → Bytes
sequence ps end = 27 ∷ b'[' ∷ (ps ++ (end ∷ []))

sequence_skipped :
    (ps t : Bytes) (end : ℕ)
    → All IsParam ps
    → is_param end ≡ false
    → strip_ansi (sequence ps end ++ t) ≡ strip_ansi t
unfolding strip_ansi strip_from
sequence_skipped ps t end h e =
    ap (λ s. strip_from in_params s) (append_assoc ps (end ∷ []) t) ∙ params_skipped ps t end h e

-- What stripANSI returns has no escape.
pub strip_ansi-IsPlain : (s : Bytes) → All IsPlain (strip_ansi s)
unfolding strip_ansi
strip_ansi-IsPlain s = strip_from-IsPlain in_text s

-- stripANSI takes two escape sequences, each with parameters and a last byte, out of a text that
-- has no other escape, and leaves all the rest of the text as it is.
pub strip_ansi_painted :
    (a ps b qs c : Bytes) (end last : ℕ)
    → All IsPlain a
    → All IsPlain b
    → All IsPlain c
    → All IsParam ps
    → All IsParam qs
    → is_param end ≡ false
    → is_param last ≡ false
    → strip_ansi (a ++ (sequence ps end ++ (b ++ (sequence qs last ++ c)))) ≡ a ++ (b ++ c)
unfolding strip_ansi strip_from
strip_ansi_painted a ps b qs c end last ha hb hc hp hq he hl =
    let tail = b ++ (sequence qs last ++ c) in
    let all_c = strip_ansi-plain c [] hc in
    let of_c : strip_ansi c ≡ c = ap strip_ansi (sym (append-nil c)) ∙ all_c ∙ append-nil c in
    strip_ansi-plain a (sequence ps end ++ tail) ha
    ∙ ap (λ s. a ++ s)
        (sequence_skipped ps tail end hp he ∙ strip_ansi-plain b (sequence qs last ++ c) hb)
    ∙ ap (λ s. a ++ (b ++ s)) (sequence_skipped qs c last hq hl ∙ of_c)
