-- ===== src/Log/Rotate/Bounded.antt =====
-- What a write leaves, and how large the file gets (internal/log/log.go).
use lynx_dns.Common.{
  ◌+◌, ◌≤◌, ◌≡◌, ◌⊎◌, inl, inr, refl, sym, ap, ◌∙◌, arith, true, false, none, some, [], ◌++◌, Bytes,
  codes, if◌then◌else◌, length, length-append, Bool-cases, text_eq, text_eq_refl, text_eq_ne,
}
use lynx_dns.Common.Dict.{
  Dict, lookup, insert, delete, lookup-insert, lookup-insert_self, lookup-delete,
}
use lynx_dns.Updater.Download.{content}
use lynx_dns.Log.Rotate.{
  RotatingFileWriter, Files, Calls, open_file, backup_path, rotate, is_over, write_file, write,
}

-- The file is open and its size is known.
abbrev pub IsSound : Files → Type 0
IsSound f =
    let w = f.writer in (w.is_open ≡ true) × (w.curr_size ≡ length (content w.file_path f.disk))

-- Every call succeeds.
abbrev pub AllWell : Calls → Type 0
AllWell c = (c.renames ≡ true) × (c.opens ≡ true) × (c.write_error ≡ none)

abbrev pub log_text : Files → Bytes
log_text f = content f.writer.file_path f.disk

abbrev pub backup_text : Files → Bytes
backup_text f = content (backup_path f.writer) f.disk

content-insert : (path text : Bytes) (m : Dict Bytes) → content path (insert path text m) ≡ text
content-insert path text m =
    ap (λ o. elim o [ none ↦ [] | some t ↦ t ]) (lookup-insert_self path text m)

content-insert_ne :
    (k path text : Bytes) (m : Dict Bytes)
    → text_eq k path ≡ false
    → content path (insert k text m) ≡ content path m
content-insert_ne k path text m h =
    ap (λ o. elim o [ none ↦ [] | some t ↦ t ])
      (lookup-insert k path text m ∙ ap (λ b. if b then some text else lookup path m) h)

content-delete : (path : Bytes) (m : Dict Bytes) → content path (delete path m) ≡ []
content-delete path m =
    ap (λ o. elim o [ none ↦ [] | some t ↦ t ])
      (lookup-delete path path m ∙ ap (λ b. if b then none else lookup path m) (text_eq_refl path))

path_ne : (w : RotatingFileWriter) → text_eq w.file_path (backup_path w) ≡ false
path_ne w =
    text_eq_ne w.file_path (backup_path w)
      (λ e. absurd (ground (arith, ap (λ xs. length xs) e, length-append w.file_path (codes ".1"))))

backup_ne : (w : RotatingFileWriter) → text_eq (backup_path w) w.file_path ≡ false
backup_ne w =
    text_eq_ne (backup_path w) w.file_path
      (λ e. absurd (ground (arith, ap (λ xs. length xs) e, length-append w.file_path (codes ".1"))))

-- The bytes behind the text of a sound writer's file.
write_file_lem :
    (calls : Calls) (p : Bytes) (f : Files)
    → calls.write_error ≡ none
    → IsSound f
    → ((write_file calls p f).1 ≡ true)
      × IsSound (write_file calls p f).0
      × (log_text (write_file calls p f).0 ≡ log_text f ++ p)
      × (backup_text (write_file calls p f).0 ≡ backup_text f)
unfolding write_file
write_file_lem calls p f none_err ok =
    let w = f.writer in
    let text = log_text f ++ p in
    let written = content-insert w.file_path text f.disk in
    rw (ok.0, none_err, write_file)
      (
        refl,
        (
          ok.0,
          ap (λ n. n + length p) ok.1
              ∙ sym (length-append (log_text f) p)
              ∙ ap (λ xs. length xs) (sym written),
        ),
        written,
        content-insert_ne w.file_path (backup_path w) text f.disk (path_ne w),
      )

rotate_lem :
    (calls : Calls) (f : Files)
    → calls.renames ≡ true
    → calls.opens ≡ true
    → IsSound (rotate calls f)
      × (log_text (rotate calls f) ≡ [])
      × (backup_text (rotate calls f) ≡ log_text f)
unfolding rotate open_file
rotate_lem calls f renames opens =
    let w = f.writer in
    let gone = delete w.file_path f.disk in
    let moved = insert (backup_path w) (log_text f) gone in
    let text = content w.file_path moved in
    let empty : text ≡ [] =
      content-insert_ne (backup_path w) w.file_path (log_text f) gone (backup_ne w)
      ∙ content-delete w.file_path f.disk in
    let made = content-insert w.file_path text moved in
    let kept =
      content-insert_ne w.file_path (backup_path w) text moved (path_ne w)
      ∙ content-insert (backup_path w) (log_text f) gone in
    rw (renames, opens, rotate, open_file)
      ((refl, ap (λ xs. length xs) (sym made)), made ∙ empty, kept)

-- A write to a sound writer, when every call succeeds, returns no error and leaves it sound. The
-- bytes go behind the text of the file; but if there is a maximum and the text would outgrow it,
-- the old text becomes the backup and the bytes are the file.
pub write_cases :
    (calls : Calls) (p : Bytes) (f : Files)
    → AllWell calls
    → IsSound f
    → ((write calls p f).1 ≡ true)
      × IsSound (write calls p f).0
      × (((is_over p f.writer ≡ false)
            × (log_text (write calls p f).0 ≡ log_text f ++ p)
            × (backup_text (write calls p f).0 ≡ backup_text f))
          ⊎ ((is_over p f.writer ≡ true)
              × (log_text (write calls p f).0 ≡ p)
              × (backup_text (write calls p f).0 ≡ log_text f)))
unfolding write
write_cases calls p f well ok = elim (Bool-cases (is_over p f.writer)) [
  | inr o ↦
      let h = write_file_lem calls p f well.2 ok in rw (o, write) (h.0, h.1, inl (refl, h.2, h.3))
  | inl o ↦
      let g = rotate calls f in
      let r = rotate_lem calls f well.0 well.1 in
      let h = write_file_lem calls p g well.2 r.0 in
      rw (o, write) (h.0, h.1, inr (refl, h.2 ∙ ap (λ xs. xs ++ p) r.1, h.3 ∙ r.2))
]

-- With a maximum, a write to a sound writer, when every call succeeds, leaves a file of at most that
-- many bytes, or one that holds exactly the bytes of this write.
pub write_within :
    (calls : Calls) (p : Bytes) (f : Files)
    → AllWell calls
    → IsSound f
    → 1 ≤ f.writer.max_size
    → (length (log_text (write calls p f).0) ≤ f.writer.max_size)
      ⊎ (log_text (write calls p f).0 ≡ p)
write_within calls p f well ok limited = elim (write_cases calls p f well ok).2 [
  | inl h ↦
      let e = ap (λ xs. length xs) h.1 ∙ length-append (log_text f) p in
      inl (ground (arith, e, h.0, ok.1, limited))
  | inr h ↦ inr h.1
]
