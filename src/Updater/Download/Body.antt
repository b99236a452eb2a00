-- ===== src/Updater/Download/Body.antt =====
-- What a download leaves on the disk (internal/updater/updater.go).
use lynx_dns.Common.{
  ℕ, ◌+◌, ◌≡◌, refl, sym, ap, ◌∙◌, arith, Bool, true, false, Option, Option-cases, none, some, inl,
  inr, [], ◌∷◌, ◌++◌, append-nil, append_assoc, Bytes, codes, ltb, if◌then◌else◌, length,
  Bool-cases, if_ind, text_eq, text_eq_refl,
}
use lynx_dns.Common.Dict.{Dict, lookup, insert, lookup-insert, lookup-insert_self, lookup-delete}
use lynx_dns.Geodata.Manager.{Manager, DownloadProgress, set_progress}
use lynx_dns.Updater.Download.{
  Chunk, eof, broken, Reads, more, last, World, content, Download, remove, write_chunk,
  fails_to_write, is_due, report, read_body,
}

-- The bytes that the source sends, if they all arrive and are written.
abbrev pub body_of : Reads → Option Bytes
body_of (last c eof) = elim (fails_to_write c) [ some e ↦ none | none ↦ some c.bytes ]
body_of (last c (broken e)) = none
body_of (more c rest) = elim (fails_to_write c) [
  | some e ↦ none
  | none ↦ elim (body_of rest) [ none ↦ none | some text ↦ some (c.bytes ++ text) ]
]

-- Only the progress of the manager and the file at `path` differ.
abbrev pub OnlyAt : Bytes → World → World → Type 0
OnlyAt path w w' =
    ((p : Bytes) → text_eq path p ≡ false → lookup p w'.disk ≡ lookup p w.disk)
    × ((prog : Dict DownloadProgress) × (w'.manager ≡ record w.manager { progress = prog }))

abbrev with_progress : Dict DownloadProgress → Manager → Manager
with_progress prog m = record m { progress = prog }

pub OnlyAt-refl : (path : Bytes) (w : World) → OnlyAt path w w
OnlyAt-refl path w = ((λ p h. refl), (w.manager.progress, refl))

pub OnlyAt-trans :
    (path : Bytes) (u v w : World) → OnlyAt path u v → OnlyAt path v w → OnlyAt path u w
OnlyAt-trans path u v w h k =
    ((λ p n. k.0 p n ∙ h.0 p n), (k.1.0, k.1.1 ∙ ap (with_progress k.1.0) h.1.1))

pub OnlyAt-insert :
    (path text : Bytes) (w : World) → OnlyAt path w (record w { disk = insert path text w.disk })
OnlyAt-insert path text w = (
  (λ p n. lookup-insert path p text w.disk ∙ ap (λ b. if b then some text else lookup p w.disk) n),
  (w.manager.progress, refl),
)

pub OnlyAt-remove : (path : Bytes) (w : World) → OnlyAt path w (remove path w)
OnlyAt-remove path w = (
  (λ p n. lookup-delete path p w.disk ∙ ap (λ b. if b then none else lookup p w.disk) n),
  (w.manager.progress, refl),
)

OnlyAt-write_chunk : (path bytes : Bytes) (w : World) → OnlyAt path w (write_chunk path bytes w)
unfolding write_chunk
OnlyAt-write_chunk path bytes w =
    if_ind (λ v. OnlyAt path w v) (ltb 0 (length bytes))
      (λ t. OnlyAt-insert path (content path w.disk ++ bytes) w) (λ f. OnlyAt-refl path w)

OnlyAt-report :
    (path : Bytes) (d : Download) (n now told : ℕ) (ends : Bool) (w : World)
    → OnlyAt path w (report d n now told ends w)
unfolding report set_progress
OnlyAt-report path d n now told ends w =
    if_ind (λ v. OnlyAt path w v) (is_due now told ends) (λ t. ((λ p h. refl), (_, refl)))
      (λ f. OnlyAt-refl path w)

empty_bytes : (bytes : Bytes) → ltb 0 (length bytes) ≡ false → bytes ≡ []
empty_bytes [] h = refl
empty_bytes (b ∷ bs) h = absurd (ground arith)

lookup-write_chunk :
    (path bytes pre : Bytes) (w : World)
    → lookup path w.disk ≡ some pre
    → lookup path (write_chunk path bytes w).disk ≡ some (pre ++ bytes)
unfolding write_chunk
lookup-write_chunk path bytes pre w h = elim (Bool-cases (ltb 0 (length bytes))) [
  | inl l ↦ rw l (
      lookup-insert_self path (content path w.disk ++ bytes) w.disk
      ∙ ap (λ o. some (elim o [ none ↦ [] | some text ↦ text ] ++ bytes)) h)
  | inr l ↦
      rw l
        (h ∙ ap some (sym (append-nil pre)) ∙ ap (λ b. some (pre ++ b)) (sym (empty_bytes bytes l)))
]

disk-report :
    (d : Download) (n now told : ℕ) (ends : Bool) (w : World)
    → (report d n now told ends w).disk ≡ w.disk
unfolding report
disk-report d n now told ends w =
    if_ind (λ (v : World). v.disk ≡ w.disk) (is_due now told ends) (λ t. refl) (λ f. refl)

-- How a read of the body ends: with an error and no file, or with all the bytes behind `pre`.
abbrev pub EndsWith : Bytes → Bytes → Option Bytes → World × Option Bytes → Type 0
EndsWith path pre none r = ((err : Bytes) × (r.1 ≡ some err)) × (lookup path r.0.disk ≡ none)
EndsWith path pre (some text) r = (r.1 ≡ none) × (lookup path r.0.disk ≡ some (pre ++ text))

pub removed : (path : Bytes) (w : World) → lookup path (remove path w).disk ≡ none
removed path w =
    lookup-delete path path w.disk
    ∙ ap (λ b. if b then none else lookup path w.disk) (text_eq_refl path)

abbrev err_of : Bytes → Bytes
err_of err = codes "failed to write file: " ++ err

module _ (d : Download) (c : Chunk) (n told : ℕ) (ends : Bool) (pre : Bytes) (w : World) where
  abbrev step : World
  step = report d n c.at told ends (write_chunk d.tmp_path c.bytes w)

  OnlyAt-step : OnlyAt d.tmp_path w step
  OnlyAt-step =
      let v = write_chunk d.tmp_path c.bytes w in
      OnlyAt-trans d.tmp_path w v step (OnlyAt-write_chunk d.tmp_path c.bytes w)
        (OnlyAt-report d.tmp_path d n c.at told ends v)

  lookup-step :
      lookup d.tmp_path w.disk ≡ some pre → lookup d.tmp_path step.disk ≡ some (pre ++ c.bytes)
  lookup-step h =
      let v = write_chunk d.tmp_path c.bytes w in
      ap (lookup d.tmp_path) (disk-report d n c.at told ends v)
      ∙ lookup-write_chunk d.tmp_path c.bytes pre w h

-- The rest of the body stands behind the bytes of the first call.
EndsWith-more :
    (path pre bytes : Bytes) (o : Option Bytes) (r : World × Option Bytes)
    → EndsWith path (pre ++ bytes) o r
    → EndsWith path pre (elim o [ none ↦ none | some text ↦ some (bytes ++ text) ]) r
EndsWith-more path pre bytes none r h = h
EndsWith-more path pre bytes (some text) r h = (h.0, h.1 ∙ ap some (append_assoc pre bytes text))

pub read_body_ends :
    (d : Download) (reads : Reads) (n told : ℕ) (pre : Bytes) (w : World)
    → lookup d.tmp_path w.disk ≡ some pre
    → EndsWith d.tmp_path pre (body_of reads) (read_body d reads n told w)
      × OnlyAt d.tmp_path w (read_body d reads n told w).0
unfolding read_body
read_body_ends d (last c eof) n told pre w h = elim (Option-cases (fails_to_write c)) [
  | inr (err, e) ↦
      rw (e, EndsWith, body_of, read_body)
        (((err_of err, refl), removed d.tmp_path w), OnlyAt-remove d.tmp_path w)
  | inl e ↦
      let total = n + length c.bytes in
      rw (e, EndsWith, body_of, read_body)
        ((refl, lookup-step d c total told true pre w h), OnlyAt-step d c total told true pre w)
]
read_body_ends d (last c (broken b)) n told pre w h =
    let total = n + length c.bytes in
    let after = step d c total told true pre w in
    elim (Option-cases (fails_to_write c)) [
      | inr (err, e) ↦
          rw (e, EndsWith, body_of, read_body)
            (((err_of err, refl), removed d.tmp_path w), OnlyAt-remove d.tmp_path w)
      | inl e ↦
          rw (e, EndsWith, body_of, read_body)
            (
              ((_, refl), removed d.tmp_path after),
              OnlyAt-trans d.tmp_path w after (remove d.tmp_path after)
                  (OnlyAt-step d c total told true pre w) (OnlyAt-remove d.tmp_path after),
            )
    ]
read_body_ends d (more c rest) n told pre w h =
    let total = n + length c.bytes in
    let after = step d c total told false pre w in
    let next = if is_due c.at told false then c.at else told in
    let ih =
      read_body_ends d rest total next (pre ++ c.bytes) after
        (lookup-step d c total told false pre w h) in
    elim (Option-cases (fails_to_write c)) [
      | inr (err, e) ↦
          rw (e, EndsWith, body_of, read_body)
            (((err_of err, refl), removed d.tmp_path w), OnlyAt-remove d.tmp_path w)
      | inl e ↦
          rw (e, EndsWith, body_of, read_body)
            (
              EndsWith-more d.tmp_path pre c.bytes (body_of rest)
                  (read_body d rest total next after) ih.0,
              OnlyAt-trans d.tmp_path w after (read_body d rest total next after).0
                  (OnlyAt-step d c total told false pre w) ih.1,
            )
    ]
