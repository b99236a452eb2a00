-- ===== src/Updater/Download/Whole.antt =====
-- A download replaces the file as a whole or not at all (internal/updater/updater.go).
use lynx_dns.Common.{
  ℕ, ◌≡◌, refl, ap, ◌∙◌, arith, true, false, Option, Option-cases, Sum-cases, none, some, ◌⊎◌, inl,
  inr, [], Bytes, codes, ◌==◌, if◌then◌else◌, length, length-append, Bool-cases, text_eq,
  text_eq_ne,
}
use lynx_dns.Common.Dict
use lynx_dns.Common.Dict.{Dict, lookup, insert, lookup-insert, lookup-insert_self, lookup-delete}
use lynx_dns.Geodata.Manager.{DownloadProgress}
use lynx_dns.Updater.Download.{
  Fetch, World, content, Download, finish_download, remove, read_body, tmp_of, rename,
  download_with_progress,
}
use lynx_dns.Updater.Download.Body.{
  body_of, OnlyAt, OnlyAt-trans, OnlyAt-insert, OnlyAt-remove, removed, EndsWith, read_body_ends,
}

-- The bytes that a source delivers, if every step of the download succeeds.
abbrev pub delivered : Fetch → Option Bytes
delivered f = elim f.dir_error [
  | some e ↦ none
  | none ↦ elim f.answer [
    | inl e ↦ none
    | inr resp ↦ elim (resp.status_code == 200) [
      | false ↦ none
      | true ↦ elim f.create_error [
        | some e ↦ none
        | none ↦ elim (body_of resp.body) [
          | none ↦ none
          | some text ↦ elim f.rename_error [ some e ↦ none | none ↦ some text ]
        ]
      ]
    ]
  ]
]

-- What the download returns and what it leaves at `dest`.
abbrev pub Replaces : Bytes → World → Option Bytes → World × Option Bytes → Type 0
Replaces dest w none r =
    ((err : Bytes) × (r.1 ≡ some err)) × (lookup dest r.0.disk ≡ lookup dest w.disk)
Replaces dest w (some text) r = (r.1 ≡ none) × (lookup dest r.0.disk ≡ some text)

-- No temporary file is left, unless the disk was not touched at all, and of the rest only the
-- progress of the manager changes.
abbrev pub Tidy : Bytes → World → World → Type 0
Tidy dest w w' =
    ((lookup (tmp_of dest) w'.disk ≡ none) ⊎ (w'.disk ≡ w.disk))
    × ((p : Bytes)
        → text_eq (tmp_of dest) p ≡ false
        → text_eq dest p ≡ false
        → lookup p w'.disk ≡ lookup p w.disk)
    × ((prog : Dict DownloadProgress) × (w'.manager ≡ record w.manager { progress = prog }))

-- A refusal before the temporary file is made.
refused : (dest err : Bytes) (w : World) → Replaces dest w none (w, some err) × Tidy dest w w
refused dest err w = (((err, refl), refl), (inr refl, (λ p h k. refl), (w.manager.progress, refl)))

-- The temporary file has another name.
tmp_ne : (dest : Bytes) → text_eq (tmp_of dest) dest ≡ false
tmp_ne dest =
    text_eq_ne (tmp_of dest) dest
      (λ e. absurd (ground (arith, ap (λ xs. length xs) e, length-append dest (codes ".tmp"))))

Tidy-OnlyAt :
    (dest : Bytes) (w w' : World)
    → OnlyAt (tmp_of dest) w w'
    → lookup (tmp_of dest) w'.disk ≡ none
    → Tidy dest w w'
Tidy-OnlyAt dest w w' h k = (inl k, (λ p n m. h.0 p n), h.1)

ne_tmp : (dest : Bytes) → text_eq dest (tmp_of dest) ≡ false
ne_tmp dest =
    text_eq_ne dest (tmp_of dest)
      (λ e. absurd (ground (arith, ap (λ xs. length xs) e, length-append dest (codes ".tmp"))))

lookup-insert_ne :
    (k j text : Bytes) (m : Dict Bytes)
    → text_eq k j ≡ false
    → lookup j (insert k text m) ≡ lookup j m
lookup-insert_ne k j text m h =
    lookup-insert k j text m ∙ ap (λ b. if b then some text else lookup j m) h

lookup-delete_ne :
    (k j : Bytes) (m : Dict Bytes) → text_eq k j ≡ false → lookup j (Dict.delete k m) ≡ lookup j m
lookup-delete_ne k j m h = lookup-delete k j m ∙ ap (λ b. if b then none else lookup j m) h

rename_lem :
    (dest text : Bytes) (w v : World)
    → OnlyAt (tmp_of dest) w v
    → lookup (tmp_of dest) v.disk ≡ some text
    → Replaces dest w (some text) (rename (tmp_of dest) dest v, none)
      × Tidy dest w (rename (tmp_of dest) dest v)
unfolding rename
rename_lem dest text w v h k =
    let left = Dict.delete (tmp_of dest) v.disk in
    let moved = content (tmp_of dest) v.disk in
    let gone =
      lookup-insert_ne dest (tmp_of dest) moved left (ne_tmp dest) ∙ removed (tmp_of dest) v in
    (
      (
        refl,
        lookup-insert_self dest moved left
            ∙ ap (λ o. some (elim o [ none ↦ [] | some text ↦ text ])) k,
      ),
      (
        inl gone,
        (λ p n m.
            lookup-insert_ne dest p moved left m
            ∙ lookup-delete_ne (tmp_of dest) p v.disk n
            ∙ h.0 p n),
        h.1,
      ),
    )

finish_lem :
    (dest : Bytes) (w v : World) (o e rename_error : Option Bytes)
    → EndsWith (tmp_of dest) [] o (v, e)
    → OnlyAt (tmp_of dest) w v
    → Replaces dest w
        (elim o [
          | none ↦ none
          | some text ↦ elim rename_error [ some e ↦ none | none ↦ some text ]
        ])
        (finish_download dest rename_error (v, e))
      × Tidy dest w (finish_download dest rename_error (v, e)).0
unfolding finish_download
finish_lem dest w v none none rename_error h k = absurd (ground (arith, h.0.1))
finish_lem dest w v none (some err) rename_error h k =
    (((err, refl), k.0 dest (tmp_ne dest)), Tidy-OnlyAt dest w v k h.1)
finish_lem dest w v (some text) (some err) rename_error h k = absurd (ground (arith, h.0))
finish_lem dest w v (some text) none (some err) h k =
    let t = tmp_of dest in
    let after = remove t v in
    (
      ((_, refl), lookup-delete_ne t dest v.disk (tmp_ne dest) ∙ k.0 dest (tmp_ne dest)),
      Tidy-OnlyAt dest w after (OnlyAt-trans t w v after k (OnlyAt-remove t v)) (removed t v),
    )
finish_lem dest w v (some text) none none h k = rename_lem dest text w v k h.1

-- A download either returns no error and leaves exactly the bytes that the source delivers at the
-- destination, or returns an error and leaves the destination as it was. In both cases every other
-- file stays the same, no temporary file is left unless the disk was not touched at all, and of the
-- manager only the progress changes. It succeeds exactly if every step does. Closing and removing the
-- temporary file, whose errors are ignored, are taken to succeed.
pub download_with_progress_whole :
    (target url dest : Bytes) (i total : ℕ) (fetch : Fetch) (w : World)
    → Replaces dest w (delivered fetch) (download_with_progress target url dest i total fetch w)
      × Tidy dest w (download_with_progress target url dest i total fetch w).0
unfolding download_with_progress
download_with_progress_whole target url dest i total fetch w = elim (Option-cases fetch.dir_error) [
  | inr (err, e) ↦ rw (e, delivered, download_with_progress) (refused dest _ w)
  | inl e ↦ elim (Sum-cases fetch.answer) [
    | inl (err, a) ↦ rw (e, a, delivered, download_with_progress) (refused dest _ w)
    | inr (resp, a) ↦ elim (Bool-cases (resp.status_code == 200)) [
      | inr s ↦
          rw (e, a, delivered, download_with_progress)
            (rw (s, delivered, download_with_progress) (refused dest _ w))
      | inl s ↦ elim (Option-cases fetch.create_error) [
        | inr (err, c) ↦
            rw (e, a, delivered, download_with_progress)
              (rw (s, c, delivered, download_with_progress) (refused dest _ w))
        | inl c ↦
            let tmp = tmp_of dest in
            let d : Download = record {
              target = target;
              url = url;
              tmp_path = tmp;
              source_index = i;
              source_total = total;
              size = resp.content_length;
              start_time = fetch.started;
            } in
            let opened = record w { disk = insert tmp [] w.disk } in
            let r = read_body d resp.body 0 fetch.started opened in
            let b =
              read_body_ends d resp.body 0 fetch.started [] opened
                (lookup-insert_self tmp [] w.disk) in
            let only = OnlyAt-trans tmp w opened r.0 (OnlyAt-insert tmp [] w) b.1 in
            rw (e, a, delivered, download_with_progress)
              (rw (s, c, delivered, download_with_progress)
                (finish_lem dest w r.0 (body_of resp.body) r.1 fetch.rename_error b.0 only))
      ]
    ]
  ]
]
