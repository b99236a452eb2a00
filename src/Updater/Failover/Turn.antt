-- ===== src/Updater/Failover/Turn.antt =====
-- What a turn of the loop over the sources leaves (internal/updater/updater.go).
use mathlib.Core.Path.{subst}
use lynx_dns.Common.{
  ℕ, suc, ◌-◌, ◌≡◌, refl, ap, ◌∙◌, arith, Option, none, some, ◌⊎◌, inl, inr, List, [], ◌∷◌, ◌++◌,
  Bytes, codes, ltb, if◌then◌else◌, length, drop, pos,
}
use lynx_dns.Common.Dict.{lookup, lookup-insert_self}
use lynx_dns.Geodata.Manager.{
  Manager, DownloadProgress, UpdateHistoryEntry, set_progress, add_history, max_history_entries,
}
use lynx_dns.Geodata.Load.{File, LoadResult, load_ok, load_failed, load_panicked}
use lynx_dns.Updater.Messages.{from_source, downloads, of_total, loading_message}
use lynx_dns.Updater.Download.{World, download_with_progress}
use lynx_dns.Updater.Download.Whole.{delivered, Replaces, download_with_progress_whole}
use lynx_dns.Updater.Failover.{
  Attempt, read_file, settle, after_download, tell, entry_of, Tried, worked, failed, died,
  try_source,
}

-- A function that reads a list's file: what it comes to depends on the file only, and it leaves the
-- progress and the history as they are.
pub record Loader : Type 0 where
  pub load : File → Manager → Manager × LoadResult
  pub verdict : File → LoadResult
  pub load_verdict : (f : File) (m : Manager) → (load f m).1 ≡ verdict f
  pub load_history : (f : File) (m : Manager) → (load f m).0.history ≡ m.history

pub data Fate : Type 0 where
  good : Fate
  bad : Fate
  fatal : Fate

abbrev pub fate_of_load : LoadResult → Fate
fate_of_load load_ok = good
fate_of_load (load_failed err) = bad
fate_of_load load_panicked = fatal

-- What a source comes to: good if all of it arrives and loads, fatal if it arrives and panics.
unfoldable pub fate : Loader → Attempt → Fate
fate l a = elim (delivered a.fetch) [
  | none ↦ bad
  | some text ↦ fate_of_load (l.verdict (read_file (some text) a))
]

-- The history after an entry, which keeps the last fifty.
abbrev pub pushed : UpdateHistoryEntry → List UpdateHistoryEntry → List UpdateHistoryEntry
pushed e old =
    let h = old ++ (e ∷ []) in
    if ltb max_history_entries (length h) then drop (length h - max_history_entries) h else h

-- The history grows by entries for the target, with the URLs and statuses of the list.
abbrev pub Grows :
    Bytes → List (Bytes × Bytes) → List UpdateHistoryEntry → List UpdateHistoryEntry → Type 0
Grows target [] h h' = h' ≡ h
Grows target ((url, status) ∷ rest) h h' =
    (e : UpdateHistoryEntry) × (e.target ≡ target)
    × (e.url ≡ url)
    × (e.status ≡ status)
    × Grows target rest (pushed e h) h'

-- The progress of the target has the status and the number of the source.
abbrev pub Shows : Bytes → Bytes → ℕ → World → Type 0
Shows target status n w =
    (p : DownloadProgress) × (lookup target w.manager.progress ≡ some p)
    × (p.status ≡ status)
    × (p.source_index ≡ n)

-- What a turn at the source `n`, counted from 1, leaves, by its fate.
abbrev pub AfterTurn : Bytes → Bytes → ℕ → List UpdateHistoryEntry → Fate → World × Tried → Type 0
AfterTurn target url n h good t =
    (t.1 ≡ worked)
    × Grows target ((url, codes "success") ∷ []) h t.0.manager.history
    × Shows target (codes "completed") n t.0
AfterTurn target url n h bad t =
    ((err : Bytes) × (t.1 ≡ failed err))
    × Grows target ((url, codes "failed") ∷ []) h t.0.manager.history
AfterTurn target url n h fatal t = (t.1 ≡ died) × (t.0.manager.history ≡ h)

module _ (target url : Bytes) (n total : ℕ) (a : Attempt) where
  settle_lem :
      (r : LoadResult) (w : World)
      → AfterTurn target url n w.manager.history (fate_of_load r) (settle target n total url a r w)
  unfolding settle add_history set_progress
  settle_lem load_ok w = (
    refl,
    (entry_of target url (codes "success") _ a, refl, refl, refl, refl),
    (_, lookup-insert_self target _ w.manager.progress, refl, refl),
  )
  settle_lem (load_failed err) w =
      ((err, refl), (entry_of target url (codes "failed") _ a, refl, refl, refl, refl))
  settle_lem load_panicked w = (refl, refl)

  load_step :
      (dest : Bytes) (l : Loader) (v : World) (text : Bytes)
      → lookup dest v.disk ≡ some text
      → let r = l.load (read_file (lookup dest v.disk) a) v.manager in
        AfterTurn target url n v.manager.history
          (fate_of_load (l.verdict (read_file (some text) a)))
          (settle target n total url a r.1 (record v { manager = r.0 }))
  load_step dest l v text h =
      let file = read_file (lookup dest v.disk) a in
      let r = l.load file v.manager in
      let t = settle target n total url a r.1 (record v { manager = r.0 }) in
      let verdict : r.1 ≡ l.verdict (read_file (some text) a) =
        l.load_verdict file v.manager ∙ ap (λ o. l.verdict (read_file o a)) h in
      subst (λ f. AfterTurn target url n v.manager.history f t) (ap fate_of_load verdict)
        (subst (λ h. AfterTurn target url n h (fate_of_load r.1) t) (l.load_history file v.manager)
          (settle_lem r.1 (record v { manager = r.0 })))

  after_download_lem :
      (dest : Bytes) (l : Loader) (v w : World) (o e : Option Bytes)
      → Replaces dest w o (v, e)
      → AfterTurn target url n v.manager.history
          (elim o [ none ↦ bad | some text ↦ fate_of_load (l.verdict (read_file (some text) a)) ])
          (after_download target dest l.load n total url a (v, e))
  unfolding after_download add_history set_progress
  after_download_lem dest l v w none none h = absurd (ground (arith, h.0.1))
  after_download_lem dest l v w none (some err) h =
      ((err, refl), (entry_of target url (codes "failed") _ a, refl, refl, refl, refl))
  after_download_lem dest l v w (some text) (some err) h = absurd (ground (arith, h.0))
  after_download_lem dest l v w (some text) none h =
      load_step dest l (tell target (codes "loading") url (pos 100) n total loading_message v) text
        h.1

module _ (l : Loader) (target dest : Bytes) (total : ℕ) where
  pub turn :
      (i : ℕ) (url : Bytes) (a : Attempt) (w : World)
      → AfterTurn target url
          (suc i)
          w.manager.history
          (fate l a)
          (try_source target dest l.load total i url a w)
  unfolding try_source fate set_progress
  turn i url a w =
      let n = suc i in
      let begun =
        tell target (codes "downloading") url (pos 0) n total
          (from_source ++ of_total n total ++ downloads) w in
      let got = download_with_progress target url dest i total a.fetch begun in
      let whole = download_with_progress_whole target url dest i total a.fetch begun in
      let same : got.0.manager.history ≡ w.manager.history =
        ap (λ (m : Manager). m.history) whole.1.2.1 in
      subst
        (λ h.
          AfterTurn target url n h (fate l a) (after_download target dest l.load n total url a got))
        same
        (after_download_lem target url n total a dest l got.0 begun (delivered a.fetch) got.1
          whole.0)

pub Fate-cases : (f : Fate) → (f ≡ good) ⊎ ((f ≡ bad) ⊎ (f ≡ fatal))
Fate-cases good = inl refl
Fate-cases bad = inr (inl refl)
Fate-cases fatal = inr (inr refl)
