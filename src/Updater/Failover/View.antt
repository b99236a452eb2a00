-- ===== src/Updater/Failover/View.antt =====
-- What an update leaves of the list that it loads (internal/updater/updater.go).
use mathlib.Core.Path.{subst}
use lynx_dns.Common.{
  ℕ, zero, suc, ◌+◌, ◌≡◌, ◌<◌, refl, sym, ap, ◌∙◌, arith, Option, none, some, List, [], ◌∷◌, ◌++◌,
  Bytes, codes, ◌==◌, length, false, pos,
}
use lynx_dns.Common.Dict.{Dict, lookup}
use lynx_dns.Geodata.Manager.{
  Manager, DownloadProgress, UpdateHistoryEntry, set_progress, add_history,
}
use lynx_dns.Geodata.Load.{File, LoadResult, load_ok, load_failed, load_panicked}
use lynx_dns.Updater.Messages.{from_source, of_total, downloads, loading_message}
use lynx_dns.Updater.Download.{World, download_with_progress}
use lynx_dns.Updater.Download.Whole.{delivered, Replaces, download_with_progress_whole}
use lynx_dns.Updater.Failover.{
  Attempt, read_file, tell, settle, after_download, try_source, try_sources, update_with_failover,
}
use lynx_dns.Updater.Failover.Turn.{Loader, good, bad, fate, fate_of_load, AfterTurn, turn}

-- A part of the manager that only the loading of a file changes, and what it is then.
pub record View (l : Loader) : Type 1 where
  pub Part : Type 0
  pub view : Manager → Part
  pub effect : File → Part
  pub view_effect :
      (f : File) (m : Manager) → l.verdict f ≡ load_ok → view (l.load f m).0 ≡ effect f
  pub view_progress :
      (m : Manager) (p : Dict DownloadProgress) → view (record m { progress = p }) ≡ view m
  pub view_history :
      (m : Manager) (h : List UpdateHistoryEntry) → view (record m { history = h }) ≡ view m

good_verdict : (r : LoadResult) → fate_of_load r ≡ good → r ≡ load_ok
good_verdict load_ok h = refl
good_verdict (load_failed err) h = absurd (ground (arith, h))
good_verdict load_panicked h = absurd (ground (arith, h))

module _ (l : Loader) (v : View l) (target dest : Bytes) (total : ℕ) where
  settle_view :
      (url : Bytes) (n : ℕ) (a : Attempt) (w : World)
      → v.view (settle target n total url a load_ok w).0.manager ≡ v.view w.manager
  unfolding settle set_progress add_history
  settle_view url n a w = v.view_progress _ _ ∙ v.view_history _ _

  after_download_view :
      (url text : Bytes) (n : ℕ) (a : Attempt) (w : World) (e : Option Bytes)
      → e ≡ none
      → lookup dest w.disk ≡ some text
      → l.verdict (read_file (some text) a) ≡ load_ok
      → v.view (after_download target dest l.load n total url a (w, e)).0.manager
        ≡ v.effect (read_file (some text) a)
  unfolding after_download
  after_download_view url text n a w none he there ok =
      let loading = tell target (codes "loading") url (pos 100) n total loading_message w in
      let file = read_file (lookup dest w.disk) a in
      let same : file ≡ read_file (some text) a = ap (λ o. read_file o a) there in
      let r = l.load file loading.manager in
      let fine : l.verdict file ≡ load_ok = ap (λ f. l.verdict f) same ∙ ok in
      let loaded : r.1 ≡ load_ok = l.load_verdict file loading.manager ∙ fine in
      let after : World = record loading { manager = r.0 } in
      ap (λ o. v.view (settle target n total url a o after).0.manager) loaded
      ∙ settle_view url n a after
      ∙ v.view_effect file loading.manager fine
      ∙ ap (λ f. v.effect f) same
  after_download_view url text n a w (some err) he there ok = absurd (ground (arith, he))

  try_source_view :
      (i : ℕ) (url text : Bytes) (a : Attempt) (w : World)
      → delivered a.fetch ≡ some text
      → l.verdict (read_file (some text) a) ≡ load_ok
      → v.view (try_source target dest l.load total i url a w).0.manager
        ≡ v.effect (read_file (some text) a)
  unfolding try_source
  try_source_view i url text a w arrives ok =
      let n = suc i in
      let begun =
        tell target (codes "downloading") url (pos 0) n total
          (from_source ++ of_total n total ++ downloads) w in
      let got = download_with_progress target url dest i total a.fetch begun in
      let whole = (download_with_progress_whole target url dest i total a.fetch begun).0 in
      let left : Replaces dest begun (some text) got =
        subst (λ o. Replaces dest begun o got) arrives whole in
      after_download_view url text n a got.0 got.1 left.0 left.1 ok

  -- All of the text arrives in the attempt, and it loads.
  abbrev Arrives : Bytes → Attempt → Type 0
  Arrives text a = (delivered a.fetch ≡ some text) × (l.verdict (read_file (some text) a) ≡ load_ok)

  Arrives-good : (text : Bytes) (a : Attempt) → Arrives text a → fate l a ≡ good
  unfolding fate
  Arrives-good text a h = rw (h.0, fate) (ap fate_of_load h.1)

  module _ (attempts : ℕ → Attempt) (text : Bytes) where
    try_sources_view :
        (urls : List Bytes) (i k : ℕ) (last_err : Bytes) (w : World)
        → k < length urls
        → ((j : ℕ) → j < k → fate l (attempts (i + j)) ≡ bad)
        → Arrives text (attempts (i + k))
        → v.view (try_sources target dest l.load total attempts i urls last_err w).0.manager
          ≡ v.effect (read_file (some text) (attempts (i + k)))
    unfolding try_sources
    try_sources_view [] i k last_err w h before at = absurd (omega arith)
    try_sources_view (url ∷ urls) i zero last_err w h before at =
        let e : i + 0 ≡ i = omega arith in
        let at' = subst (λ n. Arrives text (attempts n)) e at in
        let t = try_source target dest l.load total i url (attempts i) w in
        let done =
          subst (λ f. AfterTurn target url (suc i) w.manager.history f t)
            (Arrives-good text (attempts i) at') (turn l target dest total i url (attempts i) w) in
        rw (done.0, try_sources)
          (try_source_view i url text (attempts i) w at'.0 at'.1
            ∙ ap (λ n. v.effect (read_file (some text) (attempts n))) (sym e))
    try_sources_view (url ∷ urls) i (suc k) last_err w h before at =
        let e : i + 0 ≡ i = omega arith in
        let first = subst (λ n. fate l (attempts n) ≡ bad) e (before 0 (omega arith)) in
        let shift = λ (j : ℕ) (p : i + suc j ≡ suc i + j). p in
        let t = try_source target dest l.load total i url (attempts i) w in
        let done =
          subst (λ f. AfterTurn target url (suc i) w.manager.history f t) first
            (turn l target dest total i url (attempts i) w) in
        let ih =
          try_sources_view urls (suc i) k done.0.0 t.0 (omega arith)
            (λ j lt.
              subst (λ n. fate l (attempts n) ≡ bad) (shift j (omega arith))
                (before (suc j) (omega arith)))
            (subst (λ n. Arrives text (attempts n)) (shift k (omega arith)) at) in
        rw (done.0.1, try_sources)
          (ih
            ∙ ap (λ n. v.effect (read_file (some text) (attempts n))) (sym (shift k (omega arith))))

-- After an update in which all of the text arrives and loads at the source `k`, and the sources
-- before it fail without a panic, the part has the effect of that file.
pub update_with_failover_view :
    (l : Loader) (v : View l) (target dest url : Bytes) (urls : List Bytes) (now : ℕ)
    (attempts : ℕ → Attempt) (text : Bytes) (w : World) (k : ℕ)
    → (length url == 0) ≡ false
    → k < suc (length urls)
    → ((j : ℕ) → j < k → fate l (attempts j) ≡ bad)
    → delivered (attempts k).fetch ≡ some text
    → l.verdict (read_file (some text) (attempts k)) ≡ load_ok
    → v.view (update_with_failover target (url ∷ urls) dest l.load now attempts w).0.manager
      ≡ v.effect (read_file (some text) (attempts k))
unfolding update_with_failover
update_with_failover_view l v target dest url urls now attempts text w k h lt before arrives ok =
    let plus = λ (n : ℕ) (p : n ≡ 0 + n). p in
    rw (h, update_with_failover)
      (try_sources_view l v target dest (suc (length urls)) attempts text (url ∷ urls) 0 k [] w lt
          (λ j lt. subst (λ n. fate l (attempts n) ≡ bad) (plus j (omega arith)) (before j lt))
          (subst
            (λ n.
              (delivered (attempts n).fetch ≡ some text)
              × (l.verdict (read_file (some text) (attempts n)) ≡ load_ok))
            (plus k (omega arith)) (arrives, ok))
        ∙ ap (λ n. v.effect (read_file (some text) (attempts n))) (sym (plus k (omega arith))))
