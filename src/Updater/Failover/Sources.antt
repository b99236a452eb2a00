-- ===== src/Updater/Failover/Sources.antt =====
-- Which source an update uses, and what it records (internal/updater/updater.go).
use mathlib.Core.Path.{subst}
use lynx_dns.Common.{
  ℕ, zero, suc, ◌+◌, ◌≡◌, ◌<◌, refl, sym, ap, ◌∙◌, arith, false, inl, inr, List, [], ◌∷◌, Bytes,
  codes, ◌==◌, length,
}
use lynx_dns.Common.Dict.{lookup-insert_self}
use lynx_dns.Geodata.Manager.{set_progress}
use lynx_dns.Updater.Download.{World}
use lynx_dns.Updater.Failover.{
  Attempt, UpdateResult, updated, not_updated, crashed, try_source, exhausted, try_sources,
  update_with_failover,
}
use lynx_dns.Updater.Failover.Turn.{
  AfterTurn, Fate, Fate-cases, Grows, Loader, Shows, bad, fatal, fate, good, turn,
}

-- The sources that are tried, each with the status that the history records for it.
unfoldable pub outcomes : Loader → (ℕ → Attempt) → ℕ → List Bytes → List (Bytes × Bytes)
unfolding fate
outcomes l attempts i [] = []
outcomes l attempts i (url ∷ urls) = elim (fate l (attempts i)) [
  | good ↦ (url, codes "success") ∷ []
  | bad ↦ (url, codes "failed") ∷ outcomes l attempts (suc i) urls
  | fatal ↦ []
]

-- What the update comes to: the fate of the first source that is not bad, and its number.
unfoldable pub settled : Loader → (ℕ → Attempt) → ℕ → List Bytes → Fate × ℕ
unfolding fate
settled l attempts i [] = (bad, i)
settled l attempts i (url ∷ urls) = elim (fate l (attempts i)) [
  | good ↦ (good, suc i)
  | bad ↦ settled l attempts (suc i) urls
  | fatal ↦ (fatal, suc i)
]

-- What the update returns and shows.
abbrev pub Reports : Bytes → Fate × ℕ → World × UpdateResult → Type 0
Reports target (good, n) r = (r.1 ≡ updated) × Shows target (codes "completed") n r.0
Reports target (bad, n) r =
    ((err : Bytes) × (r.1 ≡ not_updated err)) × Shows target (codes "failed") 0 r.0
Reports target (fatal, n) r = r.1 ≡ crashed

module _ (l : Loader) (target dest : Bytes) (total : ℕ) (attempts : ℕ → Attempt) where
  try_sources_lem :
      (urls : List Bytes) (i : ℕ) (last_err : Bytes) (w : World)
      → let r = try_sources target dest l.load total attempts i urls last_err w in
        Grows target (outcomes l attempts i urls) w.manager.history r.0.manager.history
        × Reports target (settled l attempts i urls) r
  unfolding try_sources outcomes settled exhausted set_progress
  try_sources_lem [] i last_err w =
      (refl, ((_, refl), (_, lookup-insert_self target _ w.manager.progress, refl, refl)))
  try_sources_lem (url ∷ urls) i last_err w =
      let t = try_source target dest l.load total i url (attempts i) w in
      let done = turn l target dest total i url (attempts i) w in
      let at = λ (f : Fate). AfterTurn target url (suc i) w.manager.history f t in
      elim (Fate-cases (fate l (attempts i))) [
        | inl f ↦
            let h = subst at f done in
            rw (f, outcomes, settled) (rw (h.0, try_sources) (h.1, (refl, h.2)))
        | inr (inl f) ↦
            let h = subst at f done in
            let ih = try_sources_lem urls (suc i) h.0.0 t.0 in
            let e = h.1.0 in
            rw (f, outcomes, settled)
              (rw (h.0.1, try_sources)
                (
                  (
                    e,
                    h.1.1,
                    h.1.2,
                    h.1.3,
                    subst
                        (λ old.
                          Grows target (outcomes l attempts (suc i) urls) old
                            (try_sources target dest l.load total attempts (suc i) urls h.0.0
                              t.0).0.manager.history)
                        h.1.4 ih.0,
                  ),
                  ih.1,
                ))
        | inr (inr f) ↦
            let h = subst at f done in rw (f, outcomes, settled) (rw (h.0, try_sources) (h.1, refl))
      ]

-- An update from sources the first of which is not empty tries them in their order until one
-- arrives and loads: the history grows by one entry for each source that was tried, "failed" for
-- those before and "success" for that one, of which the last fifty entries are kept, and the update returns no error and shows the progress
-- "completed" with the number of the source; if no source arrives and loads, it returns an error and
-- shows "failed"; a source whose file panics the reader ends the program.
pub update_with_failover-settled :
    (l : Loader) (target dest url : Bytes) (urls : List Bytes) (now : ℕ) (attempts : ℕ → Attempt)
    (w : World)
    → (length url == 0) ≡ false
    → Grows target
        (outcomes l attempts 0 (url ∷ urls))
        w.manager.history
        (update_with_failover target (url ∷ urls) dest l.load now attempts w).0.manager.history
      × Reports target
          (settled l attempts 0 (url ∷ urls))
          (update_with_failover target (url ∷ urls) dest l.load now attempts w)
unfolding update_with_failover
update_with_failover-settled l target dest url urls now attempts w h =
    rw (h, update_with_failover)
      (try_sources_lem l target dest (suc (length urls)) attempts (url ∷ urls) 0 [] w)

settled-good :
    (l : Loader) (attempts : ℕ → Attempt) (urls : List Bytes) (i k : ℕ)
    → k < length urls
    → ((j : ℕ) → j < k → fate l (attempts (i + j)) ≡ bad)
    → fate l (attempts (i + k)) ≡ good
    → settled l attempts i urls ≡ (good, suc (i + k))
unfolding settled
settled-good l attempts [] i k h before at = absurd (omega arith)
settled-good l attempts (url ∷ urls) i zero h before at =
    let e : i + 0 ≡ i = omega arith in
    let at' = subst (λ n. fate l (attempts n) ≡ good) e at in rw (at', settled, e) refl
settled-good l attempts (url ∷ urls) i (suc k) h before at =
    let e : i + 0 ≡ i = omega arith in
    let first = subst (λ n. fate l (attempts n) ≡ bad) e (before 0 (omega arith)) in
    let shift = λ (j : ℕ) (p : i + suc j ≡ suc i + j). p in
    let ih =
      settled-good l attempts urls (suc i) k (omega arith)
        (λ j lt.
          subst (λ n. fate l (attempts n) ≡ bad) (shift j (omega arith))
            (before (suc j) (omega arith)))
        (subst (λ n. fate l (attempts n) ≡ good) (shift k (omega arith)) at) in
    rw (first, settled) (ih ∙ ap (λ n. (good, suc n)) (sym (shift k (omega arith))))

-- If some source arrives and loads, and all before it fail without a panic, the update succeeds and
-- shows the progress "completed" with the number of that source.
pub update_with_failover_succeeds :
    (l : Loader) (target dest url : Bytes) (urls : List Bytes) (now : ℕ) (attempts : ℕ → Attempt)
    (w : World) (k : ℕ)
    → (length url == 0) ≡ false
    → k < suc (length urls)
    → ((j : ℕ) → j < k → fate l (attempts j) ≡ bad)
    → fate l (attempts k) ≡ good
    → ((update_with_failover target (url ∷ urls) dest l.load now attempts w).1 ≡ updated)
      × Shows target
          (codes "completed")
          (suc k)
          (update_with_failover target (url ∷ urls) dest l.load now attempts w).0
update_with_failover_succeeds l target dest url urls now attempts w k h lt before at =
    let r = update_with_failover target (url ∷ urls) dest l.load now attempts w in
    let plus = λ (n : ℕ) (p : n ≡ 0 + n). p in
    let s =
      settled-good l attempts (url ∷ urls) 0 k lt
        (λ j lt. subst (λ n. fate l (attempts n) ≡ bad) (plus j (omega arith)) (before j lt))
        (subst (λ n. fate l (attempts n) ≡ good) (plus k (omega arith)) at) in
    subst (λ s. Reports target s r) (s ∙ ap (λ n. (good, suc n)) (sym (plus k (omega arith))))
      (update_with_failover-settled l target dest url urls now attempts w h).1
