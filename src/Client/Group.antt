-- ===== src/Client/Group.antt =====
-- The result of a group (QueryGroup of internal/client/client.go).
use mathlib.Core.List.{Memᴰ}
use lynx_dns.Common.{
  ℕ, suc, ◌≤◌, ◌≡◌, refl, ap, sym, ◌∙◌, ◌⊎◌, inl, inr, arith, Bool-cases, Option, none, some, List,
  [], ◌∷◌, All, Bytes, ltb, take, pos,
}
use lynx_dns.Client.Query.{
  DnsClient, QueryError, all_failed, Outcome, replied, failed, Result, Net, query_all, better_of,
  better, pick_best, group_result, select, query_selected, query_group,
}

module _ {M : Type 0} (net : Net M) where
  abbrev pub HasReply : Result M → Type 0
  HasReply r = (m : M) × (r.outcome ≡ replied m)

  abbrev pub HasFailed : Result M → Type 0
  HasFailed r = (e : QueryError) × (r.outcome ≡ failed e)

  -- The result is one of the results, has a reply, and is no slower than any with a reply.
  abbrev pub IsBest : Result M → List (Result M) → Type 0
  IsBest b rs = Memᴰ b rs × HasReply b × All (λ r. HasReply r → b.latency ≤ r.latency) rs

  abbrev Goes : Option (Result M) → List (Result M) → Option (Result M) → Type 0
  Goes best rs none = (best ≡ none) × All HasFailed rs
  Goes best rs (some b) =
      ((best ≡ some b) ⊎ (Memᴰ b rs × HasReply b))
      × ((c : Result M) → best ≡ some c → b.latency ≤ c.latency)
      × All (λ r. HasReply r → b.latency ≤ r.latency) rs

  abbrev unsome : Result M → Option (Result M) → Result M
  unsome d none = d
  unsome d (some r) = r

  some_inj : {r s : Result M} → some r ≡ some s → r ≡ s
  some_inj {r} e = ap (unsome r) e

  -- What a turn of the loop does.
  abbrev Turn : Result M → Option (Result M) → Type 0
  Turn r best =
      (HasFailed r × (better net r best ≡ best))
      ⊎ (HasReply r
          × (better net r best ≡ some r)
          × ((c : Result M) → best ≡ some c → r.latency ≤ c.latency))
      ⊎ (HasReply r
          × (c : Result M) × (best ≡ some c)
          × (better net r best ≡ some c)
          × (c.latency ≤ r.latency))

  better-Turn :
      (r : Result M) (o : Outcome M) (best : Option (Result M)) → r.outcome ≡ o → Turn r best
  unfolding better better_of
  better-Turn r (failed e) best h = inl ((e, h), ap (λ o. better_of net o r best) h)
  better-Turn r (replied m) none h =
      inr (inl ((m, h), ap (λ o. better_of net o r none) h, λ c e. absurd (ground arith)))
  better-Turn r (replied m) (some b) h =
      let e = ap (λ o. better_of net o r (some b)) h in
      elim (Bool-cases (ltb r.latency b.latency)) [
        | inl t ↦ inr (
            inl (
              (m, h),
              e ∙ rw t refl,
              λ c i.
                  let same : b.latency ≡ c.latency = ap (λ r. r.latency) (some_inj i) in
                  ground (arith, same),
            ))
        | inr t ↦ inr (inr ((m, h), b, refl, e ∙ rw t refl, ground arith))
      ]

  better_cases : (r : Result M) (best : Option (Result M)) → Turn r best
  better_cases r best = better-Turn r r.outcome best refl

  Goes-none :
      (r : Result M) (rs : List (Result M)) (best : Option (Result M))
      → Goes (better net r best) rs none
      → Goes best (r ∷ rs) none
  Goes-none r rs best (n, f) = elim (better_cases r best) [
    | inl (h, e) ↦ (sym e ∙ n, (h, f))
    | inr (inl (h, e, l)) ↦ absurd (ground (arith, sym e ∙ n))
    | inr (inr (h, c, b, e, l)) ↦ absurd (ground (arith, sym e ∙ n))
  ]

  Goes-some :
      (r b : Result M) (rs : List (Result M)) (best : Option (Result M))
      → Goes (better net r best) rs (some b)
      → Goes best (r ∷ rs) (some b)
  Goes-some r b rs best (w, l, f) = elim (better_cases r best) [
    | inl ((x, h), e) ↦ (
      elim w [ inl i ↦ inl (sym e ∙ i) | inr (i, k) ↦ inr (Memᴰ.tail i, k) ],
      λ c k. l c (e ∙ k),
      (λ (y, k). absurd (ground (arith, sym h ∙ k)), f),
    )
    | inr (inl (h, e, k)) ↦ (
      elim w [
        | inl i ↦ let same = some_inj (sym e ∙ i) in inr (Memᴰ.head (sym same), rw (← same) h)
        | inr (i, j) ↦ inr (Memᴰ.tail i, j)
      ],
      λ c j. omega (arith, l r e, k c j),
      (λ j. l r e, f),
    )
    | inr (inr (h, c, k, e, j)) ↦ (
      elim w [ inl i ↦ inl (k ∙ sym e ∙ i) | inr (i, g) ↦ inr (Memᴰ.tail i, g) ],
      λ c' g. l c' (e ∙ sym k ∙ g),
      (λ g. omega (arith, l c e, j), f),
    )
  ]

  Goes-cons :
      (r : Result M) (rs : List (Result M)) (best o : Option (Result M))
      → Goes (better net r best) rs o
      → Goes best (r ∷ rs) o
  Goes-cons r rs best none h = Goes-none r rs best h
  Goes-cons r rs best (some b) h = Goes-some r b rs best h

  pick_best-Goes :
      (rs : List (Result M)) (best : Option (Result M)) → Goes best rs (pick_best net rs best)
  unfolding pick_best
  pick_best-Goes [] none = (refl, tt)
  pick_best-Goes [] (some b) =
      (inl refl, λ c e. let same = some_inj e in rw (← ap (λ r. r.latency) same) (omega arith), tt)
  pick_best-Goes (r ∷ rs) best =
      Goes-cons r rs best (pick_best net rs (better net r best))
        (pick_best-Goes rs (better net r best))

  -- The result of a group: the best of some results, or the failure when all failed.
  abbrev pub IsGroupResult : Bytes → Result M → List (Result M) → Type 0
  IsGroupResult first res rs =
      IsBest res rs
      ⊎ ((res ≡ record { outcome = failed all_failed; server_used = first; latency = 0 })
          × All HasFailed rs)

  group_result_lem :
      (first : Bytes) (rs : List (Result M)) (o : Option (Result M))
      → Goes none rs o
      → IsGroupResult first (group_result net first o) rs
  unfolding group_result
  group_result_lem first rs none (e, f) = inr (refl, f)
  group_result_lem first rs (some b) (w, l, f) = elim w [
    | inl e ↦ absurd (ground arith)
    | inr (i, h) ↦ inl (i, h, f)
  ]

  -- A group of two servers or more, asked with a concurrency of two or more, gets the answer of a
  -- server that replied and was no slower than any other that did, in whatever order the queries
  -- finish; it fails exactly with the failure of all the servers that were asked.
  pub query_group-IsGroupResult :
      (order : List Bytes → List Bytes) (start now : ℕ) (msg : M) (first second : Bytes)
      (rest : List Bytes) (n : ℕ) (c : DnsClient)
      → (res : Result M) × (query_group net order start now msg
            (first ∷ second ∷ rest)
            (pos (suc (suc n)))
            c
          ≡ some ((query_all net start now msg (order (first ∷ second ∷ take n rest)) c).0, res))
        × IsGroupResult first res
            (query_all net start now msg (order (first ∷ second ∷ take n rest)) c).1
  unfolding query_group select query_selected
  query_group-IsGroupResult order start now msg first second rest n c =
      let rs = (query_all net start now msg (order (first ∷ second ∷ take n rest)) c).1 in
      (
        group_result net first (pick_best net rs none),
        refl,
        group_result_lem first rs (pick_best net rs none) (pick_best-Goes rs none),
      )
