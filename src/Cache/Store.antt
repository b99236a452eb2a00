-- ===== src/Cache/Store.antt =====
-- `Set`, with its eviction, and `Delete` against the specification.
use lynx_dns.Common.{
  ℕ, suc, ◌-◌, ◌≤◌, ◌<◌, max, ◌≡◌, refl, ap, sym, ◌∙◌, ◌≢◌, inl, inr, arith, true, false,
  Bool-cases, ==_iff, none, some, Option-cases, List, [], ◌∷◌, map, All, length, Bytes, text_eq_iff,
  text_eq_ne, if◌then◌else◌, ℤ, pos, negsuc, pos_part,
}
use lynx_dns.Common.Dict
use lynx_dns.Common.Dict.{Dict, lookup-delete}
use lynx_dns.Cache.{
  CacheEntry, Element, DnsCache, find, remove, set_value, back, evict_one, is_full, push_front,
  put_entry, delete_entry,
}
use lynx_dns.Cache.Agree.{
  ref_of, DistinctRefs, DistinctElements, IsValid, touch-Agrees, drop-Agrees, push-Agrees,
}
use lynx_dns.Cache.Refine.{
  view, find_key, without, drop_last, spec_put, find_key-ref_of, by_key, move_to_front_found,
}

full_shrinks :
    (n : ℕ) (limit : ℤ)
    → is_full n limit ≡ true
    → n ≤ max 1 (pos_part limit)
    → n - 1 < max 1 (pos_part limit)
full_shrinks n (pos m) t h = ground arith
full_shrinks n (negsuc m) t h = omega arith

not_full : (n : ℕ) (limit : ℤ) → is_full n limit ≡ false → n < max 1 (pos_part limit)
not_full n (pos m) f = ground arith
not_full n (negsuc m) f = cc

module _ {M : Type 0} where
  find-set_value :
      (r : ℕ) (v : CacheEntry M) (l : List (Element M)) (e : Element M)
      → find r l ≡ some e
      → (find r (set_value r v l) ≡ some (record e { value = v }))
        × (remove r (set_value r v l) ≡ remove r l)
  unfolding find set_value remove
  find-set_value r v [] e h = cc
  find-set_value r v (x ∷ l) e h = ground (arith, find-set_value r v l e)

  put_entry-some :
      (r : ℕ) (v : CacheEntry M) (c : DnsCache M) (e : Element M)
      → Dict.lookup v.key c.entries ≡ some r
      → find r c.lru_list ≡ some e
      → put_entry v c ≡ record c { lru_list = record e { value = v } ∷ remove r c.lru_list }
  unfolding put_entry
  put_entry-some r v c e h f =
      let (p, q) = find-set_value r v c.lru_list e f in
      rw (h, put_entry)
        (rw (move_to_front_found r (set_value r v c.lru_list) (record e { value = v }) p, q))

  put_entry-none :
      (v : CacheEntry M) (c : DnsCache M)
      → Dict.lookup v.key c.entries ≡ none
      → put_entry v c
        ≡ push_front v (if is_full (length c.entries) c.max_size then evict_one c else c)
  unfolding put_entry
  put_entry-none v c h = rw (h, put_entry)

  length-values : (l : List (Element M)) → length (map (λ e. e.value) l) ≡ length l
  length-values [] = refl
  length-values (e ∷ l) = ap suc (length-values l)

  back_nil : (l : List (Element M)) → back l ≡ none → l ≡ []
  unfolding back
  back_nil [] h = refl
  back_nil (e ∷ []) h = cc
  back_nil (e ∷ f ∷ l) h = cc (back_nil (f ∷ l) h)

  All-back :
      (P : Element M → Type 0) (l : List (Element M)) (e : Element M)
      → All P l
      → back l ≡ some e
      → P e
  unfolding back
  All-back P [] e a h = cc
  All-back P (x ∷ []) e a h = let same : x ≡ e = ground arith in rw (← same) (a.0)
  All-back P (x ∷ f ∷ l) e a h = All-back P (f ∷ l) e a.1 h

  back-ref_of :
      (l : List (Element M)) (e : Element M)
      → DistinctElements l
      → back l ≡ some e
      → ref_of e.value.key l ≡ some e.ref
  unfolding back ref_of
  back-ref_of [] e d h = cc
  back-ref_of (x ∷ []) e d h = ground (arith, text_eq_iff x.value.key e.value.key)
  back-ref_of (x ∷ f ∷ l) e d h =
      rw
        (text_eq_ne x.value.key e.value.key
          (All-back (λ f. x.value.key ≢ f.value.key) (f ∷ l) e d.0 h))
        (back-ref_of (f ∷ l) e d.1 h)

  -- Removing the last element drops the last entry.
  remove-back :
      (l : List (Element M)) (e : Element M)
      → DistinctRefs l
      → back l ≡ some e
      → (map (λ x. x.value) (remove e.ref l) ≡ drop_last (map (λ x. x.value) l))
        × (suc (length (remove e.ref l)) ≡ length l)
  unfolding back remove drop_last
  remove-back [] e d h = cc
  remove-back (x ∷ []) e d h = ground arith
  remove-back (x ∷ f ∷ l) e d h =
      let other = All-back (λ f. x.ref ≢ f.ref) (f ∷ l) e d.0 h in
      let ih = remove-back (f ∷ l) e d.1 h in ground (arith, ==_iff x.ref e.ref)

  -- The cache of an eviction is valid, one entry shorter, and lacks the same keys.
  evict_one-lem :
      (c : DnsCache M) (k : Bytes)
      → IsValid c
      → Dict.lookup k c.entries ≡ none
      → IsValid (evict_one c)
        × (view (evict_one c) ≡ drop_last (view c))
        × (length (evict_one c).lru_list ≡ length c.lru_list - 1)
        × (Dict.lookup k (evict_one c).entries ≡ none)
        × ((evict_one c).max_size ≡ c.max_size)
  unfolding evict_one
  evict_one-lem c k g n = elim (Option-cases (back c.lru_list)) [
    | inl h ↦
        let nil = back_nil c.lru_list h in
        rw (h, evict_one) (g, rw nil (unfold drop_last in refl), rw nil (omega arith), n, refl)
    | inr (e, h) ↦
        let at = g.index e.value.key ∙ back-ref_of c.lru_list e g.keys h in
        let (p, q) = remove-back c.lru_list e g.refs h in
        rw (h, evict_one)
          (
            drop-Agrees c.entries c.lru_list c.next_ref c.max_size g e.ref e.value.key at,
            p,
            omega arith,
            ground (arith, lookup-delete e.value.key k c.entries),
            refl,
          )
  ]

  push_front-lem :
      (v : CacheEntry M) (c : DnsCache M)
      → IsValid c
      → Dict.lookup v.key c.entries ≡ none
      → length c.lru_list < max 1 (pos_part c.max_size)
      → IsValid (push_front v c) × (view (push_front v c) ≡ v ∷ view c)
  unfolding push_front
  push_front-lem v c g n room =
      (push-Agrees c.entries c.lru_list c.next_ref c.max_size g v n room, refl)

  -- On a valid cache `Set` of an entry keeps the invariant, the bound on the number of entries
  -- included, and does to the entries in order of use what the specification says: a key that is
  -- there gets the new entry and moves to the front; a new key comes to the front, and takes the
  -- place of the least recently used entry where the cache is full.
  pub put_entry-spec_put :
      (v : CacheEntry M) (c : DnsCache M)
      → IsValid c
      → IsValid (put_entry v c) × (view (put_entry v c) ≡ spec_put c.max_size v (view c))
  put_entry-spec_put v c g = elim (Option-cases (Dict.lookup v.key c.entries)) [
    | inl h ↦
        let absent = find_key-ref_of v.key c.lru_list (sym (g.index v.key) ∙ h) in
        rw (put_entry-none v c h) (
          rw (absent, spec_put)
            (rw (length-values c.lru_list, ← g.size)
              (elim (Bool-cases (is_full (length c.entries) c.max_size)) [
                | inl t ↦
                    let (a, b, s, n, m) = evict_one-lem c v.key g h in
                    let fits =
                      full_shrinks (length c.entries) c.max_size t
                        (omega (arith, g.size, g.bound)) in
                    let room : length (evict_one c).lru_list
                        < max 1 (pos_part (evict_one c).max_size) =
                      rw m (omega (arith, s, g.size, fits)) in
                    rw t (
                      let out = push_front-lem v (evict_one c) a n room in
                      (out.0, out.1 ∙ ap (◌∷◌ v) b))
                | inr t ↦
                    let fits = not_full (length c.entries) c.max_size t in
                    rw t (push_front-lem v c g h (omega (arith, g.size, fits)))
              ])))
    | inr (r, h) ↦
        let (e, f, q, s, u, w) = by_key r v.key c.lru_list g.refs (sym (g.index v.key) ∙ h) in
        rw (put_entry-some r v c e h f) (
          rw (u, spec_put)
            (
              touch-Agrees c.entries c.lru_list c.next_ref c.max_size g r v.key
                  (record e { value = v }) h q refl,
              ap (◌∷◌ v) w,
            ))
  ]

  without_absent : (k : Bytes) (vs : List (CacheEntry M)) → find_key k vs ≡ none → without k vs ≡ vs
  unfolding find_key without
  without_absent k [] h = refl
  without_absent k (v ∷ vs) h = ground (arith, without_absent k vs)

  -- `Delete` on a valid cache keeps the invariant and removes the entry of the key, if there is one.
  pub delete_entry-without :
      (k : Bytes) (c : DnsCache M)
      → IsValid c
      → IsValid (delete_entry k c) × (view (delete_entry k c) ≡ without k (view c))
  unfolding delete_entry
  delete_entry-without k c g = elim (Option-cases (Dict.lookup k c.entries)) [
    | inl h ↦
        rw (h, delete_entry)
          (g, sym (without_absent k (view c) (find_key-ref_of k c.lru_list (sym (g.index k) ∙ h))))
    | inr (r, h) ↦
        let (e, f, q, s, u, w) = by_key r k c.lru_list g.refs (sym (g.index k) ∙ h) in
        rw (h, delete_entry) (drop-Agrees c.entries c.lru_list c.next_ref c.max_size g r k h, w)
  ]
