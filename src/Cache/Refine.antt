-- ===== src/Cache/Refine.antt =====
-- The cache against its specification: a list of entries in order of use, found by key.
use lynx_dns.Common.{
  ℕ, ◌+◌, ◌≡◌, refl, sym, ◌∙◌, ◌≢◌, inl, inr, arith, Bool, false, not, ◌&&◌, Bool-cases, ◌==◌,
  ==_iff, ltb, Option, none, some, Option-cases, List, [], ◌∷◌, map, All, length, Bytes, text_eq,
  text_eq_iff, if◌then◌else◌, ℤ,
}
use lynx_dns.Common.Dict
use lynx_dns.Common.Dict.{Dict}
use lynx_dns.Cache.{
  CacheEntry, Element, DnsCache, find, remove, move_to_front, is_full, hit, expire, get_entry,
}
use lynx_dns.Cache.Agree.{ref_of, DistinctRefs, IsValid, touch-Agrees, drop-Agrees, ref_of-ne}

module _ {M : Type 0} where
  -- The specification.
  abbrev pub view : DnsCache M → List (CacheEntry M)
  view c = map (λ e. e.value) c.lru_list

  -- What a client of the specification sees of a result.
  abbrev pub viewed :
      DnsCache M × Option (CacheEntry M) → List (CacheEntry M) × Option (CacheEntry M)
  viewed out = (view out.0, out.1)

  unfoldable pub find_key : Bytes → List (CacheEntry M) → Option (CacheEntry M)
  find_key k [] = none
  find_key k (v ∷ vs) = if text_eq v.key k then some v else find_key k vs

  unfoldable pub without : Bytes → List (CacheEntry M) → List (CacheEntry M)
  without k [] = []
  without k (v ∷ vs) = if text_eq v.key k then vs else v ∷ without k vs

  unfoldable pub drop_last : List (CacheEntry M) → List (CacheEntry M)
  drop_last [] = []
  drop_last (v ∷ []) = []
  drop_last (v ∷ w ∷ vs) = v ∷ drop_last (w ∷ vs)

  abbrev is_stale : ℕ → Bool → CacheEntry M → Bool
  is_stale now lazy v = ltb v.expire_at now && not lazy

  -- A hit moves the entry to the front; a stale one is dropped and not returned.
  abbrev pub spec_get_found :
      ℕ
      → Bool
      → Bytes
      → List (CacheEntry M)
      → CacheEntry M
      → List (CacheEntry M) × Option (CacheEntry M)
  spec_get_found now lazy k vs v =
      if is_stale now lazy v then (without k vs, none) else (v ∷ without k vs, some v)

  abbrev pub spec_get :
      ℕ → Bool → Bytes → List (CacheEntry M) → List (CacheEntry M) × Option (CacheEntry M)
  spec_get now lazy k vs = elim (find_key k vs) [
    | none ↦ (vs, none)
    | some v ↦ spec_get_found now lazy k vs v
  ]

  -- A new key takes the place of the least recent entry where there is no room.
  abbrev pub spec_put : ℤ → CacheEntry M → List (CacheEntry M) → List (CacheEntry M)
  spec_put limit v vs = elim (find_key v.key vs) [
    | none ↦ v ∷ (if is_full (length vs) limit then drop_last vs else vs)
    | some w ↦ v ∷ without v.key vs
  ]

  pub find_key-ref_of :
      (k : Bytes) (l : List (Element M))
      → ref_of k l ≡ none
      → find_key k (map (λ e. e.value) l) ≡ none
  unfolding ref_of find_key
  find_key-ref_of k [] h = refl
  find_key-ref_of k (e ∷ l) h = ground (arith, find_key-ref_of k l)

  ref_of-other :
      (r n : ℕ) (k : Bytes) (l : List (Element M))
      → All (λ f. n ≢ f.ref) l
      → ref_of k l ≡ some r
      → (n == r) ≡ false
  ref_of-other r n k l a h = elim (Bool-cases (n == r)) [
    | inl t ↦ absurd (ref_of-ne r n k l a h ((==_iff n r).0 t))
    | inr f ↦ f
  ]

  -- Looking up and removing by the reference is the same by the key.
  pub by_key :
      (r : ℕ) (k : Bytes) (l : List (Element M))
      → DistinctRefs l
      → ref_of k l ≡ some r
      → (e : Element M) × (find r l ≡ some e)
        × (e.ref ≡ r)
        × (e.value.key ≡ k)
        × (find_key k (map (λ e. e.value) l) ≡ some e.value)
        × (map (λ e. e.value) (remove r l) ≡ without k (map (λ e. e.value) l))
  unfolding ref_of find remove find_key without
  by_key r k [] d h = cc
  by_key r k (x ∷ l) d h = elim (Bool-cases (text_eq x.value.key k)) [
    | inl t ↦
        (x, ground arith, ground arith, (text_eq_iff x.value.key k).0 t, ground arith, ground arith)
    | inr f ↦
        let rest : ref_of k l ≡ some r = ground arith in
        let other = ref_of-other r x.ref k l d.0 rest in
        let (e, p, q, s, u, w) = by_key r k l d.1 rest in
        (e, ground arith, q, s, ground arith, ground arith)
  ]

  get_entry-none :
      (now : ℕ) (k : Bytes) (c : DnsCache M)
      → Dict.lookup k c.entries ≡ none
      → get_entry now k c ≡ (record c { misses = c.misses + 1 }, none)
  unfolding get_entry
  get_entry-none now k c h = ground arith

  get_entry-some :
      (now r : ℕ) (k : Bytes) (c : DnsCache M) (e : Element M)
      → Dict.lookup k c.entries ≡ some r
      → find r c.lru_list ≡ some e
      → e.ref ≡ r
      → get_entry now k c
        ≡ (if is_stale now c.lazy e.value then expire c e.value r else hit c e.value r)
  unfolding get_entry
  get_entry-some now r k c e h f i = ground arith

  expire-lem :
      (r : ℕ) (k : Bytes) (c : DnsCache M) (v : CacheEntry M)
      → IsValid c
      → v.key ≡ k
      → Dict.lookup k c.entries ≡ some r
      → map (λ e. e.value) (remove r c.lru_list) ≡ without k (view c)
      → IsValid (expire c v r).0 × (viewed (expire c v r) ≡ (without k (view c), none))
  unfolding expire
  expire-lem r k c v g i h w =
      (drop-Agrees c.entries c.lru_list c.next_ref c.max_size g r v.key (rw i h), rw w)

  pub move_to_front_found :
      (r : ℕ) (l : List (Element M)) (e : Element M)
      → find r l ≡ some e
      → move_to_front r l ≡ e ∷ remove r l
  unfolding move_to_front
  move_to_front_found r l e h = rw (h, move_to_front)

  hit-lem :
      (r : ℕ) (k : Bytes) (c : DnsCache M) (e : Element M)
      → IsValid c
      → find r c.lru_list ≡ some e
      → e.ref ≡ r
      → e.value.key ≡ k
      → Dict.lookup k c.entries ≡ some r
      → map (λ e. e.value) (remove r c.lru_list) ≡ without k (view c)
      → IsValid (hit c e.value r).0
        × (viewed (hit c e.value r) ≡ (e.value ∷ without k (view c), some e.value))
  unfolding hit
  hit-lem r k c e g f q s h w =
      rw (move_to_front_found r c.lru_list e f)
        (touch-Agrees c.entries c.lru_list c.next_ref c.max_size g r k e h q s, rw w)

  -- On a valid cache the lookup behind `Get` keeps the invariant, and does to the entries in order of
  -- use, and returns, what the specification says: an entry under the key that is not stale, or any
  -- in lazy mode, is returned and moves to the front; a stale one is dropped.
  pub get_entry-spec_get :
      (now : ℕ) (k : Bytes) (c : DnsCache M)
      → IsValid c
      → IsValid (get_entry now k c).0
        × (viewed (get_entry now k c) ≡ spec_get now c.lazy k (view c))
  get_entry-spec_get now k c g = elim (Option-cases (Dict.lookup k c.entries)) [
    | inl h ↦
        rw (get_entry-none now k c h)
          (g, rw (find_key-ref_of k c.lru_list (sym (g.index k) ∙ h), spec_get))
    | inr (r, h) ↦
        let (e, f, q, s, u, w) = by_key r k c.lru_list g.refs (sym (g.index k) ∙ h) in
        rw (get_entry-some now r k c e h f q) (
          rw (u, spec_get)
            (elim (Bool-cases (is_stale now c.lazy e.value)) [
              | inl t ↦ rw t (expire-lem r k c e.value g s h w)
              | inr t ↦ rw t (hit-lem r k c e g f q s h w)
            ]))
  ]
