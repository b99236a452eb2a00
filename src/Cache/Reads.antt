-- ===== src/Cache/Reads.antt =====
-- What `Get` returns: after `Set`, at the edge of the lifetime, and in lazy mode.
use mathlib.Core.Path.{subst}
use mathlib.Core.List.{Memᴰ}
use lynx_dns.Common.{
  ℕ, ◌+◌, ◌-◌, ◌*◌, ◌^◌, ◌≤◌, ◌<◌, ◌≡◌, refl, ap, sym, ◌∙◌, ◌≢◌, ◌⊎◌, inl, inr, arith, Bool, true,
  false, Bool-cases, ◌||◌, ◌==◌, ltb, Option, none, some, List, [], ◌∷◌, All, length, Bytes,
  text_eq_iff, if◌then◌else◌,
}
use lynx_dns.Dns.{DnsLib}
use lynx_dns.Cache.{
  CacheEntry, DnsCache, get_entry, put_entry, get, put, cache_key, new_entry, extract_min_ttl,
  min_ttl_loop,
}
use lynx_dns.Cache.Agree.{IsValid}
use lynx_dns.Cache.Refine.{view, find_key, without, spec_get, get_entry-spec_get}
use lynx_dns.Cache.Store.{put_entry-spec_put}

module _ {M : Type 0} where
  find_key-key :
      (k : Bytes) (vs : List (CacheEntry M)) (v : CacheEntry M) → find_key k vs ≡ some v → v.key ≡ k
  unfolding find_key
  find_key-key k [] v h = cc
  find_key-key k (w ∷ vs) v h = ground (arith, text_eq_iff w.key k, find_key-key k vs v)

  find_key_cons :
      (k : Bytes) (v : CacheEntry M) (vs : List (CacheEntry M))
      → v.key ≡ k
      → find_key k (v ∷ vs) ≡ some v
  unfolding find_key
  find_key_cons k v vs h = ground (arith, text_eq_iff v.key k)

  find_key-spec_put :
      (v : CacheEntry M) (c : DnsCache M)
      → IsValid c
      → find_key v.key (view (put_entry v c)) ≡ some v
  unfolding find_key
  find_key-spec_put v c g =
      rw ((put_entry-spec_put v c g).1) (ground (arith, text_eq_iff v.key v.key))

  answer_of_spec :
      (now : ℕ) (k : Bytes) (c : DnsCache M)
      → IsValid c
      → (get_entry now k c).1 ≡ (spec_get now c.lazy k (view c)).1
  answer_of_spec now k c g = ap (λ p. p.1) (get_entry-spec_get now k c g).1

  fresh_spec :
      (now : ℕ) (lazy : Bool) (k : Bytes) (vs : List (CacheEntry M)) (v : CacheEntry M)
      → lazy ≡ false
      → (spec_get now lazy k vs).1 ≡ some v
      → (find_key k vs ≡ some v) × (now ≤ v.expire_at)
  fresh_spec now lazy k vs v l h = ground arith

  lazy_spec :
      (now : ℕ) (lazy : Bool) (k : Bytes) (vs : List (CacheEntry M)) (v : CacheEntry M)
      → lazy ≡ true
      → find_key k vs ≡ some v
      → ((spec_get now lazy k vs).1 ≡ some v) × (find_key k (spec_get now lazy k vs).0 ≡ some v)
  lazy_spec now lazy k vs v l h =
      let at = find_key-key k vs v h in
      rw (h, spec_get)
        (rw l
          (ground arith, ground (arith, text_eq_iff v.key k, find_key_cons k v (without k vs) at)))

  found_spec :
      (now : ℕ) (lazy : Bool) (k : Bytes) (vs : List (CacheEntry M)) (v : CacheEntry M)
      → now ≤ v.expire_at
      → find_key k vs ≡ some v
      → (spec_get now lazy k vs).1 ≡ some v
  found_spec now lazy k vs v l h = ground arith

  -- Without the lazy mode, `Get` never returns an entry after its time to live, and the entry that it
  -- returns is one that was stored under the key.
  pub get_entry_fresh :
      (now : ℕ) (k : Bytes) (c : DnsCache M) (v : CacheEntry M)
      → IsValid c
      → c.lazy ≡ false
      → (get_entry now k c).1 ≡ some v
      → (v.key ≡ k) × (now ≤ v.expire_at) × (find_key k (view c) ≡ some v)
  get_entry_fresh now k c v g l h =
      let s : (spec_get now c.lazy k (view c)).1 ≡ some v = sym (answer_of_spec now k c g) ∙ h in
      let (f, t) = fresh_spec now c.lazy k (view c) v l s in (find_key-key k (view c) v f, t, f)

  -- In lazy mode an entry is returned at any time after it has expired, and stays in the cache with
  -- the same lifetime: nothing refreshes it.
  pub get_entry_lazy :
      (now : ℕ) (k : Bytes) (c : DnsCache M) (v : CacheEntry M)
      → IsValid c
      → c.lazy ≡ true
      → find_key k (view c) ≡ some v
      → ((get_entry now k c).1 ≡ some v) × (find_key k (view (get_entry now k c).0) ≡ some v)
  get_entry_lazy now k c v g l h =
      let e = (get_entry-spec_get now k c g).1 in
      let (p, q) = lazy_spec now c.lazy k (view c) v l h in
      (ap (λ p. p.1) e ∙ p, ap (λ p. find_key k p.0) e ∙ q)

abbrev pub IsLeast : ℕ → List ℕ → Type 0
IsLeast n ts = All (λ t. n ≤ t) ts × Memᴰ n ts

IsLeast-cons :
    (n r least : ℕ) (ts : List ℕ)
    → IsLeast n ((if ltb r least then r else least) ∷ ts)
    → IsLeast n (least ∷ r ∷ ts)
IsLeast-cons n r least ts ((p, q), w) = elim (Bool-cases (ltb r least)) [
  | inl t ↦ let p' = rw t at p in ((ground arith, (p', q)), Memᴰ.tail (rw t at w))
  | inr f ↦ let p' = rw f at p in ((p', (ground arith, q)), skip (rw f at w))
]
  where
    skip : Memᴰ n (least ∷ ts) → Memᴰ n (least ∷ r ∷ ts)
    skip (Memᴰ.head e) = Memᴰ.head e
    skip (Memᴰ.tail t) = Memᴰ.tail (Memᴰ.tail t)

-- The start value 2 ^ 32 - 1 is no smaller than any time to live.
first_of_two :
    (r : ℕ) (ts : List ℕ)
    → r < 2 ^ 32
    → (f : ℕ → ℕ) → ((n : ℕ) → IsLeast (f n) (n ∷ ts))
    → IsLeast (f (if ltb r (2 ^ 32 - 1) then r else 2 ^ 32 - 1)) (r ∷ ts)
first_of_two r ts h f k =
    let e : (if ltb r (2 ^ 32 - 1) then r else 2 ^ 32 - 1) ≡ r = ground arith in
    subst (λ x. IsLeast (f x) (r ∷ ts)) (sym e) (k r)

module _ (d : DnsLib) where
  put-put_entry :
      (now : ℕ) (domain : Bytes) (qtype : ℕ) (m : d.Msg) (server : Bytes) (c : DnsCache d.Msg)
      → length (d.answer m) ≢ 0
      → extract_min_ttl d m ≢ 0
      → put d now domain qtype (some m) server c
        ≡ put_entry (new_entry d now (cache_key d domain qtype) m server (extract_min_ttl d m)) c
  unfolding put
  put-put_entry now domain qtype m server c a t = ground arith

  pub put-IsValid :
      (now : ℕ) (domain : Bytes) (qtype : ℕ) (m : Option d.Msg) (server : Bytes)
      (c : DnsCache d.Msg)
      → IsValid c
      → IsValid (put d now domain qtype m server c)
  unfolding put
  put-IsValid now domain qtype none server c g = g
  put-IsValid now domain qtype (some m) server c g =
      elim (Bool-cases (length (d.answer m) == 0 || extract_min_ttl d m == 0)) [
        | inl t ↦ rw t g
        | inr f ↦ rw f (
            (put_entry-spec_put
              (new_entry d now (cache_key d domain qtype) m server (extract_min_ttl d m)) c g).0)
      ]

  -- A message with an answer and a positive time to live that was put into a valid cache is returned
  -- for the same name and type (as a copy of the stored copy) until its time to live has passed.
  pub get-put :
      (now now' : ℕ) (domain : Bytes) (qtype : ℕ) (m : d.Msg) (server : Bytes) (c : DnsCache d.Msg)
      → IsValid c
      → length (d.answer m) ≢ 0
      → extract_min_ttl d m ≢ 0
      → now' ≤ now + extract_min_ttl d m * 1000000000
      → (get d now' domain qtype (put d now domain qtype (some m) server c)).1
        ≡ some (d.copy (d.copy m))
  unfolding get new_entry
  get-put now now' domain qtype m server c g a t h =
      let k = cache_key d domain qtype in
      let v = new_entry d now k m server (extract_min_ttl d m) in
      let c' = put_entry v c in
      let g' = (put_entry-spec_put v c g).0 in
      let e : (get_entry now' k c').1 ≡ some v =
        answer_of_spec now' k c' g'
        ∙ found_spec now' c'.lazy k (view c') v h (find_key-spec_put v c g) in
      rw (put-put_entry now domain qtype m server c a t) (rw (e, get))

  -- The times to live of the records that are not nil.
  unfoldable pub ttls : List (Option d.Rr) → List ℕ
  ttls [] = []
  ttls (none ∷ rs) = ttls rs
  ttls (some r ∷ rs) = d.rr_ttl r ∷ ttls rs

  min_ttl_loop-true :
      (rs : List (Option d.Rr)) (least : ℕ)
      → IsLeast (min_ttl_loop d rs least true) (least ∷ ttls rs)
  unfolding min_ttl_loop ttls
  min_ttl_loop-true [] least = ((omega arith, tt), Memᴰ.head refl)
  min_ttl_loop-true (none ∷ rs) least = min_ttl_loop-true rs least
  min_ttl_loop-true (some r ∷ rs) least =
      IsLeast-cons _ (d.rr_ttl r) least (ttls rs)
        (min_ttl_loop-true rs (if ltb (d.rr_ttl r) least then d.rr_ttl r else least))

  from_start :
      (rs : List (Option d.Rr))
      → All (λ t. t < 2 ^ 32) (ttls rs)
      → ((ttls rs ≡ []) × (min_ttl_loop d rs (2 ^ 32 - 1) false ≡ 0))
        ⊎ IsLeast (min_ttl_loop d rs (2 ^ 32 - 1) false) (ttls rs)
  unfolding min_ttl_loop ttls
  from_start [] h = inl (refl, refl)
  from_start (none ∷ rs) h = from_start rs h
  from_start (some r ∷ rs) h = inr (
      first_of_two (d.rr_ttl r) (ttls rs) h.0 (λ n. min_ttl_loop d rs n true)
        (min_ttl_loop-true rs))

  -- The time to live of a message with records that are not nil is that of one of them, and no larger
  -- than any; with none, a message counts as one that cannot be stored.
  pub extract_min_ttl-IsLeast :
      (m : d.Msg)
      → All (λ t. t < 2 ^ 32) (ttls (d.answer m))
      → ((ttls (d.answer m) ≡ []) × (extract_min_ttl d m ≡ 0))
        ⊎ IsLeast (extract_min_ttl d m) (ttls (d.answer m))
  unfolding extract_min_ttl
  extract_min_ttl-IsLeast m h = from_start (d.answer m) h
