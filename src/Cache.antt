-- ===== src/Cache.antt =====
-- lynxdns-core/internal/cache/cache.go: the DNS cache, a map from keys to the elements of a list in
-- order of use. An element of `container/list` is known by a reference, as the map holds pointers to
-- elements; the front of the list comes first. Each method is one critical section here: `Get`
-- releases the lock between its lookup and its update, and the model has no other goroutine run
-- there. `time.Now()` is an argument in nanoseconds, the same for the calls of one method.
pub mod Agree
pub mod Refine
pub mod Store
pub mod Reads
pub mod Calls
mod Runs
use lynx_dns.Common.{
  ℕ, ◌+◌, ◌-◌, ◌*◌, ◌^◌, Bool, true, false, not, ◌&&◌, ◌||◌, ltb, leb, ◌==◌, if◌then◌else◌, Option,
  none, some, List, [], ◌∷◌, ◌++◌, length, take, drop, Bytes, codes, text_eq, to_lower, contains, ℤ,
  pos, negsuc,
}
use lynx_dns.Common.Dict
use lynx_dns.Common.Dict.{Dict}
use lynx_dns.Dns.{DnsLib, RrData, a, aaaa, cname}

pub record CacheEntry (M : Type 0) : Type 0 where
  pub key : Bytes
  pub msg : M
  pub expire_at : ℕ
  pub server_used : Bytes
  pub created_at : ℕ

-- *list.Element: its identity, and its Value
pub record Element (M : Type 0) : Type 0 where
  pub ref : ℕ
  pub value : CacheEntry M

pub record DnsCache (M : Type 0) : Type 0 where
  pub entries : Dict ℕ
  pub lru_list : List (Element M)
  pub next_ref : ℕ
  pub max_size : ℤ
  pub lazy : Bool
  pub hits : ℕ
  pub misses : ℕ

-- len(c.entries) >= c.maxSize
abbrev pub is_full : ℕ → ℤ → Bool
is_full n (pos m) = leb m n
is_full n (negsuc m) = true

module _ {M : Type 0} where
  unfoldable pub new_cache : ℤ → Bool → DnsCache M
  new_cache max_size lazy = record {
    entries = [];
    lru_list = [];
    next_ref = 0;
    max_size = max_size;
    lazy = lazy;
    hits = 0;
    misses = 0;
  }

  -- elem.Value, for an element of the list
  unfoldable pub find : ℕ → List (Element M) → Option (Element M)
  find r [] = none
  find r (e ∷ l) = if e.ref == r then some e else find r l

  -- l.Remove(elem)
  unfoldable pub remove : ℕ → List (Element M) → List (Element M)
  remove r [] = []
  remove r (e ∷ l) = if e.ref == r then l else e ∷ remove r l

  -- l.MoveToFront(elem)
  unfoldable pub move_to_front : ℕ → List (Element M) → List (Element M)
  unfolding find remove
  move_to_front r l = elim (find r l) [ none ↦ l | some e ↦ e ∷ remove r l ]

  -- elem.Value = entry
  unfoldable pub set_value : ℕ → CacheEntry M → List (Element M) → List (Element M)
  set_value r v [] = []
  set_value r v (e ∷ l) = if e.ref == r then record e { value = v } ∷ l else e ∷ set_value r v l

  -- l.Back()
  unfoldable pub back : List (Element M) → Option (Element M)
  back [] = none
  back (e ∷ []) = some e
  back (e ∷ f ∷ l) = back (f ∷ l)

  unfoldable pub evict_one : DnsCache M → DnsCache M
  unfolding back
  evict_one c = elim (back c.lru_list) [
    | none ↦ c
    | some oldest ↦ record c {
      entries = Dict.delete oldest.value.key c.entries;
      lru_list = remove oldest.ref c.lru_list;
    }
  ]

  -- The branch of `Get` for an element that the map holds: the cache, and the entry to answer with.
  -- An element that is not in the list does not occur.
  hit : DnsCache M → CacheEntry M → ℕ → DnsCache M × Option (CacheEntry M)
  hit c v r = (record c { hits = c.hits + 1; lru_list = move_to_front r c.lru_list }, some v)

  expire : DnsCache M → CacheEntry M → ℕ → DnsCache M × Option (CacheEntry M)
  expire c v r = (
    record c {
      misses = c.misses + 1;
      entries = Dict.delete v.key c.entries;
      lru_list = remove r c.lru_list;
    },
    none,
  )

  get_element : ℕ → DnsCache M → Option (Element M) → DnsCache M × Option (CacheEntry M)
  get_element now c none = (c, none)
  get_element now c (some e) =
      if ltb e.value.expire_at now && not c.lazy
      then expire c e.value e.ref
      else hit c e.value e.ref

  -- `Get` behind the key, before the message is copied.
  unfoldable pub get_entry : ℕ → Bytes → DnsCache M → DnsCache M × Option (CacheEntry M)
  unfolding hit expire get_element
  get_entry now k c = elim (Dict.lookup k c.entries) [
    | none ↦ (record c { misses = c.misses + 1 }, none)
    | some r ↦ get_element now c (find r c.lru_list)
  ]

  push_front : CacheEntry M → DnsCache M → DnsCache M
  push_front v c = record c {
    lru_list = record { ref = c.next_ref; value = v } ∷ c.lru_list;
    entries = Dict.insert v.key c.next_ref c.entries;
    next_ref = c.next_ref + 1;
  }

  -- `Set` under the lock.
  unfoldable pub put_entry : CacheEntry M → DnsCache M → DnsCache M
  unfolding evict_one push_front
  put_entry v c = elim (Dict.lookup v.key c.entries) [
    | some r ↦ record c { lru_list = move_to_front r (set_value r v c.lru_list) }
    | none ↦ push_front v (if is_full (length c.entries) c.max_size then evict_one c else c)
  ]

  -- `Delete` behind the key.
  unfoldable pub delete_entry : Bytes → DnsCache M → DnsCache M
  delete_entry k c = elim (Dict.lookup k c.entries) [
    | none ↦ c
    | some r ↦ record c { lru_list = remove r c.lru_list; entries = Dict.delete k c.entries }
  ]

  unfoldable pub clear : DnsCache M → DnsCache M × ℕ
  clear c = (record c { entries = []; lru_list = []; hits = 0; misses = 0 }, length c.entries)

  -- `IsExpired` behind the key; `none` is the error.
  unfoldable pub is_expired_entry : ℕ → Bytes → DnsCache M → Option Bool
  is_expired_entry now k c = elim (Dict.lookup k c.entries) [
    | none ↦ none
    | some r ↦ elim (find r c.lru_list) [ none ↦ none | some e ↦ some (ltb e.value.expire_at now) ]
  ]

-- `Stats`; the hit rate is the quotient of `hits` by `hits + misses`.
pub record CacheStats : Type 0 where
  pub total_entries : ℕ
  pub max_size : ℤ
  pub hits : ℕ
  pub misses : ℕ

unfoldable pub cache_stats : {M : Type 0} → DnsCache M → CacheStats
cache_stats c = record {
  total_entries = length c.entries;
  max_size = c.max_size;
  hits = c.hits;
  misses = c.misses;
}

module _ (d : DnsLib) where
  unfoldable pub cache_key : Bytes → ℕ → Bytes
  cache_key domain qtype = to_lower (d.fqdn domain) ++ (b'/' ∷ d.type_to_string qtype)

  unfoldable pub get : ℕ → Bytes → ℕ → DnsCache d.Msg → DnsCache d.Msg × Option d.Msg
  unfolding cache_key get_entry
  get now domain qtype c =
      let (c', found) = get_entry now (cache_key domain qtype) c in
      (c', elim found [ none ↦ none | some v ↦ some (d.copy v.msg) ])

  -- The loop of `extractMinTTL`, from the least TTL so far and whether a record was found.
  min_ttl_loop : List (Option d.Rr) → ℕ → Bool → ℕ
  min_ttl_loop [] least true = least
  min_ttl_loop [] least false = 0
  min_ttl_loop (none ∷ rs) least found = min_ttl_loop rs least found
  min_ttl_loop (some r ∷ rs) least found =
      min_ttl_loop rs (if ltb (d.rr_ttl r) least then d.rr_ttl r else least) true

  unfoldable pub extract_min_ttl : d.Msg → ℕ
  unfolding min_ttl_loop
  extract_min_ttl m = min_ttl_loop (d.answer m) (2 ^ 32 - 1) false

  new_entry : ℕ → Bytes → d.Msg → Bytes → ℕ → CacheEntry d.Msg
  new_entry now k m server ttl = record {
    key = k;
    msg = d.copy m;
    expire_at = now + ttl * 1000000000;
    server_used = server;
    created_at = now;
  }

  -- `Set`; `none` is the nil message.
  unfoldable pub put : ℕ → Bytes → ℕ → Option d.Msg → Bytes → DnsCache d.Msg → DnsCache d.Msg
  unfolding cache_key new_entry
  put now domain qtype none server c = c
  put now domain qtype (some m) server c =
      if length (d.answer m) == 0 || extract_min_ttl m == 0
      then c
      else put_entry (new_entry now (cache_key domain qtype) m server (extract_min_ttl m)) c

  unfoldable pub delete : Bytes → ℕ → DnsCache d.Msg → DnsCache d.Msg
  unfolding cache_key delete_entry
  delete domain qtype c = delete_entry (cache_key domain qtype) c

  unfoldable pub is_expired : ℕ → Bytes → ℕ → DnsCache d.Msg → Option Bool
  unfolding cache_key is_expired_entry
  is_expired now domain qtype c = is_expired_entry now (cache_key domain qtype) c
