-- ===== src/Cache/Runs.antt =====
-- Concrete runs of the cache, and the theorems at concrete inputs.
use mathlib.Core.Path.{subst}
use lynx_dns.Common.{
  ℕ, ◌≡◌, refl, arith, Bool, true, false, none, some, [], ◌∷◌, Bytes, codes, text_eq, pos,
}
use lynx_dns.Common.Dict
use lynx_dns.Dns.{a}
use lynx_dns.Dns.Sample.{SampleMsg, sample}
use lynx_dns.Cache.{
  CacheEntry, DnsCache, new_cache, find, move_to_front, get_entry, put_entry, get, put,
  extract_min_ttl,
}
use lynx_dns.Cache.Agree.{IsValid}
use lynx_dns.Cache.Refine.{view, viewed, spec_get, spec_put, get_entry-spec_get}
use lynx_dns.Cache.Store.{put_entry-spec_put}
use lynx_dns.Cache.Calls.{get_call, put_call, new_cache-IsValid, calls, cache_calls-IsValid}
use lynx_dns.Cache.Reads.{get-put}

abbrev item : Bytes → ℕ → CacheEntry ℕ
item k n = record { key = k; msg = n; expire_at = 100; server_used = []; created_at = 0 }

abbrev ab : Bool → DnsCache ℕ
ab lazy = record {
  entries = (codes "a", 0) ∷ (codes "b", 1) ∷ [];
  lru_list =
      record { ref = 1; value = item (codes "b") 20 }
      ∷ record { ref = 0; value = item (codes "a") 10 }
      ∷ [];
  next_ref = 2;
  max_size = pos 2;
  lazy = lazy;
  hits = 0;
  misses = 0;
}

stored :
    (lazy : Bool)
    → put_entry
        (item (codes "b") 20)
        (put_entry (item (codes "a") 10) (new_cache {M = ℕ} (pos 2) lazy))
      ≡ ab lazy
unfolding put_entry new_cache text_eq Dict.lookup Dict.insert
stored lazy = refl

ab-IsValid : (lazy : Bool) → IsValid (ab lazy)
ab-IsValid lazy =
    subst (λ c. IsValid c) (stored lazy)
      (put_entry-spec_put (item (codes "b") 20) _
        (put_entry-spec_put (item (codes "a") 10) (new_cache {M = ℕ} (pos 2) lazy)
          (new_cache-IsValid {M = ℕ} (pos 2) lazy)).0).0

-- A third key evicts the least recently used one, which is `b` after a use of `a`.
evicted :
    view (put_entry (item (codes "c") 30) (get_entry 50 (codes "a") (ab false)).0)
    ≡ item (codes "c") 30 ∷ item (codes "a") 10 ∷ []
unfolding put_entry get_entry find move_to_front text_eq Dict.lookup Dict.insert Dict.delete
evicted = refl

get_entry-spec_get_example :
    IsValid (get_entry 50 (codes "a") (ab false)).0
    × (viewed (get_entry 50 (codes "a") (ab false))
        ≡ spec_get 50 false (codes "a") (view (ab false)))
get_entry-spec_get_example = get_entry-spec_get 50 (codes "a") (ab false) (ab-IsValid false)

put_entry-spec_put_example :
    IsValid (put_entry (item (codes "c") 30) (ab false))
    × (view (put_entry (item (codes "c") 30) (ab false))
        ≡ spec_put (pos 2) (item (codes "c") 30) (view (ab false)))
put_entry-spec_put_example = put_entry-spec_put (item (codes "c") 30) (ab false) (ab-IsValid false)

abbrev reply : SampleMsg
reply = record {
  ident = 7;
  question = record { name = codes "x.y."; qtype = 1 } ∷ [];
  records = some (a (codes "1.2.3.4"), 60) ∷ none ∷ some (a (codes "1.2.3.5"), 30) ∷ [];
  code = 0;
  authoritative = false;
  recursion_available = true;
}

get-put_example :
    (get sample 31000000000
      (codes "X.y")
      1
      (put sample 1000000000 (codes "X.y") 1 (some reply) (codes "s") (new_cache (pos 2) false))).1
    ≡ some reply
unfolding extract_min_ttl
get-put_example =
    get-put sample 1000000000 31000000000 (codes "X.y") 1 reply (codes "s")
      (new_cache (pos 2) false) (new_cache-IsValid {M = SampleMsg} (pos 2) false) (omega arith)
      (omega arith) (omega arith)

cache_calls-IsValid_example : IsValid (
    calls sample (pos 1) false (
      get_call 5 (codes "a") 1
      ∷ put_call 1 (codes "b") 1 (some reply) []
      ∷ put_call 0 (codes "a") 1 (some reply) []
      ∷ []))
cache_calls-IsValid_example = cache_calls-IsValid sample (pos 1) false (
    get_call 5 (codes "a") 1
    ∷ put_call 1 (codes "b") 1 (some reply) []
    ∷ put_call 0 (codes "a") 1 (some reply) []
    ∷ [])
