-- ===== src/Cache/Calls.antt =====
-- The cache under any sequence of complete calls (internal/cache/cache.go).
use lynx_dns.Common.{ℕ, arith, Bool, Option, List, [], ◌∷◌, refl, Bytes, ℤ}
use lynx_dns.Common.Dict
use lynx_dns.Dns.{DnsLib}
use lynx_dns.Cache.{DnsCache, new_cache, get, put, delete, clear}
use lynx_dns.Cache.Agree.{IsValid, ref_of}
use lynx_dns.Cache.Refine.{get_entry-spec_get}
use lynx_dns.Cache.Store.{delete_entry-without}
use lynx_dns.Cache.Reads.{put-IsValid}

pub new_cache-IsValid :
    {M : Type 0} (limit : ℤ) (lazy : Bool) → IsValid (new_cache {M = M} limit lazy)
unfolding new_cache ref_of Dict.lookup
new_cache-IsValid limit lazy = record {
  refs = tt;
  fresh = tt;
  keys = tt;
  index = λ k. refl;
  dict = tt;
  size = refl;
  bound = omega arith;
}

clear-IsValid : {M : Type 0} (c : DnsCache M) → IsValid (clear c).0
unfolding clear ref_of Dict.lookup
clear-IsValid c = record {
  refs = tt;
  fresh = tt;
  keys = tt;
  index = λ k. refl;
  dict = tt;
  size = refl;
  bound = omega arith;
}

module _ (d : DnsLib) where
  -- The calls that change a cache.
  pub data Call : Type 0 where
    get_call : (now : ℕ) (domain : Bytes) (qtype : ℕ) → Call
    put_call : (now : ℕ) (domain : Bytes) (qtype : ℕ) (m : Option d.Msg) (server : Bytes) → Call
    delete_call : (domain : Bytes) (qtype : ℕ) → Call
    clear_call : Call

  unfoldable pub call : Call → DnsCache d.Msg → DnsCache d.Msg
  call (get_call now domain qtype) c = (get d now domain qtype c).0
  call (put_call now domain qtype m server) c = put d now domain qtype m server c
  call (delete_call domain qtype) c = delete d domain qtype c
  call clear_call c = (clear c).0

  unfoldable pub calls : ℤ → Bool → List Call → DnsCache d.Msg
  calls limit lazy [] = new_cache limit lazy
  calls limit lazy (x ∷ older) = call x (calls limit lazy older)

  call-IsValid : (x : Call) (c : DnsCache d.Msg) → IsValid c → IsValid (call x c)
  unfolding call get delete
  call-IsValid (get_call now domain qtype) c g = (get_entry-spec_get now _ c g).0
  call-IsValid (put_call now domain qtype m server) c g =
      put-IsValid d now domain qtype m server c g
  call-IsValid (delete_call domain qtype) c g = (delete_entry-without _ c g).0
  call-IsValid clear_call c g = clear-IsValid c

  -- After any sequence of complete calls on a new cache its map and its list agree: each key of the
  -- map leads to the one element of the list with that key, and there are no more entries than the
  -- limit, or than one where the limit is not positive.
  pub cache_calls-IsValid :
      (limit : ℤ) (lazy : Bool) (xs : List Call) → IsValid (calls limit lazy xs)
  unfolding calls
  cache_calls-IsValid limit lazy [] = new_cache-IsValid limit lazy
  cache_calls-IsValid limit lazy (x ∷ older) =
      call-IsValid x (calls limit lazy older) (cache_calls-IsValid limit lazy older)
