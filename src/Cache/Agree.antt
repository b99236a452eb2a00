-- ===== src/Cache/Agree.antt =====
-- The map and the list of the cache agree: the invariant, and its preservation by the four ways in
-- which the methods change the two.
use mathlib.Core.Path.{subst}
use lynx_dns.Common.{
  ℕ, suc, ◌+◌, ◌≤◌, ◌<◌, max, ◌≡◌, refl, sym, ◌∙◌, ◌≢◌, inl, inr, arith, Bool-cases, ◌==◌, ==_iff,
  Option, none, some, List, [], ◌∷◌, All, length, Bytes, text_eq, text_eq_iff, text_eq_ne,
  if◌then◌else◌, ℤ, pos_part,
}
use lynx_dns.Common.Dict
use lynx_dns.Common.Dict.{Dict, lookup-insert, lookup-delete}
use lynx_dns.Common.Dict.Size.{
  DistinctKeys, length-insert_new, length-delete, insert-DistinctKeys, delete-DistinctKeys,
}
use lynx_dns.Cache.{CacheEntry, Element, DnsCache, find, remove}

module _ {M : Type 0} where
  -- The reference that the list has for a key.
  unfoldable pub ref_of : Bytes → List (Element M) → Option ℕ
  ref_of k [] = none
  ref_of k (e ∷ l) = if text_eq e.value.key k then some e.ref else ref_of k l

  abbrev pub DistinctRefs : List (Element M) → Type 0
  DistinctRefs [] = Unit
  DistinctRefs (e ∷ l) = All (λ f. e.ref ≢ f.ref) l × DistinctRefs l

  abbrev pub DistinctElements : List (Element M) → Type 0
  DistinctElements [] = Unit
  DistinctElements (e ∷ l) = All (λ f. e.value.key ≢ f.value.key) l × DistinctElements l

  -- The map has exactly the keys of the list, each with its element; there is one element for a key;
  -- and the list is no longer than the bound, or holds the one entry of a cache with no room.
  pub record Agrees (entries : Dict ℕ) (l : List (Element M)) (next : ℕ) (limit : ℤ) : Type 0 where
    pub refs : DistinctRefs l
    pub fresh : All (λ e. e.ref < next) l
    pub keys : DistinctElements l
    pub index : (k : Bytes) → Dict.lookup k entries ≡ ref_of k l
    pub dict : DistinctKeys entries
    pub size : length entries ≡ length l
    pub bound : length l ≤ max 1 (pos_part limit)

  abbrev pub IsValid : DnsCache M → Type 0
  IsValid c = Agrees c.entries c.lru_list c.next_ref c.max_size

  pub ref_of-ne :
      (r n : ℕ) (k : Bytes) (l : List (Element M))
      → All (λ f. n ≢ f.ref) l
      → ref_of k l ≡ some r
      → n ≢ r
  unfolding ref_of
  ref_of-ne r n k [] a h i = cc
  ref_of-ne r n k (e ∷ l) a h i = elim (Bool-cases (text_eq e.value.key k)) [
    | inl t ↦ a.0 (i ∙ ground arith)
    | inr f ↦ ref_of-ne r n k l a.1 (ground arith) i
  ]

  -- The element that a reference of the list leads to.
  pub find_lem :
      (r : ℕ) (k : Bytes) (l : List (Element M))
      → DistinctRefs l
      → ref_of k l ≡ some r
      → (e : Element M) × (find r l ≡ some e) × (e.ref ≡ r) × (e.value.key ≡ k)
  unfolding ref_of find
  find_lem r k [] d h = cc
  find_lem r k (e ∷ l) d h = elim (Bool-cases (text_eq e.value.key k)) [
    | inl t ↦ (e, ground arith, ground arith, (text_eq_iff e.value.key k).0 t)
    | inr f ↦
        let rest : ref_of k l ≡ some r = ground arith in
        let other = ref_of-ne r e.ref k l d.0 rest in
        let (x, p, q, s) = find_lem r k l d.1 rest in (x, ground arith, q, s)
  ]

  pub All-remove :
      (P : Element M → Type 0) (r : ℕ) (l : List (Element M)) → All P l → All P (remove r l)
  unfolding remove
  All-remove P r [] h = tt
  All-remove P r (e ∷ l) h = elim (Bool-cases (e.ref == r)) [
    | inl t ↦ rw t (h.1)
    | inr f ↦ rw f (h.0, All-remove P r l h.1)
  ]

  remove-DistinctRefs : (r : ℕ) (l : List (Element M)) → DistinctRefs l → DistinctRefs (remove r l)
  unfolding remove
  remove-DistinctRefs r [] d = tt
  remove-DistinctRefs r (e ∷ l) d = elim (Bool-cases (e.ref == r)) [
    | inl t ↦ rw t (d.1)
    | inr f ↦ rw f (All-remove (λ f. e.ref ≢ f.ref) r l d.0, remove-DistinctRefs r l d.1)
  ]

  remove-DistinctElements :
      (r : ℕ) (l : List (Element M)) → DistinctElements l → DistinctElements (remove r l)
  unfolding remove
  remove-DistinctElements r [] d = tt
  remove-DistinctElements r (e ∷ l) d = elim (Bool-cases (e.ref == r)) [
    | inl t ↦ rw t (d.1)
    | inr f ↦
        rw f (All-remove (λ f. e.value.key ≢ f.value.key) r l d.0, remove-DistinctElements r l d.1)
  ]

  remove_other_refs :
      (r : ℕ) (l : List (Element M)) → DistinctRefs l → All (λ f. r ≢ f.ref) (remove r l)
  unfolding remove
  remove_other_refs r [] d = tt
  remove_other_refs r (e ∷ l) d = elim (Bool-cases (e.ref == r)) [
    | inl t ↦ rw t (moved ((==_iff e.ref r).0 t))
    | inr f ↦ rw f ((λ i. cc ((==_iff e.ref r).1 (sym i))), remove_other_refs r l d.1)
  ]
    where
      moved : e.ref ≡ r → All (λ f. r ≢ f.ref) l
      moved i = subst (λ n. All (λ f. n ≢ f.ref) l) i d.0

  ref_of_absent :
      (k : Bytes) (l : List (Element M)) → All (λ f. k ≢ f.value.key) l → ref_of k l ≡ none
  unfolding ref_of
  ref_of_absent k [] h = refl
  ref_of_absent k (e ∷ l) h =
      rw (text_eq_ne e.value.key k (λ i. h.0 (sym i))) (ref_of_absent k l h.1)

  absent_of_none :
      (k : Bytes) (l : List (Element M)) → ref_of k l ≡ none → All (λ f. k ≢ f.value.key) l
  unfolding ref_of
  absent_of_none k [] h = tt
  absent_of_none k (e ∷ l) h = elim (Bool-cases (text_eq e.value.key k)) [
    | inl t ↦ absurd (ground arith)
    | inr f ↦ ((λ i. cc ((text_eq_iff e.value.key k).1 (sym i))), absent_of_none k l (ground arith))
  ]

  ref_of-remove :
      (r : ℕ) (k j : Bytes) (l : List (Element M))
      → DistinctRefs l
      → DistinctElements l
      → ref_of k l ≡ some r
      → ref_of j (remove r l) ≡ (if text_eq k j then none else ref_of j l)
  unfolding ref_of remove
  ref_of-remove r k j [] d e h = cc
  ref_of-remove r k j (x ∷ l) d e h = elim (Bool-cases (text_eq x.value.key k)) [
    | inl t ↦
        let i : x.value.key ≡ k = (text_eq_iff x.value.key k).0 t in
        let gone : ref_of k l ≡ none = rw i at (ref_of_absent x.value.key l e.0) in
        ground (arith, text_eq_iff k j, text_eq_iff x.value.key j)
    | inr f ↦
        let rest : ref_of k l ≡ some r = ground arith in
        let other : x.ref ≢ r = ref_of-ne r x.ref k l d.0 rest in
        let ih = ref_of-remove r k j l d.1 e.1 rest in
        ground (arith, text_eq_iff k j, text_eq_iff x.value.key j, text_eq_iff x.value.key k)
  ]

  length-remove :
      (r : ℕ) (k : Bytes) (l : List (Element M))
      → ref_of k l ≡ some r
      → suc (length (remove r l)) ≡ length l
  unfolding ref_of remove
  length-remove r k [] h = cc
  length-remove r k (x ∷ l) h = ground (arith, length-remove r k l)

  fresh_ref :
      (r n : ℕ) (k : Bytes) (l : List (Element M))
      → All (λ e. e.ref < n) l
      → ref_of k l ≡ some r
      → r < n
  unfolding ref_of
  fresh_ref r n k [] a h = cc
  fresh_ref r n k (e ∷ l) a h = ground (arith, a.0, fresh_ref r n k l a.1)

  fresh_ne : (n : ℕ) (l : List (Element M)) → All (λ e. e.ref < n) l → All (λ f. n ≢ f.ref) l
  fresh_ne n [] h = tt
  fresh_ne n (e ∷ l) h = (λ i. absurd (omega (arith, h.0)), fresh_ne n l h.1)

  fresh_weaken :
      (n : ℕ) (l : List (Element M)) → All (λ e. e.ref < n) l → All (λ e. e.ref < n + 1) l
  fresh_weaken n [] h = tt
  fresh_weaken n (e ∷ l) h = (omega (arith, h.0), fresh_weaken n l h.1)

  module _ (entries : Dict ℕ) (l : List (Element M)) (next : ℕ) (limit : ℤ)
      (g : Agrees entries l next limit) where
    -- Moving the element of a key to the front, with another value under the same key.
    pub touch-Agrees :
        (r : ℕ) (k : Bytes) (x : Element M)
        → Dict.lookup k entries ≡ some r
        → x.ref ≡ r
        → x.value.key ≡ k
        → Agrees entries (x ∷ remove r l) next limit
    touch-Agrees r k x h xr xk =
        let at : ref_of k l ≡ some r = sym (g.index k) ∙ h in
        let (e, found, er, ek) = find_lem r k l g.refs at in
        record {
          refs = (
            subst (λ n. All (λ f. n ≢ f.ref) (remove r l)) (sym xr) (remove_other_refs r l g.refs),
            remove-DistinctRefs r l g.refs,
          );
          fresh =
              (rw xr (fresh_ref r next k l g.fresh at), All-remove (λ e. e.ref < next) r l g.fresh);
          keys = (
            subst (λ n. All (λ f. n ≢ f.value.key) (remove r l)) (sym xk)
                (absent_of_none k (remove r l)
                  (ground (arith, ref_of-remove r k k l g.refs g.keys at, text_eq_iff k k))),
            remove-DistinctElements r l g.keys,
          );
          index = λ j.
              unfold ref_of in
              ground (arith, g.index j, ref_of-remove r k j l g.refs g.keys at, text_eq_iff k j);
          dict = g.dict;
          size = omega (arith, g.size, length-remove r k l at);
          bound = omega (arith, g.bound, length-remove r k l at);
        }

    -- Dropping a key from both.
    pub drop-Agrees :
        (r : ℕ) (k : Bytes)
        → Dict.lookup k entries ≡ some r
        → Agrees (Dict.delete k entries) (remove r l) next limit
    drop-Agrees r k h =
        let at : ref_of k l ≡ some r = sym (g.index k) ∙ h in
        record {
          refs = remove-DistinctRefs r l g.refs;
          fresh = All-remove (λ e. e.ref < next) r l g.fresh;
          keys = remove-DistinctElements r l g.keys;
          index = λ j.
              ground (
                arith,
                g.index j,
                lookup-delete k j entries,
                ref_of-remove r k j l g.refs g.keys at,
              );
          dict = delete-DistinctKeys k entries g.dict;
          size = omega (arith, g.size, length-remove r k l at, length-delete k r entries g.dict h);
          bound = omega (arith, g.bound, length-remove r k l at);
        }

    -- A new element for a key that is not there, where there is room.
    pub push-Agrees :
        (v : CacheEntry M)
        → Dict.lookup v.key entries ≡ none
        → length l < max 1 (pos_part limit)
        → Agrees
            (Dict.insert v.key next entries)
            (record { ref = next; value = v } ∷ l)
            (next + 1)
            limit
    push-Agrees v h room =
        let at : ref_of v.key l ≡ none = sym (g.index v.key) ∙ h in
        record {
          refs = (fresh_ne next l g.fresh, g.refs);
          fresh = (omega arith, fresh_weaken next l g.fresh);
          keys = (absent_of_none v.key l at, g.keys);
          index =
              λ j. unfold ref_of in ground (arith, g.index j, lookup-insert v.key j next entries);
          dict = insert-DistinctKeys v.key next entries g.dict;
          size = omega (arith, g.size, length-insert_new v.key next entries h);
          bound = omega (arith, room);
        }
