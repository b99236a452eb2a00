-- ===== src/Upstream/Stats/Percentile.antt =====
-- The percentiles: nearest rank.
use lynx_dns.Common.{
  ℕ, zero, suc, ◌-◌, ◌≤◌, ◌<◌, ◌≡◌, refl, arith, leb, ltb, List, [], ◌∷◌, length, keep, get_or, All,
}
use lynx_dns.Upstream.Stats.{insert_sorted, sorted, clamp_rank, percentile_from_sorted}

-- How many samples are at most `v`, and how many are below it.
abbrev pub count_le : ℕ → List ℕ → ℕ
count_le v xs = length (keep (λ x. leb x v) xs)

abbrev pub count_lt : ℕ → List ℕ → ℕ
count_lt v xs = length (keep (λ x. ltb x v) xs)

-- `v` is the sample of rank `r`, counted from 1, in the order of size.
pub record HasRank (xs : List ℕ) (r v : ℕ) : Type 0 where
  pub reached : r ≤ count_le v xs
  pub not_passed : count_lt v xs < r

count_le-insert_sorted :
    (v x : ℕ) (xs : List ℕ) → count_le v (insert_sorted x xs) ≡ count_le v (x ∷ xs)
unfolding insert_sorted
count_le-insert_sorted v x [] = refl
count_le-insert_sorted v x (y ∷ ys) = ground (arith, count_le-insert_sorted v x ys)

count_lt-insert_sorted :
    (v x : ℕ) (xs : List ℕ) → count_lt v (insert_sorted x xs) ≡ count_lt v (x ∷ xs)
unfolding insert_sorted
count_lt-insert_sorted v x [] = refl
count_lt-insert_sorted v x (y ∷ ys) = ground (arith, count_lt-insert_sorted v x ys)

count-sorted :
    (v : ℕ) (xs : List ℕ)
    → (count_le v (sorted xs) ≡ count_le v xs) × (count_lt v (sorted xs) ≡ count_lt v xs)
unfolding sorted
count-sorted v [] = (refl, refl)
count-sorted v (x ∷ xs) = ground (
  arith,
  count_le-insert_sorted v x (sorted xs),
  count_lt-insert_sorted v x (sorted xs),
  count-sorted v xs,
)

length-insert_sorted : (x : ℕ) (xs : List ℕ) → length (insert_sorted x xs) ≡ suc (length xs)
unfolding insert_sorted
length-insert_sorted x [] = refl
length-insert_sorted x (y ∷ ys) = ground (arith, length-insert_sorted x ys)

length-sorted : (xs : List ℕ) → length (sorted xs) ≡ length xs
unfolding sorted
length-sorted [] = refl
length-sorted (x ∷ xs) = omega (arith, length-insert_sorted x (sorted xs), length-sorted xs)

abbrev IsSorted : List ℕ → Type 0
IsSorted [] = Unit
IsSorted (x ∷ xs) = All (λ y. x ≤ y) xs × IsSorted xs

All-weaken : (a b : ℕ) (xs : List ℕ) → a ≤ b → All (λ y. b ≤ y) xs → All (λ y. a ≤ y) xs
All-weaken a b [] h k = tt
All-weaken a b (x ∷ xs) h k = (omega (arith, k.0), All-weaken a b xs h k.1)

All-insert_sorted :
    (a x : ℕ) (xs : List ℕ) → a ≤ x → All (λ y. a ≤ y) xs → All (λ y. a ≤ y) (insert_sorted x xs)
unfolding insert_sorted
All-insert_sorted a x [] h k = (h, tt)
All-insert_sorted a x (y ∷ ys) h k = ground (arith, All-insert_sorted a x ys h k.1)

insert_sorted-IsSorted : (x : ℕ) (xs : List ℕ) → IsSorted xs → IsSorted (insert_sorted x xs)
unfolding insert_sorted
insert_sorted-IsSorted x [] h = (tt, tt)
insert_sorted-IsSorted x (y ∷ ys) h =
    ground (arith, All-weaken x y ys, All-insert_sorted y x ys, insert_sorted-IsSorted x ys h.1)

sorted-IsSorted : (xs : List ℕ) → IsSorted (sorted xs)
unfolding sorted
sorted-IsSorted [] = tt
sorted-IsSorted (x ∷ xs) = insert_sorted-IsSorted x (sorted xs) (sorted-IsSorted xs)

count_lt_none : (v a : ℕ) (xs : List ℕ) → v ≤ a → All (λ y. a ≤ y) xs → count_lt v xs ≡ 0
count_lt_none v a [] h k = refl
count_lt_none v a (x ∷ xs) h k = ground (arith, k.0, count_lt_none v a xs h k.1)

get_or_ge : (a i : ℕ) (xs : List ℕ) → i < length xs → All (λ y. a ≤ y) xs → a ≤ get_or xs i 0
get_or_ge a i [] h k = absurd (omega arith)
get_or_ge a zero (x ∷ xs) h k = k.0
get_or_ge a (suc i) (x ∷ xs) h k = get_or_ge a i xs (omega arith) k.1

get_or-HasRank :
    (xs : List ℕ) (i : ℕ) → IsSorted xs → i < length xs → HasRank xs (suc i) (get_or xs i 0)
get_or-HasRank [] i s h = absurd (omega arith)
get_or-HasRank (x ∷ xs) zero s h = ground (arith, count_lt_none x x xs)
get_or-HasRank (x ∷ xs) (suc i) s h =
    ground (arith, get_or_ge x i xs (omega arith) s.0, get_or-HasRank xs i s.1 (omega arith))

clamp_rank_bounds : (n c : ℕ) → 0 < n → (1 ≤ clamp_rank n c) × (clamp_rank n c ≤ n)
unfolding clamp_rank
clamp_rank_bounds n c h = ground arith

HasRank-sorted : (xs : List ℕ) (r v : ℕ) → HasRank (sorted xs) r v → HasRank xs r v
HasRank-sorted xs r v h = record {
  reached = omega (arith, h.reached, count-sorted v xs);
  not_passed = omega (arith, h.not_passed, count-sorted v xs);
}

-- Whatever ceil(p * n) is, the percentile of some samples is the sample of its rank: with the rank
-- clamped to 1 .. n, at least that many samples are no larger, and fewer are smaller.
pub percentile-HasRank :
    (ceil : ℕ → ℕ) (values : List ℕ)
    → 0 < length values
    → (1 ≤ clamp_rank (length values) (ceil (length values)))
      × (clamp_rank (length values) (ceil (length values)) ≤ length values)
      × HasRank values
          (clamp_rank (length values) (ceil (length values)))
          (percentile_from_sorted ceil values)
unfolding percentile_from_sorted
percentile-HasRank ceil values h =
    let n = length values in
    let r = clamp_rank n (ceil n) in
    let (lo, hi) = clamp_rank_bounds n (ceil n) h in
    let at =
      get_or-HasRank (sorted values) (r - 1) (sorted-IsSorted values)
        (omega (arith, length-sorted values)) in
    let e : suc (r - 1) ≡ r = omega arith in
    (lo, hi, HasRank-sorted values r _ (ground (arith, rw e at at)))
