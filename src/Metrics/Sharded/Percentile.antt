-- ===== src/Metrics/Sharded/Percentile.antt =====
-- core/metrics/sharded_collector.cpp: what p95 and p99 of a snapshot are.
use cppload_workflow.Prelude.{
  ℕ, zero, suc, ◌+◌, ◌-◌, ◌*◌, ◌/◌, ◌≤◌, ◌<◌, ◌≡◌, refl, inl, inr, some, List, [], ◌∷◌, ltb, leb,
  if◌then◌else◌, length, get_elem?, All, arith, Bool-cases,
}
use mathlib.Core.Option.{some-injective}
use mathlib.Core.Path.{subst}
use cppload_workflow.Metrics.Sharded.{sort_insert, sort, rank, percentile}

abbrev pub count_le : ℕ → List ℕ → ℕ
count_le v [] = 0
count_le v (x ∷ l) = (if leb x v then 1 else 0) + count_le v l

abbrev pub count_lt : ℕ → List ℕ → ℕ
count_lt v [] = 0
count_lt v (x ∷ l) = (if ltb x v then 1 else 0) + count_lt v l

abbrev IsSorted : List ℕ → Type 0
IsSorted [] = Unit
IsSorted (x ∷ l) = All (λ y. x ≤ y) l × IsSorted l

sort_insert-counts :
    (v a : ℕ) (l : List ℕ)
    → (count_le v (sort_insert a l) ≡ count_le v (a ∷ l))
      × (count_lt v (sort_insert a l) ≡ count_lt v (a ∷ l))
      × (length (sort_insert a l) ≡ suc (length l))
unfolding sort_insert
sort_insert-counts v a [] = (refl, refl, refl)
sort_insert-counts v a (b ∷ l) = elim (Bool-cases (leb a b)) [
  | inl e ↦ rw e (refl, refl, refl)
  | inr e ↦
      let (p, q, n) = sort_insert-counts v a l in
      rw e (omega (arith, p), omega (arith, q), omega (arith, n))
]

sort-counts :
    (v : ℕ) (l : List ℕ)
    → (count_le v (sort l) ≡ count_le v l)
      × (count_lt v (sort l) ≡ count_lt v l)
      × (length (sort l) ≡ length l)
unfolding sort
sort-counts v [] = (refl, refl, refl)
sort-counts v (a ∷ l) =
    let (p, q, n) = sort_insert-counts v a (sort l) in
    let (p', q', n') = sort-counts v l in
    (omega (arith, p, p'), omega (arith, q, q'), omega (arith, n, n'))

sort_insert-All :
    (m a : ℕ) (l : List ℕ) → m ≤ a → All (λ y. m ≤ y) l → All (λ y. m ≤ y) (sort_insert a l)
unfolding sort_insert
sort_insert-All m a [] h t = (h, tt)
sort_insert-All m a (b ∷ l) h (t, ts) = elim (Bool-cases (leb a b)) [
  | inl e ↦ rw e (h, (t, ts))
  | inr e ↦ rw e (t, sort_insert-All m a l h ts)
]

All-le : (m n : ℕ) (l : List ℕ) → m ≤ n → All (λ y. n ≤ y) l → All (λ y. m ≤ y) l
All-le m n [] h t = tt
All-le m n (b ∷ l) h (t, ts) = (omega arith, All-le m n l h ts)

sort_insert-IsSorted : (a : ℕ) (l : List ℕ) → IsSorted l → IsSorted (sort_insert a l)
unfolding sort_insert
sort_insert-IsSorted a [] s = (tt, tt)
sort_insert-IsSorted a (b ∷ l) (h, s) = elim (Bool-cases (leb a b)) [
  | inl e ↦ let le : a ≤ b = ground arith in rw e ((le, All-le a b l le h), (h, s))
  | inr e ↦ rw e (sort_insert-All b a l (ground arith) h, sort_insert-IsSorted a l s)
]

sort-IsSorted : (l : List ℕ) → IsSorted (sort l)
unfolding sort
sort-IsSorted [] = tt
sort-IsSorted (a ∷ l) = sort_insert-IsSorted a (sort l) (sort-IsSorted l)

-- In a sorted list, the value at `i` has more than `i` values up to it and at most `i` below it.
All-get : (m i v : ℕ) (l : List ℕ) → All (λ y. m ≤ y) l → get_elem? l i ≡ some v → m ≤ v
All-get m i v [] a e = ground arith
All-get m zero v (x ∷ l) (a, as') e = ground arith
All-get m (suc i) v (x ∷ l) (a, as') e = All-get m i v l as' e

count_lt-below : (v : ℕ) (l : List ℕ) → All (λ y. v ≤ y) l → count_lt v l ≡ 0
count_lt-below v [] a = refl
count_lt-below v (x ∷ l) (a, as') = ground (arith, count_lt-below v l as')

get-counts :
    (i v : ℕ) (l : List ℕ)
    → IsSorted l
    → get_elem? l i ≡ some v
    → (i < count_le v l) × (count_lt v l ≤ i)
get-counts i v [] s e = (ground arith, ground arith)
get-counts zero v (x ∷ l) (a, s) e =
    let same : x ≡ v = some-injective x v e in
    let below : count_lt v l ≡ 0 = count_lt-below v l (subst (λ m. All (λ y. m ≤ y) l) same a) in
    (ground arith, ground (arith, below))
get-counts (suc i) v (x ∷ l) (a, s) e =
    let (p, q) = get-counts i v l s e in
    let le = All-get x i v l a e in (ground (arith, p), ground (arith, q))

get_some : (i : ℕ) (l : List ℕ) → i < length l → (v : ℕ) × (get_elem? l i ≡ some v)
get_some i [] h = elim h [ ]
get_some zero (x ∷ l) h = (x, refl)
get_some (suc i) (x ∷ l) h = get_some i l (omega arith)

product-le : (n p : ℕ) → p ≤ 100 → n * p ≤ n * 100
product-le zero p h = omega arith
product-le (suc n) p h = omega (arith, product-le n p h)

product-pos : (n p : ℕ) → 0 < n → 0 < p → 0 < n * p
product-pos zero p h k = elim h [ ]
product-pos (suc n) p h k = omega arith

-- For samples that are not empty and a percent from 1 to 100, a percentile is the nearest rank: at
-- least `percent` of a hundred samples are no greater, and fewer are less.
pub percentile_rank :
    (percent : ℕ) (l : List ℕ)
    → 0 < percent
    → percent ≤ 100
    → 0 < length l
    → (percent * length l ≤ 100 * count_le (percentile percent l) l)
      × (100 * count_lt (percentile percent l) l < percent * length l)
unfolding percentile rank
percentile_rank percent l low high some_samples =
    let n = length l in
    let bound = product-le n percent high in
    let positive = product-pos n percent some_samples low in
    let (_, _, same_length) = sort-counts 0 l in
    let (v, e) =
      get_some ((n * percent + 99) / 100 - 1) (sort l)
        (omega (arith, bound, positive, same_length)) in
    let (p, q) = get-counts ((n * percent + 99) / 100 - 1) v (sort l) (sort-IsSorted l) e in
    let (p', q', _) = sort-counts v l in
    rw (e, percentile) (omega (arith, p, p', positive), omega (arith, q, q', positive))
