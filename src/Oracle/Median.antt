-- ===== src/Oracle/Median.antt =====
-- The median of the reports: one of them, with as many on either side, and safe from a minority.
use de_fi_lending_stellar_pa.Prelude.{
  ℕ, zero, suc, ◌+◌, ◌-◌, ◌*◌, ◌/◌, ◌≤◌, ◌<◌, ◌≡◌, refl, Bool, true, some, List, [], ◌∷◌, arith,
  length, All, get_elem?, if◌then◌else◌,
}
use native.Mathlib.Nat.{le_refl}
use de_fi_lending_stellar_pa.Int.{ℤ, ltb_ℤ, ◌≤ℤ◌, ◌<ℤ◌}
use de_fi_lending_stellar_pa.Soroban.{ok}
use de_fi_lending_stellar_pa.Oracle.{exchange_sort, median}
use de_fi_lending_stellar_pa.Oracle.Sorting.{
  count_if, IsSorted, count_if-exchange_sort, length-exchange_sort, exchange_sort-IsSorted,
}

-- The prices outside a range.
unfoldable pub outside : ℤ → ℤ → ℤ → Bool
outside lo hi x = if ltb_ℤ x lo then true else ltb_ℤ hi x

All-get_elem? :
    (b : ℤ) (i : ℕ) (xs : List ℤ) {p : ℤ} → All (λ y. b ≤ℤ y) xs → get_elem? xs i ≡ some p → b ≤ℤ p
All-get_elem? b i [] h e = cc
All-get_elem? b zero (x ∷ xs) h e = ground arith
All-get_elem? b (suc i) (x ∷ xs) h e = All-get_elem? b i xs h.1 e

count_if-All :
    (lo hi b : ℤ) (xs : List ℤ)
    → All (λ y. b ≤ℤ y) xs
    → hi <ℤ b
    → count_if (outside lo hi) xs ≡ length xs
unfolding count_if outside
count_if-All lo hi b [] h above = refl
count_if-All lo hi b (x ∷ xs) h above = ground (arith, count_if-All lo hi b xs h.1 above)

-- In an ascending list everything up to a price below `lo` is below `lo`.
count_if-low :
    (lo hi : ℤ) (i : ℕ) (xs : List ℤ) {p : ℤ}
    → IsSorted xs
    → get_elem? xs i ≡ some p
    → p <ℤ lo
    → i < count_if (outside lo hi) xs
unfolding count_if outside
count_if-low lo hi i [] s e h = cc
count_if-low lo hi zero (x ∷ xs) s e h = ground arith
count_if-low lo hi (suc i) (x ∷ xs) s e h =
    ground (arith, count_if-low lo hi i xs s.1 e h, All-get_elem? x i xs s.0 e)

-- In an ascending list everything from a price above `hi` on is above `hi`.
count_if-high :
    (lo hi : ℤ) (i : ℕ) (xs : List ℤ) {p : ℤ}
    → IsSorted xs
    → get_elem? xs i ≡ some p
    → hi <ℤ p
    → length xs ≤ i + count_if (outside lo hi) xs
unfolding count_if outside
count_if-high lo hi i [] s e h = cc
count_if-high lo hi zero (x ∷ xs) s e h = ground (arith, count_if-All lo hi x xs s.0)
count_if-high lo hi (suc i) (x ∷ xs) s e h = ground (arith, count_if-high lo hi i xs s.1 e h)

get_elem?-some : (i : ℕ) (xs : List ℤ) → i < length xs → (p : ℤ) × (get_elem? xs i ≡ some p)
get_elem?-some i [] h = absurd (omega arith)
get_elem?-some zero (x ∷ xs) h = (x, refl)
get_elem?-some (suc i) (x ∷ xs) h = get_elem?-some i xs (omega arith)

count_if-get_elem? :
    (q : ℤ → Bool) (i : ℕ) (xs : List ℤ) {p : ℤ}
    → get_elem? xs i ≡ some p
    → q p ≡ true
    → 0 < count_if q xs
unfolding count_if
count_if-get_elem? q i [] e h = cc
count_if-get_elem? q zero (x ∷ xs) e h = ground arith
count_if-get_elem? q (suc i) (x ∷ xs) e h = ground (arith, count_if-get_elem? q i xs e h)

-- The median is the middle of the ascending arrangement, the lower one of two.
pub median-middle :
    (prices : List ℤ) {p : ℤ}
    → median prices ≡ ok p
    → (get_elem? (exchange_sort (length prices) prices) ((length prices - 1) / 2) ≡ some p)
      × (0 < length prices)
unfolding median
median-middle prices h = ground arith

-- Of one or more prices the median exists.
pub median_total : (prices : List ℤ) → 0 < length prices → (p : ℤ) × (median prices ≡ ok p)
unfolding median
median_total prices h =
    let sorted = exchange_sort (length prices) prices in
    let (p, e) =
      get_elem?-some ((length prices - 1) / 2) sorted
        (omega (arith, length-exchange_sort (length prices) prices)) in
    (p, ground arith)

-- While fewer than half of the prices lie outside a range, the median lies in it.
pub median_resists_minority :
    (lo hi : ℤ) (prices : List ℤ) {p : ℤ}
    → median prices ≡ ok p
    → 2 * count_if (outside lo hi) prices < length prices
    → (lo ≤ℤ p) × (p ≤ℤ hi)
median_resists_minority lo hi prices {p} h few =
    let n = length prices in
    let sorted = exchange_sort n prices in
    let (e, _) = median-middle prices h in
    let s = exchange_sort-IsSorted n prices (le_refl n) in
    let same = count_if-exchange_sort (outside lo hi) n prices in
    let len = length-exchange_sort n prices in
    let not_low : ¬ (p <ℤ lo) =
      λ low. omega (arith, same, len, count_if-low lo hi ((n - 1) / 2) sorted s e low) in
    let not_high : ¬ (hi <ℤ p) =
      λ high. omega (arith, same, len, count_if-high lo hi ((n - 1) / 2) sorted s e high) in
    (omega arith, omega arith)

-- The median is one of the prices: whatever it satisfies, one of them satisfies.
pub median-reported :
    (q : ℤ → Bool) (prices : List ℤ) {p : ℤ}
    → median prices ≡ ok p
    → q p ≡ true
    → 0 < count_if q prices
median-reported q prices {p} h ok_p =
    let n = length prices in
    let (e, _) = median-middle prices h in
    omega (
      arith,
      count_if-exchange_sort q n prices,
      count_if-get_elem? q ((n - 1) / 2) (exchange_sort n prices) e ok_p,
    )
