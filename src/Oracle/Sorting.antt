-- ===== src/Oracle/Sorting.antt =====
-- The exchange sort of the oracle: it keeps the prices, and leaves them in ascending order.
use de_fi_lending_stellar_pa.Prelude.{
  ℕ, zero, suc, ◌+◌, ◌≤◌, ◌≡◌, refl, Bool, List, [], ◌∷◌, arith, length, All, if◌then◌else◌,
  Bool-cases, inl, inr,
}
use de_fi_lending_stellar_pa.Int.{ℤ, ltb_ℤ, ◌≤ℤ◌}
use de_fi_lending_stellar_pa.Oracle.{exchange, exchange_sort}

abbrev bit : Bool → ℕ
bit b = if b then 1 else 0

-- How many prices pass a test.
unfoldable pub count_if : (ℤ → Bool) → List ℤ → ℕ
count_if q [] = 0
count_if q (x ∷ xs) = bit (q x) + count_if q xs

abbrev pub IsSorted : List ℤ → Type 0
IsSorted [] = Unit
IsSorted (x ∷ xs) = All (λ y. x ≤ℤ y) xs × IsSorted xs

count_if-exchange :
    (q : ℤ → Bool) (x : ℤ) (xs : List ℤ)
    → let (m, rest) = exchange x xs in bit (q m) + count_if q rest ≡ bit (q x) + count_if q xs
unfolding exchange count_if
count_if-exchange q x [] = refl
count_if-exchange q x (y ∷ ys) = elim (Bool-cases (ltb_ℤ y x)) [
  | inl less ↦ rw less (omega (arith, count_if-exchange q y ys))
  | inr more ↦ rw more (omega (arith, count_if-exchange q x ys))
]

length-exchange : (x : ℤ) (xs : List ℤ) → length (exchange x xs).1 ≡ length xs
unfolding exchange
length-exchange x [] = refl
length-exchange x (y ∷ ys) = omega (arith, length-exchange (if ltb_ℤ y x then y else x) ys)

-- What is below the start and all the rest is below the smallest and all that is left.
exchange-below :
    (b x : ℤ) (xs : List ℤ)
    → b ≤ℤ x
    → All (λ y. b ≤ℤ y) xs
    → (b ≤ℤ (exchange x xs).0) × All (λ y. b ≤ℤ y) (exchange x xs).1
unfolding exchange
exchange-below b x [] h hs = (h, tt)
exchange-below b x (y ∷ ys) h hs = elim (Bool-cases (ltb_ℤ y x)) [
  | inl less ↦ rw less (let (p, r) = exchange-below b y ys hs.0 hs.1 in (p, (h, r)))
  | inr more ↦ rw more (let (p, r) = exchange-below b x ys h hs.1 in (p, (hs.0, r)))
]

exchange-le : (x : ℤ) (xs : List ℤ) → (exchange x xs).0 ≤ℤ x
unfolding exchange
exchange-le x [] = omega arith
exchange-le x (y ∷ ys) = ground (arith, exchange-le x ys, exchange-le y ys)

exchange-smallest : (x : ℤ) (xs : List ℤ) → All (λ y. (exchange x xs).0 ≤ℤ y) (exchange x xs).1
unfolding exchange
exchange-smallest x [] = tt
exchange-smallest x (y ∷ ys) =
    let next : ℤ = if ltb_ℤ y x then y else x in
    (ground (arith, exchange-le next ys), exchange-smallest next ys)

pub count_if-exchange_sort :
    (q : ℤ → Bool) (n : ℕ) (xs : List ℤ) → count_if q (exchange_sort n xs) ≡ count_if q xs
unfolding exchange_sort count_if
count_if-exchange_sort q zero xs = refl
count_if-exchange_sort q (suc n) [] = refl
count_if-exchange_sort q (suc n) (x ∷ xs) =
    omega (arith, count_if-exchange q x xs, count_if-exchange_sort q n (exchange x xs).1)

pub length-exchange_sort : (n : ℕ) (xs : List ℤ) → length (exchange_sort n xs) ≡ length xs
unfolding exchange_sort
length-exchange_sort zero xs = refl
length-exchange_sort (suc n) [] = refl
length-exchange_sort (suc n) (x ∷ xs) =
    omega (arith, length-exchange x xs, length-exchange_sort n (exchange x xs).1)

exchange_sort-below :
    (b : ℤ) (n : ℕ) (xs : List ℤ) → All (λ y. b ≤ℤ y) xs → All (λ y. b ≤ℤ y) (exchange_sort n xs)
unfolding exchange_sort
exchange_sort-below b zero xs h = h
exchange_sort-below b (suc n) [] h = tt
exchange_sort-below b (suc n) (x ∷ xs) h =
    let (p, r) = exchange-below b x xs h.0 h.1 in (p, exchange_sort-below b n (exchange x xs).1 r)

-- With as many rounds as prices the result ascends.
pub exchange_sort-IsSorted : (n : ℕ) (xs : List ℤ) → length xs ≤ n → IsSorted (exchange_sort n xs)
unfolding exchange_sort
exchange_sort-IsSorted zero [] h = tt
exchange_sort-IsSorted zero (x ∷ xs) h = absurd (omega arith)
exchange_sort-IsSorted (suc n) [] h = tt
exchange_sort-IsSorted (suc n) (x ∷ xs) h =
    let rest = (exchange x xs).1 in
    (
      exchange_sort-below (exchange x xs).0 n rest (exchange-smallest x xs),
      exchange_sort-IsSorted n rest (omega (arith, length-exchange x xs)),
    )
