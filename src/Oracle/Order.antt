-- ===== src/Oracle/Order.antt =====
-- The price against the order of the publishers.
use mathlib.Core.List.{Perm, Permᴰ}
use mathlib.Core.Logic.{∥∥₁_elim}
use native.Mathlib.Nat.{ℕ_set}
use de_fi_lending_stellar_pa.Prelude.{
  ◌≡◌, refl, sym, ◌∙◌, Bool, true, some, List, [], ◌∷◌, arith, length, All, nat_equality,
}
use de_fi_lending_stellar_pa.Int.{ℤ, ltb_ℤ, ◌≤ℤ◌, eq_of_parts}
use de_fi_lending_stellar_pa.Map.{lookup}
use de_fi_lending_stellar_pa.Soroban.{Symbol, Env}
use de_fi_lending_stellar_pa.Oracle.{Oracle, AssetConfig, get_price, median, exchange_sort}
use de_fi_lending_stellar_pa.Oracle.Sorting.{
  count_if, IsSorted, count_if-exchange_sort, exchange_sort-IsSorted,
}
use de_fi_lending_stellar_pa.Oracle.Publishers.{IsListed}
use de_fi_lending_stellar_pa.Oracle.Reports.{reports, get_price-priced}

-- Nothing is below a lower bound.
count_if-none : (b : ℤ) (xs : List ℤ) → All (λ y. b ≤ℤ y) xs → count_if (λ z. ltb_ℤ z b) xs ≡ 0
unfolding count_if
count_if-none b [] h = refl
count_if-none b (x ∷ xs) h = ground (arith, count_if-none b xs h.1)

-- The heads of ascending lists with the same counts are in order.
head-le :
    (x y : ℤ) (xs ys : List ℤ)
    → All (λ z. y ≤ℤ z) ys
    → ((q : ℤ → Bool) → count_if q (x ∷ xs) ≡ count_if q (y ∷ ys))
    → y ≤ℤ x
unfolding count_if
head-le x y xs ys low same =
    let few = same (λ z. ltb_ℤ z y) in ground (arith, count_if-none y ys low)

-- An ascending list is decided by its counts.
sorted_unique :
    (xs ys : List ℤ)
    → IsSorted xs
    → IsSorted ys
    → ((q : ℤ → Bool) → count_if q xs ≡ count_if q ys)
    → xs ≡ ys
unfolding count_if
sorted_unique [] [] hx hy same = refl
sorted_unique [] (y ∷ ys) hx hy same = let all = same (λ z. true) in absurd (omega arith)
sorted_unique (x ∷ xs) [] hx hy same = let all = same (λ z. true) in absurd (omega arith)
sorted_unique (x ∷ xs) (y ∷ ys) hx hy same =
    let here : x ≡ y =
      eq_of_parts x y
        (omega (arith, head-le x y xs ys hy.0 same, head-le y x ys xs hx.0 (λ q. sym (same q)))) in
    let tails : (q : ℤ → Bool) → count_if q xs ≡ count_if q ys =
      λ q. let both = rw here at (same q) in omega arith in
    rw (here, sorted_unique xs ys hx.1 hy.1 tails) refl

count_if-Permᴰ : (q : ℤ → Bool) {xs ys : List ℤ} → Permᴰ xs ys → count_if q xs ≡ count_if q ys
unfolding count_if
count_if-Permᴰ q Permᴰ.nil = refl
count_if-Permᴰ q (Permᴰ.cons same rest) = rw (same, count_if-Permᴰ q rest) refl
count_if-Permᴰ q (Permᴰ.swap one two) = rw (one, two) (omega arith)
count_if-Permᴰ q (Permᴰ.trans first second) = count_if-Permᴰ q first ∙ count_if-Permᴰ q second

count_if-Perm : (q : ℤ → Bool) (xs ys : List ℤ) → Perm xs ys → count_if q xs ≡ count_if q ys
count_if-Perm q xs ys p = ∥∥₁_elim p (ℕ_set _ _) (count_if-Permᴰ q)

length-count_if : (xs : List ℤ) → length xs ≡ count_if (λ z. true) xs
unfolding count_if
length-count_if [] = refl
length-count_if (x ∷ xs) = omega (arith, length-count_if xs)

length-Perm : (xs ys : List ℤ) → Perm xs ys → length xs ≡ length ys
length-Perm xs ys p =
    length-count_if xs ∙ count_if-Perm (λ z. true) xs ys p ∙ sym (length-count_if ys)

-- The sort leaves one list of all the orders of the prices.
exchange_sort-Perm :
    (xs ys : List ℤ) → Perm xs ys → exchange_sort (length xs) xs ≡ exchange_sort (length ys) ys
exchange_sort-Perm xs ys p =
    sorted_unique _ _ (exchange_sort-IsSorted (length xs) xs (omega arith))
      (exchange_sort-IsSorted (length ys) ys (omega arith))
      (λ q.
        count_if-exchange_sort q (length xs) xs
        ∙ count_if-Perm q xs ys p
        ∙ sym (count_if-exchange_sort q (length ys) ys))

median-Perm : (xs ys : List ℤ) → Perm xs ys → median xs ≡ median ys
unfolding median
median-Perm xs ys p = rw (exchange_sort-Perm xs ys p, length-Perm xs ys p) refl

-- The price depends on the reports as a bag only: two oracles with whole lists of publishers, the same
-- configuration of the asset, and reports that are the same up to their order give the same answer,
-- panics included, whatever the order in which their publishers were added and removed.
pub get_price-Perm :
    (e : Env) (asset : Symbol) (cfg : AssetConfig) (s s' : Oracle)
    → IsListed s
    → IsListed s'
    → lookup asset s.asset_configs ≡ some cfg
    → lookup asset s'.asset_configs ≡ some cfg
    → Perm (reports e cfg s) (reports e cfg s')
    → get_price e asset s ≡ get_price e asset s'
get_price-Perm e asset cfg s s' v v' found found' p =
    get_price-priced e asset cfg s v found
    ∙ rw (length-Perm _ _ p, median-Perm _ _ p) refl
    ∙ sym (get_price-priced e asset cfg s' v' found')
