-- ===== src/Oracle/Positive.antt =====
-- Prices are positive, whatever the storage holds.
use de_fi_lending_stellar_pa.Prelude.{
  ℕ, zero, suc, ◌+◌, ◌<◌, ◌≡◌, refl, Bool, true, List, [], ◌∷◌, ◌++◌, arith, inl, inr, Option-cases,
  nat_equality, pair_equality,
}
use de_fi_lending_stellar_pa.Int.{ℤ, pos, leb_ℤ, ◌≤ℤ◌}
use de_fi_lending_stellar_pa.Map.{lookup}
use de_fi_lending_stellar_pa.Soroban.{Address, Symbol, ok, Env, Result-cases}
use de_fi_lending_stellar_pa.Oracle.{
  Oracle, list_len, report, push_price, collect_loop, collect_median, get_price, median,
  effective_ttl,
}
use de_fi_lending_stellar_pa.Oracle.Sorting.{count_if}
use de_fi_lending_stellar_pa.Oracle.Median.{median-reported}

abbrev not_positive : ℤ → Bool
not_positive p = leb_ℤ p (pos 0)

count_if-append :
    (xs ys : List ℤ)
    → count_if not_positive (xs ++ ys) ≡ count_if not_positive xs + count_if not_positive ys
unfolding count_if
count_if-append [] ys = ground arith
count_if-append (x ∷ xs) ys = ground (arith, count_if-append xs ys)

push_price-positive :
    (now ttl : ℕ) (asset : Symbol) (a : Address) (s : Oracle) (found prices : List ℤ)
    → push_price (report now ttl asset a s) found ≡ ok prices
    → count_if not_positive found ≡ 0
    → count_if not_positive prices ≡ 0
push_price-positive now ttl asset a s found prices h few =
    elim (Option-cases (report now ttl asset a s)) [
      | inl silent ↦ unfold push_price in ground arith
      | inr (p, said) ↦
          let counted = count_if-append found (p ∷ []) in
          unfold push_price report count_if in ground arith
    ]

collect_loop-positive :
    (n i now ttl : ℕ) (asset : Symbol) (s : Oracle) (found prices : List ℤ)
    → collect_loop n i now ttl asset s found ≡ ok prices
    → count_if not_positive found ≡ 0
    → count_if not_positive prices ≡ 0
unfolding collect_loop
collect_loop-positive zero i now ttl asset s found prices h few = ground arith
collect_loop-positive (suc n) i now ttl asset s found prices h few =
    elim (Option-cases (lookup i s.publisher_list)) [
      | inl missing ↦ absurd (ground arith)
      | inr (a, e) ↦ elim (Result-cases (push_price (report now ttl asset a s) found)) [
        | inr (_, failed) ↦ absurd (ground arith)
        | inl (found', pushed) ↦
            collect_loop-positive n (i + 1) now ttl asset s found' prices (ground arith)
              (push_price-positive now ttl asset a s found found' pushed few)
      ]
    ]

-- A price that `get_price` returns is positive.
pub get_price_positive :
    (e : Env) (asset : Symbol) (s : Oracle) (p : ℤ) → get_price e asset s ≡ ok p → pos 1 ≤ℤ p
unfolding get_price collect_median
get_price_positive e asset s p h = elim (Option-cases (lookup asset s.asset_configs)) [
  | inl missing ↦ absurd (ground arith)
  | inr (cfg, configured) ↦
      elim (Result-cases
        (collect_loop (list_len s) 0 e.sequence (effective_ttl cfg) cfg.asset s [])) [
          | inr (_, failed) ↦ absurd (ground arith)
          | inl (prices, collected) ↦
              let priced : median prices ≡ ok p = ground arith in
              let few : count_if not_positive prices ≡ 0 =
                collect_loop-positive (list_len s) 0 e.sequence (effective_ttl cfg) cfg.asset s []
                  prices collected (unfold count_if in refl) in
              let reported : not_positive p ≡ true → 0 < count_if not_positive prices =
                median-reported not_positive prices priced in
              ground (arith, reported)
        ]
]
