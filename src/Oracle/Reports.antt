-- ===== src/Oracle/Reports.antt =====
-- `get_price` against the reports of the listed publishers, on every branch.
use de_fi_lending_stellar_pa.Prelude.{
  ℕ, zero, suc, ◌+◌, ◌*◌, ◌≤◌, ◌<◌, ◌≡◌, ◌∙◌, ap, Option, none, some, List, [], ◌∷◌, ◌++◌, arith,
  ltb, length, length-append, if◌then◌else◌, nat_equality, pair_equality, Option-cases, Bool-cases,
  inl, inr,
}
use mathlib.Core.List.{append-nil, append_assoc}
use de_fi_lending_stellar_pa.Int.{ℤ, ◌≤ℤ◌}
use de_fi_lending_stellar_pa.Map.{lookup}
use de_fi_lending_stellar_pa.Soroban.{
  Address, Symbol, Result, ok, err, Env, insufficient_reports, index_out_of_bounds,
}
use de_fi_lending_stellar_pa.Oracle.{
  Oracle, AssetConfig, list_len, report, collect_loop, collect_median, get_price, median,
  push_price, effective_ttl, max_reports,
}
use de_fi_lending_stellar_pa.Oracle.Sorting.{count_if}
use de_fi_lending_stellar_pa.Oracle.Median.{outside, median_total, median_resists_minority}
use de_fi_lending_stellar_pa.Oracle.Publishers.{IsListed}

abbrev pub to_list : Option ℤ → List ℤ
to_list none = []
to_list (some p) = p ∷ []

-- What a list entry contributes: its report, if it has an entry and a report.
abbrev pub contributed : ℕ → ℕ → Symbol → Oracle → Option Address → List ℤ
contributed now ttl asset s none = []
contributed now ttl asset s (some publisher) = to_list (report now ttl asset publisher s)

-- The reports of the publishers from index `i` on, in the order of the list.
unfoldable pub reports_from : ℕ → ℕ → ℕ → ℕ → Symbol → Oracle → List ℤ
reports_from zero i now ttl asset s = []
reports_from (suc n) i now ttl asset s =
    contributed now ttl asset s (lookup i s.publisher_list)
    ++ reports_from n (i + 1) now ttl asset s

abbrev pub reports : Env → AssetConfig → Oracle → List ℤ
reports e cfg s = reports_from (list_len s) 0 e.sequence (effective_ttl cfg) cfg.asset s

-- The array takes 16 prices.
abbrev pub fits : List ℤ → Result (List ℤ)
fits xs = if ltb max_reports (length xs) then err index_out_of_bounds else ok xs

module _ (now ttl : ℕ) (asset : Symbol) (s : Oracle) (v : IsListed s) where
  collect_loop-reports_from :
      (n i : ℕ) (found : List ℤ)
      → n + i ≤ list_len s
      → length found ≤ max_reports
      → collect_loop n i now ttl asset s found ≡ fits (found ++ reports_from n i now ttl asset s)
  unfolding collect_loop reports_from push_price
  collect_loop-reports_from zero i found h room = rw append-nil (ground arith)
  collect_loop-reports_from (suc n) i found h room =
      elim (Option-cases (lookup i s.publisher_list)) [
        | inl missing ↦ absurd (ground (arith, v.whole i (omega arith)))
        | inr (a, e) ↦ elim (Option-cases (report now ttl asset a s)) [
          | inl silent ↦
              rw (e, silent) (collect_loop-reports_from n (i + 1) found (omega arith) room)
          | inr (p, said) ↦
              let rest = reports_from n (i + 1) now ttl asset s in
              elim (Bool-cases (ltb (length found) max_reports)) [
                | inl free ↦
                    rw (e, said, free)
                      (collect_loop-reports_from n (i + 1) (found ++ p ∷ []) (omega arith)
                          (ground (arith, length-append found (p ∷ [])))
                        ∙ ap fits (append_assoc found (p ∷ []) rest))
                | inr full ↦ rw (e, said, full) (ground (arith, length-append found (p ∷ rest)))
              ]
        ]
      ]

collect_loop-reports :
    (e : Env) (cfg : AssetConfig) (s : Oracle)
    → IsListed s
    → collect_loop (list_len s) 0 e.sequence (effective_ttl cfg) cfg.asset s []
      ≡ fits (reports e cfg s)
collect_loop-reports e cfg s v =
    collect_loop-reports_from e.sequence (effective_ttl cfg) cfg.asset s v (list_len s) 0 []
      (omega arith) (omega arith)

-- What `get_price` is to answer for a configured asset.
abbrev pub priced : AssetConfig → List ℤ → Result ℤ
priced cfg rs =
    if ltb max_reports (length rs)
    then err index_out_of_bounds
    else (if ltb (length rs) cfg.min_publishers then err insufficient_reports else median rs)

-- With a whole list of publishers `get_price` is decided by the listed publishers' positive fresh
-- reports: more than 16 overrun the array and panic, fewer than `min_publishers` are refused, and
-- otherwise the answer is their median.
pub get_price-priced :
    (e : Env) (asset : Symbol) (cfg : AssetConfig) (s : Oracle)
    → IsListed s
    → lookup asset s.asset_configs ≡ some cfg
    → get_price e asset s ≡ priced cfg (reports e cfg s)
unfolding get_price collect_median
get_price-priced e asset cfg s v found = rw (found, collect_loop-reports e cfg s v) (ground arith)

get_price-median :
    (e : Env) (asset : Symbol) (cfg : AssetConfig) (s : Oracle) {p : ℤ}
    → IsListed s
    → lookup asset s.asset_configs ≡ some cfg
    → get_price e asset s ≡ ok p
    → (median (reports e cfg s) ≡ ok p) × (cfg.min_publishers ≤ length (reports e cfg s))
get_price-median e asset cfg s v found h =
    let priced_so = get_price-priced e asset cfg s v found in ground arith

-- A price that `get_price` returns rests on at least `min_publishers` reports, and it lies within
-- every range that fewer than half of these reports leave: a minority cannot move it out.
pub get_price_resists_minority :
    (e : Env) (asset : Symbol) (cfg : AssetConfig) (s : Oracle) (lo hi : ℤ) {p : ℤ}
    → IsListed s
    → lookup asset s.asset_configs ≡ some cfg
    → get_price e asset s ≡ ok p
    → 2 * count_if (outside lo hi) (reports e cfg s) < length (reports e cfg s)
    → (cfg.min_publishers ≤ length (reports e cfg s)) × (lo ≤ℤ p) × (p ≤ℤ hi)
get_price_resists_minority e asset cfg s lo hi v found h few =
    let (m, enough) = get_price-median e asset cfg s v found h in
    let (low, high) = median_resists_minority lo hi (reports e cfg s) m few in (enough, low, high)

-- With at least one and at most 16 reports, and no fewer than `min_publishers`, `get_price` returns
-- a price.
get_price_available :
    (e : Env) (asset : Symbol) (cfg : AssetConfig) (s : Oracle)
    → IsListed s
    → lookup asset s.asset_configs ≡ some cfg
    → 1 ≤ cfg.min_publishers
    → cfg.min_publishers ≤ length (reports e cfg s)
    → length (reports e cfg s) ≤ max_reports
    → (p : ℤ) × (get_price e asset s ≡ ok p)
get_price_available e asset cfg s v found one enough room =
    let (p, m) = median_total (reports e cfg s) (omega arith) in
    let priced_so = get_price-priced e asset cfg s v found in (p, ground arith)

-- More than 16 publishers with a positive fresh report leave the asset without a price.
get_price_overrun :
    (e : Env) (asset : Symbol) (cfg : AssetConfig) (s : Oracle)
    → IsListed s
    → lookup asset s.asset_configs ≡ some cfg
    → max_reports < length (reports e cfg s)
    → get_price e asset s ≡ err index_out_of_bounds
get_price_overrun e asset cfg s v found many =
    let priced_so = get_price-priced e asset cfg s v found in ground arith
