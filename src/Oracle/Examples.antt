-- ===== src/Oracle/Examples.antt =====
-- Runs of the oracle, and its theorems at concrete inputs.
use mathlib.Core.List.Perm
use de_fi_lending_stellar_pa.Prelude.{
  ◌≤◌, ◌≡◌, refl, true, none, some, List, [], ◌∷◌, arith, length, nat_equality, pair_equality,
}
use de_fi_lending_stellar_pa.Int.{pos, ◌*ℤ◌, ◌≤ℤ◌, quot}
use de_fi_lending_stellar_pa.Map.{lookup, insert, erase}
use de_fi_lending_stellar_pa.Soroban.{
  ok, err, Env, ◌>>=◌, in_i128, u32_limit, run, insufficient_reports,
}
use de_fi_lending_stellar_pa.Oracle.{
  Oracle, AssetConfig, deployed, initialize, add_publisher, remove_publisher, get_price, value_of,
  is_fresh, report, append_publisher_list, collect_loop, collect_median, push_price, median,
  exchange, exchange_sort, remove_from_publisher_list, remove_loop, drop_entry,
}
use de_fi_lending_stellar_pa.Oracle.Sorting.{count_if}
use de_fi_lending_stellar_pa.Oracle.Median.{outside, median_resists_minority}
use de_fi_lending_stellar_pa.Oracle.Publishers.{
  IsListed, Op, initialize_op, add_publisher_op, remove_publisher_op, invoke,
  remove_publisher_total,
}
use de_fi_lending_stellar_pa.Oracle.Reports.{
  reports, reports_from, priced, get_price-priced, get_price_resists_minority,
}
use de_fi_lending_stellar_pa.Oracle.Order.{get_price-Perm}
use de_fi_lending_stellar_pa.Oracle.Duplicates.{single_source, single_source_priced}

-- 1 is the admin, 11, 12 and 13 are publishers, and 20 is an asset.
abbrev env : Env
env = record {
  signers = λ a. true;
  invoker = none;
  current = 7;
  sequence = 1000;
  timestamp = 5000;
  token_accepts = λ before t. true;
}

abbrev config : AssetConfig
config = record { asset = 20; heartbeat = 300; min_publishers = 2 }

abbrev quoted : Oracle
quoted = record deployed {
  admin = some 1;
  asset_configs = (20, config) ∷ [];
  publisher_prices = ((20, 11), pos 105) ∷ ((20, 12), pos 9000) ∷ ((20, 13), pos 100) ∷ [];
  publisher_updated = ((20, 11), 900) ∷ ((20, 12), 999) ∷ ((20, 13), 1000) ∷ [];
  publishers = (11, true) ∷ (12, true) ∷ (13, true) ∷ [];
  publisher_list = (0, 11) ∷ (1, 12) ∷ (2, 13) ∷ [];
  publisher_list_len = some 3;
}

quoted-IsListed : IsListed quoted
unfolding lookup
quoted-IsListed = record { whole = λ i h. ground arith }

quoted_price : get_price env 20 quoted ≡ ok (pos 105)
unfolding get_price collect_median collect_loop report push_price is_fresh median exchange
    exchange_sort lookup
quoted_price = refl

quoted_value : value_of env 20 (pos 20_000_000) quoted ≡ ok (pos 210)
unfolding value_of get_price collect_median collect_loop report push_price is_fresh median exchange
    exchange_sort lookup in_i128 ◌*ℤ◌ quot
quoted_value = refl

later : Env
later = record env { sequence = 1250 }

stale_price : get_price later 20 quoted ≡ ok (pos 100)
unfolding later get_price collect_median collect_loop report push_price is_fresh median exchange
    exchange_sort lookup
stale_price = refl

removed_price :
    (remove_publisher env 13 quoted >>= remove_publisher env 12 >>= get_price env 20)
    ≡ err insufficient_reports
unfolding remove_publisher remove_from_publisher_list remove_loop drop_entry get_price
    collect_median collect_loop report push_price is_fresh lookup insert erase
removed_price = refl

median_resists_minority_example : (pos 100 ≤ℤ pos 105) × (pos 105 ≤ℤ pos 110)
unfolding median exchange exchange_sort count_if outside
median_resists_minority_example =
    median_resists_minority (pos 100) (pos 110) (pos 105 ∷ pos 9000 ∷ pos 100 ∷ []) refl
      (omega arith)

get_price-priced_example : get_price env 20 quoted ≡ priced config (reports env config quoted)
unfolding lookup
get_price-priced_example = get_price-priced env 20 config quoted quoted-IsListed refl

get_price_resists_minority_example :
    (2 ≤ length (reports env config quoted)) × (pos 100 ≤ℤ pos 105) × (pos 105 ≤ℤ pos 110)
unfolding lookup report is_fresh reports_from count_if outside
get_price_resists_minority_example =
    get_price_resists_minority env 20 config quoted (pos 100) (pos 110) quoted-IsListed refl
      quoted_price (omega arith)

-- The same publishers, the first two the other way round.
abbrev reordered : Oracle
reordered = record quoted { publisher_list = (0, 12) ∷ (1, 11) ∷ (2, 13) ∷ [] }

reordered-IsListed : IsListed reordered
unfolding lookup
reordered-IsListed = record { whole = λ i h. ground arith }

get_price-Perm_example : get_price env 20 quoted ≡ get_price env 20 reordered
unfolding lookup report is_fresh reports_from
get_price-Perm_example =
    get_price-Perm env 20 config quoted reordered quoted-IsListed reordered-IsListed refl refl
      (Perm.swap (pos 9000) (pos 105) (pos 100 ∷ []))

abbrev calls : List (Env × Op)
calls =
    (env, initialize_op 1)
    ∷ (env, add_publisher_op 11)
    ∷ (env, add_publisher_op 12)
    ∷ (env, remove_publisher_op 11)
    ∷ []

remove_publisher_total_example :
    IsListed (run invoke calls deployed)
    × (s' : Oracle) × (remove_publisher env 12 (run invoke calls deployed) ≡ ok s')
unfolding run invoke initialize add_publisher append_publisher_list remove_publisher
    remove_from_publisher_list remove_loop drop_entry lookup insert erase u32_limit
remove_publisher_total_example = remove_publisher_total calls env 1 12 refl refl

single_source_priced_example :
    (single_source env 1 11 20 (pos 105) >>= get_price env 20) ≡ ok (pos 105)
single_source_priced_example = single_source_priced env 1 11 20 (pos 105) refl refl (omega arith)
