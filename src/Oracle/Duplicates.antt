-- ===== src/Oracle/Duplicates.antt =====
-- A publisher that is added twice counts twice.
use de_fi_lending_stellar_pa.Prelude.{◌≡◌, true, arith, nat_equality, pair_equality}
use de_fi_lending_stellar_pa.Int.{ℤ, pos, ◌≤ℤ◌}
use de_fi_lending_stellar_pa.Map.{lookup, insert}
use de_fi_lending_stellar_pa.Soroban.{Address, Symbol, Result, ok, Env, ◌>>=◌, u32_limit}
use de_fi_lending_stellar_pa.Oracle.{
  Oracle, deployed, initialize, add_publisher, set_asset_config, set_price, get_price,
  append_publisher_list, is_fresh, report, push_price, collect_loop, collect_median, median,
  exchange, exchange_sort,
}

-- The calls that list one publisher twice, ask for two reports, and bring in a single one.
pub single_source : Env → Address → Address → Symbol → ℤ → Result Oracle
single_source e admin publisher asset price = do
  s ← initialize e admin deployed
  s ← add_publisher e publisher s
  s ← add_publisher e publisher s
  s ← set_asset_config e asset 300 2 s
  set_price e publisher asset price s

-- With the publisher listed twice, a single publisher's price is returned for an asset that asks for
-- two publishers: every call below goes through if the admin and the publisher sign.
pub single_source_priced :
    (e : Env) (admin publisher : Address) (asset : Symbol) (price : ℤ)
    → e.signers admin ≡ true
    → e.signers publisher ≡ true
    → pos 1 ≤ℤ price
    → (single_source e admin publisher asset price >>= get_price e asset) ≡ ok price
unfolding single_source initialize add_publisher append_publisher_list set_asset_config set_price
    get_price collect_median collect_loop report push_price is_fresh median exchange exchange_sort
    lookup insert u32_limit
single_source_priced e admin publisher asset price ha hp h = ground arith
