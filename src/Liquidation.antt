-- ===== src/Liquidation.antt =====
-- The liquidation engine (contracts/liquidation/soroban/src/lib.rs), together with the contracts that
-- it calls: the pool, the vault and the oracle at the configured addresses.
pub mod Assessment
pub mod Settlement
mod Examples
use de_fi_lending_stellar_pa.Prelude.{
  ℕ, min, Bool, true, false, Option, none, some, List, [], if◌then◌else◌, nat_equality,
}
use de_fi_lending_stellar_pa.Int.{ℤ, pos, ltb_ℤ, leb_ℤ}
use de_fi_lending_stellar_pa.Map.{Map, lookup, insert}
use de_fi_lending_stellar_pa.Soroban.{
  Address, Symbol, Result, ok, err, ◌>>=◌, ◌>>◌, Env, enter, panic_if, expect, is_some,
  require_auth, require_admin, require_positive, add_i128, mul_i128, div_i128, saturating_sub,
  already_initialized, amount_not_positive, config_not_set, treasury_not_set, position_healthy,
  exceeds_close_factor, price_unavailable, insufficient_collateral_to_seize, no_such_contract,
}
use de_fi_lending_stellar_pa.Oracle.{Oracle, get_price, value_of}
use de_fi_lending_stellar_pa.Pool.State.{Pool, debt_of, ltv_bps}
use de_fi_lending_stellar_pa.Pool.Borrow.{repay_on_behalf}
use de_fi_lending_stellar_pa.Vault.{Vault, position, seize}

pub record LiquidationConfig : Type 0 where
  pub pool : Address
  pub vault : Address
  pub oracle : Address
  pub bonus_bps : ℕ
  pub fee_bps : ℕ
  pub close_factor_bps : ℕ

abbrev pub max_ltv_bps : ℕ
max_ltv_bps = 7_500

-- The engine's own storage, the keys of `DataKey`.
pub record Engine : Type 0 where
  pub admin : Option Address
  pub config : Option LiquidationConfig
  pub treasury : Option Address

-- The engine and the contracts deployed beside it, by their addresses.
pub record World : Type 0 where
  pub engine : Engine
  pub pools : Map Address Pool
  pub vaults : Map Address Vault
  pub oracles : Map Address Oracle

unfoldable pub initialize : Env → Address → LiquidationConfig → Address → Engine → Result Engine
initialize e admin cfg treasury s = do
  panic_if (is_some s.admin) already_initialized
  require_auth e admin
  ok (record s { admin = some admin; config = some cfg; treasury = some treasury })

unfoldable pub set_config : Env → LiquidationConfig → Engine → Result Engine
set_config e cfg s = do require_admin e s.admin; ok (record s { config = some cfg })

unfoldable pub config : Engine → Result LiquidationConfig
config s = expect s.config config_not_set

unfoldable pub treasury : Engine → Result Address
treasury s = expect s.treasury treasury_not_set

unfoldable pub oracle_value : Env → Address → Symbol → ℤ → World → Result ℤ
oracle_value e oracle asset amount w = expect (lookup oracle w.oracles) no_such_contract >>= λ o.
    value_of (enter e oracle) asset amount o

unfoldable pub oracle_price : Env → Address → Symbol → World → Result ℤ
oracle_price e oracle asset w =
    expect (lookup oracle w.oracles) no_such_contract >>= λ o. get_price (enter e oracle) asset o

unfoldable pub asset_ltv_bps : Address → Symbol → World → Result ℕ
asset_ltv_bps pool asset w = expect (lookup pool w.pools) no_such_contract >>= λ p. ltv_bps asset p

unfoldable pub pool_debt_of : Address → Address → Symbol → World → Result ℤ
pool_debt_of pool borrower asset w =
    expect (lookup pool w.pools) no_such_contract >>= λ p. debt_of borrower asset p

unfoldable pub vault_position : Address → Address → Symbol → World → Result ℤ
vault_position vault borrower asset w =
    expect (lookup vault w.vaults) no_such_contract >>= λ v. ok (position borrower asset v)

-- The engine's own address is the operator.
unfoldable pub pool_repay_on_behalf :
    Env → Address → Address → Address → Symbol → ℤ → World → Result World
pool_repay_on_behalf e pool payer borrower asset amount w = do
  p ← expect (lookup pool w.pools) no_such_contract
  (p', _) ← repay_on_behalf (enter e pool) e.current payer borrower asset amount p
  ok (record w { pools = insert pool p' w.pools })

unfoldable pub vault_seize : Env → Address → Address → Address → Symbol → ℤ → World → Result World
vault_seize e vault from to asset amount w = do
  v ← expect (lookup vault w.vaults) no_such_contract
  v' ← seize (enter e vault) e.current from to asset amount v
  ok (record w { vaults = insert vault v' w.vaults })

-- A share in basis points.
unfoldable pub bps_of : ℤ → ℤ → Result ℤ
bps_of amount bps = do scaled ← mul_i128 amount bps; div_i128 scaled (pos 10_000)

-- A USD value in units of the collateral at its price.
unfoldable pub units_of : ℤ → ℤ → Result ℤ
units_of value price = do scaled ← mul_i128 value (pos 10_000_000); div_i128 scaled price

-- What leaves the borrower, and the treasury's part of it.
pub record Seizure : Type 0 where
  pub seize_units_total : ℤ
  pub fee_units : ℤ
  pub seize_amount : ℤ

unfoldable pub seizure : LiquidationConfig → ℤ → ℤ → ℤ → Result Seizure
seizure cfg repay_value coll_price coll_balance = do
  bonus_mult ← add_i128 (pos 10_000) (pos cfg.bonus_bps)
  seize_value ← bps_of repay_value bonus_mult
  total ← units_of seize_value coll_price
  bonus_value ← bps_of repay_value (pos cfg.bonus_bps)
  fee_value ← bps_of bonus_value (pos cfg.fee_bps)
  fee ← units_of fee_value coll_price
  let amount = saturating_sub total fee
  panic_if (leb_ℤ amount (pos 0)) insufficient_collateral_to_seize
  panic_if (ltb_ℤ coll_balance total) insufficient_collateral_to_seize
  ok (record { seize_units_total = total; fee_units = fee; seize_amount = amount })

-- The position must be under water in the effective loan-to-value.
unfoldable pub require_liquidatable : ℤ → ℤ → ℕ → Result (Unit {0})
require_liquidatable coll_value debt_value ltv = do
  max_debt ← bps_of coll_value (pos (min ltv max_ltv_bps))
  panic_if (leb_ℤ debt_value max_debt) position_healthy

-- Steps 1 to 6 of `liquidate`: everything that is read and checked before anything moves.
unfoldable pub assess :
    Env → LiquidationConfig → Address → Symbol → Symbol → ℤ → World → Result Seizure
assess e cfg borrower debt_asset collateral_asset repay_amount w = do
  outstanding ← pool_debt_of cfg.pool borrower debt_asset w
  coll_balance ← vault_position cfg.vault borrower collateral_asset w
  coll_value ← oracle_value e cfg.oracle collateral_asset coll_balance w
  debt_value ← oracle_value e cfg.oracle debt_asset outstanding w
  panic_if (leb_ℤ debt_value (pos 0)) position_healthy
  ltv ← asset_ltv_bps cfg.pool collateral_asset w
  require_liquidatable coll_value debt_value ltv
  max_repay ← bps_of outstanding (pos cfg.close_factor_bps)
  panic_if (ltb_ℤ max_repay repay_amount) exceeds_close_factor
  repay_value ← oracle_value e cfg.oracle debt_asset repay_amount w
  coll_price ← oracle_price e cfg.oracle collateral_asset w
  panic_if (leb_ℤ coll_price (pos 0)) price_unavailable
  seizure cfg repay_value coll_price coll_balance

-- The second seizure, if there is a fee.
unfoldable pub seize_fee : Env → LiquidationConfig → Address → Symbol → ℤ → World → Result World
seize_fee e cfg borrower asset fee w =
    if ltb_ℤ (pos 0) fee
    then (treasury w.engine >>= λ treasury. vault_seize e cfg.vault borrower treasury asset fee w)
    else ok w

-- The remaining steps: the repayment and the seizures.
unfoldable pub settle :
    Env
    → LiquidationConfig
    → Address
    → Address
    → Symbol
    → Symbol
    → ℤ
    → Seizure
    → World
    → Result World
settle e cfg liquidator borrower debt_asset collateral_asset repay_amount z w = do
  repaid ← pool_repay_on_behalf e cfg.pool liquidator borrower debt_asset repay_amount w
  seized ← vault_seize e cfg.vault borrower liquidator collateral_asset z.seize_amount repaid
  seize_fee e cfg borrower collateral_asset z.fee_units seized

unfoldable pub liquidate :
    Env → Address → Address → Symbol → Symbol → ℤ → World → Result (World × ℤ)
liquidate e liquidator borrower debt_asset collateral_asset repay_amount w = do
  require_auth e liquidator
  require_positive repay_amount amount_not_positive
  cfg ← config w.engine
  z ← assess e cfg borrower debt_asset collateral_asset repay_amount w
  w' ← settle e cfg liquidator borrower debt_asset collateral_asset repay_amount z w
  ok (w', z.seize_amount)
