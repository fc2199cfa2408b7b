-- ===== src/Controller/ExampleMarket.antt =====
-- A market for the examples: the controller, a pool of three assets, a vault and an oracle, before
-- and after a loan.
use de_fi_lending_stellar_pa.Prelude.{true, none, some, [], ◌∷◌, nat_equality, pair_equality}
use de_fi_lending_stellar_pa.Int.{ℤ, pos}
use de_fi_lending_stellar_pa.Soroban.{Symbol, Env}
use de_fi_lending_stellar_pa.Vault.{Vault, deployed as new_vault}
use de_fi_lending_stellar_pa.Oracle.{Oracle, deployed as new_oracle}
use de_fi_lending_stellar_pa.Pool.State.{
  Pool, AssetConfig as PoolAsset, BorrowerSnapshot, deployed as new_pool, index_scale,
}
use de_fi_lending_stellar_pa.Controller.{deployed as new_controller}
use de_fi_lending_stellar_pa.Controller.Deployment.{Deployment, borrow_event}

-- 70 is the controller, 71 the pool, 72 the vault and 73 the oracle; 5 borrows assets 21 and 22
-- against asset 20.
abbrev pub env : Env
env = record {
  signers = λ a. true;
  invoker = none;
  current = 70;
  sequence = 1000;
  timestamp = 5000;
  token_accepts = λ before t. true;
}

abbrev pub prices : Oracle
prices = record new_oracle {
  admin = some 1;
  asset_configs =
      (20, record { asset = 20; heartbeat = 300; min_publishers = 1 })
      ∷ (21, record { asset = 21; heartbeat = 300; min_publishers = 1 })
      ∷ (22, record { asset = 22; heartbeat = 300; min_publishers = 1 })
      ∷ [];
  publisher_prices =
      ((20, 11), pos 10_000_000) ∷ ((21, 11), pos 10_000_000) ∷ ((22, 11), pos 10_000_000) ∷ [];
  publisher_updated = ((20, 11), 1000) ∷ ((21, 11), 1000) ∷ ((22, 11), 1000) ∷ [];
  publishers = (11, true) ∷ [];
  publisher_list = (0, 11) ∷ [];
  publisher_list_len = some 1;
}

abbrev pub asset : Symbol → PoolAsset
asset x = record {
  asset = x;
  collateral_vault = 72;
  oracle = 73;
  ltoken = 7;
  token_address = 8;
  base_rate_bps = 200;
  slope1_bps = 1_000;
  slope2_bps = 13_000;
  kink_bps = 8_000;
  reserve_factor_bps = 1_000;
  ltv_bps = 8_000;
}

abbrev pub idle : Pool
idle = record new_pool {
  admin = some 1;
  skip_token_transfers = some true;
  operators = (70, true) ∷ [];
  asset_configs = (20, asset 20) ∷ (21, asset 21) ∷ (22, asset 22) ∷ [];
  borrow_indices = (21, index_scale) ∷ (22, index_scale) ∷ [];
  last_accruals = (21, 1000) ∷ (22, 1000) ∷ [];
  asset_list = some (20 ∷ 21 ∷ 22 ∷ []);
}

abbrev pub loan : ℤ → BorrowerSnapshot
loan n = record { principal = n; index = index_scale }

abbrev pub lent : Pool
lent = record idle {
  total_borrows = (21, pos 7_500) ∷ [];
  borrowers = ((5, 21), loan (pos 7_500)) ∷ [];
}

abbrev pub empty : Vault
empty = record new_vault { admin = some 1; operators = (70, true) ∷ [] }

abbrev pub posted : Vault
posted = record empty { positions = ((5, 20), pos 10_000) ∷ []; totals = (20, pos 10_000) ∷ [] }

abbrev pub before : Deployment
before = record {
  controller = record new_controller {
    lending_pool = some 71;
    collateral_vault = some 72;
    oracle = some 73;
  };
  events = [];
  tokens = [];
  pools = (71, idle) ∷ [];
  vaults = (72, empty) ∷ [];
  oracles = (73, prices) ∷ [];
}

abbrev pub after : Deployment
after = record before {
  events = borrow_event 5 20 21 (pos 7_500) ∷ [];
  pools = (71, lent) ∷ [];
  vaults = (72, posted) ∷ [];
}
