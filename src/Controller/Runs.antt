-- ===== src/Controller/Runs.antt =====
-- Histories of the controller's deployment: every entry point of the controller, its initialisation
-- and administration included, and the calls that others make of the contracts that it calls, all but the minting of
-- tokens.
use de_fi_lending_stellar_pa.Prelude.{ℕ, List, nat_equality}
use de_fi_lending_stellar_pa.Int.{ℤ}
use de_fi_lending_stellar_pa.Soroban.{Address, Symbol, Result, ok, ◌>>=◌, Env}
use de_fi_lending_stellar_pa.Wrapped.Direct as Direct
use de_fi_lending_stellar_pa.Pool.Runs as Pools
use de_fi_lending_stellar_pa.Vault.Reach as Vaults
use de_fi_lending_stellar_pa.Oracle.Publishers as Oracles
use de_fi_lending_stellar_pa.Controller.{initialize}
use de_fi_lending_stellar_pa.Controller.Admins as Admins
use de_fi_lending_stellar_pa.Controller.Payload.{Host}
use de_fi_lending_stellar_pa.Controller.Attest.{Attestation}
use de_fi_lending_stellar_pa.Controller.Deployment.{Deployment, invoke_contract}
use de_fi_lending_stellar_pa.Controller.Wrapping.{wrap, unwrap}
use de_fi_lending_stellar_pa.Controller.Lending.{
  supply_collateral, borrow, repay, withdraw_collateral,
}

pub data Op : Type 0 where
  wrap_op : List Attestation → ℕ → ℕ → ℤ → Address → ℕ → ℕ → Op
  unwrap_op : Address → ℤ → ℕ → ℕ → Op
  supply_collateral_op : Address → Symbol → ℤ → Op
  borrow_op : Address → Symbol → ℤ → Symbol → ℤ → Op
  repay_op : Address → Symbol → ℤ → Op
  withdraw_collateral_op : Address → Symbol → ℤ → Op
  initialize_op : Address → List ℕ → ℕ → Address → Address → Address → Address → Op
  administer_op : Admins.Op → Op
  token_op : Address → Direct.Op → Op
  pool_op : Address → Pools.Op → Op
  vault_op : Address → Vaults.Op → Op
  oracle_op : Address → Oracles.Op → Op

unfoldable pub invoke : Host → Env → Op → Deployment → Result Deployment
invoke host e (wrap_op given c a n to salt k) d = wrap host e given c a n to salt k d
invoke host e (unwrap_op user n c a) d = do (d', _) ← unwrap e user n c a d; ok d'
invoke host e (supply_collateral_op user x n) d = supply_collateral e user x n d
invoke host e (borrow_op user x n y m) d = borrow e user x n y m d
invoke host e (repay_op user x n) d = do (d', _) ← repay e user x n d; ok d'
invoke host e (withdraw_collateral_op user x n) d = do
  (d', _) ← withdraw_collateral e user x n d
  ok d'
invoke host e (initialize_op admin keys n wrapped pool vault oracle) d = do
  s ← initialize e admin keys n wrapped pool vault oracle d.controller
  ok (record d { controller = s })
invoke host e (administer_op op) d = do
  s ← Admins.invoke e op d.controller
  ok (record d { controller = s })
invoke host e (token_op token op) d = do
  tokens ← invoke_contract d.tokens token (Direct.invoke e op)
  ok (record d { tokens = tokens })
invoke host e (pool_op pool op) d = do
  pools ← invoke_contract d.pools pool (Pools.invoke e op)
  ok (record d { pools = pools })
invoke host e (vault_op vault op) d = do
  vaults ← invoke_contract d.vaults vault (Vaults.invoke e op)
  ok (record d { vaults = vaults })
invoke host e (oracle_op oracle op) d = do
  oracles ← invoke_contract d.oracles oracle (Oracles.invoke e op)
  ok (record d { oracles = oracles })
