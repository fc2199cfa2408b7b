-- ===== src/Vault.antt =====
-- The collateral vault (contracts/collateral/soroban/src/lib.rs): its storage, its operator-gated
-- operations and its views. A call takes the storage and returns the new one, or the panic.
pub mod Effects
pub mod Conservation
pub mod Reach
pub mod Ledger
pub mod Backing
pub mod Access
mod Examples
use de_fi_lending_stellar_pa.Prelude.{
  ℕ, ltb, Bool, true, false, Option, none, some, List, [], ◌∷◌, not, if◌then◌else◌, nat_equality,
  pair_equality,
}
use de_fi_lending_stellar_pa.Int.{ℤ, pos, ltb_ℤ}
use de_fi_lending_stellar_pa.Map.{Map, lookup, insert}
use de_fi_lending_stellar_pa.Map.Sum.{amount_at}
use de_fi_lending_stellar_pa.Soroban.{
  Address, Symbol, Result, ok, err, ◌>>=◌, ◌>>◌, Env, Transfer, panic_if, require, unwrap_or,
  is_some, require_auth, require_admin, require_positive, add_i128, sub_i128, already_initialized,
  not_an_operator, bps_over_100, token_refused, amount_not_positive, insufficient_collateral,
  insufficient_collateral_to_seize,
}

-- The keys of `DataKey`; `transfers` records the calls made to token contracts, the latest first.
pub record Vault : Type 0 where
  pub admin : Option Address
  pub operators : Map Address Bool
  pub positions : Map (Address × Symbol) ℤ
  pub totals : Map Symbol ℤ
  pub liq_thresholds : Map Symbol ℕ
  pub token_addresses : Map Symbol Address
  pub skip_token_transfers : Option Bool
  pub transfers : List Transfer

-- The storage of a contract that has just been deployed.
abbrev pub deployed : Vault
deployed = record {
  admin = none;
  operators = [];
  positions = [];
  totals = [];
  liq_thresholds = [];
  token_addresses = [];
  skip_token_transfers = none;
  transfers = [];
}

unfoldable pub initialize : Env → Address → Vault → Result Vault
initialize e admin s = do
  panic_if (is_some s.admin) already_initialized
  require_auth e admin
  ok (record s { admin = some admin })

unfoldable pub set_skip_token_transfers : Env → Bool → Vault → Result Vault
set_skip_token_transfers e skip s = do
  require_admin e s.admin
  ok (record s { skip_token_transfers = some skip })

unfoldable pub add_operator : Env → Address → Vault → Result Vault
add_operator e op s = do
  require_admin e s.admin
  ok (record s { operators = insert op true s.operators })

unfoldable pub set_liq_threshold : Env → Symbol → ℕ → Vault → Result Vault
set_liq_threshold e asset bps s = do
  require_admin e s.admin
  panic_if (ltb 10_000 bps) bps_over_100
  ok (record s { liq_thresholds = insert asset bps s.liq_thresholds })

unfoldable pub set_token_address : Env → Symbol → Address → Vault → Result Vault
set_token_address e asset token s = do
  require_admin e s.admin
  ok (record s { token_addresses = insert asset token s.token_addresses })

unfoldable pub require_operator : Env → Address → Vault → Result (Unit {0})
require_operator e op s = do
  require_auth e op
  require (unwrap_or (lookup op s.operators) false) not_an_operator

-- The block that each operation runs unless transfers are skipped or the asset has no token.
unfoldable pub move_tokens : Env → Symbol → Address → Address → ℤ → Vault → Result Vault
move_tokens e asset from to amount s =
    if unwrap_or s.skip_token_transfers false then ok s else elim (lookup asset s.token_addresses) [
      | none ↦ ok s
      | some token ↦
          let t : Transfer = record { token = token; from = from; to = to; amount = amount } in
          if e.token_accepts s.transfers t
          then ok (record s { transfers = t ∷ s.transfers })
          else err token_refused
    ]

unfoldable pub deposit : Env → Address → Address → Symbol → ℤ → Vault → Result Vault
deposit e op user asset amount s = do
  require_operator e op s
  require_positive amount amount_not_positive
  moved ← move_tokens e asset user e.current amount s
  held ← add_i128 (amount_at (user, asset) moved.positions) amount
  total ← add_i128 (amount_at asset moved.totals) amount
  ok (record moved {
    positions = insert (user, asset) held moved.positions;
    totals = insert asset total moved.totals;
  })

unfoldable pub withdraw : Env → Address → Address → Symbol → ℤ → Vault → Result Vault
withdraw e op user asset amount s = do
  require_operator e op s
  require_positive amount amount_not_positive
  let held = amount_at (user, asset) s.positions
  panic_if (ltb_ℤ held amount) insufficient_collateral
  moved ← move_tokens e asset e.current user amount s
  left ← sub_i128 held amount
  total ← sub_i128 (amount_at asset moved.totals) amount
  ok (record moved {
    positions = insert (user, asset) left moved.positions;
    totals = insert asset total moved.totals;
  })

-- The recipient's position is read after the owner's has been written.
unfoldable pub seize : Env → Address → Address → Address → Symbol → ℤ → Vault → Result Vault
seize e op from to asset amount s = do
  require_operator e op s
  require_positive amount amount_not_positive
  let held = amount_at (from, asset) s.positions
  panic_if (ltb_ℤ held amount) insufficient_collateral_to_seize
  moved ← move_tokens e asset e.current to amount s
  left ← sub_i128 held amount
  let taken = insert (from, asset) left moved.positions
  received ← add_i128 (amount_at (to, asset) taken) amount
  ok (record moved { positions = insert (to, asset) received taken })

unfoldable pub position : Address → Symbol → Vault → ℤ
position user asset s = amount_at (user, asset) s.positions

unfoldable pub total_by_asset : Symbol → Vault → ℤ
total_by_asset asset s = amount_at asset s.totals

unfoldable pub liq_threshold_bps : Symbol → Vault → ℕ
liq_threshold_bps asset s = unwrap_or (lookup asset s.liq_thresholds) 8_500
