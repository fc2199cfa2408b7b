-- ===== src/Pool/State.antt =====
-- The pool's storage, its administration, the pause switch and the plain views.
use de_fi_lending_stellar_pa.Prelude.{
  ℕ, ◌==◌, Bool, true, false, Option, none, some, List, [], ◌∷◌, ◌++◌, ◌||◌, if◌then◌else◌,
  nat_equality, pair_equality,
}
use de_fi_lending_stellar_pa.Int.{ℤ, pos, eqb_ℤ, max_ℤ}
use de_fi_lending_stellar_pa.Map.{Map, lookup, insert}
use de_fi_lending_stellar_pa.Map.Sum.{amount_at}
use de_fi_lending_stellar_pa.Soroban.{
  Address, Symbol, Result, ok, err, ◌>>=◌, ◌>>◌, Env, Transfer, panic_if, require, expect,
  unwrap_or, is_some, require_auth, require_admin, mul_i128, div_i128, already_initialized,
  not_a_pool_operator, contract_paused, asset_not_configured, token_refused,
}

-- `VIRTUAL_SHARES` and `VIRTUAL_DEPOSIT`, and the scale of the borrow index.
abbrev pub virtual_shares : ℤ
virtual_shares = pos 1_000_000

abbrev pub virtual_deposit : ℤ
virtual_deposit = pos 1_000_000

abbrev pub index_scale : ℤ
index_scale = pos 1_000_000_000_000_000_000

pub record AssetConfig : Type 0 where
  pub asset : Symbol
  pub collateral_vault : Address
  pub oracle : Address
  pub ltoken : Address
  pub token_address : Address
  pub base_rate_bps : ℕ
  pub slope1_bps : ℕ
  pub slope2_bps : ℕ
  pub kink_bps : ℕ
  pub reserve_factor_bps : ℕ
  pub ltv_bps : ℕ

pub record BorrowerSnapshot : Type 0 where
  pub principal : ℤ
  pub index : ℤ

pub data Event : Type 0 where
  pause_toggled : Bool → Event
  collateral_deposited collateral_withdrawn : Address → Symbol → ℤ → Event

-- The keys of `DataKey` and `PauseKey`; `transfers` records the calls made to token contracts and
-- `events` what was published, the latest first.
pub record Pool : Type 0 where
  pub admin : Option Address
  pub paused : Option Bool
  pub skip_token_transfers : Option Bool
  pub operators : Map Address Bool
  pub asset_configs : Map Symbol AssetConfig
  pub total_deposits : Map Symbol ℤ
  pub total_borrows : Map Symbol ℤ
  pub borrow_indices : Map Symbol ℤ
  pub deposit_shares : Map (Address × Symbol) ℤ
  pub borrowers : Map (Address × Symbol) BorrowerSnapshot
  pub last_accruals : Map Symbol ℕ
  pub total_deposit_shares : Map Symbol ℤ
  pub asset_list : Option (List Symbol)
  pub transfers : List Transfer
  pub events : List Event

abbrev pub deployed : Pool
deployed = record {
  admin = none;
  paused = none;
  skip_token_transfers = none;
  operators = [];
  asset_configs = [];
  total_deposits = [];
  total_borrows = [];
  borrow_indices = [];
  deposit_shares = [];
  borrowers = [];
  last_accruals = [];
  total_deposit_shares = [];
  asset_list = none;
  transfers = [];
  events = [];
}

unfoldable pub initialize : Env → Address → Pool → Result Pool
initialize e admin s = do
  panic_if (is_some s.admin) already_initialized
  require_auth e admin
  ok (record s { admin = some admin })

-- The loop that sets `known`.
unfoldable pub contains : Symbol → List Symbol → Bool
contains asset [] = false
contains asset (a ∷ rest) = contains asset rest || a == asset

unfoldable pub listed : Symbol → Option (List Symbol) → Option (List Symbol)
listed asset stored =
    let assets = unwrap_or stored [] in
    if contains asset assets then stored else some (assets ++ asset ∷ [])

unfoldable pub add_asset : Env → AssetConfig → Pool → Result Pool
add_asset e cfg s = do
  require_admin e s.admin
  ok (record s {
    asset_list = listed cfg.asset s.asset_list;
    asset_configs = insert cfg.asset cfg s.asset_configs;
    total_deposits = insert cfg.asset (pos 0) s.total_deposits;
    total_borrows = insert cfg.asset (pos 0) s.total_borrows;
    borrow_indices = insert cfg.asset index_scale s.borrow_indices;
    last_accruals = insert cfg.asset e.sequence s.last_accruals;
  })

unfoldable pub is_paused : Pool → Bool
is_paused s = unwrap_or s.paused false

unfoldable pub require_not_paused : Pool → Result (Unit {0})
require_not_paused s = panic_if (unwrap_or s.paused false) contract_paused

unfoldable pub set_paused : Env → Bool → Pool → Result Pool
set_paused e paused s = do
  require_admin e s.admin
  ok (record s { paused = some paused; events = pause_toggled paused ∷ s.events })

unfoldable pub add_operator : Env → Address → Pool → Result Pool
add_operator e op s = do
  require_admin e s.admin
  ok (record s { operators = insert op true s.operators })

unfoldable pub set_skip_token_transfers : Env → Bool → Pool → Result Pool
set_skip_token_transfers e skip s = do
  require_admin e s.admin
  ok (record s { skip_token_transfers = some skip })

unfoldable pub require_operator : Address → Pool → Result (Unit {0})
require_operator op s = require (unwrap_or (lookup op s.operators) false) not_a_pool_operator

unfoldable pub asset_config : Symbol → Pool → Result AssetConfig
asset_config asset s = expect (lookup asset s.asset_configs) asset_not_configured

-- The block that moves the underlying tokens unless transfers are skipped.
unfoldable pub move_tokens : Env → Symbol → Address → Address → ℤ → Pool → Result Pool
move_tokens e asset from to amount s =
    if unwrap_or s.skip_token_transfers false
    then ok s
    else (asset_config asset s >>= λ cfg.
        let t : Transfer = record {
          token = cfg.token_address;
          from = from;
          to = to;
          amount = amount;
        } in
        if e.token_accepts s.transfers t
        then ok (record s { transfers = t ∷ s.transfers })
        else err token_refused)

unfoldable pub total_deposit : Symbol → Pool → ℤ
total_deposit asset s = amount_at asset s.total_deposits

unfoldable pub total_borrow : Symbol → Pool → ℤ
total_borrow asset s = amount_at asset s.total_borrows

unfoldable pub borrow_index : Symbol → Pool → ℤ
borrow_index asset s = unwrap_or (lookup asset s.borrow_indices) index_scale

unfoldable pub deposit_shares_total : Symbol → Pool → ℤ
deposit_shares_total asset s = amount_at asset s.total_deposit_shares

unfoldable pub deposit_shares_of : Address → Symbol → Pool → ℤ
deposit_shares_of user asset s = amount_at (user, asset) s.deposit_shares

unfoldable pub collateral_of : Address → Symbol → Pool → ℤ
collateral_of user asset s = amount_at (user, asset) s.deposit_shares

unfoldable pub assets : Pool → List Symbol
assets s = unwrap_or s.asset_list []

unfoldable pub ltv_bps : Symbol → Pool → Result ℕ
ltv_bps asset s = do cfg ← asset_config asset s; ok cfg.ltv_bps

-- What a snapshot is worth at an index.
unfoldable pub owed : BorrowerSnapshot → ℤ → Result ℤ
owed snap idx =
    if eqb_ℤ snap.principal (pos 0)
    then ok (pos 0)
    else (mul_i128 snap.principal idx >>= λ scaled. div_i128 scaled (max_ℤ snap.index (pos 1)))

unfoldable pub debt_of : Address → Symbol → Pool → Result ℤ
debt_of user asset s =
    let none_yet : BorrowerSnapshot = record { principal = pos 0; index = index_scale } in
    owed (unwrap_or (lookup (user, asset) s.borrowers) none_yet) (borrow_index asset s)

unfoldable pub health_factor : Address → Symbol → Pool → Result ℤ
health_factor user asset s = do
  debt ← debt_of user asset s
  let collateral = collateral_of user asset s
  if eqb_ℤ debt (pos 0)
      then ok (pos 0)
      else if eqb_ℤ collateral (pos 0)
      then ok (pos 0)
      else (mul_i128 collateral index_scale >>= λ scaled. div_i128 scaled debt)
