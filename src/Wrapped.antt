-- ===== src/Wrapped.antt =====
-- The wrapped token (contracts/treasury/soroban/src/lib.rs): mint and burn, the administration of
-- the minter, and the events that the bridge watches.
pub mod Supply
pub mod Direct
mod Examples
use Prim.Native.String.{String}
use de_fi_lending_stellar_pa.Prelude.{ℕ, Option, none, some, List, [], ◌∷◌, nat_equality}
use de_fi_lending_stellar_pa.Int.{ℤ, pos, ltb_ℤ}
use de_fi_lending_stellar_pa.Map.{Map, insert}
use de_fi_lending_stellar_pa.Map.Sum.{amount_at, or_zero}
use de_fi_lending_stellar_pa.Soroban.{
  Address, Result, ok, err, ◌>>=◌, ◌>>◌, Env, panic_if, expect, is_some, require_auth,
  require_admin, require_positive, add_i128, sub_i128, already_initialized, amount_not_positive,
  minter_not_set, not_initialized, insufficient_balance,
}

pub record TokenMetadata : Type 0 where
  pub name : String
  pub symbol : String
  pub decimals : ℕ
  pub origin_chain : String
  pub origin_address : String

pub data Event : Type 0 where
  init_event : Address → Address → Event
  mint_event burn_event : Address → ℤ → Event
  set_minter_event : Address → Event

-- The keys of `DataKey`; `events` holds what was published, the latest first.
pub record Token : Type 0 where
  pub admin : Option Address
  pub minter : Option Address
  pub metadata : Option TokenMetadata
  pub balances : Map Address ℤ
  pub total_supply : Option ℤ
  pub underlying_token : Option Address
  pub events : List Event

abbrev pub deployed : Token
deployed = record {
  admin = none;
  minter = none;
  metadata = none;
  balances = [];
  total_supply = none;
  underlying_token = none;
  events = [];
}

unfoldable pub initialize : Env → Address → Address → TokenMetadata → Token → Result Token
initialize e admin minter data_given s = do
  panic_if (is_some s.admin) already_initialized
  require_auth e admin
  ok (record s {
    admin = some admin;
    minter = some minter;
    metadata = some data_given;
    total_supply = some (pos 0);
    events = init_event admin minter ∷ s.events;
  })

unfoldable pub mint : Env → Address → ℤ → Token → Result Token
mint e to amount s = do
  minter ← expect s.minter minter_not_set
  require_auth e minter
  require_positive amount amount_not_positive
  balance' ← add_i128 (amount_at to s.balances) amount
  supply ← add_i128 (or_zero s.total_supply) amount
  ok (record s {
    balances = insert to balance' s.balances;
    total_supply = some supply;
    events = mint_event to amount ∷ s.events;
  })

unfoldable pub burn : Env → Address → ℤ → Token → Result Token
burn e from amount s = do
  require_auth e from
  require_positive amount amount_not_positive
  let held = amount_at from s.balances
  panic_if (ltb_ℤ held amount) insufficient_balance
  left ← sub_i128 held amount
  supply ← sub_i128 (or_zero s.total_supply) amount
  ok (record s {
    balances = insert from left s.balances;
    total_supply = some supply;
    events = burn_event from amount ∷ s.events;
  })

unfoldable pub balance : Address → Token → ℤ
balance owner s = amount_at owner s.balances

unfoldable pub total_supply : Token → ℤ
total_supply s = or_zero s.total_supply

unfoldable pub metadata : Token → Result TokenMetadata
metadata s = expect s.metadata not_initialized

unfoldable pub minter : Token → Result Address
minter s = expect s.minter not_initialized

unfoldable pub set_minter : Env → Address → Token → Result Token
set_minter e new_minter s = do
  require_admin e s.admin
  ok (record s { minter = some new_minter; events = set_minter_event new_minter ∷ s.events })

unfoldable pub set_underlying_token : Env → Address → Token → Result Token
set_underlying_token e underlying s = do
  require_admin e s.admin
  ok (record s { underlying_token = some underlying })
