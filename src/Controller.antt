-- ===== src/Controller.antt =====
-- The administration of the lending controller (contracts/lending/controller/src/lib.rs): the set of
-- admins and its multisig check, the bridge set and its timelock, the pause, the salts that are used
-- up, and the cap on mints. The entry points that call other contracts are in Wrapping and Lending.
pub mod Payload
pub mod Attest
pub mod Deployment
pub mod Wrapping
pub mod Lending
pub mod Effects
pub mod Runs
pub mod Backing
pub mod Replay
pub mod Sources
pub mod Traced
pub mod Ltv
pub mod Collateral
pub mod Minting
pub mod Pausing
pub mod Inflation
pub mod Redeem
pub mod Repayment
pub mod Kept
pub mod Debts
pub mod Loan
pub mod FreshLoan
pub mod Release
pub mod Bridged
pub mod Admins
pub mod Bridge
mod Examples
mod BridgeExamples
mod AttestExamples
mod ExampleBridge
mod LoanExamples
mod RepayExamples
mod CollateralExamples
mod ExampleMarket
use de_fi_lending_stellar_pa.Prelude.{
  ℕ, ◌+◌, ◌-◌, ltb, leb, ◌==◌, not, ◌||◌, Bool, true, false, Option, none, some, List, [], ◌∷◌,
  ◌++◌, length, if◌then◌else◌, nat_equality,
}
use de_fi_lending_stellar_pa.Int.{ℤ, pos, ltb_ℤ, leb_ℤ}
use de_fi_lending_stellar_pa.Map.{Map, lookup, insert}
use de_fi_lending_stellar_pa.Soroban.{
  Address, Result, ok, err, ◌>>=◌, ◌>>◌, Env, panic_if, expect, is_some, unwrap_or, require_auth,
  require_positive, add_i128, already_initialized, limit_not_positive, paused, admin_set_not_found,
  not_enough_approvals, not_an_admin, duplicate_approval, bridge_set_empty,
  invalid_bridge_threshold, no_pending_bridge, timelock_not_expired, admin_exists,
  admins_below_threshold, admin_not_found, invalid_threshold, salt_already_used, mint_rate_exceeded,
}
use de_fi_lending_stellar_pa.Pool.State.{contains}

abbrev pub timelock_ledgers : ℕ
timelock_ledgers = 17_280

abbrev pub max_per_hour : ℤ
max_per_hour = pos 1_000_000_000_000

abbrev pub window_ledgers : ℕ
window_ledgers = 1_800

pub record BridgeSet : Type 0 where
  pub keys : List ℕ
  pub threshold : ℕ

pub record AdminSet : Type 0 where
  pub admins : List Address
  pub threshold : ℕ

-- The keys of `DataKey`.
pub record Controller : Type 0 where
  pub admin_set : Option AdminSet
  pub bridge : Option BridgeSet
  pub pending_bridge : Option BridgeSet
  pub pending_bridge_at : Option ℕ
  pub wrapped_asset : Option Address
  pub lending_pool : Option Address
  pub collateral_vault : Option Address
  pub oracle : Option Address
  pub nonces : Map ℕ Bool
  pub is_paused : Option Bool
  pub mint_window_start : Option ℕ
  pub mint_window_count : Option ℤ
  pub mint_rate_limit : Option ℤ

abbrev pub deployed : Controller
deployed = record {
  admin_set = none;
  bridge = none;
  pending_bridge = none;
  pending_bridge_at = none;
  wrapped_asset = none;
  lending_pool = none;
  collateral_vault = none;
  oracle = none;
  nonces = [];
  is_paused = none;
  mint_window_start = none;
  mint_window_count = none;
  mint_rate_limit = none;
}

unfoldable pub initialize :
    Env
    → Address
    → List ℕ
    → ℕ
    → Address
    → Address
    → Address
    → Address
    → Controller
    → Result Controller
initialize e admin bridge_keys bridge_threshold wrapped pool vault oracle s = do
  panic_if (is_some s.admin_set) already_initialized
  require_auth e admin
  ok (record s {
    admin_set = some (record { admins = admin ∷ []; threshold = 1 });
    bridge = some (record { keys = bridge_keys; threshold = bridge_threshold });
    wrapped_asset = some wrapped;
    lending_pool = some pool;
    collateral_vault = some vault;
    oracle = some oracle;
  })

-- Only the first admin of the set is asked; an empty set asks nobody.
unfoldable pub require_first : Env → List Address → Result (Unit {0})
require_first e [] = ok tt
require_first e (a ∷ _) = require_auth e a

unfoldable pub require_admin : Env → Controller → Result (Unit {0})
require_admin e s = do set ← expect s.admin_set admin_set_not_found; require_first e set.admins

-- The loop over the approvals, with those that it has passed.
unfoldable pub check_approvals :
    Env → List Address → List Address → List Address → Result (Unit {0})
check_approvals e admins passed [] = ok tt
check_approvals e admins passed (a ∷ rest) = do
  panic_if (not (contains a admins)) not_an_admin
  panic_if (contains a passed) duplicate_approval
  require_auth e a
  check_approvals e admins (a ∷ passed) rest

unfoldable pub require_admin_multisig : Env → List Address → Controller → Result (Unit {0})
require_admin_multisig e approvals s = do
  set ← expect s.admin_set admin_set_not_found
  panic_if (ltb (length approvals) set.threshold) not_enough_approvals
  check_approvals e set.admins [] approvals

unfoldable pub set_paused : Env → Bool → Controller → Result Controller
set_paused e to s = do require_admin e s; ok (record s { is_paused = some to })

unfoldable pub require_not_paused : Controller → Result (Unit {0})
require_not_paused s = panic_if (unwrap_or s.is_paused false) paused

-- Raising the cap takes the multisig.
unfoldable pub set_mint_rate_limit : Env → List Address → ℤ → Controller → Result Controller
set_mint_rate_limit e approvals limit s = do
  require_positive limit limit_not_positive
  (if ltb_ℤ (unwrap_or s.mint_rate_limit max_per_hour) limit
      then require_admin_multisig e approvals s
      else require_admin e s)
  ok (record s { mint_rate_limit = some limit })

unfoldable pub require_bridge_set : List ℕ → ℕ → Result (Unit {0})
require_bridge_set keys threshold = do
  panic_if (length keys == 0) bridge_set_empty
  panic_if (ltb threshold 1 || ltb (length keys) threshold) invalid_bridge_threshold

unfoldable pub propose_bridge : Env → List Address → List ℕ → ℕ → Controller → Result Controller
propose_bridge e approvals keys threshold s = do
  require_admin_multisig e approvals s
  require_bridge_set keys threshold
  ok (record s {
    pending_bridge = some (record { keys = keys; threshold = threshold });
    pending_bridge_at = some e.sequence;
  })

unfoldable pub execute_bridge : Env → List Address → Controller → Result Controller
execute_bridge e approvals s = do
  require_admin_multisig e approvals s
  proposed_at ← expect s.pending_bridge_at no_pending_bridge
  panic_if (ltb (e.sequence - proposed_at) timelock_ledgers) timelock_not_expired
  bridge ← expect s.pending_bridge no_pending_bridge
  ok (record s { bridge = some bridge; pending_bridge = none; pending_bridge_at = none })

unfoldable pub set_bridge : Env → List Address → List ℕ → ℕ → Controller → Result Controller
set_bridge e approvals keys threshold s = do
  require_admin_multisig e approvals s
  require_bridge_set keys threshold
  ok (record s { bridge = some (record { keys = keys; threshold = threshold }) })

unfoldable pub add_admin : Env → List Address → Address → Controller → Result Controller
add_admin e approvals new_admin s = do
  require_admin_multisig e approvals s
  set ← expect s.admin_set admin_set_not_found
  panic_if (contains new_admin set.admins) admin_exists
  ok (record s { admin_set = some (record set { admins = set.admins ++ new_admin ∷ [] }) })

-- The admins that the loop of `remove_admin` keeps.
unfoldable pub without : Address → List Address → List Address
without a [] = []
without a (x ∷ xs) = let rest = without a xs in if x == a then rest else x ∷ rest

unfoldable pub remove_admin : Env → List Address → Address → Controller → Result Controller
remove_admin e approvals removed s = do
  require_admin_multisig e approvals s
  set ← expect s.admin_set admin_set_not_found
  panic_if (leb (length set.admins) set.threshold) admins_below_threshold
  panic_if (not (contains removed set.admins)) admin_not_found
  ok (record s { admin_set = some (record set { admins = without removed set.admins }) })

unfoldable pub set_threshold : Env → List Address → ℕ → Controller → Result Controller
set_threshold e approvals threshold s = do
  require_admin_multisig e approvals s
  set ← expect s.admin_set admin_set_not_found
  panic_if (ltb threshold 1 || ltb (length set.admins) threshold) invalid_threshold
  ok (record s { admin_set = some (record set { threshold = threshold }) })

unfoldable pub admin_set : Controller → Result AdminSet
admin_set s = expect s.admin_set admin_set_not_found

unfoldable pub check_and_bump_nonce : ℕ → Controller → Result Controller
check_and_bump_nonce salt s = do
  panic_if (is_some (lookup salt s.nonces)) salt_already_used
  ok (record s { nonces = insert salt true s.nonces })

unfoldable pub check_mint_rate : Env → Controller → Result Controller
check_mint_rate e s =
    let count = unwrap_or s.mint_window_count (pos 0) in
    if ltb window_ledgers (e.sequence - unwrap_or s.mint_window_start e.sequence)
    then ok (record s { mint_window_start = some e.sequence; mint_window_count = some (pos 1) })
    else (do
      panic_if (leb_ℤ (unwrap_or s.mint_rate_limit max_per_hour) count) mint_rate_exceeded
      next ← add_i128 count (pos 1)
      ok (record s { mint_window_count = some next }))
