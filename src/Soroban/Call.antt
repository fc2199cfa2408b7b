-- ===== src/Soroban/Call.antt =====
-- Panics, results, authorisation and calls of token contracts. A panic reverts the transaction, so
-- an error carries no state.
use de_fi_lending_stellar_pa.Prelude.{
  ℕ, ◌≡◌, ◌⊎◌, inl, inr, refl, Bool, true, false, Option, none, some, List, ◌||◌, ◌==◌,
}
use de_fi_lending_stellar_pa.Int.{ℤ, pos, leb_ℤ}

-- Addresses, symbols, hashes and public keys are only compared, so numbers stand for them.
abbrev pub Address : Type 0
Address = ℕ

abbrev pub Symbol : Type 0
Symbol = ℕ

-- The messages of the panics, one constructor for each.
pub data Error : Type 0 where
  already_initialized admin_not_set not_authorized overflow division_by_zero : Error
  amount_not_positive shares_not_positive price_not_positive limit_not_positive : Error
  not_an_operator not_a_pool_operator bps_over_100 token_refused no_such_contract : Error
  contract_paused paused asset_not_configured insufficient_shares health_factor_too_low : Error
  insufficient_collateral insufficient_collateral_to_seize insufficient_balance : Error
  minter_not_set not_initialized config_not_set treasury_not_set : Error
  wrapped_asset_not_set lending_pool_not_set collateral_vault_not_set oracle_not_set : Error
  not_a_publisher min_publishers_zero publisher_list_corrupt insufficient_reports : Error
  index_out_of_bounds position_healthy exceeds_close_factor price_unavailable : Error
  admin_set_not_found not_enough_approvals not_an_admin duplicate_approval : Error
  bridge_not_set not_enough_attestations unsorted_attestations invalid_key_index : Error
  not_enough_valid_attestations bad_signature bridge_set_empty invalid_bridge_threshold
        no_pending_bridge :
      Error
  timelock_not_expired admin_exists admins_below_threshold admin_not_found : Error
  invalid_threshold salt_already_used mint_rate_exceeded : Error
  proposal_not_found voting_ended proposal_not_active already_voted already_executed : Error
  proposal_cancelled voting_still_active quorum_not_reached proposal_defeated : Error
  only_proposer_or_admin insufficient_stake insufficient_reward_pool : Error

pub data Result {ℓ} (A : Type ℓ) : Type ℓ where
  ok : A → Result A
  err : Error → Result A

-- The first panic ends the call.
infixl 5 ◌>>=◌
abbrev pub ◌>>=◌ {ℓ κ} : {R : Type ℓ} {S : Type κ} → Result R → (R → Result S) → Result S
err panic >>= rest = err panic
ok value >>= rest = rest value

infixl 5 ◌>>◌
abbrev pub ◌>>◌ {κ} : {S : Type κ} → Result (Unit {0}) → Result S → Result S
check >> rest = check >>= λ _. rest

-- `if cond { panic!(..) }`
abbrev pub panic_if : Bool → Error → Result (Unit {0})
panic_if true x = err x
panic_if false x = ok tt

abbrev pub require : Bool → Error → Result (Unit {0})
require true x = ok tt
require false x = err x

-- `.expect(..)` on an `Option`
abbrev pub expect {ℓ} : {A : Type ℓ} → Option A → Error → Result A
expect (some a) x = ok a
expect none x = err x

abbrev pub is_some {ℓ} : {A : Type ℓ} → Option A → Bool
is_some (some _) = true
is_some none = false

-- `.unwrap_or(d)`
abbrev pub unwrap_or {ℓ} : {A : Type ℓ} → Option A → A → A
unwrap_or none d = d
unwrap_or (some a) d = a

-- `token::Client::new(&env, &token).transfer(&from, &to, &amount)`
pub record Transfer : Type 0 where
  pub token : Address
  pub from : Address
  pub to : Address
  pub amount : ℤ

-- What the host answers during one invocation. `token_accepts` is the token contracts' answer to a
-- transfer, given the transfers that the calling contract has made before, the latest first.
pub record Env : Type 0 where
  pub signers : Address → Bool
  pub invoker : Option Address
  pub current : Address
  pub sequence : ℕ
  pub timestamp : ℕ
  pub token_accepts : List Transfer → Transfer → Bool

abbrev is_invoker : Option Address → Address → Bool
is_invoker none a = false
is_invoker (some c) a = c == a

-- `addr.require_auth()` holds for an address that signed, and for the contract that calls.
abbrev pub authorized : Env → Address → Bool
authorized e a = e.signers a || is_invoker e.invoker a

abbrev pub require_auth : Env → Address → Result (Unit {0})
require_auth e a = require (authorized e a) not_authorized

-- `env.invoke_contract(&callee, ..)`: the environment that the callee sees.
abbrev pub enter : Env → Address → Env
enter e callee = record e { invoker = some e.current; current = callee }

-- `admin.require_auth()` with the stored admin
abbrev pub require_admin : Env → Option Address → Result (Unit {0})
require_admin e stored = do admin ← expect stored admin_not_set; require_auth e admin

abbrev pub require_positive : ℤ → Error → Result (Unit {0})
require_positive amount x = panic_if (leb_ℤ amount (pos 0)) x

-- A chain returns only if its first step does.
pub >>=-eq-ok {ℓ κ} :
    {R : Type ℓ} {S : Type κ} (first : Result R) (rest : R → Result S) {done : S}
    → first >>= rest ≡ ok done
    → (value : R) × (first ≡ ok value) × (rest value ≡ ok done)
>>=-eq-ok (err panic) rest returned = cc
>>=-eq-ok (ok value) rest returned = (value, refl, returned)

pub Result-cases {ℓ} :
    {A : Type ℓ} (r : Result A) → ((a : A) × (r ≡ ok a)) ⊎ ((x : Error) × (r ≡ err x))
Result-cases (ok a) = inl (a, refl)
Result-cases (err x) = inr (x, refl)
