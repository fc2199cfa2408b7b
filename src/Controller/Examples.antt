-- ===== src/Controller/Examples.antt =====
-- Runs of the controller's administration, and its theorems at concrete inputs.
use de_fi_lending_stellar_pa.Prelude.{
  ◌⊎◌, ℕ, ◌+◌, ◌≤◌, ◌≡◌, refl, true, none, some, List, [], ◌∷◌, length, All, nat_equality,
}
use de_fi_lending_stellar_pa.Int.{◌<ℤ◌, pos, ◌+ℤ◌}
use de_fi_lending_stellar_pa.Map.{lookup, insert}
use de_fi_lending_stellar_pa.Soroban.{
  unwrap_or, Address, ok, err, Env, in_i128, run, authorized, mint_rate_exceeded,
  duplicate_approval, timelock_not_expired,
}
use de_fi_lending_stellar_pa.Pool.State.{contains}
use de_fi_lending_stellar_pa.Controller.{
  max_per_hour, AdminSet, Controller, deployed, initialize, require_admin, require_first,
  check_approvals, require_admin_multisig, set_mint_rate_limit, propose_bridge, execute_bridge,
  require_bridge_set, admin_set, check_and_bump_nonce, check_mint_rate, timelock_ledgers,
}
use de_fi_lending_stellar_pa.Controller.Admins.{
  IsDistinct, IsReachable, Op, set_mint_rate_limit_op, add_admin_op, remove_admin_op,
  set_threshold_op, mint_op, invoke, multisig_quorum, history_admins-IsReachable,
}
use de_fi_lending_stellar_pa.Controller.Bridge.{execute_bridge-propose_bridge, mint_cap_halts}

abbrev at_ledger : ℕ → Env
at_ledger sequence = record {
  signers = λ a. true;
  invoker = none;
  current = 7;
  sequence = sequence;
  timestamp = 500;
  token_accepts = λ before t. true;
}

abbrev opened : Controller
opened = record deployed {
  admin_set = some (record { admins = 1 ∷ []; threshold = 1 });
  bridge = some (record { keys = 101 ∷ 102 ∷ []; threshold = 2 });
  wrapped_asset = some 31;
  lending_pool = some 32;
  collateral_vault = some 33;
  oracle = some 34;
}

opened_runs : initialize (at_ledger 10) 1 (101 ∷ 102 ∷ []) 2 31 32 33 34 deployed ≡ ok opened
unfolding initialize
opened_runs = refl

abbrev calls : List (Env × Op)
calls =
    (at_ledger 20, add_admin_op (1 ∷ []) 2)
    ∷ (at_ledger 20, add_admin_op (1 ∷ []) 2)
    ∷ (at_ledger 21, set_threshold_op (1 ∷ []) 3)
    ∷ (at_ledger 22, set_threshold_op (2 ∷ []) 2)
    ∷ (at_ledger 23, remove_admin_op (1 ∷ 2 ∷ []) 1)
    ∷ []

history_admins-IsReachable_example :
    (set : AdminSet) × (admin_set (run invoke calls opened) ≡ ok set) × IsReachable set
history_admins-IsReachable_example =
    history_admins-IsReachable (at_ledger 10) 1 (101 ∷ 102 ∷ []) 2 31 32 33 34 opened calls
      opened_runs

-- Two of three.
abbrev three : AdminSet
three = record { admins = 1 ∷ 2 ∷ 3 ∷ []; threshold = 2 }

abbrev shared : Controller
shared = record opened { admin_set = some three }

approved : require_admin_multisig (at_ledger 30) (3 ∷ 1 ∷ []) shared ≡ ok tt
unfolding require_admin_multisig check_approvals contains
approved = refl

padded : require_admin_multisig (at_ledger 30) (3 ∷ 3 ∷ []) shared ≡ err duplicate_approval
unfolding require_admin_multisig check_approvals contains
padded = refl

abbrev approvers : List Address
approvers = 3 ∷ 1 ∷ []

multisig_quorum_example :
    (three.threshold ≤ length approvers)
    × All (λ a. (contains a three.admins ≡ true) × (authorized (at_ledger 30) a ≡ true)) approvers
    × IsDistinct approvers
unfolding admin_set
multisig_quorum_example = multisig_quorum (at_ledger 30) approvers shared three refl approved

abbrev pending : Controller
pending = record shared {
  pending_bridge = some (record { keys = 103 ∷ []; threshold = 1 });
  pending_bridge_at = some 30;
}

propose_runs : propose_bridge (at_ledger 30) approvers (103 ∷ []) 1 shared ≡ ok pending
unfolding propose_bridge require_bridge_set require_admin_multisig check_approvals contains
propose_runs = refl

execute_early : execute_bridge (at_ledger 17_309) approvers pending ≡ err timelock_not_expired
unfolding execute_bridge require_admin_multisig check_approvals contains
execute_early = refl

abbrev replaced : Controller
replaced = record shared { bridge = some (record { keys = 103 ∷ []; threshold = 1 }) }

execute_runs : execute_bridge (at_ledger 17_310) approvers pending ≡ ok replaced
unfolding execute_bridge require_admin_multisig check_approvals contains
execute_runs = refl

abbrev proposed_keys : List ℕ
proposed_keys = 103 ∷ []

abbrev proposed_at : ℕ
proposed_at = 30

execute_bridge-propose_bridge_example :
    (proposed_at + timelock_ledgers ≤ 17_310)
    × (replaced.bridge ≡ some (record { keys = proposed_keys; threshold = 1 }))
    × (1 ≤ 1)
    × (1 ≤ length proposed_keys)
    × (replaced.pending_bridge ≡ none)
    × (replaced.pending_bridge_at ≡ none)
execute_bridge-propose_bridge_example =
    execute_bridge-propose_bridge (at_ledger 30) (at_ledger 17_310) approvers approvers
      proposed_keys 1 shared propose_runs execute_runs

abbrev salted : Controller
salted = record opened { nonces = (77, true) ∷ [] }

salt_runs : check_and_bump_nonce 77 opened ≡ ok salted
unfolding check_and_bump_nonce lookup insert
salt_runs = refl

-- A cap of two mints, and a third one a million ledgers later.
abbrev mints : List (Env × Op)
mints =
    (at_ledger 20, set_mint_rate_limit_op [] (pos 2))
    ∷ (at_ledger 21, mint_op)
    ∷ (at_ledger 22, mint_op)
    ∷ []

mint_cap_halts_example :
    ((run invoke mints opened).mint_window_start ≡ none)
    × ((unwrap_or (run invoke mints opened).mint_window_count (pos 0)
          <ℤ unwrap_or (run invoke mints opened).mint_rate_limit max_per_hour)
        ⊎ (check_mint_rate (at_ledger 1_000_000) (run invoke mints opened)
            ≡ err mint_rate_exceeded))
unfolding run invoke set_mint_rate_limit require_admin require_first check_mint_rate in_i128 ◌+ℤ◌
mint_cap_halts_example =
    mint_cap_halts (at_ledger 10) (at_ledger 1_000_000) 1 (101 ∷ 102 ∷ []) 2 31 32 33 34 opened
      mints opened_runs
