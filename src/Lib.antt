-- ===== src/Lib.antt =====
-- A model of the lending protocol's Soroban contracts and the theorems about it.
--
-- The program. Each contract is a separate deployment with its own storage. The lending pool
-- (contracts/lending/soroban) keeps deposits, shares and loans; the collateral vault
-- (contracts/collateral/soroban) keeps the collateral positions that registered operators move; the
-- price oracle (contracts/oracle/soroban) aggregates publishers' reports; the wrapped token
-- (contracts/treasury/soroban) is minted and burned for the bridge. The controller
-- (contracts/lending/controller) and the liquidation engine (contracts/liquidation/soroban) call the
-- pool, the vault and the oracle, as operators. Governance (contracts/governance/soroban) and rewards
-- (contracts/rewards/soroban) stand by themselves.
--
-- How it is modelled. Storage is a record with a field for each `DataKey` constructor: a key with
-- arguments is an association list (Map), a key without is an `Option`. An entry point is a function
-- from the environment, the arguments and the storage to a `Result`: the new storage, or the error
-- that names the panic. A panic reverts the transaction, so a history of calls (Soroban/History) goes
-- on from the storage before a failed call. Events and token transfers are logged in the storage.
--
-- Files:
--   Prelude, Prelude/*   tests into Bool, equality instances, list lemmas
--   Int, Int/*           signed integers over the native numbers, with Rust's truncated division
--   Map, Map/Sum         storage maps, and sums over the entries that a test selects
--   Soroban/Call         panics, `require_auth`, calls of token contracts, the environment
--   Soroban/Machine      i128, u64 and u32 arithmetic: overflow panics, as the release profile asks
--   Soroban/History      runs of calls, and invariants by induction on them
--   Soroban/Bytes        byte strings of integers, and `BytesN` from and to arrays
--   Vault, Vault/*       contracts/collateral/soroban/src/lib.rs
--   Wrapped, Wrapped/*   contracts/treasury/soroban/src/lib.rs
--   Oracle, Oracle/*     contracts/oracle/soroban/src/lib.rs
--   Pool, Pool/*         contracts/lending/soroban/src/lib.rs and pause.rs
--   Governance, Governance/*    contracts/governance/soroban/src/lib.rs
--   Liquidation, Liquidation/*  contracts/liquidation/soroban/src/lib.rs, with what it calls
--   Rewards, Rewards/*          contracts/rewards/soroban/src/lib.rs
--   Controller                  the administration in contracts/lending/controller/src/lib.rs
--   Controller/Payload, Attest  build_canonical_payload and require_bridge there
--   Controller/Deployment       the contracts that it calls, invoke_contract, its events
--   Controller/Wrapping         wrap, unwrap, gen_nonce
--   Controller/Lending          supply_collateral, borrow, repay, withdraw_collateral
--   Controller/*                histories, effects and proofs, by what they prove
-- Each component's model stands beside the files of its proofs, and its Examples file applies the
-- theorems at concrete inputs.
--
-- Bounds and fuel. i128 operations fail outside -2^127 .. 2^127 - 1, u32 and u64 ones above their
-- limits and below 0; the casts with `as` wrap. Loops recurse on the number of rounds
-- that the source's range fixes, so no fuel is guessed.
--
-- Assumptions. Addresses, symbols and keys are numbers, since they are only compared; a `BytesN` is the
-- number that its bytes spell. SHA-256, the check of an ed25519 signature and the XDR of an address are
-- the host's: a parameter (Controller/Payload), of which one theorem supposes that no two addresses
-- have the same XDR. A cross-contract call finds the callee by its address in a map of the contracts
-- deployed, and runs the callee's model with the caller as the invoker. Token
-- contracts are not part of the repository: the environment's `token_accepts` says whether one
-- accepts a transfer, given the transfers made before, and the theorems hold for every answer. A
-- token contract is taken not to call back into the caller, which the host forbids (no re-entry).
-- The expiry of storage entries is not modelled.
--
-- Not modelled: the integration tests, the TypeScript applications, and the EVM contracts.
pub mod Prelude
pub mod Int
pub mod Map
pub mod Soroban
pub mod Vault
pub mod Wrapped
pub mod Oracle
pub mod Pool
pub mod Governance
pub mod Liquidation
pub mod Rewards
pub mod Controller
