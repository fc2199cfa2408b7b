-- ===== src/Soroban.antt =====
-- The host that the contracts run on: panics as error values, authorisation, the ledger's clock,
-- calls of token contracts, and the checked machine integers of Rust with `overflow-checks`.
mod Call
pub mod Machine
mod History
pub mod Bytes
pub use Call.*
unfoldable pub use Machine.{
  saturating_sub, in_i128, i128, add_i128, sub_i128, mul_i128, div_i128, rem_u64, add_u32, sub_u32,
  mul_u32, div_u32, add_u64, mul_u64, div_u64, max_u32, rem_u128, wrap_i128, mul_u128, u64_limit,
  u32_limit, i128_limit, u128_limit,
}
unfoldable pub use History.{run}
pub use History.{committed, run_invariant}
unfoldable pub use Bytes.{to_le_bytes, to_be_bytes, from_be_bytes}
pub use Bytes.{IsByte}
