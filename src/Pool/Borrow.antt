-- ===== src/Pool/Borrow.antt =====
-- Borrowing and repaying, by the user or through a registered operator.
use de_fi_lending_stellar_pa.Prelude.{
  Bool, true, false, ◌&&◌, if◌then◌else◌, nat_equality, pair_equality,
}
use de_fi_lending_stellar_pa.Int.{ℤ, pos, ltb_ℤ, leb_ℤ}
use de_fi_lending_stellar_pa.Map.{lookup, insert}
use de_fi_lending_stellar_pa.Soroban.{
  Address, Symbol, Result, ok, ◌>>=◌, ◌>>◌, Env, panic_if, unwrap_or, require_auth,
  require_positive, add_i128, sub_i128, amount_not_positive, health_factor_too_low,
}
use de_fi_lending_stellar_pa.Pool.State.{
  Pool, BorrowerSnapshot, require_not_paused, require_operator, move_tokens, total_borrow,
  borrow_index, collateral_of, debt_of, owed, index_scale,
}
use de_fi_lending_stellar_pa.Pool.Interest.{accrue_interest}

-- The single-asset check of `borrow_internal`.
unfoldable pub check_health : Bool → Address → Symbol → ℤ → Pool → Result (Unit {0})
check_health false user asset amount s = ok tt
check_health true user asset amount s = do
  existing ← debt_of user asset s
  total_debt ← add_i128 existing amount
  panic_if (ltb_ℤ (pos 0) total_debt && ltb_ℤ (collateral_of user asset s) total_debt)
      health_factor_too_low

unfoldable pub borrow_internal : Env → Address → Symbol → ℤ → Bool → Pool → Result Pool
borrow_internal e user asset amount check_hf s = do
  require_not_paused s
  require_positive amount amount_not_positive
  accrued ← accrue_interest e asset s
  check_health check_hf user asset amount accrued
  moved ← move_tokens e asset e.current user amount accrued
  let idx = borrow_index asset moved
  let none_yet : BorrowerSnapshot = record { principal = pos 0; index = idx }
  let snap = unwrap_or (lookup (user, asset) moved.borrowers) none_yet
  principal' ← add_i128 snap.principal amount
  total ← add_i128 (total_borrow asset moved) amount
  ok (record moved {
    borrowers =
        insert (user, asset) (record { principal = principal'; index = idx }) moved.borrowers;
    total_borrows = insert asset total moved.total_borrows;
  })

unfoldable pub borrow : Env → Address → Symbol → ℤ → Pool → Result Pool
borrow e user asset amount s = do require_auth e user; borrow_internal e user asset amount true s

unfoldable pub borrow_raw : Env → Address → Address → Symbol → ℤ → Pool → Result Pool
borrow_raw e operator user asset amount s = do
  require_auth e operator
  require_operator operator s
  require_not_paused s
  borrow_internal e user asset amount false s

-- The repayment's tokens are asked for only if there is something to repay.
unfoldable pub collect : Env → Symbol → Address → ℤ → Pool → Result Pool
collect e asset payer repaid s =
    if ltb_ℤ (pos 0) repaid then move_tokens e asset payer e.current repaid s else ok s

unfoldable pub repay_internal : Env → Address → Address → Symbol → ℤ → Pool → Result (Pool × ℤ)
repay_internal e payer borrower asset amount s = do
  require_not_paused s
  require_positive amount amount_not_positive
  accrued ← accrue_interest e asset s
  let idx = borrow_index asset accrued
  let none_yet : BorrowerSnapshot = record { principal = pos 0; index = index_scale }
  total_owed ← owed (unwrap_or (lookup (borrower, asset) accrued.borrowers) none_yet) idx
  let repaid = if leb_ℤ total_owed amount then total_owed else amount
  moved ← collect e asset payer repaid accrued
  principal' ← sub_i128 total_owed repaid
  total ← sub_i128 (total_borrow asset moved) repaid
  ok (
    record moved {
      borrowers =
          insert (borrower, asset) (record { principal = principal'; index = idx }) moved.borrowers;
      total_borrows = insert asset total moved.total_borrows;
    },
    repaid,
  )

unfoldable pub repay : Env → Address → Symbol → ℤ → Pool → Result (Pool × ℤ)
repay e user asset amount s = do require_auth e user; repay_internal e user user asset amount s

unfoldable pub repay_on_behalf :
    Env → Address → Address → Address → Symbol → ℤ → Pool → Result (Pool × ℤ)
repay_on_behalf e op payer borrower asset amount s = do
  require_auth e op
  require_operator op s
  repay_internal e payer borrower asset amount s
