-- ===== src/Wrapped/Direct.antt =====
-- The calls of the wrapped token that mint nothing: everybody's, past the controller.
use de_fi_lending_stellar_pa.Prelude.{◌≡◌, none, arith, nat_equality}
use de_fi_lending_stellar_pa.Int.{ℤ, pos, ◌≤ℤ◌, int_laws}
use de_fi_lending_stellar_pa.Map.Sum.{or_zero}
use de_fi_lending_stellar_pa.Soroban.{Address, Result, ok, Env}
use de_fi_lending_stellar_pa.Wrapped.{
  TokenMetadata, Token, initialize, burn, set_minter, set_underlying_token,
}
use de_fi_lending_stellar_pa.Wrapped.Supply.{
  IsSound, burn-effect, burn-IsSound, initialize-IsSound, set_minter-IsSound,
  set_underlying_token-IsSound, closed_supply,
}

pub data Op : Type 0 where
  initialize_op : Address → Address → TokenMetadata → Op
  burn_op : Address → ℤ → Op
  set_minter_op set_underlying_token_op : Address → Op

unfoldable pub invoke : Env → Op → Token → Result Token
invoke e (initialize_op admin minter m) s = initialize e admin minter m s
invoke e (burn_op from n) s = burn e from n s
invoke e (set_minter_op a) s = set_minter e a s
invoke e (set_underlying_token_op a) s = set_underlying_token e a s

-- None of these calls makes the supply larger.
pub invoke-shrinks :
    (e : Env) (op : Op) (s s' : Token)
    → IsSound s
    → invoke e op s ≡ ok s'
    → IsSound s' × (or_zero s'.total_supply ≤ℤ or_zero s.total_supply)
unfolding invoke
invoke-shrinks e (initialize_op admin minter m) s s' v h =
    let reset : or_zero s'.total_supply ≡ pos 0 = unfold initialize in ground arith in
    let closed : s.admin ≡ none = unfold initialize in ground arith in
    (
      initialize-IsSound e s admin minter m v h,
      rw (reset, closed_supply s v closed) (omega int_laws),
    )
invoke-shrinks e (burn_op from n) s s' v h =
    let (_, shrunk, n1, _, _, _, _) = burn-effect e from n s h in
    (burn-IsSound e from n s v h, rw shrunk (omega int_laws))
invoke-shrinks e (set_minter_op a) s s' v h =
    let same : s'.total_supply ≡ s.total_supply = unfold set_minter in ground arith in
    (set_minter-IsSound e s a v h, rw same (omega int_laws))
invoke-shrinks e (set_underlying_token_op a) s s' v h =
    let same : s'.total_supply ≡ s.total_supply = unfold set_underlying_token in ground arith in
    (set_underlying_token-IsSound e s a v h, rw same (omega int_laws))
