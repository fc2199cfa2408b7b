-- ===== src/Vault/Effects.antt =====
-- What a successful call of each vault operation has written, and under which guards.
use de_fi_lending_stellar_pa.Prelude.{◌≡◌, true, some, arith, nat_equality, pair_equality}
use de_fi_lending_stellar_pa.Int.{ℤ, pos, ◌+ℤ◌, ◌-ℤ◌, ◌≤ℤ◌}
use de_fi_lending_stellar_pa.Map.{Map, lookup, insert}
use de_fi_lending_stellar_pa.Map.Sum.{amount_at}
use de_fi_lending_stellar_pa.Soroban.{Address, Symbol, ok, Env, authorized}
use de_fi_lending_stellar_pa.Vault.{Vault, require_operator, move_tokens, deposit, withdraw, seize}

pub move_tokens-positions :
    (e : Env) (x : Symbol) (from to : Address) (n : ℤ) (s : Vault) {s' : Vault}
    → move_tokens e x from to n s ≡ ok s'
    → (s'.positions ≡ s.positions) × (s'.totals ≡ s.totals)
unfolding move_tokens
move_tokens-positions e x from to n s h = ground arith

-- Who passes the operator check is registered and has authorised the call.
abbrev pub IsOperator : Env → Address → Vault → Type 0
IsOperator e op s = (lookup op s.operators ≡ some true) × (authorized e op ≡ true)

pub require_operator-IsOperator :
    (e : Env) (op : Address) (s : Vault) → require_operator e op s ≡ ok tt → IsOperator e op s
unfolding require_operator
require_operator-IsOperator e op s h = ground arith

module _ (e : Env) (op user : Address) (x : Symbol) (n : ℤ) (s : Vault) {s' : Vault} where
  pub deposit-effect :
      deposit e op user x n s ≡ ok s'
      → (s'.positions ≡ insert (user, x) (amount_at (user, x) s.positions +ℤ n) s.positions)
        × (s'.totals ≡ insert x (amount_at x s.totals +ℤ n) s.totals)
        × (pos 1 ≤ℤ n)
        × (require_operator e op s ≡ ok tt)
  unfolding deposit
  deposit-effect h = grind (arith, move_tokens-positions)

  pub withdraw-effect :
      withdraw e op user x n s ≡ ok s'
      → (s'.positions ≡ insert (user, x) (amount_at (user, x) s.positions -ℤ n) s.positions)
        × (s'.totals ≡ insert x (amount_at x s.totals -ℤ n) s.totals)
        × (pos 1 ≤ℤ n)
        × (n ≤ℤ amount_at (user, x) s.positions)
        × (require_operator e op s ≡ ok tt)
  unfolding withdraw
  withdraw-effect h = grind (arith, move_tokens-positions)

-- The positions after `seize`.
abbrev pub seized :
    Address → Address → Symbol → ℤ → Map (Address × Symbol) ℤ → Map (Address × Symbol) ℤ
seized from to x n p =
    let taken = insert (from, x) (amount_at (from, x) p -ℤ n) p in
    insert (to, x) (amount_at (to, x) taken +ℤ n) taken

module _ (e : Env) (op from to : Address) (x : Symbol) (n : ℤ) (s : Vault) {s' : Vault} where
  pub seize-effect :
      seize e op from to x n s ≡ ok s'
      → (s'.positions ≡ seized from to x n s.positions)
        × (s'.totals ≡ s.totals)
        × (pos 1 ≤ℤ n)
        × (n ≤ℤ amount_at (from, x) s.positions)
        × (require_operator e op s ≡ ok tt)
  unfolding seize
  seize-effect h = grind (arith, move_tokens-positions)
