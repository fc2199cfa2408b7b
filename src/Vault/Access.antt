-- ===== src/Vault/Access.antt =====
-- Who can move collateral, whose positions move, and that a covered withdrawal goes through.
use de_fi_lending_stellar_pa.Prelude.{◌≡◌, ◌≢◌, true, arith, nat_equality, pair_equality, eq_refl}
use de_fi_lending_stellar_pa.Int.{ℤ, pos, ◌+ℤ◌, ◌-ℤ◌, ◌≤ℤ◌, int_laws}
use de_fi_lending_stellar_pa.Map.{insert, lookup-insert}
use de_fi_lending_stellar_pa.Map.Sum.{in_asset, amount_at, amount_at-le-sum_where}
use de_fi_lending_stellar_pa.Soroban.{Address, Symbol, ok, Env, in_i128}
use de_fi_lending_stellar_pa.Soroban.Machine.{in_i128-between}
use de_fi_lending_stellar_pa.Vault.{
  Vault, require_operator, move_tokens, withdraw, seize, position, total_by_asset,
}
use de_fi_lending_stellar_pa.Vault.Effects.{
  IsOperator, move_tokens-positions, require_operator-IsOperator, seize-effect,
}
use de_fi_lending_stellar_pa.Vault.Conservation.{IsSound}

-- A seizure between two users needs a registered operator that authorised the call, and an owner
-- who holds the amount. The owner gives up exactly the amount, the recipient gains it, and the
-- position of any other user `u` in any asset `a` does not change.
pub seize_moves_exactly :
    (e : Env) (op from to : Address) (x : Symbol) (n : ℤ) (s : Vault) {s' : Vault} (u : Address)
    (a : Symbol)
    → from ≢ to
    → u ≢ from
    → u ≢ to
    → seize e op from to x n s ≡ ok s'
    → IsOperator e op s
      × (n ≤ℤ position from x s)
      × (position from x s' ≡ position from x s -ℤ n)
      × (position to x s' ≡ position to x s +ℤ n)
      × (position u a s' ≡ position u a s)
unfolding position
seize_moves_exactly e op from to x n s u a ne other_from other_to h =
    let (p, t, n1, enough, auth) = seize-effect e op from to x n s h in
    let left = amount_at (from, x) s.positions -ℤ n in
    let taken = insert (from, x) left s.positions in
    let got = amount_at (to, x) taken +ℤ n in
    (
      require_operator-IsOperator e op s auth,
      enough,
      rw p (
          grind (
            arith,
            lookup-insert (to, x) (from, x) got taken,
            lookup-insert (from, x) (from, x) left s.positions,
          )),
      rw p (
          grind (
            arith,
            lookup-insert (to, x) (to, x) got taken,
            lookup-insert (from, x) (to, x) left s.positions,
          )),
      rw p (
          grind (
            arith,
            lookup-insert (to, x) (u, a) got taken,
            lookup-insert (from, x) (u, a) left s.positions,
          )),
    )

-- The vault after a withdrawal whose tokens have moved.
abbrev settled : Address → Symbol → ℤ → Vault → Vault
settled user x n moved = record moved {
  positions = insert (user, x) (amount_at (user, x) moved.positions -ℤ n) moved.positions;
  totals = insert x (amount_at x moved.totals -ℤ n) moved.totals;
}

module _ (e : Env) (op user : Address) (x : Symbol) (n : ℤ) (s moved : Vault) where
  withdraw-settled :
      require_operator e op s ≡ ok tt
      → pos 1 ≤ℤ n
      → n ≤ℤ amount_at (user, x) s.positions
      → in_i128 (amount_at (user, x) s.positions -ℤ n) ≡ true
      → in_i128 (amount_at x s.totals -ℤ n) ≡ true
      → move_tokens e x e.current user n s ≡ ok moved
      → withdraw e op user x n s ≡ ok (settled user x n moved)
  unfolding withdraw
  withdraw-settled auth n1 enough rh rt m =
      ground (arith, move_tokens-positions e x e.current user n s m)

  -- In a vault whose books are sound and hold `i128` values, an operator can withdraw any positive
  -- amount that a position covers, once the token contract accepts the transfer: no later step
  -- panics, and the totals do not underflow.
  withdraw_goes_through :
      IsSound s
      → require_operator e op s ≡ ok tt
      → pos 1 ≤ℤ n
      → n ≤ℤ position user x s
      → in_i128 (position user x s) ≡ true
      → in_i128 (total_by_asset x s) ≡ true
      → move_tokens e x e.current user n s ≡ ok moved
      → withdraw e op user x n s ≡ ok (settled user x n moved)
  unfolding position total_by_asset
  withdraw_goes_through v auth n1 enough rh rt m =
      let held = amount_at (user, x) s.positions in
      let total = amount_at x s.totals in
      let part =
        amount_at-le-sum_where (in_asset x) (user, x) s.positions v.non_negative (eq_refl x) in
      let covered : held ≤ℤ total = rw (v.balanced x) at part in
      withdraw-settled auth n1 enough
        (in_i128-between (held -ℤ n) held rh (omega int_laws) (omega int_laws))
        (in_i128-between (total -ℤ n) total rt (omega int_laws) (omega int_laws)) m
