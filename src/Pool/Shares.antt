-- ===== src/Pool/Shares.antt =====
-- The share price: what supplying and withdrawing do to it.
use de_fi_lending_stellar_pa.Prelude.{
  ℕ, ◌+◌, ◌*◌, ◌/◌, ◌≤◌, ◌≡◌, refl, arith, nat_equality, pair_equality,
}
use native.Mathlib.Nat.{div-mul-le_self, div-le_of_le-mul}
use de_fi_lending_stellar_pa.Int.{
  ℤ, pos, negsuc, ◌+ℤ◌, ◌-ℤ◌, ◌*ℤ◌, ◌≤ℤ◌, pos_part, quot, pos_part-+ℤ, one_part, int_laws,
}
use de_fi_lending_stellar_pa.Map.{lookup-insert_self}
use de_fi_lending_stellar_pa.Map.Sum.{in_asset, amount_at, sum_where, sum_where-insert}
use de_fi_lending_stellar_pa.Soroban.{Address, Symbol, ok, Env}
use de_fi_lending_stellar_pa.Pool.State.{Pool, total_deposit, deposit_shares_total}
use de_fi_lending_stellar_pa.Pool.Supply.{shares_for, amount_for, supply, withdraw}
use de_fi_lending_stellar_pa.Pool.Effects.{supply-effect, withdraw-effect}

-- The two sides of the share price, with their virtual parts.
abbrev pub with_virtual : ℤ → ℕ
with_virtual total = pos_part total + 1_000_000

shares_for-value :
    (n t d : ℕ) {m : ℤ}
    → shares_for (pos n) (pos t) (pos d) ≡ ok m
    → m ≡ pos (n * (t + 1_000_000) / (d + 1_000_000))
unfolding shares_for ◌+ℤ◌ ◌*ℤ◌ quot
shares_for-value n t d h = ground arith

amount_for-value :
    (n t d : ℕ) {m : ℤ}
    → amount_for (pos n) (pos t) (pos d) ≡ ok m
    → m ≡ pos (n * (d + 1_000_000) / (t + 1_000_000))
unfolding amount_for ◌+ℤ◌ ◌*ℤ◌ quot
amount_for-value n t d h = ground arith

shares_for-parts :
    (n t d : ℤ) {m : ℤ}
    → pos 0 ≤ℤ n
    → pos 0 ≤ℤ t
    → pos 0 ≤ℤ d
    → shares_for n t d ≡ ok m
    → (pos 0 ≤ℤ m) × (pos_part m ≡ pos_part n * with_virtual t / with_virtual d)
shares_for-parts (pos n) (pos t) (pos d) hn ht hd h =
    rw (shares_for-value n t d h) (omega arith, refl)
shares_for-parts (negsuc n) t d hn ht hd h = absurd (omega arith)
shares_for-parts (pos n) (negsuc t) d hn ht hd h = absurd (omega arith)
shares_for-parts (pos n) (pos t) (negsuc d) hn ht hd h = absurd (omega arith)

amount_for-parts :
    (n t d : ℤ) {m : ℤ}
    → pos 0 ≤ℤ n
    → pos 0 ≤ℤ t
    → pos 0 ≤ℤ d
    → amount_for n t d ≡ ok m
    → (pos 0 ≤ℤ m) × (pos_part m ≡ pos_part n * with_virtual d / with_virtual t)
amount_for-parts (pos n) (pos t) (pos d) hn ht hd h =
    rw (amount_for-value n t d h) (omega arith, refl)
amount_for-parts (negsuc n) t d hn ht hd h = absurd (omega arith)
amount_for-parts (pos n) (negsuc t) d hn ht hd h = absurd (omega arith)
amount_for-parts (pos n) (pos t) (negsuc d) hn ht hd h = absurd (omega arith)

-- Shares bought for an amount, rounded down, do not lower the price.
price_up : (n t d : ℕ) → d * (t + n * t / d) ≤ (d + n) * t
price_up n t d = grind (arith, div-mul-le_self (n * t) d)

-- Selling back the shares just bought, rounded down twice, returns at most the amount.
price_round_trip : (n t d : ℕ) → let m = n * t / d in m * (d + n) / (t + m) ≤ n
price_round_trip n t d = div-le_of_le-mul (t + n * t / d) (grind (arith, div-mul-le_self (n * t) d))

-- The pool's totals for an asset are not negative.
pub record NonNegativeTotals (x : Symbol) (s : Pool) : Type 0 where
  pub deposit : pos 0 ≤ℤ total_deposit x s
  pub shares : pos 0 ≤ℤ deposit_shares_total x s

-- The totals after a supply.
supply-totals :
    (e : Env) (user : Address) (x : Symbol) (n : ℤ) (s : Pool) {s' : Pool} {m : ℤ}
    → supply e user x n s ≡ ok (s', m)
    → (total_deposit x s' ≡ total_deposit x s +ℤ n)
      × (deposit_shares_total x s' ≡ deposit_shares_total x s +ℤ m)
unfolding total_deposit deposit_shares_total
supply-totals e user x n s h =
    let (_, _, t, d, _) = supply-effect e user x n s h in
    (rw (d, lookup-insert_self), rw (t, lookup-insert_self))

-- As long as the asset's recorded totals of deposits `D` and of shares `T` are not negative, supplying
-- mints `n * (T + V) / (D + V)` shares, rounded down, with the virtual part `V` of 1,000,000, and does
-- not lower `(D + V) / (T + V)`, what one share is worth.
pub supply_keeps_price :
    (e : Env) (user : Address) (x : Symbol) (n : ℤ) (s : Pool) {s' : Pool} {m : ℤ}
    → NonNegativeTotals x s
    → supply e user x n s ≡ ok (s', m)
    → let t = with_virtual (deposit_shares_total x s) in
      let d = with_virtual (total_deposit x s) in
      (pos_part m ≡ pos_part n * t / d)
      × (d * with_virtual (deposit_shares_total x s') ≤ with_virtual (total_deposit x s') * t)
supply_keeps_price e user x n s {s'} {m} v h =
    let (bought, _, _, _, n1) = supply-effect e user x n s h in
    let (d', t') = supply-totals e user x n s h in
    let (m0, value) =
      shares_for-parts n (deposit_shares_total x s) (total_deposit x s) (omega arith) v.shares
        v.deposit bought in
    let t = with_virtual (deposit_shares_total x s) in
    let d = with_virtual (total_deposit x s) in
    let ts : with_virtual (deposit_shares_total x s') ≡ t + pos_part n * t / d =
      rw t' (omega (arith, value, pos_part-+ℤ (deposit_shares_total x s) m v.shares m0)) in
    let ds : with_virtual (total_deposit x s') ≡ d + pos_part n =
      rw d' (omega (arith, pos_part-+ℤ (total_deposit x s) n v.deposit (omega arith))) in
    (value, rw (ts, ds) (price_up (pos_part n) t d))

-- As long as the asset's recorded totals of deposits and of shares are not negative before a supply,
-- withdrawing the shares that it mints, right after it, pays at most what was supplied.
pub supply_withdraw_no_gain :
    (e e' : Env) (user : Address) (x : Symbol) (n : ℤ) (s : Pool) {s' s'' : Pool} {m back : ℤ}
    → NonNegativeTotals x s
    → supply e user x n s ≡ ok (s', m)
    → withdraw e' user x m s' ≡ ok (s'', back)
    → (pos 0 ≤ℤ back) × (back ≤ℤ n)
supply_withdraw_no_gain e e' user x n s {s'} {s''} {m} {back} v h h' =
    let (bought, _, _, _, n1) = supply-effect e user x n s h in
    let (sold, _, _, _, m1, _) = withdraw-effect e' user x m s' h' in
    let (d', t') = supply-totals e user x n s h in
    let t = with_virtual (deposit_shares_total x s) in
    let d = with_virtual (total_deposit x s) in
    let (m0, value) =
      shares_for-parts n (deposit_shares_total x s) (total_deposit x s) (omega arith) v.shares
        v.deposit bought in
    let t0 : pos 0 ≤ℤ deposit_shares_total x s' = rw t' (omega (int_laws, m0, v.shares)) in
    let d0 : pos 0 ≤ℤ total_deposit x s' = rw d' (omega (int_laws, n1, v.deposit)) in
    let (b0, paid) =
      amount_for-parts m (deposit_shares_total x s') (total_deposit x s') m0 t0 d0 sold in
    let ts : with_virtual (deposit_shares_total x s') ≡ t + pos_part n * t / d =
      rw t' (omega (arith, value, pos_part-+ℤ (deposit_shares_total x s) m v.shares m0)) in
    let ds : with_virtual (total_deposit x s') ≡ d + pos_part n =
      rw d' (omega (arith, pos_part-+ℤ (total_deposit x s) n v.deposit (omega arith))) in
    let most : pos_part back ≤ pos_part n =
      rw (paid, value, ts, ds) (price_round_trip (pos_part n) t d) in
    (b0, omega (arith, one_part n, one_part back))

-- A withdrawal burns the holder's shares and takes the amount off the deposits, but leaves the total
-- of the shares, the divisor of every later price, where it was: the holders' shares add up to less
-- than that total by what was burned, and more with each withdrawal.
withdraw_strands_shares :
    (e : Env) (user : Address) (x : Symbol) (n : ℤ) (s : Pool) {s' : Pool} {m : ℤ}
    → withdraw e user x n s ≡ ok (s', m)
    → (deposit_shares_total x s' ≡ deposit_shares_total x s)
      × (sum_where (in_asset x) s'.deposit_shares ≡ sum_where (in_asset x) s.deposit_shares -ℤ n)
      × (total_deposit x s' ≡ total_deposit x s -ℤ m)
      × (pos 1 ≤ℤ n)
unfolding total_deposit deposit_shares_total
withdraw_strands_shares e user x n s {m = m} h =
    let (_, p, t, d, n1, _) = withdraw-effect e user x n s h in
    let own = amount_at (user, x) s.deposit_shares in
    (
      rw t,
      rw p (grind (int_laws, sum_where-insert (in_asset x) (user, x) (own -ℤ n) s.deposit_shares)),
      rw (d, lookup-insert_self),
      n1,
    )
