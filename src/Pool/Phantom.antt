-- ===== src/Pool/Phantom.antt =====
-- `supply_collateral` books into the ledger of the deposit shares.
use de_fi_lending_stellar_pa.Prelude.{
  ◌≡◌, false, some, ◌∷◌, arith, inl, inr, nat_equality, pair_equality,
}
use de_fi_lending_stellar_pa.Int.{ℤ, pos, ◌+ℤ◌, ◌-ℤ◌, ◌≤ℤ◌, int_laws}
use de_fi_lending_stellar_pa.Map.{lookup, insert, lookup-insert_self}
use de_fi_lending_stellar_pa.Map.Sum.{amount_at}
use de_fi_lending_stellar_pa.Soroban.{Address, Symbol, ok, Env, unwrap_or, Result-cases}
use de_fi_lending_stellar_pa.Pool.State.{
  Pool, AssetConfig, total_deposit, deposit_shares_total, deposit_shares_of, move_tokens,
  asset_config,
}
use de_fi_lending_stellar_pa.Pool.Interest.{accrue_interest}
use de_fi_lending_stellar_pa.Pool.Supply.{supply_collateral, withdraw, amount_for}
use de_fi_lending_stellar_pa.Pool.Effects.{withdraw-effect, accrue_interest-transfers}

-- `supply_collateral` asks for no tokens: it adds to the user's shares, and leaves the totals alone.
pub supply_collateral-effect :
    (e : Env) (user : Address) (x : Symbol) (n : ℤ) (s : Pool) {s' : Pool}
    → supply_collateral e user x n s ≡ ok s'
    → (s'.transfers ≡ s.transfers)
      × (s'.deposit_shares
          ≡ insert (user, x) (amount_at (user, x) s.deposit_shares +ℤ n) s.deposit_shares)
      × (s'.total_deposits ≡ s.total_deposits)
      × (s'.total_deposit_shares ≡ s.total_deposit_shares)
      × (s'.skip_token_transfers ≡ s.skip_token_transfers)
      × (s'.asset_configs ≡ s.asset_configs)
      × (pos 1 ≤ℤ n)
unfolding supply_collateral
supply_collateral-effect e user x n s h = ground arith

pub accrue_interest-settings :
    (e : Env) (x : Symbol) (s : Pool) {t : Pool}
    → accrue_interest e x s ≡ ok t
    → (t.skip_token_transfers ≡ s.skip_token_transfers) × (t.asset_configs ≡ s.asset_configs)
unfolding accrue_interest
accrue_interest-settings e x s h = ground arith

move_tokens-transfers :
    (e : Env) (x : Symbol) (from to : Address) (n : ℤ) (s : Pool) (cfg : AssetConfig) {t : Pool}
    → unwrap_or s.skip_token_transfers false ≡ false
    → lookup x s.asset_configs ≡ some cfg
    → move_tokens e x from to n s ≡ ok t
    → t.transfers
      ≡ record { token = cfg.token_address; from = from; to = to; amount = n } ∷ s.transfers
unfolding move_tokens asset_config
move_tokens-transfers e x from to n s cfg on known h = ground arith

-- With transfers on, a withdrawal pays its amount to the user in the asset's token.
pub withdraw-transfers :
    (e : Env) (user : Address) (x : Symbol) (n : ℤ) (s : Pool) (cfg : AssetConfig) {s' : Pool}
    {m : ℤ}
    → unwrap_or s.skip_token_transfers false ≡ false
    → lookup x s.asset_configs ≡ some cfg
    → withdraw e user x n s ≡ ok (s', m)
    → s'.transfers
      ≡ record { token = cfg.token_address; from = e.current; to = user; amount = m } ∷ s.transfers
unfolding withdraw
withdraw-transfers e user x n s cfg {m = m} on known h =
    elim (Result-cases (accrue_interest e x s)) [
      | inr (_, failed) ↦ absurd (ground arith)
      | inl (a, accrued) ↦
          let (skip, cfgs) = accrue_interest-settings e x s accrued in
          let kept = accrue_interest-transfers e x s accrued in
          elim (Result-cases (amount_for n (deposit_shares_total x a) (total_deposit x a))) [
            | inr (_, failed) ↦ absurd (ground arith)
            | inl (paid, priced) ↦ elim (Result-cases (move_tokens e x e.current user paid a)) [
              | inr (_, failed) ↦ absurd (ground arith)
              | inl (t, moved) ↦
                  let out =
                    move_tokens-transfers e x e.current user paid a cfg (rw skip on) (rw cfgs known)
                      moved in
                  ground arith
            ]
          ]
    ]

-- Collateral that is booked through `supply_collateral`, for which no token comes in, can be
-- withdrawn as deposit shares: the pool then pays the user the price of `n` shares out of the
-- deposits, and the user's shares are back to what they were.
pub phantom_collateral_pays :
    (e e' : Env) (user : Address) (x : Symbol) (n : ℤ) (s : Pool) (cfg : AssetConfig)
    {s' s'' : Pool} {m : ℤ}
    → unwrap_or s.skip_token_transfers false ≡ false
    → lookup x s.asset_configs ≡ some cfg
    → supply_collateral e user x n s ≡ ok s'
    → withdraw e' user x n s' ≡ ok (s'', m)
    → (s''.transfers
        ≡ record { token = cfg.token_address; from = e'.current; to = user; amount = m }
          ∷ s.transfers)
      × (amount_for n (deposit_shares_total x s) (total_deposit x s) ≡ ok m)
      × (total_deposit x s'' ≡ total_deposit x s -ℤ m)
      × (deposit_shares_of user x s'' ≡ deposit_shares_of user x s)
unfolding deposit_shares_total total_deposit deposit_shares_of
phantom_collateral_pays e e' user x n s cfg {s'} {s''} {m} on known h h' =
    let (t, p, d, all, skip, cfgs, _) = supply_collateral-effect e user x n s h in
    let (priced, p', _, d', _, _) = withdraw-effect e' user x n s' h' in
    let out = withdraw-transfers e' user x n s' cfg (rw skip on) (rw cfgs known) h' in
    (
      rw (out, t),
      rw (d, all) at priced,
      rw (d', lookup-insert_self, d),
      rw (p', lookup-insert_self, p, lookup-insert_self) (omega int_laws),
    )
