-- ===== src/Controller/Release.antt =====
-- `withdraw_collateral` of the controller: the check against all the user's debts.
use de_fi_lending_stellar_pa.Prelude.{
  ℕ, min, ◌≡◌, refl, ◌∙◌, some, arith, nat_equality, pair_equality, inl, inr,
}
use de_fi_lending_stellar_pa.Int.{ℤ, pos, ◌-ℤ◌, ◌*ℤ◌, ◌≤ℤ◌}
use de_fi_lending_stellar_pa.Map.{lookup, lookup-insert_self}
use de_fi_lending_stellar_pa.Soroban.{Address, Symbol, Result-cases, ok, Env, enter}
use de_fi_lending_stellar_pa.Vault.{Vault, position}
use de_fi_lending_stellar_pa.Vault.Effects.{withdraw-effect}
use de_fi_lending_stellar_pa.Pool.State.{Pool, ltv_bps}
use de_fi_lending_stellar_pa.Controller.Deployment.{
  Deployment, lending_pool, collateral_vault, oracle, oracle_value_of,
}
use de_fi_lending_stellar_pa.Controller.Lending.{
  check_withdraw, withdraw_collateral, total_debt_value, max_ltv_bps,
}
use de_fi_lending_stellar_pa.Controller.Effects.{withdraw_collateral-effect}
use de_fi_lending_stellar_pa.Controller.Ltv.{
  require_within_ltv-bound, oracle_value_of-same, total_debt_value-same,
}

module _ (e : Env) (user : Address) (x : Symbol) (n : ℤ) (d : Deployment) where
  check_withdraw-callees :
      check_withdraw e user x n d ≡ ok tt
      → (o pool : Address) × (p : Pool) × (d.controller.oracle ≡ some o)
        × (d.controller.lending_pool ≡ some pool)
        × (lookup pool d.pools ≡ some p)
  unfolding check_withdraw oracle lending_pool collateral_vault
  check_withdraw-callees h = ground arith

  -- The values that the check of a withdrawal compares.
  record IsReleased (vault : Address) (v : Vault) : Type 0 where
    oracle_at : Address
    pool_at : Address
    pool : Pool
    debt_value : ℤ
    collat_value : ℤ
    ltv : ℕ
    oracle_wired : d.controller.oracle ≡ some oracle_at
    pool_wired : d.controller.lending_pool ≡ some pool_at
    pool_found : lookup pool_at d.pools ≡ some pool
    ltv_read : ltv_bps x pool ≡ ok ltv
    collat_valued : oracle_value_of e oracle_at x (position user x v -ℤ n) d ≡ ok collat_value
    debt_valued : total_debt_value e pool_at oracle_at user d ≡ ok debt_value
    covered : debt_value *ℤ pos 10_000 ≤ℤ collat_value *ℤ pos (min ltv max_ltv_bps)

  check_withdraw-values :
      (o pool vault : Address) (p : Pool) (v : Vault)
      → check_withdraw e user x n d ≡ ok tt
      → d.controller.oracle ≡ some o
      → d.controller.lending_pool ≡ some pool
      → d.controller.collateral_vault ≡ some vault
      → lookup pool d.pools ≡ some p
      → lookup vault d.vaults ≡ some v
      → IsReleased vault v
  unfolding check_withdraw oracle lending_pool collateral_vault
  check_withdraw-values o pool vault p v h ho hp hv fp fv =
      elim (Result-cases (oracle_value_of e o x (position user x v -ℤ n) d)) [
        | inr (_, failed) ↦ absurd (ground arith)
        | inl (collat_value, collat_valued) ↦
            elim (Result-cases (total_debt_value e pool o user d)) [
              | inr (_, failed) ↦ absurd (ground arith)
              | inl (debt_value, debt_valued) ↦ elim (Result-cases (ltv_bps x p)) [
                | inr (_, failed) ↦ absurd (ground arith)
                | inl (ltv, ltv_read) ↦ record {
                  oracle_at = o;
                  pool_at = pool;
                  pool = p;
                  debt_value = debt_value;
                  collat_value = collat_value;
                  ltv = ltv;
                  oracle_wired = ho;
                  pool_wired = hp;
                  pool_found = fp;
                  ltv_read = ltv_read;
                  collat_valued = collat_valued;
                  debt_valued = debt_valued;
                  covered = require_within_ltv-bound debt_value collat_value ltv (ground arith);
                }
              ]
            ]
      ]

  check_withdraw-IsReleased :
      (vault : Address) (v : Vault)
      → check_withdraw e user x n d ≡ ok tt
      → d.controller.collateral_vault ≡ some vault
      → lookup vault d.vaults ≡ some v
      → IsReleased vault v
  check_withdraw-IsReleased vault v h hv fv =
      let (o, pool, p, ho, hp, fp) = check_withdraw-callees h in
      check_withdraw-values o pool vault p v h ho hp hv fp fv

-- After a withdrawal of collateral what is left of it, at the oracle's price and the asset's
-- loan-to-value of at most 75 %, covers the value of the user's debts in all the pool's assets.
pub withdraw_within_ltv :
    (e : Env) (user : Address) (x : Symbol) (n : ℤ) (d : Deployment) {d' : Deployment} {r : ℤ}
    → withdraw_collateral e user x n d ≡ ok (d', r)
    → (o pool vault : Address) × (p : Pool) × (v' : Vault) × (debt_value collat_value : ℤ)
      × (ltv : ℕ) × (d.controller.oracle ≡ some o)
      × (d.controller.lending_pool ≡ some pool)
      × (d.controller.collateral_vault ≡ some vault)
      × (lookup pool d'.pools ≡ some p)
      × (ltv_bps x p ≡ ok ltv)
      × (lookup vault d'.vaults ≡ some v')
      × (oracle_value_of e o x (position user x v') d' ≡ ok collat_value)
      × (total_debt_value e pool o user d' ≡ ok debt_value)
      × (debt_value *ℤ pos 10_000 ≤ℤ collat_value *ℤ pos (min ltv max_ltv_bps))
withdraw_within_ltv e user x n d {d'} h =
    let (vault, v, v', checked, at_vault, fv, withdrawn, _, done) =
      withdraw_collateral-effect e user n d x h in
    let z : IsReleased e user x n d vault v =
      check_withdraw-IsReleased e user x n d vault v checked at_vault fv in
    let (positions, _, _, _, _) = withdraw-effect (enter e vault) e.current user x n v withdrawn in
    let oracles : d'.oracles ≡ d.oracles = rw done refl in
    let pools : d'.pools ≡ d.pools = rw done refl in
    let left : position user x v' ≡ position user x v -ℤ n =
      unfold position in rw (positions, lookup-insert_self) refl in
    (
      z.oracle_at,
      z.pool_at,
      vault,
      z.pool,
      v',
      z.debt_value,
      z.collat_value,
      z.ltv,
      z.oracle_wired,
      z.pool_wired,
      at_vault,
      rw pools z.pool_found,
      z.ltv_read,
      rw (done, lookup-insert_self) refl,
      oracle_value_of-same e d d' oracles z.oracle_at x _ ∙ rw left z.collat_valued,
      total_debt_value-same e d d' pools oracles z.pool_at z.oracle_at user ∙ z.debt_valued,
      z.covered,
    )
