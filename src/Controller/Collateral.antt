-- ===== src/Controller/Collateral.antt =====
-- Collateral that goes in and out through the controller: what the vault and the pool have booked.
use de_fi_lending_stellar_pa.Prelude.{◌≡◌, refl, sym, ap, some, arith, nat_equality, pair_equality}
use de_fi_lending_stellar_pa.Int.{ℤ, ◌+ℤ◌, ◌-ℤ◌, int_laws}
use de_fi_lending_stellar_pa.Map.{lookup, lookup-insert_self}
use de_fi_lending_stellar_pa.Soroban.{Address, Symbol, ok, Env, enter}
use de_fi_lending_stellar_pa.Vault.{Vault, position}
use de_fi_lending_stellar_pa.Vault.Effects.{deposit-effect, withdraw-effect}
use de_fi_lending_stellar_pa.Pool.State.{Pool, collateral_of}
use de_fi_lending_stellar_pa.Pool.Phantom as Phantom
use de_fi_lending_stellar_pa.Controller.Deployment.{Deployment}
use de_fi_lending_stellar_pa.Controller.Lending.{supply_collateral, withdraw_collateral}
use de_fi_lending_stellar_pa.Controller.Effects.{
  supply_collateral-effect, withdraw_collateral-effect,
}

-- Collateral supplied through the controller is booked in full for the user by the vault and by the
-- pool.
supply_collateral_books :
    (e : Env) (user : Address) (x : Symbol) (n : ℤ) (d : Deployment) {d' : Deployment}
    → supply_collateral e user x n d ≡ ok d'
    → (pool vault : Address) × (p p' : Pool) × (v v' : Vault) × (d.controller.collateral_vault
        ≡ some vault)
      × (d'.controller ≡ d.controller)
      × (lookup pool d.pools ≡ some p)
      × (lookup pool d'.pools ≡ some p')
      × (lookup vault d.vaults ≡ some v)
      × (lookup vault d'.vaults ≡ some v')
      × (position user x v' ≡ position user x v +ℤ n)
      × (collateral_of user x p' ≡ collateral_of user x p +ℤ n)
unfolding position collateral_of
supply_collateral_books e user x n d h =
    let (pool, vault, p, p', v, v', at_pool, at_vault, fp, fv, deposited, booked, done) =
      supply_collateral-effect e user n d x h in
    let (positions, _, _, _) = deposit-effect (enter e vault) e.current user x n v deposited in
    let shares = (Phantom.supply_collateral-effect (enter e pool) user x n p booked).1 in
    (
      pool,
      vault,
      p,
      p',
      v,
      v',
      at_vault,
      rw done refl,
      fp,
      rw (done, lookup-insert_self) refl,
      fv,
      rw (done, lookup-insert_self) refl,
      rw (positions, lookup-insert_self) refl,
      rw (shares, lookup-insert_self) refl,
    )

-- Collateral taken out through the controller leaves the vault's books only: the pool keeps all of
-- its own.
withdraw_collateral_books :
    (e : Env) (user : Address) (x : Symbol) (n : ℤ) (d : Deployment) {d' : Deployment} {r : ℤ}
    (vault : Address) (v : Vault)
    → withdraw_collateral e user x n d ≡ ok (d', r)
    → d.controller.collateral_vault ≡ some vault
    → lookup vault d.vaults ≡ some v
    → (v' : Vault) × (lookup vault d'.vaults ≡ some v')
      × (position user x v' ≡ position user x v -ℤ n)
      × (d'.pools ≡ d.pools)
unfolding position
withdraw_collateral_books e user x n d vault v h at_vault found =
    let (u, w, w', _, at_u, fw, withdrawn, _, done) = withdraw_collateral-effect e user n d x h in
    let same : u ≡ vault = ground arith in
    let same_vault : w ≡ v = ground arith in
    let (positions, _, _, _, _) = withdraw-effect (enter e u) e.current user x n w withdrawn in
    (
      w',
      rw (done, sym same, lookup-insert_self) refl,
      rw (positions, lookup-insert_self) (ap (λ v. position user x v -ℤ n) same_vault),
      rw done refl,
    )

-- Whoever supplies collateral through the controller and withdraws it again has the vault's position
-- of before, while the user's shares in the pool are more than before by the whole amount.
pub withdrawn_collateral_stays :
    (e e' : Env) (user : Address) (x : Symbol) (n : ℤ) (d : Deployment) {d' d'' : Deployment}
    {r : ℤ}
    → supply_collateral e user x n d ≡ ok d'
    → withdraw_collateral e' user x n d' ≡ ok (d'', r)
    → (pool vault : Address) × (p p'' : Pool) × (v v'' : Vault) × (lookup pool d.pools ≡ some p)
      × (lookup pool d''.pools ≡ some p'')
      × (lookup vault d.vaults ≡ some v)
      × (lookup vault d''.vaults ≡ some v'')
      × (position user x v'' ≡ position user x v)
      × (collateral_of user x p'' ≡ collateral_of user x p +ℤ n)
withdrawn_collateral_stays e e' user x n d {d'} h h' =
    let (pool, vault, p, p', v, v', at_vault, same, fp, fp', fv, fv', supplied, booked) =
      supply_collateral_books e user x n d h in
    let at_vault' : d'.controller.collateral_vault ≡ some vault = rw same at_vault in
    let (v'', fv'', taken, pools) =
      withdraw_collateral_books e' user x n d' vault v' h' at_vault' fv' in
    (
      pool,
      vault,
      p,
      p',
      v,
      v'',
      fp,
      rw pools fp',
      fv,
      fv'',
      rw (taken, supplied) (grind int_laws),
      booked,
    )
