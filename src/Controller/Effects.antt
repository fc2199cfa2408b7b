-- ===== src/Controller/Effects.antt =====
-- What a successful call of each entry point of the controller has checked and changed.
use de_fi_lending_stellar_pa.Prelude.{
  ℕ, ◌≡◌, inl, inr, true, false, some, List, ◌∷◌, arith, nat_equality,
}
use de_fi_lending_stellar_pa.Int.{ℤ}
use de_fi_lending_stellar_pa.Map.{lookup, insert}
use de_fi_lending_stellar_pa.Soroban.{
  Address, Symbol, Result-cases, ok, Env, enter, authorized, is_some,
}
use de_fi_lending_stellar_pa.Wrapped.{Token, mint, burn}
use de_fi_lending_stellar_pa.Pool.State.{Pool}
use de_fi_lending_stellar_pa.Pool.Supply as Supply
use de_fi_lending_stellar_pa.Pool.Borrow as Loans
use de_fi_lending_stellar_pa.Vault.{Vault, deposit, withdraw}
use de_fi_lending_stellar_pa.Controller.{Controller, check_and_bump_nonce, check_mint_rate}
use de_fi_lending_stellar_pa.Controller.Payload.{Host}
use de_fi_lending_stellar_pa.Controller.Attest.{Attestation, require_bridge}
use de_fi_lending_stellar_pa.Controller.Deployment.{
  Deployment, wrap_event, unwrap_event, supply_event, borrow_event, repay_event,
  withdraw_collateral_event, wrapped_asset, lending_pool, collateral_vault,
}
use de_fi_lending_stellar_pa.Controller.Wrapping.{wrap, unwrap, gen_nonce}
use de_fi_lending_stellar_pa.Controller.Lending.{
  supply_collateral, check_borrow, borrow, repay, check_withdraw, withdraw_collateral,
}

pub check_and_bump_nonce-effect :
    (salt : ℕ) (s : Controller) {s' : Controller}
    → check_and_bump_nonce salt s ≡ ok s'
    → (is_some (lookup salt s.nonces) ≡ false)
      × (s'.nonces ≡ insert salt true s.nonces)
      × (s'.wrapped_asset ≡ s.wrapped_asset)
unfolding check_and_bump_nonce
check_and_bump_nonce-effect salt s h = ground arith

pub check_mint_rate-effect :
    (e : Env) (s : Controller) {s' : Controller}
    → check_mint_rate e s ≡ ok s'
    → (s'.nonces ≡ s.nonces) × (s'.wrapped_asset ≡ s.wrapped_asset)
unfolding check_mint_rate
check_mint_rate-effect e s h = ground arith

module _ (host : Host) (e : Env) (given : List Attestation) (c a : ℕ) (n : ℤ) (to : Address)
    (salt k : ℕ) (d : Deployment) {d' : Deployment} where
  pub wrap-steps :
      wrap host e given c a n to salt k d ≡ ok d'
      → (bumped counted : Controller) × (t : Address) × (s s' : Token) × (require_bridge host given
            c a n to salt k d.controller
          ≡ ok tt)
        × (check_and_bump_nonce salt d.controller ≡ ok bumped)
        × (check_mint_rate e bumped ≡ ok counted)
        × (counted.wrapped_asset ≡ some t)
        × (lookup t d.tokens ≡ some s)
        × (mint (enter e t) to n s ≡ ok s')
        × (d' ≡ record d {
          controller = counted;
          tokens = insert t s' d.tokens;
          events = wrap_event c a to n salt k ∷ d.events;
        })
  unfolding wrap wrapped_asset
  wrap-steps h = ground arith

  pub wrap-effect :
      wrap host e given c a n to salt k d ≡ ok d'
      → (t : Address) × (s s' : Token) × (require_bridge host given c a n to salt k d.controller
          ≡ ok tt)
        × (is_some (lookup salt d.controller.nonces) ≡ false)
        × (d'.controller.nonces ≡ insert salt true d.controller.nonces)
        × (d.controller.wrapped_asset ≡ some t)
        × (d'.controller.wrapped_asset ≡ some t)
        × (lookup t d.tokens ≡ some s)
        × (mint (enter e t) to n s ≡ ok s')
        × (d'.tokens ≡ insert t s' d.tokens)
        × (d'.events ≡ wrap_event c a to n salt k ∷ d.events)
        × (d'.pools ≡ d.pools)
        × (d'.vaults ≡ d.vaults)
  wrap-effect h =
      let (bumped, counted, t, s, s', attested, bump, count, at_t, found, minted, done) =
        wrap-steps h in
      let (fresh, nonces, same) = check_and_bump_nonce-effect salt d.controller bump in
      let (nonces', same') = check_mint_rate-effect e bumped count in
      (
        t,
        s,
        s',
        attested,
        fresh,
        ground arith,
        ground arith,
        ground arith,
        found,
        minted,
        ground arith,
        ground arith,
        ground arith,
        ground arith,
      )

module _ (e : Env) (user : Address) (n : ℤ) (d : Deployment) {d' : Deployment} where
  pub unwrap-effect :
      (c a : ℕ) {k : ℕ}
      → unwrap e user n c a d ≡ ok (d', k)
      → (t : Address) × (s s' : Token) × (k ≡ gen_nonce e)
        × (authorized e user ≡ true)
        × (d.controller.wrapped_asset ≡ some t)
        × (lookup t d.tokens ≡ some s)
        × (burn (enter e t) user n s ≡ ok s')
        × (d'.controller ≡ d.controller)
        × (d'.tokens ≡ insert t s' d.tokens)
        × (d'.events ≡ unwrap_event user n c a k ∷ d.events)
  unfolding unwrap wrapped_asset
  unwrap-effect c a h = ground arith

  pub supply_collateral-effect :
      (asset : Symbol)
      → supply_collateral e user asset n d ≡ ok d'
      → (pool vault : Address) × (p p' : Pool) × (v v' : Vault) × (d.controller.lending_pool
          ≡ some pool)
        × (d.controller.collateral_vault ≡ some vault)
        × (lookup pool d.pools ≡ some p)
        × (lookup vault d.vaults ≡ some v)
        × (deposit (enter e vault) e.current user asset n v ≡ ok v')
        × (Supply.supply_collateral (enter e pool) user asset n p ≡ ok p')
        × (d' ≡ record d {
          vaults = insert vault v' d.vaults;
          pools = insert pool p' d.pools;
          events = supply_event user asset n ∷ d.events;
        })
  unfolding supply_collateral lending_pool collateral_vault
  supply_collateral-effect asset h = ground arith

  pub borrow-effect :
      (collateral debt : Symbol) (m : ℤ)
      → borrow e user collateral n debt m d ≡ ok d'
      → (pool vault : Address) × (p p' : Pool) × (v v' : Vault) × (check_borrow e user collateral n
            debt m d
          ≡ ok tt)
        × (d.controller.lending_pool ≡ some pool)
        × (d.controller.collateral_vault ≡ some vault)
        × (lookup pool d.pools ≡ some p)
        × (lookup vault d.vaults ≡ some v)
        × (deposit (enter e vault) e.current user collateral n v ≡ ok v')
        × (Loans.borrow_raw (enter e pool) e.current user debt m p ≡ ok p')
        × (d' ≡ record d {
          vaults = insert vault v' d.vaults;
          pools = insert pool p' d.pools;
          events = borrow_event user collateral debt m ∷ d.events;
        })
  unfolding borrow lending_pool collateral_vault
  borrow-effect collateral debt m h = ground arith

  repay-callee :
      (asset : Symbol) {r : ℤ}
      → repay e user asset n d ≡ ok (d', r)
      → (pool : Address) × (p : Pool) × (d.controller.lending_pool ≡ some pool)
        × (lookup pool d.pools ≡ some p)
  unfolding repay lending_pool
  repay-callee asset h = ground arith

  pub repay-effect :
      (asset : Symbol) {r : ℤ}
      → repay e user asset n d ≡ ok (d', r)
      → (pool : Address) × (p p' : Pool) × (d.controller.lending_pool ≡ some pool)
        × (lookup pool d.pools ≡ some p)
        × (Loans.repay (enter e pool) user asset n p ≡ ok (p', r))
        × (d' ≡ record d {
          pools = insert pool p' d.pools;
          events = repay_event user asset n r ∷ d.events;
        })
  unfolding repay lending_pool
  repay-effect asset h =
      let (pool, p, at_pool, found) = repay-callee asset h in
      elim (Result-cases (Loans.repay (enter e pool) user asset n p)) [
        | inr (_, failed) ↦ absurd (ground arith)
        | inl ((p', paid), done) ↦ (pool, p, p', at_pool, found, ground arith, ground arith)
      ]

  pub withdraw_collateral-effect :
      (asset : Symbol) {r : ℤ}
      → withdraw_collateral e user asset n d ≡ ok (d', r)
      → (vault : Address) × (v v' : Vault) × (check_withdraw e user asset n d ≡ ok tt)
        × (d.controller.collateral_vault ≡ some vault)
        × (lookup vault d.vaults ≡ some v)
        × (withdraw (enter e vault) e.current user asset n v ≡ ok v')
        × (r ≡ n)
        × (d' ≡ record d {
          vaults = insert vault v' d.vaults;
          events = withdraw_collateral_event user asset n ∷ d.events;
        })
  unfolding withdraw_collateral collateral_vault
  withdraw_collateral-effect asset h = ground arith
