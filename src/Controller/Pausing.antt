-- ===== src/Controller/Pausing.antt =====
-- The emergency pause of the controller.
use de_fi_lending_stellar_pa.Prelude.{ℕ, ◌≡◌, true, some, List, refl, arith}
use de_fi_lending_stellar_pa.Int.{ℤ}
use de_fi_lending_stellar_pa.Soroban.{Address, Symbol, Result, Error, ok, err, Env, paused}
use de_fi_lending_stellar_pa.Controller.{require_not_paused}
use de_fi_lending_stellar_pa.Controller.Payload.{Host}
use de_fi_lending_stellar_pa.Controller.Attest.{Attestation}
use de_fi_lending_stellar_pa.Controller.Deployment.{Deployment}
use de_fi_lending_stellar_pa.Controller.Wrapping.{wrap, unwrap}
use de_fi_lending_stellar_pa.Controller.Lending.{
  supply_collateral, borrow, repay, withdraw_collateral,
}

-- The call panics.
abbrev pub Panics {ℓ} : {A : Type ℓ} → Result A → Type ℓ
Panics r = (x : Error) × (r ≡ err x)

-- While the controller is paused no entry point of its users goes through, whoever calls it with
-- whatever arguments: neither wrap and unwrap, nor supplying, borrowing, repaying and withdrawing.
paused_stops :
    (host : Host) (e : Env) (given : List Attestation) (c a : ℕ) (n m : ℤ) (user : Address)
    (salt k : ℕ) (x y : Symbol) (d : Deployment)
    → d.controller.is_paused ≡ some true
    → (wrap host e given c a n user salt k d ≡ err paused)
      × Panics (unwrap e user n c a d)
      × Panics (supply_collateral e user x n d)
      × Panics (borrow e user x n y m d)
      × Panics (repay e user x n d)
      × Panics (withdraw_collateral e user x n d)
unfolding wrap unwrap supply_collateral borrow repay withdraw_collateral require_not_paused
paused_stops host e given c a n m user salt k x y d stopped = (
  rw stopped refl,
  panics (unwrap e user n c a d) (λ r h. ground arith),
  panics (supply_collateral e user x n d) (λ r h. ground arith),
  panics (borrow e user x n y m d) (λ r h. ground arith),
  panics (repay e user x n d) (λ r h. ground arith),
  panics (withdraw_collateral e user x n d) (λ r h. ground arith),
)
  where
    panics : {A : Type 0} → (r : Result A) → ((a : A) → r ≡ ok a → ⊥) → Panics r
    panics (ok a) never = absurd (never a refl)
    panics (err x) never = (x, refl)
