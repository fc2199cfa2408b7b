-- ===== src/Controller/Redeem.antt =====
-- Holders of the wrapped token can redeem it.
use de_fi_lending_stellar_pa.Prelude.{
  ℕ, ◌≡◌, refl, true, false, some, arith, nat_equality, inl, inr,
}
use de_fi_lending_stellar_pa.Int.{ℤ, pos, ◌-ℤ◌, ◌≤ℤ◌, int_laws}
use de_fi_lending_stellar_pa.Map.{lookup}
use de_fi_lending_stellar_pa.Map.Sum.{amount_at, or_zero, amount_at-le-sum_where}
use de_fi_lending_stellar_pa.Soroban.{Address, Result-cases, ok, Env, enter, unwrap_or, in_i128}
use de_fi_lending_stellar_pa.Soroban.Machine.{in_i128-between}
use de_fi_lending_stellar_pa.Wrapped.{Token, burn, balance, total_supply}
use de_fi_lending_stellar_pa.Wrapped.Supply.{any_account, IsSound}
use de_fi_lending_stellar_pa.Controller.{require_not_paused}
use de_fi_lending_stellar_pa.Controller.Deployment.{Deployment, wrapped_asset}
use de_fi_lending_stellar_pa.Controller.Wrapping.{unwrap, gen_nonce}
use de_fi_lending_stellar_pa.Controller.Effects.{unwrap-effect}

burn-runs :
    (e : Env) (user : Address) (n : ℤ) (s : Token)
    → e.signers user ≡ true
    → pos 1 ≤ℤ n
    → n ≤ℤ amount_at user s.balances
    → in_i128 (amount_at user s.balances -ℤ n) ≡ true
    → in_i128 (or_zero s.total_supply -ℤ n) ≡ true
    → (s' : Token) × (burn e user n s ≡ ok s')
unfolding burn
burn-runs e user n s signed positive enough left supply = elim (Result-cases (burn e user n s)) [
  | inl done ↦ done
  | inr (x, failed) ↦ absurd (ground arith)
]

-- The wrapped token's own invariant keeps both subtractions of a burn in range.
burn-room :
    (user : Address) (n : ℤ) (s : Token)
    → IsSound s
    → pos 1 ≤ℤ n
    → n ≤ℤ amount_at user s.balances
    → in_i128 (or_zero s.total_supply) ≡ true
    → (in_i128 (amount_at user s.balances -ℤ n) ≡ true)
      × (in_i128 (or_zero s.total_supply -ℤ n) ≡ true)
burn-room user n s v positive enough fits =
    let below : amount_at user s.balances ≤ℤ or_zero s.total_supply =
      rw v.supplied at (amount_at-le-sum_where any_account user s.balances v.non_negative refl) in
    (
      in_i128-between (amount_at user s.balances -ℤ n) (or_zero s.total_supply) fits
          (omega int_laws) (omega int_laws),
      in_i128-between (or_zero s.total_supply -ℤ n) (or_zero s.total_supply) fits (omega int_laws)
          (omega int_laws),
    )

-- Whoever signs can unwrap any positive amount up to the own balance while the controller is not
-- paused: the call goes through, if the token is sound and its supply an `i128`.
pub unwrap_goes_through :
    (e : Env) (user : Address) (n : ℤ) (c a : ℕ) (d : Deployment) (t : Address) (s : Token)
    → unwrap_or d.controller.is_paused false ≡ false
    → d.controller.wrapped_asset ≡ some t
    → lookup t d.tokens ≡ some s
    → IsSound s
    → in_i128 (total_supply s) ≡ true
    → e.signers user ≡ true
    → pos 1 ≤ℤ n
    → n ≤ℤ balance user s
    → (d' : Deployment) × (unwrap e user n c a d ≡ ok (d', gen_nonce e))
unfolding unwrap wrapped_asset require_not_paused balance total_supply
unwrap_goes_through e user n c a d t s running wired found v fits signed positive enough =
    let (left, supply) = burn-room user n s v positive enough fits in
    let (s', burned) = burn-runs (enter e t) user n s signed positive enough left supply in
    elim (Result-cases (unwrap e user n c a d)) [
      | inr (x, failed) ↦ absurd (ground arith)
      | inl ((d', k), done) ↦
          let nonce : k ≡ gen_nonce e = (unwrap-effect e user n d c a done).3 in
          (d', rw nonce at done)
    ]
