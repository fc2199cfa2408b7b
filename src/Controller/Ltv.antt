-- ===== src/Controller/Ltv.antt =====
-- The loan-to-value check of the controller, and the values that it reads of other contracts.
use de_fi_lending_stellar_pa.Prelude.{
  ℕ, min, ◌≡◌, refl, sym, ap, List, [], ◌∷◌, arith, nat_equality, pair_equality,
}
use de_fi_lending_stellar_pa.Int.{ℤ, pos, ◌*ℤ◌, ◌≤ℤ◌}
use de_fi_lending_stellar_pa.Soroban.{Address, Symbol, Result, ok, err, ◌>>=◌, Env}
use de_fi_lending_stellar_pa.Pool.State.{debt_of, assets}
use de_fi_lending_stellar_pa.Controller.Deployment.{Deployment, oracle_value_of, invoke_view}
use de_fi_lending_stellar_pa.Controller.Lending.{
  require_within_ltv, total_debt_value, add_debt_values, max_ltv_bps,
}

pub require_within_ltv-bound :
    (debt_value collat_value : ℤ) (ltv : ℕ)
    → require_within_ltv debt_value collat_value ltv ≡ ok tt
    → debt_value *ℤ pos 10_000 ≤ℤ collat_value *ℤ pos (min ltv max_ltv_bps)
unfolding require_within_ltv
require_within_ltv-bound debt_value collat_value ltv h = ground arith

pub >>=-cong :
    {A B : Type 0} (r r' : Result A) (f g : A → Result B)
    → r ≡ r'
    → ((a : A) → f a ≡ g a)
    → r >>= f ≡ r' >>= g
>>=-cong (ok a) r' f g first then = rw (sym first) (then a)
>>=-cong (err x) r' f g first then = rw (sym first) refl

-- The values that the controller reads depend on the pools and the oracles only.
pub oracle_value_of-same :
    (e : Env) (d d' : Deployment)
    → d'.oracles ≡ d.oracles
    → (o : Address) (x : Symbol) (n : ℤ) → oracle_value_of e o x n d' ≡ oracle_value_of e o x n d
unfolding oracle_value_of
oracle_value_of-same e d d' oracles o x n = rw oracles refl

module _ (e : Env) (d d' : Deployment) (pools : d'.pools ≡ d.pools)
    (oracles : d'.oracles ≡ d.oracles) (pool o user : Address) where
  add_debt_values-same :
      (total : ℤ) (xs : List Symbol)
      → add_debt_values e pool o user d' total xs ≡ add_debt_values e pool o user d total xs
  unfolding add_debt_values
  add_debt_values-same total [] = refl
  add_debt_values-same total (x ∷ xs) =
      >>=-cong _ _ _ _ (ap (λ ps. invoke_view ps pool (debt_of user x)) pools) (λ debt.
        >>=-cong _ _ _ _ (rw (oracle_value_of-same e d d' oracles o x debt) refl)
          (λ total'. add_debt_values-same total' xs))

  pub total_debt_value-same : total_debt_value e pool o user d' ≡ total_debt_value e pool o user d
  unfolding total_debt_value
  total_debt_value-same =
      >>=-cong _ _ _ _ (ap (λ ps. invoke_view ps pool (λ p. ok (assets p))) pools)
        (λ listed. add_debt_values-same (pos 0) listed)
