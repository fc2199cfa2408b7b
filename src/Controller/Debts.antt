-- ===== src/Controller/Debts.antt =====
-- `total_debt_value` of the controller against a description of what it sums.
use de_fi_lending_stellar_pa.Prelude.{
  ◌≡◌, some, List, [], ◌∷◌, arith, nat_equality, pair_equality, inl, inr, Bool-cases,
}
use de_fi_lending_stellar_pa.Int.{ℤ, pos, ◌+ℤ◌, ◌≤ℤ◌, ltb_ℤ, int_laws}
use de_fi_lending_stellar_pa.Map.{lookup}
use de_fi_lending_stellar_pa.Soroban.{Address, Symbol, Result-cases, ok, Env}
use de_fi_lending_stellar_pa.Pool.State.{Pool, debt_of, assets}
use de_fi_lending_stellar_pa.Controller.Deployment.{Deployment, oracle_value_of}
use de_fi_lending_stellar_pa.Controller.Lending.{add_debt_values, total_debt_value}

module _ (e : Env) (pool o user : Address) (d : Deployment) (p : Pool) where
  -- The value of the user's debts in some assets: of each that is positive, at the oracle.
  pub data IsDebtValue : List Symbol → ℤ → Type 0 where
    no_assets : IsDebtValue [] (pos 0)
    owes :
        {x : Symbol} {xs : List Symbol} {debt value rest : ℤ}
        → debt_of user x p ≡ ok debt
        → pos 1 ≤ℤ debt
        → oracle_value_of e o x debt d ≡ ok value
        → IsDebtValue xs rest
        → IsDebtValue (x ∷ xs) (value +ℤ rest)
    owes_nothing :
        {x : Symbol} {xs : List Symbol} {debt rest : ℤ}
        → debt_of user x p ≡ ok debt
        → debt ≤ℤ pos 0
        → IsDebtValue xs rest
        → IsDebtValue (x ∷ xs) rest

  module _ (found : lookup pool d.pools ≡ some p) where
    add-step :
        (total sum : ℤ) (x : Symbol) (xs : List Symbol)
        → add_debt_values e pool o user d total (x ∷ xs) ≡ ok sum
        → (debt : ℤ) × (debt_of user x p ≡ ok debt)
    unfolding add_debt_values
    add-step total sum x xs h = elim (Result-cases (debt_of user x p)) [
      | inr (_, failed) ↦ absurd (ground arith)
      | inl (debt, owed) ↦ (debt, owed)
    ]

    owing-step :
        (total sum debt : ℤ) (x : Symbol) (xs : List Symbol)
        → add_debt_values e pool o user d total (x ∷ xs) ≡ ok sum
        → debt_of user x p ≡ ok debt
        → pos 1 ≤ℤ debt
        → (value : ℤ) × (oracle_value_of e o x debt d ≡ ok value)
          × (add_debt_values e pool o user d (total +ℤ value) xs ≡ ok sum)
    unfolding add_debt_values
    owing-step total sum debt x xs h owed some_debt =
        elim (Result-cases (oracle_value_of e o x debt d)) [
          | inr (_, failed) ↦ absurd (ground arith)
          | inl (value, valued) ↦ (value, valued, ground arith)
        ]

    clear-step :
        (total sum debt : ℤ) (x : Symbol) (xs : List Symbol)
        → add_debt_values e pool o user d total (x ∷ xs) ≡ ok sum
        → debt_of user x p ≡ ok debt
        → debt ≤ℤ pos 0
        → add_debt_values e pool o user d total xs ≡ ok sum
    unfolding add_debt_values
    clear-step total sum debt x xs h owed nothing = ground arith

    add_debt_values-IsDebtValue :
        (total sum : ℤ) (xs : List Symbol)
        → add_debt_values e pool o user d total xs ≡ ok sum
        → (rest : ℤ) × IsDebtValue xs rest × (sum ≡ total +ℤ rest)
    unfolding add_debt_values
    add_debt_values-IsDebtValue total sum [] h = (pos 0, no_assets, grind int_laws)
    add_debt_values-IsDebtValue total sum (x ∷ xs) h =
        let (debt, owed) = add-step total sum x xs h in
        elim (Bool-cases (ltb_ℤ (pos 0) debt)) [
          | inl positive ↦
              let (value, valued, after) = owing-step total sum debt x xs h owed (ground arith) in
              let (rest, v, summed) = add_debt_values-IsDebtValue (total +ℤ value) sum xs after in
              (value +ℤ rest, owes owed (ground arith) valued v, grind int_laws)
          | inr clear ↦
              let after = clear-step total sum debt x xs h owed (ground arith) in
              let (rest, v, summed) = add_debt_values-IsDebtValue total sum xs after in
              (rest, owes_nothing owed (ground arith) v, summed)
        ]

  -- The debt value that a withdrawal is checked against is the sum, over every asset that the pool
  -- lists, of the oracle's value of the user's debt in it where there is one.
  pub total_debt_value-IsDebtValue :
      (sum : ℤ)
      → lookup pool d.pools ≡ some p
      → total_debt_value e pool o user d ≡ ok sum
      → IsDebtValue (assets p) sum
  unfolding total_debt_value
  total_debt_value-IsDebtValue sum found h =
      let looped : add_debt_values e pool o user d (pos 0) (assets p) ≡ ok sum = ground arith in
      let (rest, v, summed) = add_debt_values-IsDebtValue found (pos 0) sum (assets p) looped in
      let same : rest ≡ sum = grind int_laws in rw same at v
