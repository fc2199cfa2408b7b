-- ===== src/Vault/Ledger.antt =====
-- The vault refines a ledger that forgets the representation: one amount for each user and asset.
use mathlib.Core.Path.{fun_ext}
use de_fi_lending_stellar_pa.Prelude.{
  ◌≡◌, refl, ap, ◌∙◌, Bool, true, false, List, [], ◌∷◌, arith, nat_equality, pair_equality, eq,
  eq→≡, if◌then◌else◌, Bool-cases, inl, inr,
}
use de_fi_lending_stellar_pa.Int.{ℤ, pos, ◌+ℤ◌, ◌-ℤ◌, ◌≤ℤ◌}
use de_fi_lending_stellar_pa.Map.{Map, insert, lookup-insert}
use de_fi_lending_stellar_pa.Map.Sum.{amount_at}
use de_fi_lending_stellar_pa.Soroban.{Address, Symbol, Result, ok, err, Env, run, committed}
use de_fi_lending_stellar_pa.Vault.{
  Vault, initialize, set_skip_token_transfers, add_operator, set_liq_threshold, set_token_address,
}
use de_fi_lending_stellar_pa.Vault.Effects.{deposit-effect, withdraw-effect, seize-effect}
use de_fi_lending_stellar_pa.Vault.Reach.{
  Op, initialize_op, set_skip_op, add_operator_op, set_liq_threshold_op, set_token_address_op,
  deposit_op, withdraw_op, seize_op, invoke, history,
}

abbrev pub Ledger : Type 0
Ledger = Address × Symbol → ℤ

abbrev pub credit : Address × Symbol → ℤ → Ledger → Ledger
credit k n l j = if eq k j then l j +ℤ n else l j

abbrev pub debit : Address × Symbol → ℤ → Ledger → Ledger
debit k n l j = if eq k j then l j -ℤ n else l j

-- The calls that move no collateral.
abbrev pub IsAdministration : Op → Type 0
IsAdministration (initialize_op _) = Unit
IsAdministration (set_skip_op _) = Unit
IsAdministration (add_operator_op _) = Unit
IsAdministration (set_liq_threshold_op _ _) = Unit
IsAdministration (set_token_address_op _ _) = Unit
IsAdministration (deposit_op _ _ _ _) = ⊥
IsAdministration (withdraw_op _ _ _ _) = ⊥
IsAdministration (seize_op _ _ _ _ _) = ⊥

-- What a call does to the ledger, by whether it was accepted.
pub data LedgerStep : Op → Bool → Ledger → Ledger → Type 0 where
  refused : {op : Op} {l : Ledger} → LedgerStep op false l l
  administered : {op : Op} {l : Ledger} → IsAdministration op → LedgerStep op true l l
  deposited :
      {op user : Address} {x : Symbol} {n : ℤ} {l : Ledger}
      → pos 1 ≤ℤ n
      → LedgerStep (deposit_op op user x n) true l (credit (user, x) n l)
  withdrawn :
      {op user : Address} {x : Symbol} {n : ℤ} {l : Ledger}
      → pos 1 ≤ℤ n
      → n ≤ℤ l (user, x)
      → LedgerStep (withdraw_op op user x n) true l (debit (user, x) n l)
  seized :
      {op from to : Address} {x : Symbol} {n : ℤ} {l : Ledger}
      → pos 1 ≤ℤ n
      → n ≤ℤ l (from, x)
      → LedgerStep (seize_op op from to x n) true l (credit (to, x) n (debit (from, x) n l))

pub data LedgerRun : List (Op × Bool) → Ledger → Ledger → Type 0 where
  finished : {l : Ledger} → LedgerRun [] l l
  stepped :
      {op : Op} {accepted : Bool} {rest : List (Op × Bool)} {l l' l'' : Ledger}
      → LedgerStep op accepted l l'
      → LedgerRun rest l' l''
      → LedgerRun ((op, accepted) ∷ rest) l l''

abbrev pub is_ok {ℓ} : {A : Type ℓ} → Result A → Bool
is_ok (ok _) = true
is_ok (err _) = false

-- The calls of a history, each with whether the vault accepted it.
abbrev pub outcomes : List (Env × Op) → Vault → List (Op × Bool)
outcomes [] s = []
outcomes ((e, op) ∷ rest) s =
    (op, is_ok (invoke e op s)) ∷ outcomes rest (committed (invoke e op s) s)

abbrev ledger_of : Map (Address × Symbol) ℤ → Ledger
ledger_of m k = amount_at k m

module _ (k : Address × Symbol) (n : ℤ) (m : Map (Address × Symbol) ℤ) where
  ledger-credit : ledger_of (insert k (amount_at k m +ℤ n) m) ≡ credit k n (ledger_of m)
  ledger-credit = fun_ext λ j. elim (Bool-cases (eq k j)) [
    | inl same ↦ rw (lookup-insert k j, same, eq→≡ k j same) refl
    | inr other ↦ rw (lookup-insert k j, other) refl
  ]

  ledger-debit : ledger_of (insert k (amount_at k m -ℤ n) m) ≡ debit k n (ledger_of m)
  ledger-debit = fun_ext λ j. elim (Bool-cases (eq k j)) [
    | inl same ↦ rw (lookup-insert k j, same, eq→≡ k j same) refl
    | inr other ↦ rw (lookup-insert k j, other) refl
  ]

-- The ledger that a vault stands for.
abbrev pub ledger : Vault → Ledger
ledger s = ledger_of s.positions

moves :
    (op : Op) (s s' : Vault) (l : Ledger)
    → ledger s' ≡ l
    → LedgerStep op true (ledger s) l
    → LedgerStep op true (ledger s) (ledger s')
moves op s s' l same step = rw same step

invoke-LedgerStep :
    (e : Env) (op : Op) (s s' : Vault)
    → invoke e op s ≡ ok s'
    → LedgerStep op true (ledger s) (ledger s')
unfolding invoke initialize set_skip_token_transfers add_operator set_liq_threshold
    set_token_address
invoke-LedgerStep e (initialize_op a) s s' h =
    moves _ s s' _ (ap ledger_of (ground arith)) (administered tt)
invoke-LedgerStep e (set_skip_op b) s s' h =
    moves _ s s' _ (ap ledger_of (ground arith)) (administered tt)
invoke-LedgerStep e (add_operator_op a) s s' h =
    moves _ s s' _ (ap ledger_of (ground arith)) (administered tt)
invoke-LedgerStep e (set_liq_threshold_op x b) s s' h =
    moves _ s s' _ (ap ledger_of (ground arith)) (administered tt)
invoke-LedgerStep e (set_token_address_op x a) s s' h =
    moves _ s s' _ (ap ledger_of (ground arith)) (administered tt)
invoke-LedgerStep e (deposit_op op user x n) s s' h =
    let (positions, _, positive, _) = deposit-effect e op user x n s h in
    moves _ s s' _ (ap ledger_of positions ∙ ledger-credit (user, x) n s.positions)
      (deposited positive)
invoke-LedgerStep e (withdraw_op op user x n) s s' h =
    let (positions, _, positive, enough, _) = withdraw-effect e op user x n s h in
    moves _ s s' _ (ap ledger_of positions ∙ ledger-debit (user, x) n s.positions)
      (withdrawn positive enough)
invoke-LedgerStep e (seize_op op from to x n) s s' h =
    let (positions, _, positive, enough, _) = seize-effect e op from to x n s h in
    moves _ s s' _
      (ap ledger_of positions
        ∙ (ledger-credit (to, x) n _
            ∙ ap (credit (to, x) n) (ledger-debit (from, x) n s.positions)))
      (seized positive enough)

-- Every history of calls of a vault is a run of the ledger: an accepted call changes the ledger that
-- the vault stands for exactly as the ledger's step for it does, its guards met, and a call that
-- panics does not change it.
pub history_refines :
    (calls : List (Env × Op)) (s : Vault)
    → LedgerRun (outcomes calls s) (ledger s) (ledger (history calls s))
unfolding run
history_refines [] s = finished
history_refines ((e, op) ∷ rest) s =
    stepped (step (invoke e op s) refl) (history_refines rest (committed (invoke e op s) s))
  where
    step :
        (r : Result Vault)
        → invoke e op s ≡ r
        → LedgerStep op (is_ok r) (ledger s) (ledger (committed r s))
    step (ok s') done = invoke-LedgerStep e op s s' done
    step (err x) done = refused
