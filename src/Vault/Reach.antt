-- ===== src/Vault/Reach.antt =====
-- Every history of calls that a vault can see after its deployment, failed calls included.
use de_fi_lending_stellar_pa.Prelude.{ℕ, ◌≡◌, refl, Bool, List, arith, nat_equality, pair_equality}
use de_fi_lending_stellar_pa.Int.{ℤ, pos, ◌≤ℤ◌}
use de_fi_lending_stellar_pa.Map.{lookup}
use de_fi_lending_stellar_pa.Map.Sum.{in_asset, sum_where, amount_at_nonneg, sum_where_nonneg}
use de_fi_lending_stellar_pa.Soroban.{Address, Symbol, Result, ok, Env, run, run_invariant}
use de_fi_lending_stellar_pa.Vault.{
  Vault, deployed, initialize, set_skip_token_transfers, add_operator, set_liq_threshold,
  set_token_address, deposit, withdraw, seize, position, total_by_asset,
}
use de_fi_lending_stellar_pa.Vault.Conservation.{
  IsSound, deposit-IsSound, withdraw-IsSound, seize-IsSound,
}

-- The entry points that change the storage.
pub data Op : Type 0 where
  initialize_op : Address → Op
  set_skip_op : Bool → Op
  add_operator_op : Address → Op
  set_liq_threshold_op : Symbol → ℕ → Op
  set_token_address_op : Symbol → Address → Op
  deposit_op withdraw_op : Address → Address → Symbol → ℤ → Op
  seize_op : Address → Address → Address → Symbol → ℤ → Op

unfoldable pub invoke : Env → Op → Vault → Result Vault
invoke e (initialize_op admin) s = initialize e admin s
invoke e (set_skip_op skip) s = set_skip_token_transfers e skip s
invoke e (add_operator_op op) s = add_operator e op s
invoke e (set_liq_threshold_op asset bps) s = set_liq_threshold e asset bps s
invoke e (set_token_address_op asset token) s = set_token_address e asset token s
invoke e (deposit_op op user asset n) s = deposit e op user asset n s
invoke e (withdraw_op op user asset n) s = withdraw e op user asset n s
invoke e (seize_op op from to asset n) s = seize e op from to asset n s

IsSound-same :
    (s s' : Vault) → s'.positions ≡ s.positions → s'.totals ≡ s.totals → IsSound s → IsSound s'
IsSound-same s s' p t v = record {
  balanced = λ a. rw (p, t) (v.balanced a);
  non_negative = rw p v.non_negative;
}

module _ (e : Env) (s : Vault) {s' : Vault} where
  initialize-same : (admin : Address) → initialize e admin s ≡ ok s' → IsSound s → IsSound s'
  unfolding initialize
  initialize-same admin h = IsSound-same s s' (ground arith) (ground arith)

  set_skip-same : (b : Bool) → set_skip_token_transfers e b s ≡ ok s' → IsSound s → IsSound s'
  unfolding set_skip_token_transfers
  set_skip-same b h = IsSound-same s s' (ground arith) (ground arith)

  add_operator-same : (op : Address) → add_operator e op s ≡ ok s' → IsSound s → IsSound s'
  unfolding add_operator
  add_operator-same op h = IsSound-same s s' (ground arith) (ground arith)

  set_liq_threshold-same :
      (x : Symbol) (b : ℕ) → set_liq_threshold e x b s ≡ ok s' → IsSound s → IsSound s'
  unfolding set_liq_threshold
  set_liq_threshold-same x b h = IsSound-same s s' (ground arith) (ground arith)

  set_token_address-same :
      (x : Symbol) (t : Address) → set_token_address e x t s ≡ ok s' → IsSound s → IsSound s'
  unfolding set_token_address
  set_token_address-same x t h = IsSound-same s s' (ground arith) (ground arith)

pub invoke-IsSound :
    (e : Env) (op : Op) (s : Vault) {s' : Vault} → IsSound s → invoke e op s ≡ ok s' → IsSound s'
unfolding invoke
invoke-IsSound e (initialize_op a) s v h = initialize-same e s a h v
invoke-IsSound e (set_skip_op b) s v h = set_skip-same e s b h v
invoke-IsSound e (add_operator_op op) s v h = add_operator-same e s op h v
invoke-IsSound e (set_liq_threshold_op x b) s v h = set_liq_threshold-same e s x b h v
invoke-IsSound e (set_token_address_op x t) s v h = set_token_address-same e s x t h v
invoke-IsSound e (deposit_op op u x n) s v h = deposit-IsSound e op u x n s v h
invoke-IsSound e (withdraw_op op u x n) s v h = withdraw-IsSound e op u x n s v h
invoke-IsSound e (seize_op op f t x n) s v h = seize-IsSound e op f t x n s v h

-- The vault after a history of calls.
abbrev pub history : List (Env × Op) → Vault → Vault
history = run invoke

deployed-IsSound : IsSound deployed
unfolding sum_where lookup
deployed-IsSound = record { balanced = λ a. refl; non_negative = tt }

-- However a vault is called after its deployment, with failed calls in between, the recorded total
-- of every asset is the sum of the users' positions in it, and no position and no total is negative.
pub history_balanced :
    (calls : List (Env × Op)) (user : Address) (asset : Symbol)
    → let s = history calls deployed in
      (sum_where (in_asset asset) s.positions ≡ total_by_asset asset s)
      × (pos 0 ≤ℤ position user asset s)
      × (pos 0 ≤ℤ total_by_asset asset s)
unfolding position total_by_asset
history_balanced calls user asset =
    let s = history calls deployed in
    let v : IsSound s =
      run_invariant invoke IsSound (λ e op s s' v h. invoke-IsSound e op s v h) calls deployed
        deployed-IsSound in
    let b = v.balanced asset in
    (
      b,
      amount_at_nonneg (user, asset) s.positions v.non_negative,
      rw b at (sum_where_nonneg (in_asset asset) s.positions v.non_negative),
    )
