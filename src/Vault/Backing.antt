-- ===== src/Vault/Backing.antt =====
-- The tokens that the vault holds by the transfers it has asked for, against what its books owe.
use de_fi_lending_stellar_pa.Prelude.{
  ◌≡◌, ◌≢◌, false, ◌&&◌, some, List, [], ◌∷◌, arith, ◌==◌, nat_equality, pair_equality,
}
use de_fi_lending_stellar_pa.Int.{ℤ, pos, ◌+ℤ◌, ◌-ℤ◌, int_laws}
use de_fi_lending_stellar_pa.Map.{lookup, lookup-insert_self}
use de_fi_lending_stellar_pa.Map.Sum.{selected}
use de_fi_lending_stellar_pa.Soroban.{Address, Symbol, ok, Env, Transfer, unwrap_or}
use de_fi_lending_stellar_pa.Vault.{Vault, move_tokens, deposit, withdraw, total_by_asset, position}
use de_fi_lending_stellar_pa.Vault.Effects.{deposit-effect, withdraw-effect}

-- What `owner` has gained in `token` by the transfers.
unfoldable pub net : Address → Address → List Transfer → ℤ
net owner token [] = pos 0
net owner token (t ∷ ts) =
    net owner token ts
    +ℤ selected (t.token == token && t.to == owner) t.amount
    -ℤ selected (t.token == token && t.from == owner) t.amount

-- Transfers are on, and the asset has a token contract.
abbrev pub PaysIn : Symbol → Address → Vault → Type 0
PaysIn x token s =
    (unwrap_or s.skip_token_transfers false ≡ false) × (lookup x s.token_addresses ≡ some token)

module _ (e : Env) (x : Symbol) (token : Address) (n : ℤ) (s : Vault) {s' : Vault} where
  move_tokens-net_in :
      (from : Address)
      → from ≢ e.current
      → PaysIn x token s
      → move_tokens e x from e.current n s ≡ ok s'
      → net e.current token s'.transfers ≡ net e.current token s.transfers +ℤ n
  unfolding move_tokens net
  move_tokens-net_in from ne on h = grind int_laws

  move_tokens-net_out :
      (to : Address)
      → to ≢ e.current
      → PaysIn x token s
      → move_tokens e x e.current to n s ≡ ok s'
      → net e.current token s'.transfers ≡ net e.current token s.transfers -ℤ n
  unfolding move_tokens net
  move_tokens-net_out to ne on h = grind int_laws

module _ (e : Env) (op user : Address) (x : Symbol) (token : Address) (n : ℤ) (s : Vault)
    {s' : Vault} (ne : user ≢ e.current) (on : PaysIn x token s) where
  deposit-net :
      deposit e op user x n s ≡ ok s'
      → net e.current token s'.transfers ≡ net e.current token s.transfers +ℤ n
  unfolding deposit
  deposit-net h = grind (arith, move_tokens-net_in)

  withdraw-net :
      withdraw e op user x n s ≡ ok s'
      → net e.current token s'.transfers ≡ net e.current token s.transfers -ℤ n
  unfolding withdraw
  withdraw-net h = grind (arith, move_tokens-net_out)

  -- With transfers on, a deposit brings in as many tokens as it books, for the user and in total.
  pub deposit_backed :
      deposit e op user x n s ≡ ok s'
      → (net e.current token s'.transfers ≡ net e.current token s.transfers +ℤ n)
        × (total_by_asset x s' ≡ total_by_asset x s +ℤ n)
        × (position user x s' ≡ position user x s +ℤ n)
  unfolding total_by_asset position
  deposit_backed h =
      let (p, t, _, _) = deposit-effect e op user x n s h in
      (deposit-net h, rw (t, lookup-insert_self), rw (p, lookup-insert_self))

  -- With transfers on, a withdrawal pays out as many tokens as it takes off the books.
  withdraw_backed :
      withdraw e op user x n s ≡ ok s'
      → (net e.current token s'.transfers ≡ net e.current token s.transfers -ℤ n)
        × (total_by_asset x s' ≡ total_by_asset x s -ℤ n)
        × (position user x s' ≡ position user x s -ℤ n)
  unfolding total_by_asset position
  withdraw_backed h =
      let (p, t, _, _, _) = withdraw-effect e op user x n s h in
      (withdraw-net h, rw (t, lookup-insert_self), rw (p, lookup-insert_self))
