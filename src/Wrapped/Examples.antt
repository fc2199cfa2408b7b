-- ===== src/Wrapped/Examples.antt =====
-- Runs of the wrapped token, and its theorems at concrete inputs.
use de_fi_lending_stellar_pa.Prelude.{◌≡◌, refl, true, none, some, List, [], ◌∷◌, nat_equality}
use de_fi_lending_stellar_pa.Int.{pos, ◌+ℤ◌, ◌-ℤ◌, ◌≤ℤ◌}
use de_fi_lending_stellar_pa.Map.{lookup, insert}
use de_fi_lending_stellar_pa.Map.Sum.{sum_where}
use de_fi_lending_stellar_pa.Soroban.{ok, err, Env, in_i128, run, insufficient_balance}
use de_fi_lending_stellar_pa.Wrapped.{
  TokenMetadata, Token, deployed, mint, burn, balance, total_supply, mint_event, burn_event,
}
use de_fi_lending_stellar_pa.Wrapped.Supply.{
  any_account, Op, initialize_op, mint_op, burn_op, set_minter_op, invoke, history_supply,
}

abbrev env : Env
env = record {
  signers = λ a. true;
  invoker = none;
  current = 7;
  sequence = 100;
  timestamp = 500;
  token_accepts = λ before t. true;
}

abbrev described : TokenMetadata
described = record {
  name = "Wrapped";
  symbol = "W";
  decimals = 7;
  origin_chain = "ethereum";
  origin_address = "0x0";
}

abbrev opened : Token
opened = record deployed {
  admin = some 1;
  minter = some 2;
  metadata = some described;
  total_supply = some (pos 0);
}

abbrev minted : Token
minted = record opened {
  balances = (5, pos 40) ∷ [];
  total_supply = some (pos 40);
  events = mint_event 5 (pos 40) ∷ [];
}

mint_runs : mint env 5 (pos 40) opened ≡ ok minted
unfolding mint lookup insert in_i128 ◌+ℤ◌
mint_runs = refl

abbrev burned : Token
burned = record minted {
  balances = (5, pos 0) ∷ [];
  total_supply = some (pos 0);
  events = burn_event 5 (pos 40) ∷ mint_event 5 (pos 40) ∷ [];
}

burn_runs : burn env 5 (pos 40) minted ≡ ok burned
unfolding burn lookup insert in_i128 ◌-ℤ◌
burn_runs = refl

burn_too_much : burn env 5 (pos 41) minted ≡ err insufficient_balance
unfolding burn lookup
burn_too_much = refl

abbrev calls : List (Env × Op)
calls =
    (env, mint_op 5 (pos 1))
    ∷ (env, initialize_op 1 2 described)
    ∷ (env, mint_op 5 (pos 40))
    ∷ (env, burn_op 5 (pos 99))
    ∷ (env, set_minter_op 3)
    ∷ []

history_supply_example :
    let s = run invoke calls deployed in
    (sum_where any_account s.balances ≡ total_supply s)
    × (pos 0 ≤ℤ balance 5 s)
    × (balance 5 s ≤ℤ total_supply s)
history_supply_example = history_supply calls 5
