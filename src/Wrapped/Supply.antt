-- ===== src/Wrapped/Supply.antt =====
-- The supply of the wrapped token is what the accounts hold, through every history of calls.
use de_fi_lending_stellar_pa.Prelude.{
  ◌≡◌, refl, sym, Bool, true, none, some, List, [], arith, nat_equality, ◌∙◌,
}
use de_fi_lending_stellar_pa.Int.{ℤ, pos, ◌+ℤ◌, ◌-ℤ◌, ◌≤ℤ◌, int_laws}
use de_fi_lending_stellar_pa.Map.{Map, lookup, insert, lookup-insert_self}
use de_fi_lending_stellar_pa.Map.Sum.{
  amount_at, or_zero, sum_where, NonNegative, sum_where-insert, insert-NonNegative,
  amount_at_nonneg, amount_at-le-sum_where,
}
use de_fi_lending_stellar_pa.Soroban.{Address, Result, ok, Env, authorized, run, run_invariant}
use de_fi_lending_stellar_pa.Wrapped.{
  TokenMetadata, Token, deployed, initialize, mint, burn, set_minter, set_underlying_token, balance,
  total_supply,
}

abbrev pub any_account : Address → Bool
any_account _ = true

pub record IsSound (s : Token) : Type 0 where
  pub supplied : sum_where any_account s.balances ≡ or_zero s.total_supply
  pub non_negative : NonNegative s.balances
  -- Before the initialisation, which sets the supply to 0, nobody can mint.
  pub unopened : s.admin ≡ none → (s.minter ≡ none) × (s.balances ≡ [])

module _ (k : Address) (n : ℤ) (m : Map Address ℤ) where
  sum-add : sum_where any_account (insert k (amount_at k m +ℤ n) m) ≡ sum_where any_account m +ℤ n
  sum-add = grind (int_laws, sum_where-insert any_account k (amount_at k m +ℤ n) m)

  sum-sub : sum_where any_account (insert k (amount_at k m -ℤ n) m) ≡ sum_where any_account m -ℤ n
  sum-sub = grind (int_laws, sum_where-insert any_account k (amount_at k m -ℤ n) m)

module _ (e : Env) (k : Address) (n : ℤ) (s : Token) {s' : Token} where
  -- Minting takes the minter's authorisation, and credits one account and the supply.
  pub mint-effect :
      mint e k n s ≡ ok s'
      → (s'.balances ≡ insert k (amount_at k s.balances +ℤ n) s.balances)
        × (or_zero s'.total_supply ≡ or_zero s.total_supply +ℤ n)
        × (pos 1 ≤ℤ n)
        × ((a : Address) × (s.minter ≡ some a) × (authorized e a ≡ true))
        × (s'.admin ≡ s.admin)
        × (s'.minter ≡ s.minter)
  unfolding mint
  mint-effect h = ground arith

  pub burn-effect :
      burn e k n s ≡ ok s'
      → (s'.balances ≡ insert k (amount_at k s.balances -ℤ n) s.balances)
        × (or_zero s'.total_supply ≡ or_zero s.total_supply -ℤ n)
        × (pos 1 ≤ℤ n)
        × (n ≤ℤ amount_at k s.balances)
        × (authorized e k ≡ true)
        × (s'.admin ≡ s.admin)
        × (s'.minter ≡ s.minter)
  unfolding burn
  burn-effect h = ground arith

  pub mint-IsSound : IsSound s → mint e k n s ≡ ok s' → IsSound s'
  mint-IsSound v h =
      let (b, t, n1, (a, em, _), ea, emm) = mint-effect h in
      record {
        supplied = rw (b, t) (rw (sum-add k n s.balances) (rw v.supplied));
        non_negative = rw b (
            insert-NonNegative k _ s.balances v.non_negative
              (omega (int_laws, amount_at_nonneg k s.balances v.non_negative)));
        unopened = λ closed. absurd (ground (arith, v.unopened (rw ea at closed)));
      }

  pub burn-IsSound : IsSound s → burn e k n s ≡ ok s' → IsSound s'
  burn-IsSound v h =
      let (b, t, n1, enough, _, ea, emm) = burn-effect h in
      record {
        supplied = rw (b, t) (rw (sum-sub k n s.balances) (rw v.supplied));
        non_negative = rw b (insert-NonNegative k _ s.balances v.non_negative (omega int_laws));
        unopened = λ closed. absurd (empty_burn (v.unopened (rw ea at closed)).1 n1 enough);
      }
    where
      empty_burn : s.balances ≡ [] → pos 1 ≤ℤ n → n ≤ℤ amount_at k s.balances → ⊥
      empty_burn nil n1 enough =
          let few : n ≤ℤ pos 0 = unfold lookup in rw nil at enough in omega arith

module _ (e : Env) (s : Token) {s' : Token} where
  pub initialize-IsSound :
      (admin minter : Address) (m : TokenMetadata)
      → IsSound s
      → initialize e admin minter m s ≡ ok s'
      → IsSound s'
  unfolding initialize
  initialize-IsSound admin minter m v h =
      let closed : s.admin ≡ none = ground arith in
      let empty = (v.unopened closed).1 in
      let same : s'.balances ≡ s.balances = ground arith in
      record {
        supplied = rw (same, empty) (unfold sum_where in ground arith);
        non_negative = rw same v.non_negative;
        unopened = λ closed. absurd (ground arith);
      }

  pub set_minter-IsSound : (a : Address) → IsSound s → set_minter e a s ≡ ok s' → IsSound s'
  unfolding set_minter
  set_minter-IsSound a v h =
      let same : s'.balances ≡ s.balances = ground arith in
      record {
        supplied = rw same (v.supplied ∙ ground arith);
        non_negative = rw same v.non_negative;
        unopened = λ closed. absurd (ground arith);
      }

  pub set_underlying_token-IsSound :
      (a : Address) → IsSound s → set_underlying_token e a s ≡ ok s' → IsSound s'
  unfolding set_underlying_token
  set_underlying_token-IsSound a v h =
      let same : s'.balances ≡ s.balances = ground arith in
      record {
        supplied = rw same (v.supplied ∙ ground arith);
        non_negative = rw same v.non_negative;
        unopened = λ closed. absurd (ground arith);
      }

-- Before the initialisation there is no supply.
pub closed_supply : (s : Token) → IsSound s → s.admin ≡ none → or_zero s.total_supply ≡ pos 0
unfolding sum_where
closed_supply s v closed = rw ((v.unopened closed).1) at (sym v.supplied)

-- The entry points that change the storage.
pub data Op : Type 0 where
  initialize_op : Address → Address → TokenMetadata → Op
  mint_op burn_op : Address → ℤ → Op
  set_minter_op set_underlying_token_op : Address → Op

unfoldable pub invoke : Env → Op → Token → Result Token
invoke e (initialize_op admin minter m) s = initialize e admin minter m s
invoke e (mint_op to n) s = mint e to n s
invoke e (burn_op from n) s = burn e from n s
invoke e (set_minter_op a) s = set_minter e a s
invoke e (set_underlying_token_op a) s = set_underlying_token e a s

invoke-IsSound : (e : Env) (op : Op) (s s' : Token) → IsSound s → invoke e op s ≡ ok s' → IsSound s'
unfolding invoke
invoke-IsSound e (initialize_op a m d) s s' v h = initialize-IsSound e s a m d v h
invoke-IsSound e (mint_op k n) s s' v h = mint-IsSound e k n s v h
invoke-IsSound e (burn_op k n) s s' v h = burn-IsSound e k n s v h
invoke-IsSound e (set_minter_op a) s s' v h = set_minter-IsSound e s a v h
invoke-IsSound e (set_underlying_token_op a) s s' v h = set_underlying_token-IsSound e s a v h

deployed-IsSound : IsSound deployed
unfolding sum_where
deployed-IsSound = record { supplied = refl; non_negative = tt; unopened = λ _. (refl, refl) }

-- However the wrapped token is called after its deployment, its total supply is the sum of all
-- balances, no balance is negative, and no account holds more than the supply.
pub history_supply :
    (calls : List (Env × Op)) (owner : Address)
    → let s = run invoke calls deployed in
      (sum_where any_account s.balances ≡ total_supply s)
      × (pos 0 ≤ℤ balance owner s)
      × (balance owner s ≤ℤ total_supply s)
unfolding balance total_supply
history_supply calls owner =
    let s = run invoke calls deployed in
    let v : IsSound s =
      run_invariant invoke IsSound invoke-IsSound calls deployed deployed-IsSound in
    (
      v.supplied,
      amount_at_nonneg owner s.balances v.non_negative,
      rw (v.supplied) at (amount_at-le-sum_where any_account owner s.balances v.non_negative refl),
    )

-- After a mint and a burn of the same amount the account and the supply are what they were.
burn-mint :
    (e e' : Env) (k : Address) (n : ℤ) (s : Token) {s' s'' : Token}
    → mint e k n s ≡ ok s'
    → burn e' k n s' ≡ ok s''
    → (balance k s'' ≡ balance k s) × (total_supply s'' ≡ total_supply s)
unfolding balance total_supply
burn-mint e e' k n s {s'} h h' =
    let (b, t, _, _, _, _) = mint-effect e k n s h in
    let (b', t', _, _, _, _, _) = burn-effect e' k n s' h' in
    (
      rw (b', lookup-insert_self, b, lookup-insert_self) (omega int_laws),
      rw (t', t) (omega int_laws),
    )
