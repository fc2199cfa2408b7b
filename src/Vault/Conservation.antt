-- ===== src/Vault/Conservation.antt =====
-- The vault's books: the positions of an asset add up to its recorded total, and none is negative.
use de_fi_lending_stellar_pa.Prelude.{◌≡◌, nat_equality, pair_equality, ◌∙◌}
use de_fi_lending_stellar_pa.Int.{ℤ, pos, ◌+ℤ◌, ◌-ℤ◌, ◌≤ℤ◌, int_laws}
use de_fi_lending_stellar_pa.Map.{Map, insert, lookup-insert}
use de_fi_lending_stellar_pa.Map.Sum.{
  amount_at, in_asset, sum_where, NonNegative, sum_where-insert, insert-NonNegative,
  amount_at_nonneg,
}
use de_fi_lending_stellar_pa.Soroban.{Address, Symbol, ok, Env}
use de_fi_lending_stellar_pa.Vault.{Vault, deposit, withdraw, seize}
use de_fi_lending_stellar_pa.Vault.Effects.{seized, deposit-effect, withdraw-effect, seize-effect}

-- What the positions in an asset add up to.
abbrev pub held_in : Symbol → Vault → ℤ
held_in a s = sum_where (in_asset a) s.positions

pub record IsSound (s : Vault) : Type 0 where
  pub balanced : (a : Symbol) → held_in a s ≡ amount_at a s.totals
  pub non_negative : NonNegative s.positions

module _ (a : Symbol) (k : Address × Symbol) (n : ℤ) (p : Map (Address × Symbol) ℤ)
    (t : Map Symbol ℤ) where
  -- Both books move by the same amount.
  pub books-add :
      sum_where (in_asset a) p ≡ amount_at a t
      → sum_where (in_asset a) (insert k (amount_at k p +ℤ n) p)
        ≡ amount_at a (insert k.1 (amount_at k.1 t +ℤ n) t)
  books-add h = grind (
    int_laws,
    sum_where-insert (in_asset a) k (amount_at k p +ℤ n) p,
    lookup-insert k.1 a (amount_at k.1 t +ℤ n) t,
  )

  pub books-sub :
      sum_where (in_asset a) p ≡ amount_at a t
      → sum_where (in_asset a) (insert k (amount_at k p -ℤ n) p)
        ≡ amount_at a (insert k.1 (amount_at k.1 t -ℤ n) t)
  books-sub h = grind (
    int_laws,
    sum_where-insert (in_asset a) k (amount_at k p -ℤ n) p,
    lookup-insert k.1 a (amount_at k.1 t -ℤ n) t,
  )

-- A seizure moves an amount between two positions in one asset, also if they are the same one.
pub sum-seized :
    (a : Symbol) (from to : Address) (x : Symbol) (n : ℤ) (p : Map (Address × Symbol) ℤ)
    → sum_where (in_asset a) (seized from to x n p) ≡ sum_where (in_asset a) p
sum-seized a from to x n p =
    let taken = insert (from, x) (amount_at (from, x) p -ℤ n) p in
    grind (
      int_laws,
      sum_where-insert (in_asset a) (from, x) (amount_at (from, x) p -ℤ n) p,
      sum_where-insert (in_asset a) (to, x) (amount_at (to, x) taken +ℤ n) taken,
    )

seized-NonNegative :
    (from to : Address) (x : Symbol) (n : ℤ) (p : Map (Address × Symbol) ℤ)
    → NonNegative p
    → pos 1 ≤ℤ n
    → n ≤ℤ amount_at (from, x) p
    → NonNegative (seized from to x n p)
seized-NonNegative from to x n p h n1 enough =
    let left = amount_at (from, x) p -ℤ n in
    let taken = insert (from, x) left p in
    let h' = insert-NonNegative (from, x) left p h (omega int_laws) in
    insert-NonNegative (to, x) (amount_at (to, x) taken +ℤ n) taken h'
      (omega (int_laws, amount_at_nonneg (to, x) taken h'))

module _ (e : Env) (op user : Address) (x : Symbol) (n : ℤ) (s : Vault) {s' : Vault} where
  pub deposit-IsSound : IsSound s → deposit e op user x n s ≡ ok s' → IsSound s'
  deposit-IsSound v h =
      let (p, t, n1, _) = deposit-effect e op user x n s h in
      record {
        balanced = λ a. rw (p, t) (books-add a (user, x) n s.positions s.totals (v.balanced a));
        non_negative = rw p (
            insert-NonNegative (user, x) _ s.positions v.non_negative
              (omega (int_laws, amount_at_nonneg (user, x) s.positions v.non_negative)));
      }

  pub withdraw-IsSound : IsSound s → withdraw e op user x n s ≡ ok s' → IsSound s'
  withdraw-IsSound v h =
      let (p, t, n1, enough, _) = withdraw-effect e op user x n s h in
      record {
        balanced = λ a. rw (p, t) (books-sub a (user, x) n s.positions s.totals (v.balanced a));
        non_negative =
            rw p (insert-NonNegative (user, x) _ s.positions v.non_negative (omega int_laws));
      }

module _ (e : Env) (op from to : Address) (x : Symbol) (n : ℤ) (s : Vault) {s' : Vault} where
  pub seize-IsSound : IsSound s → seize e op from to x n s ≡ ok s' → IsSound s'
  seize-IsSound v h =
      let (p, t, n1, enough, _) = seize-effect e op from to x n s h in
      record {
        balanced = λ a. rw (p, t) (sum-seized a from to x n s.positions ∙ v.balanced a);
        non_negative = rw p (seized-NonNegative from to x n s.positions v.non_negative n1 enough);
      }
