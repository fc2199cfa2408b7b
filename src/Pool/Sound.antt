-- ===== src/Pool/Sound.antt =====
-- The invariant of the pool, over shares, principals and indices, and the calls that supply and
-- withdraw against it.
use de_fi_lending_stellar_pa.Prelude.{◌≡◌, some, arith, nat_equality, pair_equality, inl, inr}
use de_fi_lending_stellar_pa.Int.{ℤ, pos, max_ℤ, ◌+ℤ◌, ◌*ℤ◌, ◌≤ℤ◌, int_laws}
use de_fi_lending_stellar_pa.Int.Product.{*ℤ_nonneg, quot_nonneg}
use de_fi_lending_stellar_pa.Map.{Map, lookup, insert, lookup-insert}
use de_fi_lending_stellar_pa.Map.Sum.{NonNegative, insert-NonNegative, amount_at_nonneg}
use de_fi_lending_stellar_pa.Soroban.{Address, Symbol, ok, Env, Result-cases, unwrap_or}
use de_fi_lending_stellar_pa.Pool.State.{
  Pool, BorrowerSnapshot, move_tokens, total_deposit, deposit_shares_total, borrow_index,
  index_scale, virtual_shares, virtual_deposit,
}
use de_fi_lending_stellar_pa.Pool.Interest.{accrue_interest}
use de_fi_lending_stellar_pa.Pool.Supply.{shares_for, amount_for, supply, withdraw}
use de_fi_lending_stellar_pa.Pool.Effects.{
  accrue_interest-SameBooks, move_tokens-SameBooks, move_tokens-index, supply-effect,
  withdraw-effect,
}
use de_fi_lending_stellar_pa.Pool.Accrual.{accrue_interest-cases}

-- No principal is negative.
abbrev pub IsOwing : Map (Address × Symbol) BorrowerSnapshot → Type 0
IsOwing m =
    (k : Address × Symbol) (snap : BorrowerSnapshot)
    → lookup k m ≡ some snap
    → pos 0 ≤ℤ snap.principal

-- No index is below its scale.
abbrev pub IsGrown : Map Symbol ℤ → Type 0
IsGrown m = (x : Symbol) → index_scale ≤ℤ unwrap_or (lookup x m) index_scale

pub record IsSound (s : Pool) : Type 0 where
  pub shares : NonNegative s.deposit_shares
  pub minted : NonNegative s.total_deposit_shares
  pub loans : IsOwing s.borrowers
  pub indices : IsGrown s.borrow_indices

pub insert-IsOwing :
    (k : Address × Symbol) (snap : BorrowerSnapshot) (m : Map (Address × Symbol) BorrowerSnapshot)
    → IsOwing m
    → pos 0 ≤ℤ snap.principal
    → IsOwing (insert k snap m)
insert-IsOwing k snap m v p j other h = ground (arith, lookup-insert k j snap m, v j other)

pub insert-IsGrown :
    (x : Symbol) (i : ℤ) (m : Map Symbol ℤ) → IsGrown m → index_scale ≤ℤ i → IsGrown (insert x i m)
insert-IsGrown x i m v p y = ground (arith, lookup-insert x y i m, v y)

pub accrue_interest-IsGrown :
    (e : Env) (x : Symbol) (s : Pool) {a : Pool}
    → accrue_interest e x s ≡ ok a
    → IsGrown s.borrow_indices
    → IsGrown a.borrow_indices
unfolding borrow_index
accrue_interest-IsGrown e x s h v = elim (accrue_interest-cases e x s h) [
  | inl same ↦ rw same v
  | inr (delta, d0, index, _) ↦
      rw index (insert-IsGrown x _ s.borrow_indices v (omega (int_laws, v x)))
]

shares_for_nonneg :
    (n total deposits : ℤ) {m : ℤ}
    → shares_for n total deposits ≡ ok m
    → pos 1 ≤ℤ n
    → pos 0 ≤ℤ total
    → pos 0 ≤ℤ m
unfolding shares_for
shares_for_nonneg n total deposits h n1 t0 =
    let scaled = *ℤ_nonneg n (total +ℤ virtual_shares) (omega int_laws) (omega int_laws) in
    let q =
      quot_nonneg (n *ℤ (total +ℤ virtual_shares)) (max_ℤ (deposits +ℤ virtual_deposit) (pos 1))
        scaled (ground arith) in
    ground arith

module _ (e : Env) (user : Address) (x : Symbol) (n : ℤ) (s : Pool) {s' : Pool} {m : ℤ} where
  supply-loans :
      supply e user x n s ≡ ok (s', m)
      → (a : Pool) × (accrue_interest e x s ≡ ok a)
        × (s'.borrowers ≡ s.borrowers)
        × (s'.borrow_indices ≡ a.borrow_indices)
  unfolding supply
  supply-loans h = elim (Result-cases (accrue_interest e x s)) [
    | inr (_, failed) ↦ absurd (ground arith)
    | inl (a, accrued) ↦ elim (Result-cases (move_tokens e x user e.current n a)) [
      | inr (_, failed) ↦ absurd (ground arith)
      | inl (t, moved) ↦
          let b = accrue_interest-SameBooks e x s accrued in
          let c = move_tokens-SameBooks e x user e.current n a moved in
          let i = move_tokens-index e x user e.current n a moved in
          (a, accrued, ground arith, ground arith)
    ]
  ]

  withdraw-loans :
      withdraw e user x n s ≡ ok (s', m)
      → (a : Pool) × (accrue_interest e x s ≡ ok a)
        × (s'.borrowers ≡ s.borrowers)
        × (s'.borrow_indices ≡ a.borrow_indices)
  unfolding withdraw
  withdraw-loans h = elim (Result-cases (accrue_interest e x s)) [
    | inr (_, failed) ↦ absurd (ground arith)
    | inl (a, accrued) ↦
        let b = accrue_interest-SameBooks e x s accrued in
        elim (Result-cases (amount_for n (deposit_shares_total x a) (total_deposit x a))) [
          | inr (_, failed) ↦ absurd (ground arith)
          | inl (paid, priced) ↦ elim (Result-cases (move_tokens e x e.current user paid a)) [
            | inr (_, failed) ↦ absurd (ground arith)
            | inl (t, moved) ↦
                let c = move_tokens-SameBooks e x e.current user paid a moved in
                let i = move_tokens-index e x e.current user paid a moved in
                (a, accrued, ground arith, ground arith)
          ]
        ]
  ]

  pub supply-IsSound : IsSound s → supply e user x n s ≡ ok (s', m) → IsSound s'
  unfolding deposit_shares_total
  supply-IsSound v h =
      let (priced, own, total, _, n1) = supply-effect e user x n s h in
      let (a, accrued, borrowers, indices) = supply-loans h in
      let t0 = amount_at_nonneg x s.total_deposit_shares v.minted in
      let o0 = amount_at_nonneg (user, x) s.deposit_shares v.shares in
      let m0 = shares_for_nonneg n _ _ priced n1 t0 in
      record {
        shares = rw own (insert-NonNegative (user, x) _ s.deposit_shares v.shares (omega int_laws));
        minted = rw total (insert-NonNegative x _ s.total_deposit_shares v.minted (omega int_laws));
        loans = rw borrowers v.loans;
        indices = rw indices (accrue_interest-IsGrown e x s accrued v.indices);
      }

  pub withdraw-IsSound : IsSound s → withdraw e user x n s ≡ ok (s', m) → IsSound s'
  withdraw-IsSound v h =
      let (_, own, total, _, n1, enough) = withdraw-effect e user x n s h in
      let (a, accrued, borrowers, indices) = withdraw-loans h in
      record {
        shares = rw own (insert-NonNegative (user, x) _ s.deposit_shares v.shares (omega int_laws));
        minted = rw total v.minted;
        loans = rw borrowers v.loans;
        indices = rw indices (accrue_interest-IsGrown e x s accrued v.indices);
      }
