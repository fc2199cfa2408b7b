-- ===== src/Liquidation/Settlement.antt =====
-- What a liquidation has moved in the pool and in the vault when it is done.
use de_fi_lending_stellar_pa.Prelude.{
  ◌≡◌, ◌≢◌, refl, true, some, arith, inl, inr, sym, nat_equality, pair_equality, Bool-cases,
  Option-cases,
}
use de_fi_lending_stellar_pa.Int.{ℤ, pos, ◌+ℤ◌, ◌-ℤ◌, ◌≤ℤ◌, ltb_ℤ, int_laws}
use de_fi_lending_stellar_pa.Map.{lookup, insert, lookup-insert_self}
use de_fi_lending_stellar_pa.Soroban.{
  Address, Symbol, ok, Env, enter, >>=-eq-ok, Result-cases, authorized,
}
use de_fi_lending_stellar_pa.Vault.{Vault, position, seize}
use de_fi_lending_stellar_pa.Vault.Access.{seize_moves_exactly}
use de_fi_lending_stellar_pa.Pool.State.{Pool}
use de_fi_lending_stellar_pa.Pool.Borrow.{repay_on_behalf}
use de_fi_lending_stellar_pa.Liquidation.{
  LiquidationConfig, World, Seizure, treasury, pool_repay_on_behalf, vault_seize, vault_position,
  assess, seize_fee, settle, liquidate, config,
}
use de_fi_lending_stellar_pa.Liquidation.Assessment.{IsDue, assess-IsDue}

-- A liquidation that goes through is signed by the liquidator, found due, and settled.
pub liquidate-steps :
    (e : Env) (liquidator borrower : Address) (d c : Symbol) (n : ℤ) (w : World)
    (cfg : LiquidationConfig) {w' : World} {got : ℤ}
    → config w.engine ≡ ok cfg
    → liquidate e liquidator borrower d c n w ≡ ok (w', got)
    → (z : Seizure) × (authorized e liquidator ≡ true)
      × (got ≡ z.seize_amount)
      × IsDue e cfg borrower d c n w z
      × (settle e cfg liquidator borrower d c n z w ≡ ok w')
unfolding liquidate
liquidate-steps e liquidator borrower d c n w cfg {w'} {got} configured h =
    elim (Result-cases (assess e cfg borrower d c n w)) [
      | inr (_, failed) ↦ absurd (ground arith)
      | inl (z, found) ↦ elim (Result-cases (settle e cfg liquidator borrower d c n z w)) [
        | inr (_, failed) ↦ absurd (ground arith)
        | inl (t, settled) ↦
            let n1 : pos 1 ≤ℤ n = ground arith in
            let same : t ≡ w' = ground arith in
            (
              z,
              ground arith,
              ground arith,
              assess-IsDue e cfg borrower d c n w z found n1,
              ground arith,
            )
      ]
    ]

-- Whatever a contract call does, the vaults stay while the pool is called, and the other way round.
pool_repay_on_behalf-effect :
    (e : Env) (pool payer borrower : Address) (d : Symbol) (n : ℤ) (w : World) {w' : World}
    → pool_repay_on_behalf e pool payer borrower d n w ≡ ok w'
    → (p : Pool) × (p' : Pool) × (m : ℤ) × (lookup pool w.pools ≡ some p)
      × (repay_on_behalf (enter e pool) e.current payer borrower d n p ≡ ok (p', m))
      × (lookup pool w'.pools ≡ some p')
      × (w'.vaults ≡ w.vaults)
      × (w'.engine ≡ w.engine)
unfolding pool_repay_on_behalf
pool_repay_on_behalf-effect e pool payer borrower d n w {w'} h =
    elim (Option-cases (lookup pool w.pools)) [
      | inl missing ↦ absurd (ground arith)
      | inr (p, found) ↦
          elim (Result-cases (repay_on_behalf (enter e pool) e.current payer borrower d n p)) [
            | inr (_, failed) ↦ absurd (ground arith)
            | inl ((p', m), done) ↦
                let stored : w'.pools ≡ insert pool p' w.pools = ground arith in
                (
                  p,
                  p',
                  m,
                  found,
                  done,
                  rw (stored, lookup-insert_self) refl,
                  ground arith,
                  ground arith,
                )
          ]
    ]

vault_seize-effect :
    (e : Env) (vault from to : Address) (c : Symbol) (n : ℤ) (w : World) {w' : World}
    → vault_seize e vault from to c n w ≡ ok w'
    → (v : Vault) × (v' : Vault) × (lookup vault w.vaults ≡ some v)
      × (seize (enter e vault) e.current from to c n v ≡ ok v')
      × (lookup vault w'.vaults ≡ some v')
      × (w'.pools ≡ w.pools)
      × (w'.engine ≡ w.engine)
unfolding vault_seize
vault_seize-effect e vault from to c n w {w'} h = elim (Option-cases (lookup vault w.vaults)) [
  | inl missing ↦ absurd (ground arith)
  | inr (v, found) ↦ elim (Result-cases (seize (enter e vault) e.current from to c n v)) [
    | inr (_, failed) ↦ absurd (ground arith)
    | inl (v', done) ↦
        let stored : w'.vaults ≡ insert vault v' w.vaults = ground arith in
        (v, v', found, done, rw (stored, lookup-insert_self) refl, ground arith, ground arith)
  ]
]

settle-steps :
    (e : Env) (cfg : LiquidationConfig) (liquidator borrower : Address) (d c : Symbol) (n : ℤ)
    (z : Seizure) (w : World) {w' : World}
    → settle e cfg liquidator borrower d c n z w ≡ ok w'
    → (w1 : World) × (w2 : World) × (pool_repay_on_behalf e cfg.pool liquidator borrower d n w
        ≡ ok w1)
      × (vault_seize e cfg.vault borrower liquidator c z.seize_amount w1 ≡ ok w2)
      × (seize_fee e cfg borrower c z.fee_units w2 ≡ ok w')
unfolding settle
settle-steps e cfg liquidator borrower d c n z w h =
    let (w1, h1, k1) = >>=-eq-ok (pool_repay_on_behalf e cfg.pool liquidator borrower d n w) _ h in
    let (w2, h2, k2) =
      >>=-eq-ok (vault_seize e cfg.vault borrower liquidator c z.seize_amount w1) _ k1 in
    (w1, w2, h1, h2, k2)

module _ (e : Env) (cfg : LiquidationConfig) (liquidator borrower t : Address) (c : Symbol)
    (b_l : borrower ≢ liquidator) (b_t : borrower ≢ t) (l_t : liquidator ≢ t) where
  -- The treasury's part, whether or not there is a fee.
  seize_fee-moves :
      (fee : ℤ) (v2 : Vault) (w2 : World) {w' : World}
      → lookup cfg.vault w2.vaults ≡ some v2
      → treasury w2.engine ≡ ok t
      → pos 0 ≤ℤ fee
      → seize_fee e cfg borrower c fee w2 ≡ ok w'
      → (v3 : Vault) × (lookup cfg.vault w'.vaults ≡ some v3)
        × (position borrower c v3 ≡ position borrower c v2 -ℤ fee)
        × (position liquidator c v3 ≡ position liquidator c v2)
        × (position t c v3 ≡ position t c v2 +ℤ fee)
        × (w'.pools ≡ w2.pools)
  unfolding seize_fee
  seize_fee-moves fee v2 w2 {w'} found paid_to fee0 h = elim (Bool-cases (ltb_ℤ (pos 0) fee)) [
    | inr none_due ↦
        let same : w' ≡ w2 = ground arith in
        (
          v2,
          rw same found,
          grind (int_laws, fee0, none_due),
          refl,
          grind (int_laws, fee0, none_due),
          rw same refl,
        )
    | inl due ↦
        let h' : vault_seize e cfg.vault borrower t c fee w2 ≡ ok w' = ground arith in
        let (v, v3, here, done, after, ep, _) =
          vault_seize-effect e cfg.vault borrower t c fee w2 h' in
        let same : v ≡ v2 = ground arith in
        let (_, _, pb, pt, pl) =
          seize_moves_exactly (enter e cfg.vault) e.current borrower t c fee v liquidator c b_t
            (λ q. b_l (sym q)) l_t done in
        (v3, after, rw same at pb, rw same at pl, rw same at pt, ep)
  ]

  -- A liquidation that goes through, for three different accounts, takes from the borrower's position
  -- in the vault exactly what the liquidator gets and the treasury's fee, which the position covers,
  -- and books it to these two.
  pub liquidation_settles :
      (d : Symbol) (n : ℤ) (w : World) {w' : World} {got : ℤ}
      → config w.engine ≡ ok cfg
      → treasury w.engine ≡ ok t
      → liquidate e liquidator borrower d c n w ≡ ok (w', got)
      → (v : Vault) × (v' : Vault) × (fee : ℤ) × (lookup cfg.vault w.vaults ≡ some v)
        × (lookup cfg.vault w'.vaults ≡ some v')
        × (pos 1 ≤ℤ got)
        × (pos 0 ≤ℤ fee)
        × (got +ℤ fee ≤ℤ position borrower c v)
        × (position borrower c v' ≡ position borrower c v -ℤ (got +ℤ fee))
        × (position liquidator c v' ≡ position liquidator c v +ℤ got)
        × (position t c v' ≡ position t c v +ℤ fee)
  liquidation_settles d n w {w'} {got} configured paid_to h =
      let (z, _, eg, due, st) = liquidate-steps e liquidator borrower d c n w cfg configured h in
      let (w1, w2, h1, h2, h3) = settle-steps e cfg liquidator borrower d c n z w st in
      let (p, p', m, _, _, _, ev, ee) =
        pool_repay_on_behalf-effect e cfg.pool liquidator borrower d n w h1 in
      let (v, v2, found, done, after, _, ee') =
        vault_seize-effect e cfg.vault borrower liquidator c z.seize_amount w1 h2 in
      let (_, _, pb, pl, pt) =
        seize_moves_exactly (enter e cfg.vault) e.current borrower liquidator c z.seize_amount v t c
          b_l (λ q. b_t (sym q)) (λ q. l_t (sym q)) done in
      let treasury_same : treasury w2.engine ≡ ok t = rw (ee', ee) paid_to in
      let (v3, after', qb, ql, qt, _) =
        seize_fee-moves z.fee_units v2 w2 after treasury_same due.fee_nonneg h3 in
      let before : lookup cfg.vault w.vaults ≡ some v = rw ev at found in
      let held_same : position borrower c v ≡ due.held =
        unfold vault_position in ground (arith, due.held_read) in
      (
        v,
        v3,
        z.fee_units,
        before,
        after',
        rw eg due.positive,
        due.fee_nonneg,
        rw (eg, due.splits, held_same) due.covered,
        rw (eg, qb, pb) (grind int_laws),
        rw (eg, ql, pl) refl,
        rw (qt, pt) refl,
      )

-- The fee's seizure leaves the pools alone.
seize_fee-pools :
    (e : Env) (cfg : LiquidationConfig) (borrower : Address) (c : Symbol) (fee : ℤ) (w : World)
    {w' : World}
    → seize_fee e cfg borrower c fee w ≡ ok w'
    → w'.pools ≡ w.pools
unfolding seize_fee
seize_fee-pools e cfg borrower c fee w {w'} h = elim (Bool-cases (ltb_ℤ (pos 0) fee)) [
  | inr none_due ↦ let same : w' ≡ w = ground arith in rw same refl
  | inl due ↦ elim (Result-cases (treasury w.engine)) [
    | inr (_, failed) ↦ absurd (ground arith)
    | inl (t, paid_to) ↦
        let done : vault_seize e cfg.vault borrower t c fee w ≡ ok w' = ground arith in
        let (_, _, _, _, _, same, _) = vault_seize-effect e cfg.vault borrower t c fee w done in
        same
  ]
]

-- A liquidation that goes through is signed by the liquidator and due: the debt's value exceeds the
-- effective loan-to-value share of the collateral's value, and the repayment is within the close
-- factor. In the end the pool is what a repayment of the amount on the borrower's behalf, through the
-- engine as the operator, makes of it.
pub liquidate-IsDue :
    (e : Env) (liquidator borrower : Address) (d c : Symbol) (n : ℤ) (w : World)
    (cfg : LiquidationConfig) {w' : World} {got : ℤ}
    → config w.engine ≡ ok cfg
    → liquidate e liquidator borrower d c n w ≡ ok (w', got)
    → (z : Seizure) × (p : Pool) × (p' : Pool) × (m : ℤ) × (authorized e liquidator ≡ true)
      × (got ≡ z.seize_amount)
      × IsDue e cfg borrower d c n w z
      × (lookup cfg.pool w.pools ≡ some p)
      × (repay_on_behalf (enter e cfg.pool) e.current liquidator borrower d n p ≡ ok (p', m))
      × (lookup cfg.pool w'.pools ≡ some p')
liquidate-IsDue e liquidator borrower d c n w cfg configured h =
    let (z, auth, eg, due, st) = liquidate-steps e liquidator borrower d c n w cfg configured h in
    let (w1, w2, h1, h2, h3) = settle-steps e cfg liquidator borrower d c n z w st in
    let (p, p', m, found, repaid, after, _, _) =
      pool_repay_on_behalf-effect e cfg.pool liquidator borrower d n w h1 in
    let (_, _, _, _, _, kept, _) =
      vault_seize-effect e cfg.vault borrower liquidator c z.seize_amount w1 h2 in
    let kept' = seize_fee-pools e cfg borrower c z.fee_units w2 h3 in
    (z, p, p', m, auth, eg, due, found, repaid, rw (kept', kept) after)
