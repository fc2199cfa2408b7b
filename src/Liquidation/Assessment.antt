-- ===== src/Liquidation/Assessment.antt =====
-- What the engine has checked before anything moves.
use de_fi_lending_stellar_pa.Prelude.{
  ℕ, min, ◌≡◌, true, arith, inl, inr, nat_equality, Bool-cases, Option-cases,
}
use de_fi_lending_stellar_pa.Int.{
  ℤ, pos, negsuc, ◌+ℤ◌, ◌-ℤ◌, ◌*ℤ◌, ◌≤ℤ◌, ◌<ℤ◌, quot, ltb_ℤ, leb_ℤ, int_laws,
}
use de_fi_lending_stellar_pa.Int.Product.{quot_nonneg, *ℤ_nonneg}
use de_fi_lending_stellar_pa.Map.{lookup}
use de_fi_lending_stellar_pa.Soroban.{
  Address, Symbol, Result, ok, enter, position_healthy, exceeds_close_factor, price_unavailable,
  ◌>>◌, panic_if, insufficient_collateral_to_seize, add_i128, >>=-eq-ok, Env, in_i128,
  saturating_sub, Result-cases,
}
use de_fi_lending_stellar_pa.Soroban.Machine.{in_i128-between}
use de_fi_lending_stellar_pa.Oracle.{get_price, value_of}
use de_fi_lending_stellar_pa.Oracle.Positive.{get_price_positive}
use de_fi_lending_stellar_pa.Liquidation.{
  LiquidationConfig, World, Seizure, max_ltv_bps, oracle_value, oracle_price, asset_ltv_bps,
  pool_debt_of, vault_position, bps_of, units_of, seizure, require_liquidatable, assess,
}

quot_lt : (x v : ℤ) → quot x (pos 10_000) <ℤ v → pos 1 ≤ℤ v → x <ℤ v *ℤ pos 10_000
unfolding quot ◌*ℤ◌
quot_lt (pos n) (pos v) h p = ground arith
quot_lt (negsuc n) (pos v) h p = ground arith
quot_lt x (negsuc v) h p = absurd (omega arith)

le_quot : (x n : ℤ) → n ≤ℤ quot x (pos 10_000) → pos 1 ≤ℤ n → n *ℤ pos 10_000 ≤ℤ x
unfolding quot ◌*ℤ◌
le_quot (pos x) (pos n) h p = ground arith
le_quot (negsuc x) (pos n) h p = ground arith
le_quot x (negsuc n) h p = absurd (omega arith)

bps_of-value : (a b q : ℤ) → bps_of a b ≡ ok q → q ≡ quot (a *ℤ b) (pos 10_000)
unfolding bps_of
bps_of-value a b q h = ground arith

units_of_nonneg :
    (a price q : ℤ) → units_of a price ≡ ok q → pos 0 ≤ℤ a → pos 1 ≤ℤ price → pos 0 ≤ℤ q
unfolding units_of
units_of_nonneg a price q h na np =
    let e : q ≡ quot (a *ℤ pos 10_000_000) price = ground arith in
    rw e (quot_nonneg _ _ (*ℤ_nonneg _ _ na (omega arith)) (omega arith))

bps_of_nonneg : (a b q : ℤ) → bps_of a b ≡ ok q → pos 0 ≤ℤ a → pos 0 ≤ℤ b → pos 0 ≤ℤ q
bps_of_nonneg a b q h na nb =
    rw (bps_of-value a b q h) (quot_nonneg _ _ (*ℤ_nonneg _ _ na nb) (omega arith))

-- A positive result of a saturating subtraction of a number that is not negative is exact.
saturating_sub-exact :
    (a b : ℤ)
    → in_i128 a ≡ true
    → pos 0 ≤ℤ b
    → pos 1 ≤ℤ saturating_sub a b
    → saturating_sub a b ≡ a -ℤ b
unfolding saturating_sub
saturating_sub-exact a b ra nb p = elim (Bool-cases (in_i128 (a -ℤ b))) [
  | inl inside ↦ ground arith
  | inr out ↦
      let low : pos 0 ≤ℤ a -ℤ b → in_i128 (a -ℤ b) ≡ true =
        λ h. in_i128-between (a -ℤ b) a ra h (omega int_laws) in
      absurd (ground (arith, low))
]

-- What is read and found before a liquidation of `n` units of debt moves anything.
pub record IsDue (e : Env) (cfg : LiquidationConfig) (borrower : Address)
    (debt_asset coll_asset : Symbol) (n : ℤ) (w : World) (z : Seizure) : Type 0 where
  pub outstanding : ℤ
  pub held : ℤ
  pub coll_value : ℤ
  pub debt_value : ℤ
  pub ltv : ℕ
  pub debt_read : pool_debt_of cfg.pool borrower debt_asset w ≡ ok outstanding
  pub held_read : vault_position cfg.vault borrower coll_asset w ≡ ok held
  pub coll_valued : oracle_value e cfg.oracle coll_asset held w ≡ ok coll_value
  pub debt_valued : oracle_value e cfg.oracle debt_asset outstanding w ≡ ok debt_value
  pub ltv_read : asset_ltv_bps cfg.pool coll_asset w ≡ ok ltv
  -- The debt is worth more than the loan-to-value share of the collateral.
  pub under_water : coll_value *ℤ pos (min ltv max_ltv_bps) <ℤ debt_value *ℤ pos 10_000
  -- The repayment stays within the close factor.
  pub within_close_factor : n *ℤ pos 10_000 ≤ℤ outstanding *ℤ pos cfg.close_factor_bps
  -- The seized units and the fee add up to what the borrower has, at most.
  pub fee_nonneg : pos 0 ≤ℤ z.fee_units
  pub splits : z.seize_amount +ℤ z.fee_units ≡ z.seize_units_total
  pub positive : pos 1 ≤ℤ z.seize_amount
  pub covered : z.seize_units_total ≤ℤ held

require_liquidatable-under_water :
    (cv dv : ℤ) (ltv : ℕ)
    → require_liquidatable cv dv ltv ≡ ok tt
    → pos 1 ≤ℤ dv
    → cv *ℤ pos (min ltv max_ltv_bps) <ℤ dv *ℤ pos 10_000
unfolding require_liquidatable
require_liquidatable-under_water cv dv ltv h p =
    elim (Result-cases (bps_of cv (pos (min ltv max_ltv_bps)))) [
      | inr (_, failed) ↦ absurd (ground arith)
      | inl (q, e) ↦
          let v = bps_of-value cv (pos (min ltv max_ltv_bps)) q e in
          quot_lt (cv *ℤ pos (min ltv max_ltv_bps)) dv (ground arith) p
    ]

units_of-in_i128 : (a price q : ℤ) → units_of a price ≡ ok q → in_i128 q ≡ true
unfolding units_of
units_of-in_i128 a price q h = ground arith

-- The end of the computation: the two guards.
seizure_end :
    (total fee held : ℤ) (z : Seizure) (first second : Result ℤ)
    → first ≡ ok total
    → second ≡ ok fee
    → (panic_if (leb_ℤ (saturating_sub total fee) (pos 0)) insufficient_collateral_to_seize
        >> (panic_if (ltb_ℤ held total) insufficient_collateral_to_seize
            >> ok (record {
              seize_units_total = total;
              fee_units = fee;
              seize_amount = saturating_sub total fee;
            })))
      ≡ ok z
    → (first ≡ ok z.seize_units_total)
      × (second ≡ ok z.fee_units)
      × (z.seize_amount ≡ saturating_sub z.seize_units_total z.fee_units)
      × (pos 1 ≤ℤ z.seize_amount)
      × (z.seize_units_total ≤ℤ held)
seizure_end total fee held z first second h1 h2 h = ground arith

-- The steps of the computation, with the intermediate values that the result rests on.
seizure-steps :
    (cfg : LiquidationConfig) (value price held : ℤ) (z : Seizure)
    → seizure cfg value price held ≡ ok z
    → (worth : ℤ) × (extra : ℤ) × (part : ℤ) × (units_of worth price ≡ ok z.seize_units_total)
      × (bps_of value (pos cfg.bonus_bps) ≡ ok extra)
      × (bps_of extra (pos cfg.fee_bps) ≡ ok part)
      × (units_of part price ≡ ok z.fee_units)
      × (z.seize_amount ≡ saturating_sub z.seize_units_total z.fee_units)
      × (pos 1 ≤ℤ z.seize_amount)
      × (z.seize_units_total ≤ℤ held)
unfolding seizure
seizure-steps cfg value price held z h =
    let (bonus, _, h1) = >>=-eq-ok (add_i128 (pos 10_000) (pos cfg.bonus_bps)) _ h in
    let (worth, _, h2) = >>=-eq-ok (bps_of value bonus) _ h1 in
    let (total, ht, h3) = >>=-eq-ok (units_of worth price) _ h2 in
    let (extra, hx, h4) = >>=-eq-ok (bps_of value (pos cfg.bonus_bps)) _ h3 in
    let (part, hp, h5) = >>=-eq-ok (bps_of extra (pos cfg.fee_bps)) _ h4 in
    let (fee, hf, h6) = >>=-eq-ok (units_of part price) _ h5 in
    let (a, b, c, d, g) =
      seizure_end total fee held z (units_of worth price) (units_of part price) ht hf h6 in
    (worth, extra, part, a, hx, hp, b, c, d, g)

-- The split of a seizure of a repayment that is worth something, at a positive price.
pub seizure-splits :
    (cfg : LiquidationConfig) (value price held : ℤ) (z : Seizure)
    → seizure cfg value price held ≡ ok z
    → pos 0 ≤ℤ value
    → pos 1 ≤ℤ price
    → (pos 0 ≤ℤ z.fee_units)
      × (z.seize_amount +ℤ z.fee_units ≡ z.seize_units_total)
      × (pos 1 ≤ℤ z.seize_amount)
      × (z.seize_units_total ≤ℤ held)
seizure-splits cfg value price held z h nv np =
    let (worth, extra, part, ht, hx, hp, hf, ea, p1, enough) =
      seizure-steps cfg value price held z h in
    let extra_nonneg = bps_of_nonneg value (pos cfg.bonus_bps) extra hx nv (omega arith) in
    let part_nonneg = bps_of_nonneg extra (pos cfg.fee_bps) part hp extra_nonneg (omega arith) in
    let fee_nonneg = units_of_nonneg part price z.fee_units hf part_nonneg np in
    let exact =
      saturating_sub-exact z.seize_units_total z.fee_units
        (units_of-in_i128 worth price z.seize_units_total ht) fee_nonneg (rw ea at p1) in
    (fee_nonneg, rw (ea, exact) (grind int_laws), p1, enough)

oracle_price_positive :
    (e : Env) (o : Address) (x : Symbol) (w : World) (p : ℤ)
    → oracle_price e o x w ≡ ok p
    → pos 1 ≤ℤ p
unfolding oracle_price
oracle_price_positive e o x w p h = elim (Option-cases (lookup o w.oracles)) [
  | inl missing ↦ absurd (ground arith)
  | inr (s, found) ↦ get_price_positive (enter e o) x s p (ground arith)
]

-- What is not negative is worth a value that is not.
oracle_value_nonneg :
    (e : Env) (o : Address) (x : Symbol) (n : ℤ) (w : World) (v : ℤ)
    → oracle_value e o x n w ≡ ok v
    → pos 0 ≤ℤ n
    → pos 0 ≤ℤ v
unfolding oracle_value value_of
oracle_value_nonneg e o x n w v h nn = elim (Option-cases (lookup o w.oracles)) [
  | inl missing ↦ absurd (ground arith)
  | inr (s, found) ↦ elim (Result-cases (get_price (enter e o) x s)) [
    | inr (_, failed) ↦ absurd (ground arith)
    | inl (p, priced) ↦
        let p1 = get_price_positive (enter e o) x s p priced in
        let value : v ≡ quot (n *ℤ p) (pos 10_000_000) = ground arith in
        rw value (quot_nonneg _ _ (*ℤ_nonneg n p nn (omega arith)) (omega arith))
  ]
]

module _ (e : Env) (cfg : LiquidationConfig) (borrower : Address) (d c : Symbol) (n : ℤ) (w : World)
    (z : Seizure) where
  pub assess-IsDue :
      assess e cfg borrower d c n w ≡ ok z → pos 1 ≤ℤ n → IsDue e cfg borrower d c n w z
  unfolding assess
  assess-IsDue h n1 =
      let (debt, h_debt, h1) = >>=-eq-ok (pool_debt_of cfg.pool borrower d w) _ h in
      let (held, h_held, h2) = >>=-eq-ok (vault_position cfg.vault borrower c w) _ h1 in
      let (cv, h_cv, h3) = >>=-eq-ok (oracle_value e cfg.oracle c held w) _ h2 in
      let (dv, h_dv, h4) = >>=-eq-ok (oracle_value e cfg.oracle d debt w) _ h3 in
      let (_, h_some, h5) = >>=-eq-ok (panic_if (leb_ℤ dv (pos 0)) position_healthy) _ h4 in
      let (ltv, h_ltv, h6) = >>=-eq-ok (asset_ltv_bps cfg.pool c w) _ h5 in
      let (_, h_due, h7) = >>=-eq-ok (require_liquidatable cv dv ltv) _ h6 in
      let (most, h_most, h8) = >>=-eq-ok (bps_of debt (pos cfg.close_factor_bps)) _ h7 in
      let (_, h_close, h9) = >>=-eq-ok (panic_if (ltb_ℤ most n) exceeds_close_factor) _ h8 in
      let (rv, h_rv, h10) = >>=-eq-ok (oracle_value e cfg.oracle d n w) _ h9 in
      let (price, h_price, h11) = >>=-eq-ok (oracle_price e cfg.oracle c w) _ h10 in
      let (_, _, h12) = >>=-eq-ok (panic_if (leb_ℤ price (pos 0)) price_unavailable) _ h11 in
      assessed debt held cv dv ltv most rv price h_debt h_held h_cv h_dv h_some h_ltv h_due h_most
        h_close h_rv h_price h12
    where
      assessed :
          (debt held cv dv : ℤ) (ltv : ℕ) (most rv price : ℤ)
          → pool_debt_of cfg.pool borrower d w ≡ ok debt
          → vault_position cfg.vault borrower c w ≡ ok held
          → oracle_value e cfg.oracle c held w ≡ ok cv
          → oracle_value e cfg.oracle d debt w ≡ ok dv
          → panic_if (leb_ℤ dv (pos 0)) position_healthy ≡ ok tt
          → asset_ltv_bps cfg.pool c w ≡ ok ltv
          → require_liquidatable cv dv ltv ≡ ok tt
          → bps_of debt (pos cfg.close_factor_bps) ≡ ok most
          → panic_if (ltb_ℤ most n) exceeds_close_factor ≡ ok tt
          → oracle_value e cfg.oracle d n w ≡ ok rv
          → oracle_price e cfg.oracle c w ≡ ok price
          → seizure cfg rv price held ≡ ok z
          → IsDue e cfg borrower d c n w z
      assessed debt held cv dv ltv most rv price h_debt h_held h_cv h_dv h_some h_ltv h_due h_most
            h_close h_rv h_price h_z =
          let rv0 = oracle_value_nonneg e cfg.oracle d n w rv h_rv (omega arith) in
          let price1 = oracle_price_positive e cfg.oracle c w price h_price in
          let (fee0, split, z1, enough) = seizure-splits cfg rv price held z h_z rv0 price1 in
          let eq = bps_of-value debt (pos cfg.close_factor_bps) most h_most in
          let within : n ≤ℤ most = ground arith in
          let close : n ≤ℤ quot (debt *ℤ pos cfg.close_factor_bps) (pos 10_000) = rw eq at within in
          record {
            outstanding = debt;
            held = held;
            coll_value = cv;
            debt_value = dv;
            ltv = ltv;
            debt_read = h_debt;
            held_read = h_held;
            coll_valued = h_cv;
            debt_valued = h_dv;
            ltv_read = h_ltv;
            under_water = require_liquidatable-under_water cv dv ltv h_due (ground arith);
            within_close_factor = le_quot (debt *ℤ pos cfg.close_factor_bps) n close n1;
            fee_nonneg = fee0;
            splits = split;
            positive = z1;
            covered = enough;
          }
