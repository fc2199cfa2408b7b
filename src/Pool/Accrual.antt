-- ===== src/Pool/Accrual.antt =====
-- The borrow rate and the growth of the index.
use de_fi_lending_stellar_pa.Prelude.{
  ℕ, ◌+◌, ◌-◌, ◌*◌, ◌/◌, ◌%◌, ◌≤◌, ◌<◌, ◌≡◌, sym, subst, min, some, arith, leb, nat_equality, ◌⊎◌,
  inl, inr, Bool-cases,
}
use native.Mathlib.Nat.{
  div-mul-le_self, div-le_of_le-mul, le-div_iff_mul-le, mul-le-mul_left, mul-div_cancel_left,
  le_refl,
}
use de_fi_lending_stellar_pa.Int.{ℤ, pos, negsuc, ◌+ℤ◌, ◌*ℤ◌, ◌≤ℤ◌, eqb_ℤ, int_laws}
use de_fi_lending_stellar_pa.Int.Product.{*ℤ_nonneg, quot_nonneg}
use de_fi_lending_stellar_pa.Map.{lookup, insert, lookup-insert_self}
use de_fi_lending_stellar_pa.Soroban.{
  Symbol, ok, Env, rem_u64, u64_limit, u32_limit, max_u32, Result-cases,
}
use de_fi_lending_stellar_pa.Pool.State.{
  Pool, AssetConfig, total_deposit, total_borrow, borrow_index, index_scale, asset_config,
}
use de_fi_lending_stellar_pa.Pool.Interest.{
  utilization, kinked_rate, borrow_apy_bps, index_delta, last_accrual, accrue_interest,
}

share_le : (a b : ℕ) → min a b * 10_000 / b ≤ 10_000
share_le a b = div-le_of_le-mul b (grind arith)

mod_le : (a n : ℕ) → a % n ≤ a
mod_le a n = omega arith

-- The utilisation never passes 100%.
pub utilization-le : (b d : ℤ) {u : ℕ} → utilization b d ≡ ok u → u ≤ 10_000
unfolding utilization
utilization-le b d h = ground (
  arith,
  share_le (rem_u64 b) (rem_u64 d),
  mod_le (min (rem_u64 b) (rem_u64 d) * 10_000 / rem_u64 d) u32_limit,
)

-- `slope * u / width`, for `u` up to a positive width, is at most the slope.
part_le : (slope u width : ℕ) → u ≤ width → slope * u / width ≤ slope
part_le slope u width h = div-le_of_le-mul width (grind arith)

div_mono : (a b k : ℕ) → 0 < k → a ≤ b → a / k ≤ b / k
div_mono a b k h le = (le-div_iff_mul-le h).1 (omega (arith, div-mul-le_self a k))

module _ (cfg : AssetConfig) where
  -- The rate below the kink and above it.
  low :
      (u : ℕ) {r : ℕ}
      → u ≤ cfg.kink_bps
      → kinked_rate cfg u ≡ ok r
      → r ≡ cfg.base_rate_bps + cfg.slope1_bps * u / max_u32 cfg.kink_bps 1
  unfolding kinked_rate
  low u le h = ground arith

  high :
      (u : ℕ) {r : ℕ}
      → cfg.kink_bps < u
      → kinked_rate cfg u ≡ ok r
      → (r
          ≡ cfg.base_rate_bps
            + cfg.slope1_bps
            + cfg.slope2_bps * (u - cfg.kink_bps) / max_u32 (10_000 - cfg.kink_bps) 1)
  unfolding kinked_rate
  high u lt h = ground arith

  low_bounds :
      (u : ℕ) {r : ℕ}
      → u ≤ cfg.kink_bps
      → kinked_rate cfg u ≡ ok r
      → (cfg.base_rate_bps ≤ r) × (r ≤ cfg.base_rate_bps + cfg.slope1_bps)
  low_bounds u le h =
      omega (arith, low u le h, part_le cfg.slope1_bps u (max_u32 cfg.kink_bps 1) (ground arith))

  high_bounds :
      (u : ℕ) {r : ℕ}
      → cfg.kink_bps < u
      → u ≤ 10_000
      → kinked_rate cfg u ≡ ok r
      → (cfg.base_rate_bps + cfg.slope1_bps ≤ r)
        × (r ≤ cfg.base_rate_bps + cfg.slope1_bps + cfg.slope2_bps)
  high_bounds u lt top h = omega (
    arith,
    high u lt h,
    part_le cfg.slope2_bps (u - cfg.kink_bps) (max_u32 (10_000 - cfg.kink_bps) 1) (ground arith),
  )

  -- Below and above the kink, and across it, a higher utilisation has no lower rate.
  kinked_rate_monotone :
      (u v : ℕ) {r q : ℕ}
      → u ≤ v
      → v ≤ 10_000
      → kinked_rate cfg u ≡ ok r
      → kinked_rate cfg v ≡ ok q
      → r ≤ q
  kinked_rate_monotone u v le top hu hv = elim (Bool-cases (leb v cfg.kink_bps)) [
    | inl both_low ↦ omega (
      arith,
      low u (ground arith) hu,
      low v (ground arith) hv,
      div_mono (cfg.slope1_bps * u) (cfg.slope1_bps * v) (max_u32 cfg.kink_bps 1) (ground arith)
          (grind arith),
    )
    | inr v_high ↦ elim (Bool-cases (leb u cfg.kink_bps)) [
      | inl u_low ↦
          omega (arith, low_bounds u (ground arith) hu, high_bounds v (ground arith) top hv)
      | inr u_high ↦ omega (
        arith,
        high u (ground arith) hu,
        high v (ground arith) hv,
        div_mono (cfg.slope2_bps * (u - cfg.kink_bps)) (cfg.slope2_bps * (v - cfg.kink_bps))
            (max_u32 (10_000 - cfg.kink_bps) 1) (ground arith)
            (mul-le-mul_left cfg.slope2_bps (omega arith)),
      )
    ]
  ]

-- The borrow rate that the pool quotes lies between the base rate and the sum of the base rate and
-- both slopes, whatever the totals are.
borrow_apy_bounds :
    (x : Symbol) (s : Pool) (cfg : AssetConfig) {r : ℕ}
    → lookup x s.asset_configs ≡ some cfg
    → borrow_apy_bps x s ≡ ok r
    → (cfg.base_rate_bps ≤ r) × (r ≤ cfg.base_rate_bps + cfg.slope1_bps + cfg.slope2_bps)
unfolding borrow_apy_bps asset_config
borrow_apy_bounds x s cfg {r} known h =
    elim (Result-cases (utilization (total_borrow x s) (total_deposit x s))) [
      | inr (_, failed) ↦ absurd (ground arith)
      | inl (u, used) ↦
          let top = utilization-le (total_borrow x s) (total_deposit x s) used in
          let rate : kinked_rate cfg u ≡ ok r = ground arith in
          elim (Bool-cases (leb u cfg.kink_bps)) [
            | inl below ↦ omega (arith, low_bounds cfg u (ground arith) rate)
            | inr above ↦ omega (arith, high_bounds cfg u (ground arith) top rate)
          ]
    ]

index_delta_nonneg : (blocks apy : ℕ) {d : ℤ} → index_delta blocks apy ≡ ok d → pos 0 ≤ℤ d
unfolding index_delta
index_delta_nonneg blocks apy h =
    let numer = pos apy *ℤ pos 5 in
    let over = pos blocks *ℤ numer in
    let n0 = *ℤ_nonneg (pos apy) (pos 5) (omega arith) (omega arith) in
    let o0 = *ℤ_nonneg (pos blocks) numer (omega arith) n0 in
    let s0 = *ℤ_nonneg over index_scale o0 (omega arith) in
    let q0 = quot_nonneg (over *ℤ index_scale) (pos (10_000 * 31_536_000)) s0 (omega arith) in
    ground arith

-- An accrual changes nothing, or lets the index grow and sets the clock.
pub accrue_interest-cases :
    (e : Env) (x : Symbol) (s : Pool) {t : Pool}
    → accrue_interest e x s ≡ ok t
    → (t ≡ s)
      ⊎ ((delta : ℤ) × (pos 0 ≤ℤ delta)
          × (t.borrow_indices ≡ insert x (borrow_index x s +ℤ delta) s.borrow_indices)
          × (t.last_accruals ≡ insert x e.sequence s.last_accruals))
unfolding accrue_interest
accrue_interest-cases e x s {t} h = elim (Bool-cases (eqb_ℤ (total_borrow x s) (pos 0))) [
  | inl no_loans ↦ inl (ground arith)
  | inr loans ↦ elim (Bool-cases (leb e.sequence (last_accrual e x s))) [
    | inl done ↦ inl (ground arith)
    | inr due ↦ elim (Result-cases (borrow_apy_bps x s)) [
      | inr (_, failed) ↦ absurd (ground arith)
      | inl (apy, rate) ↦ elim (Result-cases (index_delta (e.sequence - last_accrual e x s) apy)) [
        | inr (_, failed) ↦ absurd (ground arith)
        | inl (delta, grown) ↦ inr (
          delta,
          index_delta_nonneg (e.sequence - last_accrual e x s) apy grown,
          ground arith,
          ground arith,
        )
      ]
    ]
  ]
]

accrue_interest-settled :
    (e : Env) (x : Symbol) (t : Pool)
    → lookup x t.last_accruals ≡ some e.sequence
    → accrue_interest e x t ≡ ok t
unfolding accrue_interest
accrue_interest-settled e x t h = ground arith

-- What an accrual does to the index and the clock, on every branch: nothing changes, or the clock is
-- set to the ledger; the index never falls, and a second accrual in the same ledger changes nothing.
pub accrue_interest_once :
    (e : Env) (x : Symbol) (s : Pool) {t : Pool}
    → accrue_interest e x s ≡ ok t
    → (borrow_index x s ≤ℤ borrow_index x t)
      × ((t ≡ s) ⊎ (lookup x t.last_accruals ≡ some e.sequence))
      × (accrue_interest e x t ≡ ok t)
unfolding borrow_index
accrue_interest_once e x s {t} h = elim (accrue_interest-cases e x s h) [
  | inl same ↦
      (rw same (le_refl _), inl same, subst (λ z. accrue_interest e x z ≡ ok t) (sym same) h)
  | inr (delta, d0, index, clock) ↦
      let set : lookup x t.last_accruals ≡ some e.sequence = rw (clock, lookup-insert_self) in
      (rw (index, lookup-insert_self) (omega int_laws), inr set, accrue_interest-settled e x t set)
]

rem_u64-pos : (d : ℕ) → d < u64_limit → rem_u64 (pos d) ≡ d
unfolding rem_u64 u64_limit
rem_u64-pos d h = omega arith

rem_u64-negsuc : (k d : ℕ) → d + k < u64_limit → d ≤ rem_u64 (negsuc k)
unfolding rem_u64 u64_limit
rem_u64-negsuc k d h = omega arith

-- A negative total of loans, which a repayment of interest can leave behind, is cast to `u64` and
-- reads as full utilisation, however much is deposited within the bounds of `u64`.
negative_borrow_reads_full :
    (k d : ℕ)
    → 0 < d
    → d * 10_000 < u64_limit
    → d + k < u64_limit
    → utilization (negsuc k) (pos d) ≡ ok 10_000
unfolding utilization u32_limit
negative_borrow_reads_full k d some_deposit fits room =
    let whole = rem_u64-pos d (omega arith) in
    let wrapped = rem_u64-negsuc k d room in
    let full : d * 10_000 / d ≡ 10_000 = mul-div_cancel_left 10_000 some_deposit in ground arith
