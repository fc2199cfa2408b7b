-- ===== src/Map/Sum.antt =====
-- Sums of the amounts stored in a map, over the keys that a test selects.
use de_fi_lending_stellar_pa.Prelude.{
  ℕ, ◌==◌, ◌≡◌, true, ap, Bool, Option, none, some, [], ◌∷◌, arith, Equality, eq, eq→≡,
  if◌then◌else◌, Bool-cases, inl, inr,
}
use de_fi_lending_stellar_pa.Int.{ℤ, pos, ◌+ℤ◌, ◌≤ℤ◌, int_laws}
use de_fi_lending_stellar_pa.Map.{Map, lookup, insert}

-- `unwrap_or(0)`
abbrev pub or_zero : Option ℤ → ℤ
or_zero none = pos 0
or_zero (some v) = v

abbrev pub selected : Bool → ℤ → ℤ
selected b v = if b then v else pos 0

-- The keys (user, asset) that stand for one asset.
abbrev pub in_asset : ℕ → ℕ × ℕ → Bool
in_asset a k = k.1 == a

module _ {ℓ} {K : Type ℓ} where
  unfoldable pub sum_where : (K → Bool) → Map K ℤ → ℤ
  sum_where p [] = pos 0
  sum_where p ((k, v) ∷ m) = selected (p k) v +ℤ sum_where p m

  -- No stored amount is negative.
  abbrev pub NonNegative : Map K ℤ → Type 0
  NonNegative [] = Unit
  NonNegative ((k, v) ∷ m) = (pos 0 ≤ℤ v) × NonNegative m

  pub sum_where_nonneg : (p : K → Bool) (m : Map K ℤ) → NonNegative m → pos 0 ≤ℤ sum_where p m
  unfolding sum_where
  sum_where_nonneg p [] h = omega arith
  sum_where_nonneg p ((k, v) ∷ m) h = elim (Bool-cases (p k)) [
    | inl e ↦ rw e (omega (int_laws, sum_where_nonneg p m h.1))
    | inr e ↦ rw e (omega (int_laws, sum_where_nonneg p m h.1))
  ]

module _ {ℓ} {K : Type ℓ} ⦃e : Equality K⦄ where
  -- `storage().get(&key).unwrap_or(0)`
  abbrev pub amount_at : K → Map K ℤ → ℤ
  amount_at k m = or_zero (lookup k m)

  pub sum_where-insert :
      (p : K → Bool) (k : K) (v : ℤ) (m : Map K ℤ)
      → sum_where p (insert k v m) +ℤ selected (p k) (amount_at k m)
        ≡ sum_where p m +ℤ selected (p k) v
  unfolding sum_where insert lookup
  sum_where-insert p k v [] = grind int_laws
  sum_where-insert p k v ((j, w) ∷ m) = elim (Bool-cases (eq j k)) [
    | inl same ↦ rw (same, ap p (eq→≡ j k same)) (omega int_laws)
    | inr other ↦ grind (int_laws, other, sum_where-insert p k v m)
  ]

  pub amount_at_nonneg : (k : K) (m : Map K ℤ) → NonNegative m → pos 0 ≤ℤ amount_at k m
  unfolding lookup
  amount_at_nonneg k [] h = omega arith
  amount_at_nonneg k ((j, w) ∷ m) h = ground (arith, amount_at_nonneg k m h.1)

  pub insert-NonNegative :
      (k : K) (v : ℤ) (m : Map K ℤ) → NonNegative m → pos 0 ≤ℤ v → NonNegative (insert k v m)
  unfolding insert
  insert-NonNegative k v [] h p = (p, tt)
  insert-NonNegative k v ((j, w) ∷ m) h p = ground (arith, insert-NonNegative k v m h.1 p)

  -- An amount is part of every sum that selects its key.
  pub amount_at-le-sum_where :
      (p : K → Bool) (k : K) (m : Map K ℤ)
      → NonNegative m
      → p k ≡ true
      → amount_at k m ≤ℤ sum_where p m
  unfolding lookup sum_where
  amount_at-le-sum_where p k [] h sel = omega arith
  amount_at-le-sum_where p k ((j, w) ∷ m) h sel = elim (Bool-cases (eq j k)) [
    | inl same ↦ rw (same, ap p (eq→≡ j k same), sel) (omega (int_laws, sum_where_nonneg p m h.1))
    | inr other ↦ elim (Bool-cases (p j)) [
      | inl inside ↦ rw (other, inside) (omega (int_laws, amount_at-le-sum_where p k m h.1 sel))
      | inr outside ↦ rw (other, outside) (omega (int_laws, amount_at-le-sum_where p k m h.1 sel))
    ]
  ]
