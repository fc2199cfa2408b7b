-- ===== src/Soroban/History.antt =====
-- A contract's history: invocations one after the other, each under its own environment.
use de_fi_lending_stellar_pa.Prelude.{◌≡◌, refl, List, [], ◌∷◌}
use de_fi_lending_stellar_pa.Soroban.Call.{Result, ok, err, Env}

-- A panic leaves the storage as it was.
abbrev pub committed {ℓ} : {S : Type ℓ} → Result S → S → S
committed (ok s') s = s'
committed (err _) s = s

module _ {ℓ κ} {S : Type ℓ} {Op : Type κ} (invoke : Env → Op → S → Result S) where
  unfoldable pub run : List (Env × Op) → S → S
  run [] s = s
  run ((e, op) ∷ rest) s = run rest (committed (invoke e op s) s)

  -- What every successful invocation keeps holds after any history, failed calls included.
  pub run_invariant {μ} :
      (P : S → Type μ)
      → ((e : Env) (op : Op) (s s' : S) → P s → invoke e op s ≡ ok s' → P s')
      → (calls : List (Env × Op)) (s : S) → P s
      → P (run calls s)
  unfolding run
  run_invariant P keep [] s h = h
  run_invariant P keep ((e, op) ∷ rest) s h =
      run_invariant P keep rest _ (step (invoke e op s) refl)
    where
      step : (r : Result S) → invoke e op s ≡ r → P (committed r s)
      step (ok s') done = keep e op s s' h done
      step (err _) done = h
