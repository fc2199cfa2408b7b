-- ===== src/Controller/Replay.antt =====
-- The entry points against what the administration keeps of the controller's storage; the salts of
-- wraps and the nonces of unwraps.
use de_fi_lending_stellar_pa.Prelude.{
  ℕ, ◌+◌, ◌*◌, ◌^◌, ◌<◌, ◌≡◌, refl, sym, true, List, ◌++◌, arith, nat_equality, inl, inr,
}
use de_fi_lending_stellar_pa.Int.{ℤ}
use de_fi_lending_stellar_pa.Map.{lookup, lookup-insert_self}
use de_fi_lending_stellar_pa.Soroban.{
  Address, Result-cases, ok, err, Error, Env, is_some, run, run_invariant, to_be_bytes,
  from_be_bytes, u32_limit, u64_limit,
}
use de_fi_lending_stellar_pa.Soroban.Bytes.{from_be_bytes-to_be_bytes}
use de_fi_lending_stellar_pa.Controller.{Controller, initialize}
use de_fi_lending_stellar_pa.Controller.Admins as Admins
use de_fi_lending_stellar_pa.Controller.Admins.{nonce_op, mint_op}
use de_fi_lending_stellar_pa.Controller.Bridge.{keeps_salt}
use de_fi_lending_stellar_pa.Controller.Payload.{Host}
use de_fi_lending_stellar_pa.Controller.Attest.{Attestation}
use de_fi_lending_stellar_pa.Controller.Deployment.{Deployment}
use de_fi_lending_stellar_pa.Controller.Wrapping.{wrap, unwrap, gen_nonce, zeros_16}
use de_fi_lending_stellar_pa.Controller.Lending.{repay, withdraw_collateral}
use de_fi_lending_stellar_pa.Controller.Effects.{
  wrap-steps, wrap-effect, unwrap-effect, supply_collateral-effect, borrow-effect, repay-effect,
  withdraw_collateral-effect,
}
use de_fi_lending_stellar_pa.Controller.Runs.{
  Op, wrap_op, unwrap_op, supply_collateral_op, borrow_op, repay_op, withdraw_collateral_op,
  initialize_op, administer_op, token_op, pool_op, vault_op, oracle_op, invoke,
}

module _ (host : Host) (P : Controller → Type 0)
    (keep : (e : Env) (op : Admins.Op) (s s' : Controller)
      → P s
      → Admins.invoke e op s ≡ ok s'
      → P s')
    (start : (e : Env) (admin : Address) (keys : List ℕ) (n : ℕ) (w pool vault oracle : Address)
        (s s' : Controller)
      → P s
      → initialize e admin keys n w pool vault oracle s ≡ ok s'
      → P s') where
  pub invoke-keeps :
      (e : Env) (op : Op) (d d' : Deployment)
      → P d.controller
      → invoke host e op d ≡ ok d'
      → P d'.controller
  unfolding invoke
  invoke-keeps e (wrap_op given c a n to salt k) d d' p h =
      let (bumped, counted, _, _, _, _, bump, count, _, _, _, done) =
        wrap-steps host e given c a n to salt k d h in
      let bump' : Admins.invoke e (nonce_op salt) d.controller ≡ ok bumped =
        unfold Admins.invoke in bump in
      let count' : Admins.invoke e mint_op bumped ≡ ok counted = unfold Admins.invoke in count in
      rw done
        (keep e mint_op bumped counted (keep e (nonce_op salt) d.controller bumped p bump') count')
  invoke-keeps e (unwrap_op user n c a) d d' p h = elim (Result-cases (unwrap e user n c a d)) [
    | inr (_, failed) ↦ absurd (ground arith)
    | inl ((d1, k), run) ↦
        let (_, _, _, _, _, _, _, _, same, _, _) = unwrap-effect e user n d c a run in
        let final : d1 ≡ d' = ground arith in rw (sym final, same) p
  ]
  invoke-keeps e (supply_collateral_op user x n) d d' p h =
      let (_, _, _, _, _, _, _, _, _, _, _, _, done) = supply_collateral-effect e user n d x h in
      rw done p
  invoke-keeps e (borrow_op user x n y m) d d' p h =
      let (_, _, _, _, _, _, _, _, _, _, _, _, _, done) = borrow-effect e user n d x y m h in
      rw done p
  invoke-keeps e (repay_op user x n) d d' p h = elim (Result-cases (repay e user x n d)) [
    | inr (_, failed) ↦ absurd (ground arith)
    | inl ((d1, r), run) ↦
        let (_, _, _, _, _, _, done) = repay-effect e user n d x run in
        let final : d1 ≡ d' = ground arith in rw (sym final, done) p
  ]
  invoke-keeps e (withdraw_collateral_op user x n) d d' p h =
      elim (Result-cases (withdraw_collateral e user x n d)) [
        | inr (_, failed) ↦ absurd (ground arith)
        | inl ((d1, r), run) ↦
            let (_, _, _, _, _, _, _, _, done) = withdraw_collateral-effect e user n d x run in
            let final : d1 ≡ d' = ground arith in rw (sym final, done) p
      ]
  invoke-keeps e (initialize_op admin keys n w pool vault oracle) d d' p h =
      elim (Result-cases (initialize e admin keys n w pool vault oracle d.controller)) [
        | inr (_, failed) ↦ absurd (ground arith)
        | inl (s, run) ↦
            let done : d' ≡ record d { controller = s } = ground arith in
            rw done (start e admin keys n w pool vault oracle d.controller s p run)
      ]
  invoke-keeps e (administer_op op) d d' p h =
      elim (Result-cases (Admins.invoke e op d.controller)) [
        | inr (_, failed) ↦ absurd (ground arith)
        | inl (s, run) ↦
            let done : d' ≡ record d { controller = s } = ground arith in
            rw done (keep e op d.controller s p run)
      ]
  invoke-keeps e (token_op u op) d d' p h =
      let same : d'.controller ≡ d.controller = ground arith in rw same p
  invoke-keeps e (pool_op u op) d d' p h =
      let same : d'.controller ≡ d.controller = ground arith in rw same p
  invoke-keeps e (vault_op u op) d d' p h =
      let same : d'.controller ≡ d.controller = ground arith in rw same p
  invoke-keeps e (oracle_op u op) d d' p h =
      let same : d'.controller ≡ d.controller = ground arith in rw same p

  pub run_keeps :
      (calls : List (Env × Op)) (d : Deployment)
      → P d.controller
      → P (run (invoke host) calls d).controller
  run_keeps calls d p = run_invariant (invoke host) (λ d. P d.controller) invoke-keeps calls d p

pub initialize_keeps_salt :
    (salt : ℕ) (e : Env) (admin : Address) (keys : List ℕ) (n : ℕ) (w pool vault oracle : Address)
    (s s' : Controller)
    → is_some (lookup salt s.nonces) ≡ true
    → initialize e admin keys n w pool vault oracle s ≡ ok s'
    → is_some (lookup salt s'.nonces) ≡ true
unfolding initialize
initialize_keeps_salt salt e admin keys n w pool vault oracle s s' used h = ground arith

-- A salt is good for one wrap: once a wrap with it has gone through, every later one panics, whatever
-- its other arguments and attestations are and whatever is called in between.
pub wrap_once :
    (host host' : Host) (e e' : Env) (given given' : List Attestation) (c c' a a' : ℕ) (n n' : ℤ)
    (to to' : Address) (salt k k' : ℕ) (d : Deployment) {d' : Deployment} (calls : List (Env × Op))
    → wrap host e given c a n to salt k d ≡ ok d'
    → (x : Error) × (wrap host e' given' c' a' n' to' salt k' (run (invoke host) calls d') ≡ err x)
wrap_once host host' e e' given given' c c' a a' n n' to to' salt k k' d {d'} calls h =
    let nonces = (wrap-effect host e given c a n to salt k d h).5 in
    let used : is_some (lookup salt d'.controller.nonces) ≡ true =
      rw (nonces, lookup-insert_self salt true d.controller.nonces) refl in
    let still =
      run_keeps host (λ s. is_some (lookup salt s.nonces) ≡ true) (keeps_salt salt)
        (initialize_keeps_salt salt) calls d' used in
    elim (Result-cases (wrap host e' given' c' a' n' to' salt k' (run (invoke host) calls d'))) [
      | inr panic ↦ panic
      | inl (d'', again) ↦
          let fresh = (wrap-effect host e' given' c' a' n' to' salt k' _ again).4 in
          absurd (ground (arith, still, fresh))
    ]

-- The nonce spells the ledger's sequence and its timestamp, and nothing else.
gen_nonce-value :
    (e : Env)
    → e.sequence < 256 ^ 8
    → e.timestamp < 256 ^ 8
    → gen_nonce e ≡ (e.sequence * 256 ^ 8 + e.timestamp) * 256 ^ 16
unfolding gen_nonce
gen_nonce-value e hs ht =
    rw
      (
        from_be_bytes-to_be_bytes 8 e.sequence 0 (to_be_bytes 8 e.timestamp ++ zeros_16) hs,
        from_be_bytes-to_be_bytes 8 e.timestamp (0 * 256 ^ 8 + e.sequence) zeros_16 ht,
      )
      (unfold from_be_bytes in omega arith)

-- Unwraps in ledgers that differ in sequence or timestamp have different nonces.
pub gen_nonce_injective :
    (e e' : Env)
    → e.sequence < u32_limit
    → e'.sequence < u32_limit
    → e.timestamp < u64_limit
    → e'.timestamp < u64_limit
    → gen_nonce e ≡ gen_nonce e'
    → (e.sequence ≡ e'.sequence) × (e.timestamp ≡ e'.timestamp)
unfolding u32_limit u64_limit
gen_nonce_injective e e' hs hs' ht ht' same =
    let v = gen_nonce-value e (omega arith) (omega arith) in
    let v' = gen_nonce-value e' (omega arith) (omega arith) in (omega arith, omega arith)

-- Any two unwraps in one ledger, by whomever and of whatever, have the same nonce.
unwrap_nonce_repeats :
    (e e' : Env) (user user' : Address) (n n' : ℤ) (c c' a a' : ℕ) (d d2 : Deployment)
    {d' d2' : Deployment} {k k' : ℕ}
    → e'.sequence ≡ e.sequence
    → e'.timestamp ≡ e.timestamp
    → unwrap e user n c a d ≡ ok (d', k)
    → unwrap e' user' n' c' a' d2 ≡ ok (d2', k')
    → k' ≡ k
unfolding gen_nonce
unwrap_nonce_repeats e e' user user' n n' c c' a a' d d2 seq time h h' =
    let here = (unwrap-effect e user n d c a h).3 in
    let there = (unwrap-effect e' user' n' d2 c' a' h').3 in rw (here, there, seq, time) refl
