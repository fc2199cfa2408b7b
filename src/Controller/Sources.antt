-- ===== src/Controller/Sources.antt =====
-- Where the controller's wrap events come from: the calls and the attestations behind them, and their
-- salts.
use de_fi_lending_stellar_pa.Prelude.{
  ℕ, ◌≤◌, ◌≡◌, refl, sym, true, false, some, List, [], ◌∷◌, ◌++◌, length, arith, nat_equality, ◌⊎◌,
  inl, inr,
}
use de_fi_lending_stellar_pa.Int.{negsuc}
use de_fi_lending_stellar_pa.Map.{lookup, lookup-insert_self}
use de_fi_lending_stellar_pa.Soroban.{Result-cases, ok, Env, is_some, run}
use de_fi_lending_stellar_pa.Controller.{BridgeSet}
use de_fi_lending_stellar_pa.Controller.Payload.{Host, build_canonical_payload}
use de_fi_lending_stellar_pa.Controller.Attest.{Attestation, IsAttested, require_bridge}
use de_fi_lending_stellar_pa.Controller.Deployment.{
  Deployment, Event, wrap_event, unwrap_event, supply_event, borrow_event, repay_event,
  withdraw_collateral_event,
}
use de_fi_lending_stellar_pa.Controller.Wrapping.{unwrap}
use de_fi_lending_stellar_pa.Controller.Lending.{repay, withdraw_collateral}
use de_fi_lending_stellar_pa.Controller.Effects.{
  wrap-effect, unwrap-effect, supply_collateral-effect, borrow-effect, repay-effect,
  withdraw_collateral-effect,
}
use de_fi_lending_stellar_pa.Controller.Runs.{
  Op, wrap_op, unwrap_op, supply_collateral_op, borrow_op, repay_op, withdraw_collateral_op,
  initialize_op, administer_op, token_op, pool_op, vault_op, oracle_op, invoke,
}

-- The salts of the wrap events.
abbrev pub salts : List Event → List ℕ
salts [] = []
salts (wrap_event c a to n salt k ∷ xs) = salt ∷ salts xs
salts (unwrap_event user n c a k ∷ xs) = salts xs
salts (supply_event user x n ∷ xs) = salts xs
salts (borrow_event user x y n ∷ xs) = salts xs
salts (repay_event user x n m ∷ xs) = salts xs
salts (withdraw_collateral_event user x n ∷ xs) = salts xs

-- A wrap event of a history is published by a call of `wrap` in it, with attestations by at least the
-- threshold of the bridge that is in force at this call, all for the payload of the event.
abbrev pub IsAttestedIn : Host → List (Env × Op) → Deployment → Event → Type 0
IsAttestedIn host calls d (wrap_event c a to n salt k) =
    (before after : List (Env × Op)) × (e : Env) × (given : List Attestation) × (bridge : BridgeSet)
    × (calls ≡ before ++ (e, wrap_op given c a n to salt k) ∷ after)
    × ((run (invoke host) before d).controller.bridge ≡ some bridge)
    × (bridge.threshold ≤ length given)
    × IsAttested host bridge.keys (host.sha256 (build_canonical_payload host c a n to salt k))
        (negsuc 0) given
IsAttestedIn host calls d (unwrap_event user n c a k) = Unit
IsAttestedIn host calls d (supply_event user x n) = Unit
IsAttestedIn host calls d (borrow_event user x y n) = Unit
IsAttestedIn host calls d (repay_event user x n m) = Unit
IsAttestedIn host calls d (withdraw_collateral_event user x n) = Unit

-- What a call says of the event that it publishes.
abbrev pub IsSource : Host → Op → Deployment → Deployment → Event → Type 0
IsSource host op d d' (wrap_event c a to n salt k) =
    (given : List Attestation) × (op ≡ wrap_op given c a n to salt k)
    × (require_bridge host given c a n to salt k d.controller ≡ ok tt)
    × (is_some (lookup salt d.controller.nonces) ≡ false)
    × (is_some (lookup salt d'.controller.nonces) ≡ true)
IsSource host op d d' (unwrap_event user n c a k) = Unit
IsSource host op d d' (supply_event user x n) = Unit
IsSource host op d d' (borrow_event user x y n) = Unit
IsSource host op d d' (repay_event user x n m) = Unit
IsSource host op d d' (withdraw_collateral_event user x n) = Unit

-- Every call publishes at most one event.
abbrev pub IsPublished : Host → Op → Deployment → Deployment → Type 0
IsPublished host op d d' =
    (d'.events ≡ d.events) ⊎ ((x : Event) × (d'.events ≡ x ∷ d.events) × IsSource host op d d' x)

pub invoke-IsPublished :
    (host : Host) (e : Env) (op : Op) (d d' : Deployment)
    → invoke host e op d ≡ ok d'
    → IsPublished host op d d'
unfolding invoke
invoke-IsPublished host e (wrap_op given c a n to salt k) d d' h =
    let (_, _, _, passed, fresh, nonces, _, _, _, _, _, events, _, _) =
      wrap-effect host e given c a n to salt k d h in
    let used : is_some (lookup salt d'.controller.nonces) ≡ true =
      rw (nonces, lookup-insert_self salt true d.controller.nonces) refl in
    inr (wrap_event c a to n salt k, events, (given, refl, passed, fresh, used))
invoke-IsPublished host e (unwrap_op user n c a) d d' h =
    elim (Result-cases (unwrap e user n c a d)) [
      | inr (_, failed) ↦ absurd (ground arith)
      | inl ((d1, k), run) ↦
          let (_, _, _, _, _, _, _, _, _, _, events) = unwrap-effect e user n d c a run in
          let final : d1 ≡ d' = ground arith in
          inr (unwrap_event user n c a k, rw (sym final) events, tt)
    ]
invoke-IsPublished host e (supply_collateral_op user x n) d d' h =
    let (_, _, _, _, _, _, _, _, _, _, _, _, done) = supply_collateral-effect e user n d x h in
    inr (supply_event user x n, rw done refl, tt)
invoke-IsPublished host e (borrow_op user x n y m) d d' h =
    let (_, _, _, _, _, _, _, _, _, _, _, _, _, done) = borrow-effect e user n d x y m h in
    inr (borrow_event user x y m, rw done refl, tt)
invoke-IsPublished host e (repay_op user x n) d d' h = elim (Result-cases (repay e user x n d)) [
  | inr (_, failed) ↦ absurd (ground arith)
  | inl ((d1, r), run) ↦
      let (_, _, _, _, _, _, done) = repay-effect e user n d x run in
      let final : d1 ≡ d' = ground arith in
      inr (repay_event user x n r, rw (sym final, done) refl, tt)
]
invoke-IsPublished host e (withdraw_collateral_op user x n) d d' h =
    elim (Result-cases (withdraw_collateral e user x n d)) [
      | inr (_, failed) ↦ absurd (ground arith)
      | inl ((d1, r), run) ↦
          let (_, _, _, _, _, _, _, _, done) = withdraw_collateral-effect e user n d x run in
          let final : d1 ≡ d' = ground arith in
          inr (withdraw_collateral_event user x n, rw (sym final, done) refl, tt)
    ]
invoke-IsPublished host e (initialize_op admin keys n w pool vault oracle) d d' h =
    inl (ground arith)
invoke-IsPublished host e (administer_op op) d d' h = inl (ground arith)
invoke-IsPublished host e (token_op u op) d d' h = inl (ground arith)
invoke-IsPublished host e (pool_op u op) d d' h = inl (ground arith)
invoke-IsPublished host e (vault_op u op) d d' h = inl (ground arith)
invoke-IsPublished host e (oracle_op u op) d d' h = inl (ground arith)
