-- ===== src/Controller/Minting.antt =====
-- What a wrap mints, and what an unwrap burns.
use de_fi_lending_stellar_pa.Prelude.{
  ℕ, ◌≤◌, ◌≡◌, refl, false, some, List, ◌∷◌, length, nat_equality, true,
}
use de_fi_lending_stellar_pa.Int.{ℤ, pos, negsuc, ◌+ℤ◌, ◌-ℤ◌, ◌≤ℤ◌}
use de_fi_lending_stellar_pa.Map.{lookup, lookup-insert_self}
use de_fi_lending_stellar_pa.Soroban.{Address, ok, Env, enter, is_some, authorized}
use de_fi_lending_stellar_pa.Wrapped.{Token, balance, total_supply}
use de_fi_lending_stellar_pa.Wrapped.Supply.{mint-effect, burn-effect}
use de_fi_lending_stellar_pa.Controller.{BridgeSet}
use de_fi_lending_stellar_pa.Controller.Admins.{IsDistinct}
use de_fi_lending_stellar_pa.Controller.Payload.{Host, build_canonical_payload}
use de_fi_lending_stellar_pa.Controller.Attest.{
  Attestation, IsAttested, indices, indices-IsDistinct, require_bridge-IsAttested,
}
use de_fi_lending_stellar_pa.Controller.Deployment.{Deployment, unwrap_event}
use de_fi_lending_stellar_pa.Controller.Wrapping.{wrap, unwrap}
use de_fi_lending_stellar_pa.Controller.Effects.{wrap-effect, unwrap-effect}

-- A wrap that goes through carries at least the bridge's threshold of attestations, each a signature
-- of the payload's hash under the key at its index, no index twice; its salt is fresh, and it mints
-- the amount, which is positive, to the recipient and to the supply of the controller's wrapped token.
pub wrap_mints :
    (host : Host) (e : Env) (given : List Attestation) (c a : ℕ) (n : ℤ) (to : Address) (salt k : ℕ)
    (d : Deployment) {d' : Deployment}
    → wrap host e given c a n to salt k d ≡ ok d'
    → (bridge : BridgeSet) × (t : Address) × (s s' : Token) × (d.controller.bridge ≡ some bridge)
      × (d.controller.wrapped_asset ≡ some t)
      × (bridge.threshold ≤ length given)
      × IsDistinct (indices given)
      × IsAttested host bridge.keys
          (host.sha256 (build_canonical_payload host c a n to salt k))
          (negsuc 0)
          given
      × (is_some (lookup salt d.controller.nonces) ≡ false)
      × (lookup t d.tokens ≡ some s)
      × (lookup t d'.tokens ≡ some s')
      × (pos 1 ≤ℤ n)
      × (balance to s' ≡ balance to s +ℤ n)
      × (total_supply s' ≡ total_supply s +ℤ n)
unfolding balance total_supply
wrap_mints host e given c a n to salt k d h =
    let (t, s, s', passed, fresh, _, at_t, _, found, minted, tokens, _, _, _) =
      wrap-effect host e given c a n to salt k d h in
    let (bridge, stored, enough, v) =
      require_bridge-IsAttested host given c a n to salt k d.controller passed in
    let (balances, supply, positive, _, _, _) = mint-effect (enter e t) to n s minted in
    (
      bridge,
      t,
      s,
      s',
      stored,
      at_t,
      enough,
      indices-IsDistinct host _ _ (negsuc 0) given v,
      v,
      fresh,
      found,
      rw (tokens, lookup-insert_self) refl,
      positive,
      rw (balances, lookup-insert_self) refl,
      supply,
    )

-- An unwrap that goes through is authorised by the holder, burns the amount, which the holder has,
-- from the holder's balance and the supply, and publishes the release under the nonce it returns.
unwrap_burns :
    (e : Env) (user : Address) (n : ℤ) (c a : ℕ) (d : Deployment) {d' : Deployment} {k : ℕ}
    → unwrap e user n c a d ≡ ok (d', k)
    → (t : Address) × (s s' : Token) × (authorized e user ≡ true)
      × (lookup t d.tokens ≡ some s)
      × (lookup t d'.tokens ≡ some s')
      × (pos 1 ≤ℤ n)
      × (n ≤ℤ balance user s)
      × (balance user s' ≡ balance user s -ℤ n)
      × (total_supply s' ≡ total_supply s -ℤ n)
      × (d'.events ≡ unwrap_event user n c a k ∷ d.events)
unfolding balance total_supply
unwrap_burns e user n c a d h =
    let (t, s, s', _, signed, _, found, burned, _, tokens, events) =
      unwrap-effect e user n d c a h in
    let (balances, supply, positive, enough, _, _, _) = burn-effect (enter e t) user n s burned in
    (
      t,
      s,
      s',
      signed,
      found,
      rw (tokens, lookup-insert_self) refl,
      positive,
      enough,
      rw (balances, lookup-insert_self) refl,
      supply,
      events,
    )
