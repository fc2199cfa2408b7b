-- ===== src/Controller/Backing.antt =====
-- The wrapped token against the bridge's events: the invariant, and the calls of the bridge and of the
-- token against it.
use de_fi_lending_stellar_pa.Prelude.{
  ℕ, ◌≡◌, refl, some, List, [], ◌∷◌, arith, nat_equality, Bool-cases, eq→≡, inl, inr, ◌==◌,
}
use de_fi_lending_stellar_pa.Int.{ℤ, pos, ◌+ℤ◌, ◌≤ℤ◌, int_laws}
use de_fi_lending_stellar_pa.Map.{lookup, insert, lookup-insert, lookup-insert_self}
use de_fi_lending_stellar_pa.Map.Sum.{or_zero}
use de_fi_lending_stellar_pa.Soroban.{Address, Result-cases, ok, Env, enter}
use de_fi_lending_stellar_pa.Wrapped.Direct as Direct
use de_fi_lending_stellar_pa.Wrapped.Direct.{invoke-shrinks}
use de_fi_lending_stellar_pa.Wrapped.{Token}
use de_fi_lending_stellar_pa.Wrapped.Supply.{
  IsSound, mint-effect, burn-effect, mint-IsSound, burn-IsSound,
}
use de_fi_lending_stellar_pa.Controller.Payload.{Host}
use de_fi_lending_stellar_pa.Controller.Attest.{Attestation}
use de_fi_lending_stellar_pa.Controller.Deployment.{
  Deployment, Event, wrap_event, unwrap_event, supply_event, borrow_event, repay_event,
  withdraw_collateral_event,
}
use de_fi_lending_stellar_pa.Controller.Wrapping.{unwrap}
use de_fi_lending_stellar_pa.Controller.Effects.{wrap-effect, unwrap-effect}
use de_fi_lending_stellar_pa.Controller.Runs.{wrap_op, unwrap_op, token_op, invoke}

abbrev pub wrapped_by : Event → ℤ
wrapped_by (wrap_event c a to n salt k) = n
wrapped_by (unwrap_event user n c a k) = pos 0
wrapped_by (supply_event user x n) = pos 0
wrapped_by (borrow_event user x y n) = pos 0
wrapped_by (repay_event user x n m) = pos 0
wrapped_by (withdraw_collateral_event user x n) = pos 0

abbrev pub unwrapped_by : Event → ℤ
unwrapped_by (wrap_event c a to n salt k) = pos 0
unwrapped_by (unwrap_event user n c a k) = n
unwrapped_by (supply_event user x n) = pos 0
unwrapped_by (borrow_event user x y n) = pos 0
unwrapped_by (repay_event user x n m) = pos 0
unwrapped_by (withdraw_collateral_event user x n) = pos 0

-- The amounts of the wrap events, and those of the unwrap events.
abbrev pub wrapped_total : List Event → ℤ
wrapped_total [] = pos 0
wrapped_total (x ∷ xs) = wrapped_by x +ℤ wrapped_total xs

abbrev pub unwrapped_total : List Event → ℤ
unwrapped_total [] = pos 0
unwrapped_total (x ∷ xs) = unwrapped_by x +ℤ unwrapped_total xs

pub record IsBacked (t : Address) (d : Deployment) : Type 0 where
  pub token : Token
  pub found : lookup t d.tokens ≡ some token
  pub sound : IsSound token
  pub wired : d.controller.wrapped_asset ≡ some t
  pub backed : or_zero token.total_supply +ℤ unwrapped_total d.events ≤ℤ wrapped_total d.events

-- An operation that leaves the tokens and the bridge alone.
pub elsewhere-IsBacked :
    (t : Address) (d d' : Deployment)
    → d'.tokens ≡ d.tokens
    → d'.controller.wrapped_asset ≡ d.controller.wrapped_asset
    → wrapped_total d'.events ≡ wrapped_total d.events
    → unwrapped_total d'.events ≡ unwrapped_total d.events
    → IsBacked t d
    → IsBacked t d'
elsewhere-IsBacked t d d' tokens wire up down v = record {
  token = v.token;
  found = rw tokens v.found;
  sound = v.sound;
  wired = rw wire v.wired;
  backed = rw (up, down) v.backed;
}

-- An operation that writes the wrapped token.
written-IsBacked :
    (t : Address) (d d' : Deployment) (s' : Token)
    → d'.tokens ≡ insert t s' d.tokens
    → d'.controller.wrapped_asset ≡ some t
    → IsSound s'
    → or_zero s'.total_supply +ℤ unwrapped_total d'.events ≤ℤ wrapped_total d'.events
    → IsBacked t d'
written-IsBacked t d d' s' tokens wire sound backed = record {
  token = s';
  found = rw (tokens, lookup-insert_self) refl;
  sound = sound;
  wired = wire;
  backed = backed;
}

-- The token at the address of the invariant is sound and covered.
IsBacked-at :
    (t : Address) (d : Deployment) (s : Token)
    → IsBacked t d
    → lookup t d.tokens ≡ some s
    → IsSound s × (or_zero s.total_supply +ℤ unwrapped_total d.events ≤ℤ wrapped_total d.events)
IsBacked-at t d s v found =
    let token : v.token ≡ s = ground (arith, v.found) in (rw token at v.sound, rw token at v.backed)

plus_nothing : (n : ℤ) → pos 0 +ℤ n ≡ n
plus_nothing n = grind int_laws

module _ (t : Address) (e : Env) (d : Deployment) {d' : Deployment} (v : IsBacked t d) where
  pub wrap-IsBacked :
      (host : Host) (given : List Attestation) (c a : ℕ) (n : ℤ) (to : Address) (salt k : ℕ)
      → invoke host e (wrap_op given c a n to salt k) d ≡ ok d'
      → IsBacked t d'
  unfolding invoke
  wrap-IsBacked host given c a n to salt k h =
      let (u, s, s', _, _, _, at_u, at_u', found, minted, tokens, events, _, _) =
        wrap-effect host e given c a n to salt k d h in
      let same : u ≡ t = ground (arith, v.wired) in
      let (sound, backed) = IsBacked-at t d s v (rw same at found) in
      let (_, grown, _, _, _, _) = mint-effect (enter e u) to n s minted in
      written-IsBacked t d d' s' (rw same at tokens) (rw same at at_u')
        (mint-IsSound (enter e u) to n s sound minted) (rw (events, grown) (omega int_laws))

  pub unwrap-IsBacked :
      (host : Host) (user : Address) (n : ℤ) (c a : ℕ)
      → invoke host e (unwrap_op user n c a) d ≡ ok d'
      → IsBacked t d'
  unfolding invoke
  unwrap-IsBacked host user n c a h = elim (Result-cases (unwrap e user n c a d)) [
    | inr (_, failed) ↦ absurd (ground arith)
    | inl ((d1, k), done) ↦
        let (u, s, s', _, _, at_u, found, burned, ctl, tokens, events) =
          unwrap-effect e user n d c a done in
        let same : u ≡ t = ground (arith, v.wired) in
        let (sound, backed) = IsBacked-at t d s v (rw same at found) in
        let (_, shrunk, _, _, _, _, _) = burn-effect (enter e u) user n s burned in
        let final : d1 ≡ d' = ground arith in
        rw final at (
          written-IsBacked t d d1 s' (rw same at tokens) (rw ctl v.wired)
            (burn-IsSound (enter e u) user n s sound burned) (rw (events, shrunk) (omega int_laws)))
  ]

  pub token-IsBacked :
      (host : Host) (u : Address) (op : Direct.Op)
      → invoke host e (token_op u op) d ≡ ok d'
      → IsBacked t d'
  unfolding invoke
  token-IsBacked host u op h =
      let (s, s', found, called, tokens, events, ctl) = token_op-effect in
      elim (Bool-cases (u == t)) [
        | inl equal ↦
            let same : u ≡ t = eq→≡ u t equal in
            let (sound, backed) = IsBacked-at t d s v (rw same at found) in
            let (sound', less) = invoke-shrinks e op s s' sound called in
            written-IsBacked t d d' s' (rw same at tokens) (rw ctl v.wired) sound'
              (rw events (omega int_laws))
        | inr other ↦ record {
          token = v.token;
          found = rw tokens (ground (arith, lookup-insert u t s' d.tokens, v.found));
          sound = v.sound;
          wired = rw ctl v.wired;
          backed = rw events v.backed;
        }
      ]
    where
      token_op-effect :
          (s s' : Token) × (lookup u d.tokens ≡ some s)
          × (Direct.invoke e op s ≡ ok s')
          × (d'.tokens ≡ insert u s' d.tokens)
          × (d'.events ≡ d.events)
          × (d'.controller ≡ d.controller)
      token_op-effect = ground arith

  -- The other entry points leave the token and the bridge alone.
  pub other-IsBacked :
      (x : Event)
      → (d'.tokens ≡ d.tokens) × (d'.controller ≡ d.controller) × (d'.events ≡ x ∷ d.events)
      → wrapped_by x ≡ pos 0
      → unwrapped_by x ≡ pos 0
      → IsBacked t d'
  other-IsBacked x (tokens, ctl, events) up down =
      elsewhere-IsBacked t d d' tokens (rw ctl refl) (rw (events, up) (plus_nothing _))
        (rw (events, down) (plus_nothing _)) v
