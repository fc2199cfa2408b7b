-- ===== src/Controller/Bridged.antt =====
-- The wrapped token against the bridge's events, through every history of the controller.
use mathlib.Core.List.{append-nil}
use de_fi_lending_stellar_pa.Prelude.{
  ℕ, ◌≡◌, refl, sym, ap, subst, ◌∙◌, true, some, List, [], ◌++◌, All, arith, nat_equality, inl, inr,
}
use de_fi_lending_stellar_pa.Int.{pos, ◌+ℤ◌, ◌≤ℤ◌, int_laws}
use de_fi_lending_stellar_pa.Map.{lookup}
use de_fi_lending_stellar_pa.Map.Sum.{or_zero, sum_where_nonneg}
use de_fi_lending_stellar_pa.Soroban.{Address, Result-cases, is_some, ok, Env, run, run_invariant}
use de_fi_lending_stellar_pa.Wrapped as Wrapped
use de_fi_lending_stellar_pa.Wrapped.{Token}
use de_fi_lending_stellar_pa.Wrapped.Supply.{any_account, IsSound}
use de_fi_lending_stellar_pa.Controller.{Controller, initialize}
use de_fi_lending_stellar_pa.Controller.Admins as Admins
use de_fi_lending_stellar_pa.Controller.Admins.{
  IsDistinct, set_paused_op, set_mint_rate_limit_op, propose_bridge_op, set_bridge_op,
  execute_bridge_op, add_admin_op, remove_admin_op, set_threshold_op, nonce_op, mint_op,
}
use de_fi_lending_stellar_pa.Controller.Payload.{Host}
use de_fi_lending_stellar_pa.Controller.Deployment.{
  Deployment, supply_event, borrow_event, repay_event, withdraw_collateral_event,
}
use de_fi_lending_stellar_pa.Controller.Lending.{repay, withdraw_collateral}
use de_fi_lending_stellar_pa.Controller.Effects.{
  supply_collateral-effect, borrow-effect, repay-effect, withdraw_collateral-effect,
}
use de_fi_lending_stellar_pa.Controller.Runs.{
  Op, wrap_op, unwrap_op, supply_collateral_op, borrow_op, repay_op, withdraw_collateral_op,
  initialize_op, administer_op, token_op, pool_op, vault_op, oracle_op, invoke,
}
use de_fi_lending_stellar_pa.Controller.Replay.{invoke-keeps}
use de_fi_lending_stellar_pa.Controller.Sources.{salts, IsAttestedIn}
use de_fi_lending_stellar_pa.Controller.Traced.{IsSalted, invoke-IsSalted, run-IsAttestedIn}
use de_fi_lending_stellar_pa.Controller.Kept.{invoke-IsKept}
use de_fi_lending_stellar_pa.Controller.Backing.{
  IsBacked, wrapped_total, unwrapped_total, elsewhere-IsBacked, wrap-IsBacked, unwrap-IsBacked,
  token-IsBacked, other-IsBacked,
}

initialize_opened :
    (e : Env) (admin : Address) (keys : List ℕ) (n : ℕ) (w pool vault oracle : Address)
    (s s' : Controller)
    → is_some s.admin_set ≡ true
    → initialize e admin keys n w pool vault oracle s ≡ ok s'
    → is_some s'.admin_set ≡ true
unfolding initialize
initialize_opened e admin keys n w pool vault oracle s s' opened h = ground arith

-- A controller that has admins cannot be initialised again.
initialize_closed :
    (host : Host) (e : Env) (admin : Address) (keys : List ℕ) (n : ℕ)
    (w pool vault oracle : Address) (d : Deployment) {d' : Deployment}
    → is_some d.controller.admin_set ≡ true
    → invoke host e (initialize_op admin keys n w pool vault oracle) d ≡ ok d'
    → ⊥
unfolding invoke initialize
initialize_closed host e admin keys n w pool vault oracle d opened h = absurd (ground arith)

invoke-IsBacked :
    (t : Address) (host : Host) (e : Env) (op : Op) (d d' : Deployment)
    → is_some d.controller.admin_set ≡ true
    → IsBacked t d
    → invoke host e op d ≡ ok d'
    → IsBacked t d'
unfolding invoke
invoke-IsBacked t host e (wrap_op given c a n to salt k) d d' o v h =
    wrap-IsBacked t e d v host given c a n to salt k h
invoke-IsBacked t host e (unwrap_op user n c a) d d' o v h =
    unwrap-IsBacked t e d v host user n c a h
invoke-IsBacked t host e (supply_collateral_op user x n) d d' o v h =
    let (_, _, _, _, _, _, _, _, _, _, _, _, done) = supply_collateral-effect e user n d x h in
    other-IsBacked t e d v (supply_event user x n) (rw done (refl, refl, refl)) refl refl
invoke-IsBacked t host e (borrow_op user x n y m) d d' o v h =
    let (_, _, _, _, _, _, _, _, _, _, _, _, _, done) = borrow-effect e user n d x y m h in
    other-IsBacked t e d v (borrow_event user x y m) (rw done (refl, refl, refl)) refl refl
invoke-IsBacked t host e (repay_op user x n) d d' o v h = elim (Result-cases (repay e user x n d)) [
  | inr (_, failed) ↦ absurd (ground arith)
  | inl ((d1, r), run) ↦
      let (_, _, _, _, _, _, done) = repay-effect e user n d x run in
      let final : d1 ≡ d' = ground arith in
      other-IsBacked t e d v (repay_event user x n r) (rw (sym final, done) (refl, refl, refl)) refl
        refl
]
invoke-IsBacked t host e (withdraw_collateral_op user x n) d d' o v h =
    elim (Result-cases (withdraw_collateral e user x n d)) [
      | inr (_, failed) ↦ absurd (ground arith)
      | inl ((d1, r), run) ↦
          let (_, _, _, _, _, _, _, _, done) = withdraw_collateral-effect e user n d x run in
          let final : d1 ≡ d' = ground arith in
          other-IsBacked t e d v (withdraw_collateral_event user x n)
            (rw (sym final, done) (refl, refl, refl)) refl refl
    ]
invoke-IsBacked t host e (initialize_op admin keys n w pool vault oracle) d d' o v h =
    absurd (initialize_closed host e admin keys n w pool vault oracle d o h)
invoke-IsBacked t host e (administer_op op) d d' o v h =
    elim (Result-cases (Admins.invoke e op d.controller)) [
      | inr (_, failed) ↦ absurd (ground arith)
      | inl (s, run) ↦
          let done : d' ≡ record d { controller = s } = ground arith in
          elsewhere-IsBacked t d d' (rw done refl)
            (rw done ((invoke-IsKept e op d.controller s run).wired)) (rw done refl) (rw done refl)
            v
    ]
invoke-IsBacked t host e (token_op u op) d d' o v h = token-IsBacked t e d v host u op h
invoke-IsBacked t host e (pool_op u op) d d' o v h =
    elsewhere-IsBacked t d d' (ground arith) (ground arith) (ground arith) (ground arith) v
invoke-IsBacked t host e (vault_op u op) d d' o v h =
    elsewhere-IsBacked t d d' (ground arith) (ground arith) (ground arith) (ground arith) v
invoke-IsBacked t host e (oracle_op u op) d d' o v h =
    elsewhere-IsBacked t d d' (ground arith) (ground arith) (ground arith) (ground arith) v

-- What every call keeps of the bridge, once the controller has admins.
record IsBridged (t : Address) (d : Deployment) : Type 0 where
  pub opened : is_some d.controller.admin_set ≡ true
  pub backing : IsBacked t d
  pub salted : IsSalted d

invoke-IsBridged :
    (t : Address) (host : Host) (e : Env) (op : Op) (d d' : Deployment)
    → IsBridged t d
    → invoke host e op d ≡ ok d'
    → IsBridged t d'
invoke-IsBridged t host e op d d' v h = record {
  opened =
      invoke-keeps host (λ s. is_some s.admin_set ≡ true)
        (λ e op s s' o run. (invoke-IsKept e op s s' run).opened o) initialize_opened e op d d'
        v.opened h;
  backing = invoke-IsBacked t host e op d d' v.opened v.backing h;
  salted = invoke-IsSalted host e op d d' v.salted h;
}

-- However the controller, its initialisation and administration included, and the contracts that
-- it calls are called, by whomever, after a launch with an initialised controller, no events, and
-- as the wrapped asset a token with sound books and no supply, as long as nobody mints past the
-- controller: what is in circulation and the amounts of the unwrap events add up to no more than
-- the amounts of the wrap events. Each wrap event comes from a call of `wrap` with attestations of
-- its payload, at least as many as the threshold of the bridge set in force at that call, each a
-- signature under the key at its index, and no two wrap events have the same salt.
pub history_bridged :
    (host : Host) (t : Address) (token : Token) (d : Deployment) (calls : List (Env × Op))
    → is_some d.controller.admin_set ≡ true
    → d.controller.wrapped_asset ≡ some t
    → lookup t d.tokens ≡ some token
    → IsSound token
    → Wrapped.total_supply token ≡ pos 0
    → d.events ≡ []
    → let d' = run (invoke host) calls d in
      (token' : Token) × (lookup t d'.tokens ≡ some token')
      × (Wrapped.total_supply token' +ℤ unwrapped_total d'.events ≤ℤ wrapped_total d'.events)
      × (unwrapped_total d'.events ≤ℤ wrapped_total d'.events)
      × All (IsAttestedIn host calls d) d'.events
      × IsDistinct (salts d'.events)
unfolding Wrapped.total_supply
history_bridged host t token d calls opened wired found sound empty quiet =
    let start : IsBacked t d = record {
      token = token;
      found = found;
      sound = sound;
      wired = wired;
      backed = rw (empty, quiet) (omega int_laws);
    } in
    let unsalted : IsSalted d = record { distinct = rw quiet tt; used = rw quiet tt } in
    let all : IsBridged t (run (invoke host) calls d) =
      run_invariant (invoke host) (IsBridged t) (invoke-IsBridged t host) calls d
        (record { opened = opened; backing = start; salted = unsalted }) in
    let v = all.backing in
    let some_left : pos 0 ≤ℤ or_zero v.token.total_supply =
      rw (v.sound.supplied) at
        (sum_where_nonneg any_account v.token.balances v.sound.non_negative) in
    let covered = v.backed in
    let (new, added, attested) = run-IsAttestedIn host calls d in
    let whole : new ≡ (run (invoke host) calls d).events =
      sym (append-nil new) ∙ sym (ap (λ xs. new ++ xs) quiet) ∙ sym added in
    (
      v.token,
      v.found,
      v.backed,
      omega int_laws,
      subst (All (IsAttestedIn host calls d)) whole attested,
      all.salted.distinct,
    )
