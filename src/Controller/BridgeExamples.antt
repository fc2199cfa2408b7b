-- ===== src/Controller/BridgeExamples.antt =====
-- Wraps and unwraps at concrete inputs.
use de_fi_lending_stellar_pa.Prelude.{
  ℕ, ◌≤◌, ◌≡◌, refl, true, false, some, List, [], ◌∷◌, length, All, arith, nat_equality,
}
use de_fi_lending_stellar_pa.Int.{pos, negsuc, ◌+ℤ◌, ◌-ℤ◌, ◌≤ℤ◌}
use de_fi_lending_stellar_pa.Map.{lookup, insert}
use de_fi_lending_stellar_pa.Map.Sum.{sum_where}
use de_fi_lending_stellar_pa.Soroban.{
  Address, ok, err, Error, Env, in_i128, u64_limit, run, u32_limit, unsorted_attestations, is_some,
}
use de_fi_lending_stellar_pa.Wrapped as Wrapped
use de_fi_lending_stellar_pa.Wrapped.{Token, mint_event, burn_event}
use de_fi_lending_stellar_pa.Wrapped.Direct as Direct
use de_fi_lending_stellar_pa.Wrapped.Supply.{IsSound}
use de_fi_lending_stellar_pa.Controller.Redeem.{unwrap_goes_through}
use de_fi_lending_stellar_pa.Controller.{
  BridgeSet, require_not_paused, check_and_bump_nonce, check_mint_rate,
}
use de_fi_lending_stellar_pa.Controller.Admins.{IsDistinct, set_paused_op}
use de_fi_lending_stellar_pa.Controller.Attest.{
  require_bridge, verify_attestations, IsAttested, indices,
}
use de_fi_lending_stellar_pa.Controller.Deployment.{Deployment, unwrap_event, wrapped_asset}
use de_fi_lending_stellar_pa.Controller.Wrapping.{wrap, unwrap, gen_nonce}
use de_fi_lending_stellar_pa.Controller.Runs.{
  Op, wrap_op, unwrap_op, administer_op, token_op, invoke,
}
use de_fi_lending_stellar_pa.Controller.Backing.{wrapped_total, unwrapped_total}
use de_fi_lending_stellar_pa.Controller.Sources.{salts, IsAttestedIn}
use de_fi_lending_stellar_pa.Controller.Bridged.{history_bridged}
use de_fi_lending_stellar_pa.Controller.Inflation.{wrap_inflates}
use de_fi_lending_stellar_pa.Controller.Minting.{wrap_mints}
use de_fi_lending_stellar_pa.Controller.Replay.{wrap_once}
use de_fi_lending_stellar_pa.Controller.ExampleBridge.{
  host, env, empty_token, start, given, full_token, wrapped, payload,
}

wrap_runs : wrap host env given 1 9 (pos 40) 5 77 3 start ≡ ok wrapped
unfolding wrap require_not_paused require_bridge verify_attestations check_and_bump_nonce
    check_mint_rate wrapped_asset Wrapped.mint lookup insert in_i128 u32_limit ◌+ℤ◌
wrap_runs = refl

wrap_unsorted :
    wrap host env ((2, 103) ∷ (2, 103) ∷ []) 1 9 (pos 40) 5 77 3 start ≡ err unsorted_attestations
unfolding wrap require_not_paused require_bridge verify_attestations u32_limit
wrap_unsorted = refl

wrap_mints_example :
    (b : BridgeSet) × (t : Address) × (s s' : Token) × (start.controller.bridge ≡ some b)
    × (start.controller.wrapped_asset ≡ some t)
    × (b.threshold ≤ length given)
    × IsDistinct (indices given)
    × IsAttested host b.keys (host.sha256 payload) (negsuc 0) given
    × (is_some (lookup 77 start.controller.nonces) ≡ false)
    × (lookup t start.tokens ≡ some s)
    × (lookup t wrapped.tokens ≡ some s')
    × (pos 1 ≤ℤ pos 40)
    × (Wrapped.balance 5 s' ≡ Wrapped.balance 5 s +ℤ pos 40)
    × (Wrapped.total_supply s' ≡ Wrapped.total_supply s +ℤ pos 40)
wrap_mints_example = wrap_mints host env given 1 9 (pos 40) 5 77 3 start wrap_runs

abbrev replay : List (Env × Op)
replay =
    (env, wrap_op given 1 9 (pos 40) 5 77 3)
    ∷ (env, unwrap_op 5 (pos 15) 1 9)
    ∷ (env, token_op 31 (Direct.set_minter_op 6))
    ∷ (env, token_op 31 (Direct.burn_op 5 (pos 10)))
    ∷ (env, administer_op (set_paused_op true))
    ∷ []

wrap_once_example :
    (x : Error) × (wrap host env given 1 9 (pos 40) 5 77 4 (run (invoke host) replay wrapped)
      ≡ err x)
wrap_once_example =
    wrap_once host host env env given given 1 1 9 9 (pos 40) (pos 40) 5 5 77 3 4 start replay
      wrap_runs

empty_token-IsSound : IsSound empty_token
unfolding sum_where
empty_token-IsSound = record {
  supplied = refl;
  non_negative = tt;
  unopened = λ closed. absurd (ground arith);
}

history_bridged_example :
    (token' : Token) × (lookup 31 (run (invoke host) replay start).tokens ≡ some token')
    × (Wrapped.total_supply token' +ℤ unwrapped_total (run (invoke host) replay start).events
        ≤ℤ wrapped_total (run (invoke host) replay start).events)
    × (unwrapped_total (run (invoke host) replay start).events
        ≤ℤ wrapped_total (run (invoke host) replay start).events)
    × All (IsAttestedIn host replay start) (run (invoke host) replay start).events
    × IsDistinct (salts (run (invoke host) replay start).events)
unfolding lookup Wrapped.total_supply
history_bridged_example =
    history_bridged host 31 empty_token start replay refl refl refl empty_token-IsSound refl refl

abbrev spent_token : Token
spent_token = record full_token {
  balances = (5, pos 25) ∷ [];
  total_supply = some (pos 25);
  events = burn_event 5 (pos 15) ∷ mint_event 5 (pos 40) ∷ [];
}

abbrev nonce : ℕ
nonce = gen_nonce env

abbrev unwrapped : Deployment
unwrapped = record wrapped {
  events = unwrap_event 5 (pos 15) 1 9 nonce ∷ wrapped.events;
  tokens = (31, spent_token) ∷ [];
}

unwrap_runs : unwrap env 5 (pos 15) 1 9 wrapped ≡ ok (unwrapped, nonce)
unfolding unwrap require_not_paused wrapped_asset Wrapped.burn lookup insert in_i128 ◌-ℤ◌
unwrap_runs = refl

abbrev later_token : Token
later_token = record spent_token {
  balances = (5, pos 18) ∷ [];
  total_supply = some (pos 18);
  events = burn_event 5 (pos 7) ∷ spent_token.events;
}

-- A second unwrap in the same ledger.
unwrap_again :
    unwrap env 5 (pos 7) 1 10 unwrapped
    ≡ ok (
      record unwrapped {
        events = unwrap_event 5 (pos 7) 1 10 nonce ∷ unwrapped.events;
        tokens = (31, later_token) ∷ [];
      },
      nonce,
    )
unfolding unwrap require_not_paused wrapped_asset Wrapped.burn lookup insert in_i128 ◌-ℤ◌
unwrap_again = refl

-- The attestations of a wrap of 40 mint 40 and 2^64 instead.
wrap_inflates_example :
    (d'' : Deployment) × (s'' : Token) × (wrap host env given 1 9
        (pos 40 +ℤ pos u64_limit)
        5
        77
        3
        start
      ≡ ok d'')
    × (lookup 31 d''.tokens ≡ some s'')
    × (Wrapped.balance 5 s'' ≡ Wrapped.balance 5 empty_token +ℤ (pos 40 +ℤ pos u64_limit))
unfolding lookup Wrapped.balance Wrapped.total_supply in_i128 u64_limit ◌+ℤ◌
wrap_inflates_example =
    wrap_inflates host env given 1 9 (pos 40) 5 77 3 start 31 empty_token wrap_runs refl refl refl
      refl

full_token-IsSound : IsSound full_token
unfolding sum_where ◌+ℤ◌
full_token-IsSound = record {
  supplied = refl;
  non_negative = (omega arith, tt);
  unopened = λ closed. absurd (ground arith);
}

unwrap_goes_through_example :
    (d' : Deployment) × (unwrap env 5 (pos 15) 1 9 wrapped ≡ ok (d', gen_nonce env))
unfolding lookup Wrapped.balance Wrapped.total_supply in_i128
unwrap_goes_through_example =
    unwrap_goes_through env 5 (pos 15) 1 9 wrapped 31 full_token refl refl refl full_token-IsSound
      refl refl (omega arith) (omega arith)
