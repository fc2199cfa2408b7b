-- ===== src/Controller/Inflation.antt =====
-- The amount of a wrap against the attestations: the payload holds its low 64 bits only.
use de_fi_lending_stellar_pa.Prelude.{
  ℕ, ◌≡◌, refl, ◌∙◌, subst, true, some, List, ◌∷◌, arith, nat_equality, inl, inr,
}
use de_fi_lending_stellar_pa.Int.{ℤ, pos, ◌+ℤ◌, ◌≤ℤ◌, int_laws}
use de_fi_lending_stellar_pa.Map.{lookup, insert, lookup-insert_self}
use de_fi_lending_stellar_pa.Map.Sum.{amount_at, or_zero}
use de_fi_lending_stellar_pa.Soroban.{Address, Result-cases, ok, Env, enter, in_i128, u64_limit}
use de_fi_lending_stellar_pa.Wrapped.{Token, mint, balance, total_supply}
use de_fi_lending_stellar_pa.Wrapped.Supply.{mint-effect}
use de_fi_lending_stellar_pa.Controller.{
  Controller, require_not_paused, check_and_bump_nonce, check_mint_rate,
}
use de_fi_lending_stellar_pa.Controller.Payload.{Host}
use de_fi_lending_stellar_pa.Controller.Attest.{Attestation, require_bridge, attestation_reused}
use de_fi_lending_stellar_pa.Controller.Deployment.{Deployment, wrap_event, wrapped_asset}
use de_fi_lending_stellar_pa.Controller.Wrapping.{wrap}
use de_fi_lending_stellar_pa.Controller.Effects.{
  wrap-steps, check_and_bump_nonce-effect, check_mint_rate-effect,
}

-- Where one amount can be minted, so can any other that the range allows.
mint-runs :
    (e : Env) (to : Address) (n m : ℤ) (s : Token) {s' : Token}
    → mint e to n s ≡ ok s'
    → pos 1 ≤ℤ m
    → in_i128 (amount_at to s.balances +ℤ m) ≡ true
    → in_i128 (or_zero s.total_supply +ℤ m) ≡ true
    → (s'' : Token) × (mint e to m s ≡ ok s'')
unfolding mint
mint-runs e to n m s h positive room room' = elim (Result-cases (mint e to m s)) [
  | inl done ↦ done
  | inr (x, failed) ↦ absurd (ground arith)
]

large-positive : (n : ℤ) → pos 1 ≤ℤ n → pos 1 ≤ℤ n +ℤ pos u64_limit
large-positive n h = omega int_laws

module _ (host : Host) (e : Env) (given : List Attestation) (c a : ℕ) (n : ℤ) (to : Address)
    (salt k : ℕ) (d : Deployment) where
  wrap-unpaused :
      {d' : Deployment}
      → wrap host e given c a n to salt k d ≡ ok d'
      → require_not_paused d.controller ≡ ok tt
  unfolding wrap
  wrap-unpaused h = ground arith

  wrap-runs :
      (bumped counted : Controller) (t : Address) (s s' : Token)
      → require_not_paused d.controller ≡ ok tt
      → require_bridge host given c a n to salt k d.controller ≡ ok tt
      → check_and_bump_nonce salt d.controller ≡ ok bumped
      → check_mint_rate e bumped ≡ ok counted
      → counted.wrapped_asset ≡ some t
      → lookup t d.tokens ≡ some s
      → mint (enter e t) to n s ≡ ok s'
      → wrap host e given c a n to salt k d
        ≡ ok (record d {
          controller = counted;
          tokens = insert t s' d.tokens;
          events = wrap_event c a to n salt k ∷ d.events;
        })
  unfolding wrap wrapped_asset
  wrap-runs bumped counted t s s' p b bump count at_t found minted =
      rw (p, b, bump, count, at_t, found, minted) refl

-- The wrap of 2^64 more.
abbrev Inflated :
    Host
    → Env
    → List Attestation
    → ℕ
    → ℕ
    → ℤ
    → Address
    → ℕ
    → ℕ
    → Deployment
    → Address
    → Token
    → Type 0
Inflated host e given c a m to salt k d t s =
    (d'' : Deployment) × (s'' : Token) × (wrap host e given c a m to salt k d ≡ ok d'')
    × (lookup t d''.tokens ≡ some s'')
    × (balance to s'' ≡ balance to s +ℤ m)

inflated :
    (host : Host) (e : Env) (given : List Attestation) (c a : ℕ) (n : ℤ) (to : Address) (salt k : ℕ)
    (d : Deployment) (bumped counted : Controller) (t : Address) (s s' : Token)
    → require_not_paused d.controller ≡ ok tt
    → require_bridge host given c a n to salt k d.controller ≡ ok tt
    → check_and_bump_nonce salt d.controller ≡ ok bumped
    → check_mint_rate e bumped ≡ ok counted
    → counted.wrapped_asset ≡ some t
    → lookup t d.tokens ≡ some s
    → mint (enter e t) to n s ≡ ok s'
    → in_i128 (balance to s +ℤ (n +ℤ pos u64_limit)) ≡ true
    → in_i128 (total_supply s +ℤ (n +ℤ pos u64_limit)) ≡ true
    → Inflated host e given c a (n +ℤ pos u64_limit) to salt k d t s
unfolding balance total_supply
inflated host e given c a n to salt k d bumped counted t s s' p b bump count at_t found minted room
      room' =
    let m = n +ℤ pos u64_limit in
    let (_, _, positive, _, _, _) = mint-effect (enter e t) to n s minted in
    let (s'', minted') =
      mint-runs (enter e t) to n m s minted (large-positive n positive) room room' in
    let reused = attestation_reused host given c a n to salt k d.controller ∙ b in
    let (balances, _, _, _, _, _) = mint-effect (enter e t) to m s minted' in
    (
      _,
      s'',
      wrap-runs host e given c a m to salt k d bumped counted t s s'' p reused bump count at_t found
          minted',
      lookup-insert_self t s'' d.tokens,
      rw (balances, lookup-insert_self) refl,
    )

-- Attestations that let an amount be wrapped let 2^64 more be wrapped in its place, if the balance and
-- the supply stay within an `i128`: the attesters sign the low 64 bits of the amount only.
pub wrap_inflates :
    (host : Host) (e : Env) (given : List Attestation) (c a : ℕ) (n : ℤ) (to : Address) (salt k : ℕ)
    (d : Deployment) {d' : Deployment} (t : Address) (s : Token)
    → wrap host e given c a n to salt k d ≡ ok d'
    → d.controller.wrapped_asset ≡ some t
    → lookup t d.tokens ≡ some s
    → in_i128 (balance to s +ℤ (n +ℤ pos u64_limit)) ≡ true
    → in_i128 (total_supply s +ℤ (n +ℤ pos u64_limit)) ≡ true
    → (d'' : Deployment) × (s'' : Token) × (wrap host e given c a (n +ℤ pos u64_limit) to salt k d
        ≡ ok d'')
      × (lookup t d''.tokens ≡ some s'')
      × (balance to s'' ≡ balance to s +ℤ (n +ℤ pos u64_limit))
wrap_inflates host e given c a n to salt k d t s h at_t found room room' =
    let (bumped, counted, u, s1, s', b, bump, count, at_u, found', minted, done) =
      wrap-steps host e given c a n to salt k d h in
    let kept = (check_and_bump_nonce-effect salt d.controller bump).2 in
    let kept' = (check_mint_rate-effect e bumped count).1 in
    let same : u ≡ t = ground arith in
    let same_token : s1 ≡ s = ground arith in
    let here : Inflated host e given c a (n +ℤ pos u64_limit) to salt k d u s1 =
      inflated host e given c a n to salt k d bumped counted u s1 s'
        (wrap-unpaused host e given c a n to salt k d h) b bump count at_u found' minted
        (rw same_token room) (rw same_token room') in
    let m = n +ℤ pos u64_limit in
    subst (Inflated host e given c a m to salt k d t) same_token
      (subst (λ v. Inflated host e given c a m to salt k d v s1) same here)
