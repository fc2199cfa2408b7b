-- ===== src/Controller/Wrapping.antt =====
-- The bridge's side of the controller: `wrap`, `unwrap` and the nonce of an unwrap.
use de_fi_lending_stellar_pa.Prelude.{ℕ, List, [], ◌∷◌, ◌++◌}
use de_fi_lending_stellar_pa.Int.{ℤ}
use de_fi_lending_stellar_pa.Soroban.{
  Address, Result, ok, ◌>>=◌, ◌>>◌, Env, enter, require_auth, require_positive, amount_not_positive,
  to_be_bytes, from_be_bytes,
}
use de_fi_lending_stellar_pa.Wrapped.{mint, burn}
use de_fi_lending_stellar_pa.Controller.{require_not_paused, check_and_bump_nonce, check_mint_rate}
use de_fi_lending_stellar_pa.Controller.Payload.{Host}
use de_fi_lending_stellar_pa.Controller.Attest.{Attestation, require_bridge}
use de_fi_lending_stellar_pa.Controller.Deployment.{
  Deployment, wrap_event, unwrap_event, invoke_contract, wrapped_asset,
}

-- The zeros that `buf` keeps.
abbrev pub zeros_16 : List ℕ
zeros_16 = 0 ∷ 0 ∷ 0 ∷ 0 ∷ 0 ∷ 0 ∷ 0 ∷ 0 ∷ 0 ∷ 0 ∷ 0 ∷ 0 ∷ 0 ∷ 0 ∷ 0 ∷ 0 ∷ []

unfoldable pub gen_nonce : Env → ℕ
gen_nonce e = from_be_bytes 0 (to_be_bytes 8 e.sequence ++ (to_be_bytes 8 e.timestamp ++ zeros_16))

unfoldable pub wrap :
    Host → Env → List Attestation → ℕ → ℕ → ℤ → Address → ℕ → ℕ → Deployment → Result Deployment
wrap host e attestations chain_id source_addr amount to salt nonce d = do
  require_not_paused d.controller
  require_bridge host attestations chain_id source_addr amount to salt nonce d.controller
  bumped ← check_and_bump_nonce salt d.controller
  counted ← check_mint_rate e bumped
  wrapped ← wrapped_asset counted
  tokens ← invoke_contract d.tokens wrapped (mint (enter e wrapped) to amount)
  ok (record d {
    controller = counted;
    tokens = tokens;
    events = wrap_event chain_id source_addr to amount salt nonce ∷ d.events;
  })

unfoldable pub unwrap : Env → Address → ℤ → ℕ → ℕ → Deployment → Result (Deployment × ℕ)
unwrap e user amount chain_id source_addr d = do
  require_auth e user
  require_positive amount amount_not_positive
  require_not_paused d.controller
  wrapped ← wrapped_asset d.controller
  tokens ← invoke_contract d.tokens wrapped (burn (enter e wrapped) user amount)
  let nonce = gen_nonce e
  ok (
    record d {
      tokens = tokens;
      events = unwrap_event user amount chain_id source_addr nonce ∷ d.events;
    },
    nonce,
  )
