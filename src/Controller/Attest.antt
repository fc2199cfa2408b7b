-- ===== src/Controller/Attest.antt =====
-- `require_bridge` of the controller: the attestations of a wrap against the bridge set.
use de_fi_lending_stellar_pa.Prelude.{
  ℕ, ◌+◌, ◌≤◌, ◌<◌, ◌≡◌, refl, inl, inr, Option-cases, true, false, some, not, List, [], ◌∷◌,
  length, get_elem?, ltb, arith,
}
use de_fi_lending_stellar_pa.Int.{ℤ, pos, negsuc, ◌+ℤ◌, leb_ℤ}
use de_fi_lending_stellar_pa.Soroban.{
  Address, Result, Result-cases, ok, ◌>>=◌, ◌>>◌, panic_if, expect, add_u32, u32_limit, u64_limit,
  bridge_not_set, not_enough_attestations, not_enough_valid_attestations, unsorted_attestations,
  invalid_key_index, bad_signature,
}
use de_fi_lending_stellar_pa.Pool.State.{contains}
use de_fi_lending_stellar_pa.Controller.{BridgeSet, Controller}
use de_fi_lending_stellar_pa.Controller.Admins.{IsDistinct}
use de_fi_lending_stellar_pa.Controller.Payload.{Host, build_canonical_payload, payload_wraps}

-- A key index and a signature.
abbrev pub Attestation : Type 0
Attestation = ℕ × ℕ

module _ (host : Host) where
  -- The loop over the attestations: how many are valid.
  unfoldable pub verify_attestations : List ℕ → List ℕ → ℤ → ℕ → List Attestation → Result ℕ
  verify_attestations keys hash last_index valid_count [] = ok valid_count
  verify_attestations keys hash last_index valid_count ((index, sig) ∷ rest) = do
    panic_if (leb_ℤ (pos index) last_index) unsorted_attestations
    bridge_pub ← expect (get_elem? keys index) invalid_key_index
    panic_if (not (host.ed25519_verify bridge_pub hash sig)) bad_signature
    count ← add_u32 valid_count 1
    verify_attestations keys hash (pos index) count rest

  unfoldable pub require_bridge :
      List Attestation → ℕ → ℕ → ℤ → Address → ℕ → ℕ → Controller → Result (Unit {0})
  require_bridge attestations chain_id source_addr amount to salt nonce s = do
    bridge ← expect s.bridge bridge_not_set
    panic_if (ltb (length attestations) bridge.threshold) not_enough_attestations
    let payload = build_canonical_payload host chain_id source_addr amount to salt nonce
    valid ← verify_attestations bridge.keys (host.sha256 payload) (negsuc 0) 0 attestations
    panic_if (ltb valid bridge.threshold) not_enough_valid_attestations

  -- Every attestation is a signature of the hash under the key at its index, and the indices increase.
  pub data IsAttested (keys hash : List ℕ) : ℤ → List Attestation → Type 0 where
    nobody : {last : ℤ} → IsAttested keys hash last []
    attested :
        {last : ℤ} {index sig key : ℕ} {rest : List Attestation}
        → leb_ℤ (pos index) last ≡ false
        → get_elem? keys index ≡ some key
        → host.ed25519_verify key hash sig ≡ true
        → IsAttested keys hash (pos index) rest
        → IsAttested keys hash last ((index, sig) ∷ rest)

  verify-step :
      (keys hash : List ℕ) (last : ℤ) (count n index sig : ℕ) (rest : List Attestation)
      → verify_attestations keys hash last count ((index, sig) ∷ rest) ≡ ok n
      → (key : ℕ) × (leb_ℤ (pos index) last ≡ false)
        × (get_elem? keys index ≡ some key)
        × (host.ed25519_verify key hash sig ≡ true)
        × (verify_attestations keys hash (pos index) (count + 1) rest ≡ ok n)
  unfolding verify_attestations
  verify-step keys hash last count n index sig rest h = ground arith

  verify_attestations-IsAttested :
      (keys hash : List ℕ) (last : ℤ) (count n : ℕ) (given : List Attestation)
      → verify_attestations keys hash last count given ≡ ok n
      → IsAttested keys hash last given × (n ≡ count + length given)
  unfolding verify_attestations
  verify_attestations-IsAttested keys hash last count n [] h = (nobody, ground arith)
  verify_attestations-IsAttested keys hash last count n ((index, sig) ∷ rest) h =
      let (key, later, found, valid, after) = verify-step keys hash last count n index sig rest h in
      let (v, counted) =
        verify_attestations-IsAttested keys hash (pos index) (count + 1) n rest after in
      (attested later found valid v, omega arith)

  verify_attestations_complete :
      (keys hash : List ℕ) (last : ℤ) (count : ℕ) (given : List Attestation)
      → IsAttested keys hash last given
      → count + length given < u32_limit
      → verify_attestations keys hash last count given ≡ ok (count + length given)
  unfolding verify_attestations
  verify_attestations_complete keys hash last count [] nobody room = ground arith
  verify_attestations_complete keys hash last count ((i, sig) ∷ rest)
        (attested {key} later found valid v) room =
      let run = verify_attestations_complete keys hash (pos i) (count + 1) rest v (omega arith) in
      rw (later, found, valid) (ground arith)

  require_bridge-effect :
      (given : List Attestation) (c a : ℕ) (n : ℤ) (to : Address) (salt k : ℕ) (s : Controller)
      → require_bridge given c a n to salt k s ≡ ok tt
      → (bridge : BridgeSet) × (m : ℕ) × (s.bridge ≡ some bridge)
        × (bridge.threshold ≤ length given)
        × (verify_attestations bridge.keys
              (host.sha256 (build_canonical_payload host c a n to salt k))
              (negsuc 0)
              0
              given
            ≡ ok m)
  unfolding require_bridge
  require_bridge-effect given c a n to salt k s h = elim (Option-cases s.bridge) [
    | inl missing ↦ absurd (ground arith)
    | inr (bridge, stored) ↦
        elim (Result-cases (
          verify_attestations bridge.keys
            (host.sha256 (build_canonical_payload host c a n to salt k)) (negsuc 0) 0 given)) [
              | inr (x, failed) ↦ absurd (ground arith)
              | inl (m, run) ↦ (bridge, m, stored, ground arith, run)
            ]
  ]

  pub require_bridge-IsAttested :
      (given : List Attestation) (c a : ℕ) (n : ℤ) (to : Address) (salt k : ℕ) (s : Controller)
      → require_bridge given c a n to salt k s ≡ ok tt
      → (bridge : BridgeSet) × (s.bridge ≡ some bridge)
        × (bridge.threshold ≤ length given)
        × IsAttested bridge.keys
            (host.sha256 (build_canonical_payload host c a n to salt k))
            (negsuc 0)
            given
  require_bridge-IsAttested given c a n to salt k s h =
      let (bridge, m, stored, enough, run) = require_bridge-effect given c a n to salt k s h in
      let (v, counted) = verify_attestations-IsAttested _ _ (negsuc 0) 0 m given run in
      (bridge, stored, enough, v)

  -- Fewer than 2^32 attestations with increasing key indices, each a valid signature of the payload's
  -- hash, and at least as many as the bridge's threshold, pass the check: its loop goes through all of
  -- them.
  pub require_bridge_complete :
      (given : List Attestation) (c a : ℕ) (n : ℤ) (to : Address) (salt k : ℕ) (s : Controller)
      {bridge : BridgeSet}
      → s.bridge ≡ some bridge
      → bridge.threshold ≤ length given
      → length given < u32_limit
      → IsAttested bridge.keys
          (host.sha256 (build_canonical_payload host c a n to salt k))
          (negsuc 0)
          given
      → require_bridge given c a n to salt k s ≡ ok tt
  unfolding require_bridge
  require_bridge_complete given c a n to salt k s stored enough room v =
      let run = verify_attestations_complete _ _ (negsuc 0) 0 given v (omega arith) in
      rw stored (ground arith)

  -- The same attestations serve amounts that differ by 2^64.
  pub attestation_reused :
      (given : List Attestation) (c a : ℕ) (n : ℤ) (to : Address) (salt k : ℕ) (s : Controller)
      → require_bridge given c a (n +ℤ pos u64_limit) to salt k s
        ≡ require_bridge given c a n to salt k s
  unfolding require_bridge
  attestation_reused given c a n to salt k s = rw payload_wraps refl

-- The positions of the keys that signed.
abbrev pub indices : List Attestation → List ℕ
indices [] = []
indices ((index, _) ∷ rest) = index ∷ indices rest

module _ (host : Host) (keys hash : List ℕ) where
  unused_index :
      (i : ℕ) (last : ℤ) (given : List Attestation)
      → leb_ℤ (pos i) last ≡ true
      → IsAttested host keys hash last given
      → contains i (indices given) ≡ false
  unfolding contains
  unused_index i last [] h nobody = refl
  unused_index i last ((j, sig) ∷ rest) h (attested later found valid v) =
      ground (arith, unused_index i (pos j) rest (ground arith) v)

  pub indices-IsDistinct :
      (last : ℤ) (given : List Attestation)
      → IsAttested host keys hash last given
      → IsDistinct (indices given)
  indices-IsDistinct last [] nobody = tt
  indices-IsDistinct last ((j, sig) ∷ rest) (attested later found valid v) =
      (unused_index j (pos j) rest (ground arith) v, indices-IsDistinct (pos j) rest v)
