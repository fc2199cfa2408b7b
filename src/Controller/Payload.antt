-- ===== src/Controller/Payload.antt =====
-- What the attesters of a wrap sign: `build_canonical_payload` of the controller, and what the bytes
-- say of the fields.
use mathlib.Core.List.{append_assoc}
use de_fi_lending_stellar_pa.Prelude.{
  ℕ, ◌+◌, ◌<◌, ◌^◌, ◌≡◌, refl, ap, Bool, List, [], ◌∷◌, ◌++◌, length, length-append, All, arith,
}
use de_fi_lending_stellar_pa.Int.{ℤ, pos, negsuc, ◌+ℤ◌}
use de_fi_lending_stellar_pa.Soroban.{Address, rem_u64, u64_limit, to_le_bytes, to_be_bytes, IsByte}
use de_fi_lending_stellar_pa.Soroban.Bytes.{
  append-inj, All-append, to_le_bytes-IsByte, to_be_bytes-IsByte, to_le_bytes_injective,
  to_be_bytes_injective, length-to_le_bytes, length-to_be_bytes,
}

-- What the host computes for the contract: SHA-256, the check of an ed25519 signature (public key,
-- message, signature), and the XDR of an address.
pub record Host : Type 0 where
  pub sha256 : List ℕ → List ℕ
  pub ed25519_verify : ℕ → List ℕ → ℕ → Bool
  pub to_xdr : Address → List ℕ

-- "OWRP"
abbrev pub magic : List ℕ
magic = 79 ∷ 87 ∷ 82 ∷ 80 ∷ []

rem_u64-bound : (n : ℤ) → rem_u64 n < 256 ^ 8
unfolding rem_u64 u64_limit
rem_u64-bound (pos n) = omega arith
rem_u64-bound (negsuc n) = omega arith

rem_u64-wraps : (n : ℤ) → rem_u64 (n +ℤ pos u64_limit) ≡ rem_u64 n
unfolding rem_u64 u64_limit ◌+ℤ◌
rem_u64-wraps (pos n) = ground arith
rem_u64-wraps (negsuc n) = ground arith

magic-IsByte : All IsByte magic
magic-IsByte = (omega arith, (omega arith, (omega arith, (omega arith, tt))))

module _ (host : Host) where
  -- The cast `amount as i64` keeps the low 64 bits.
  unfoldable pub build_canonical_payload : ℕ → ℕ → ℤ → Address → ℕ → ℕ → List ℕ
  build_canonical_payload chain_id source_addr amount to salt nonce =
      magic
      ++ to_le_bytes 4 chain_id
      ++ to_be_bytes 32 source_addr
      ++ to_le_bytes 8 (rem_u64 amount)
      ++ host.to_xdr to
      ++ to_be_bytes 32 salt
      ++ to_le_bytes 8 nonce

  abbrev rest_of : ℕ → ℕ → ℤ → Address → ℕ → ℕ → List ℕ
  rest_of chain_id source_addr amount to salt nonce =
      to_le_bytes 4 chain_id
      ++ (to_be_bytes 32 source_addr
          ++ (to_le_bytes 8 (rem_u64 amount)
              ++ (host.to_xdr to ++ (to_be_bytes 32 salt ++ to_le_bytes 8 nonce))))

  payload-rest :
      (chain_id source_addr : ℕ) (amount : ℤ) (to : Address) (salt nonce : ℕ)
      → build_canonical_payload chain_id source_addr amount to salt nonce
        ≡ magic ++ rest_of chain_id source_addr amount to salt nonce
  unfolding build_canonical_payload
  payload-rest chain_id source_addr amount to salt nonce = simp append_assoc

  width_le : (w m n : ℕ) → length (to_le_bytes w m) ≡ length (to_le_bytes w n)
  width_le w m n = rw (length-to_le_bytes, length-to_le_bytes) refl

  width_be : (w m n : ℕ) → length (to_be_bytes w m) ≡ length (to_be_bytes w n)
  width_be w m n = rw (length-to_be_bytes, length-to_be_bytes) refl

  lengths :
      (xs ys : List ℕ) (s s' k k' : ℕ)
      → xs ++ (to_be_bytes 32 s ++ to_le_bytes 8 k) ≡ ys ++ (to_be_bytes 32 s' ++ to_le_bytes 8 k')
      → length xs ≡ length ys
  lengths xs ys s s' k k' same =
      let counted = ap length same in
      grind (arith, length-append, length-to_be_bytes, length-to_le_bytes)

  -- Every field but the address has a fixed width.
  abbrev pub FitsWidths : ℕ → ℕ → ℕ → ℕ → Type 0
  FitsWidths chain_id source_addr salt nonce =
      (chain_id < 256 ^ 4) × (source_addr < 256 ^ 32) × (salt < 256 ^ 32) × (nonce < 256 ^ 8)

  -- A payload fixes every field that it is built from, the amount only up to a multiple of 2^64, where
  -- the fields fit their widths and no two addresses have the same XDR.
  pub payload_injective :
      (c c' a a' : ℕ) (n n' : ℤ) (to to' : Address) (s s' k k' : ℕ)
      → FitsWidths c a s k
      → FitsWidths c' a' s' k'
      → ((x y : Address) → host.to_xdr x ≡ host.to_xdr y → x ≡ y)
      → build_canonical_payload c a n to s k ≡ build_canonical_payload c' a' n' to' s' k'
      → (c ≡ c') × (a ≡ a') × (rem_u64 n ≡ rem_u64 n') × (to ≡ to') × (s ≡ s') × (k ≡ k')
  payload_injective c c' a a' n n' to to' s s' k k' (fc, fa, fs, fk) (fc', fa', fs', fk') xdr same =
      let rest : magic ++ rest_of c a n to s k ≡ magic ++ rest_of c' a' n' to' s' k' =
        rw (payload-rest, payload-rest) at same in
      let (_, after_magic) = append-inj magic magic _ _ refl rest in
      let (ec, after_chain) =
        append-inj (to_le_bytes 4 c) (to_le_bytes 4 c') _ _ (width_le 4 c c') after_magic in
      let (ea, after_source) =
        append-inj (to_be_bytes 32 a) (to_be_bytes 32 a') _ _ (width_be 32 a a') after_chain in
      let (en, after_amount) =
        append-inj (to_le_bytes 8 (rem_u64 n)) (to_le_bytes 8 (rem_u64 n')) _ _
          (width_le 8 (rem_u64 n) (rem_u64 n')) after_source in
      let xdr_lengths : length (host.to_xdr to) ≡ length (host.to_xdr to') =
        lengths (host.to_xdr to) (host.to_xdr to') s s' k k' after_amount in
      let (eto, after_to) =
        append-inj (host.to_xdr to) (host.to_xdr to') _ _ (xdr_lengths) after_amount in
      let (es, ek) =
        append-inj (to_be_bytes 32 s) (to_be_bytes 32 s') _ _ (width_be 32 s s') after_to in
      (
        to_le_bytes_injective 4 c c' fc fc' ec,
        to_be_bytes_injective 32 a a' fa fa' ea,
        to_le_bytes_injective 8 (rem_u64 n) (rem_u64 n') (rem_u64-bound n) (rem_u64-bound n') en,
        xdr to to' eto,
        to_be_bytes_injective 32 s s' fs fs' es,
        to_le_bytes_injective 8 k k' fk fk' ek,
      )

  -- The payload is a byte string of 88 bytes and those of the address's XDR.
  pub payload-IsByte :
      (c a : ℕ) (n : ℤ) (to : Address) (s k : ℕ)
      → All IsByte (host.to_xdr to)
      → All IsByte (build_canonical_payload c a n to s k)
        × (length (build_canonical_payload c a n to s k) ≡ 88 + length (host.to_xdr to))
  payload-IsByte c a n to s k xdr = rw (payload-rest) (
    All-append IsByte magic (rest_of c a n to s k) magic-IsByte (
        All-append IsByte (to_le_bytes 4 c) _ (to_le_bytes-IsByte 4 c) (
          All-append IsByte (to_be_bytes 32 a) _ (to_be_bytes-IsByte 32 a) (
            All-append IsByte (to_le_bytes 8 (rem_u64 n)) _ (to_le_bytes-IsByte 8 (rem_u64 n)) (
              All-append IsByte (host.to_xdr to) _ xdr (
                All-append IsByte (to_be_bytes 32 s) _ (to_be_bytes-IsByte 32 s)
                  (to_le_bytes-IsByte 8 k)))))),
    grind (arith, length-append, length-to_be_bytes, length-to_le_bytes),
  )

  pub payload_wraps :
      (c a : ℕ) (n : ℤ) (to : Address) (s k : ℕ)
      → build_canonical_payload c a (n +ℤ pos u64_limit) to s k
        ≡ build_canonical_payload c a n to s k
  unfolding build_canonical_payload
  payload_wraps c a n to s k = rw (rem_u64-wraps n) refl
