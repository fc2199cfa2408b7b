-- ===== src/Soroban/Bytes.antt =====
-- Byte strings: `to_le_bytes` and `to_be_bytes` of unsigned integers, `BytesN::to_array` and
-- `BytesN::from_array`. A `BytesN` is the number that its bytes spell, the highest first.
use mathlib.Core.List.{append_assoc}
use de_fi_lending_stellar_pa.Prelude.{
  ℕ, zero, suc, ◌+◌, ◌*◌, ◌/◌, ◌%◌, ◌^◌, ◌<◌, ◌≡◌, refl, sym, ap, ◌∙◌, List, [], ◌∷◌, ◌++◌, length,
  length-append, All, arith,
}

-- A byte string has numbers below 256.
abbrev pub IsByte : ℕ → Type 0
IsByte n = n < 256

unfoldable pub to_le_bytes : ℕ → ℕ → List ℕ
to_le_bytes zero n = []
to_le_bytes (suc w) n = n % 256 ∷ to_le_bytes w (n / 256)

unfoldable pub to_be_bytes : ℕ → ℕ → List ℕ
to_be_bytes zero n = []
to_be_bytes (suc w) n = to_be_bytes w (n / 256) ++ n % 256 ∷ []

-- `from_array` of the bytes that follow those of `high`.
unfoldable pub from_be_bytes : ℕ → List ℕ → ℕ
from_be_bytes high [] = high
from_be_bytes high (b ∷ bs) = from_be_bytes (high * 256 + b) bs

from_le_bytes : List ℕ → ℕ
from_le_bytes [] = 0
from_le_bytes (b ∷ bs) = b + 256 * from_le_bytes bs

-- The bytes spell the number, if there is room for it.
from_le_bytes-to_le_bytes : (w n : ℕ) → n < 256 ^ w → from_le_bytes (to_le_bytes w n) ≡ n
unfolding from_le_bytes to_le_bytes
from_le_bytes-to_le_bytes zero n h = omega arith
from_le_bytes-to_le_bytes (suc w) n h = grind (arith, from_le_bytes-to_le_bytes w (n / 256))

pub to_le_bytes_injective :
    (w m n : ℕ) → m < 256 ^ w → n < 256 ^ w → to_le_bytes w m ≡ to_le_bytes w n → m ≡ n
to_le_bytes_injective w m n hm hn same =
    rw (sym (from_le_bytes-to_le_bytes w m hm), same, from_le_bytes-to_le_bytes w n hn) refl

pow_suc : (w : ℕ) → 256 ^ suc w ≡ 256 ^ w * 256
pow_suc w = grind arith

carry : (high p n : ℕ) → (high * p + n / 256) * 256 + n % 256 ≡ high * (p * 256) + n
carry high p n = grind arith

pub from_be_bytes-to_be_bytes :
    (w n high : ℕ) (rest : List ℕ)
    → n < 256 ^ w
    → from_be_bytes high (to_be_bytes w n ++ rest) ≡ from_be_bytes (high * 256 ^ w + n) rest
unfolding from_be_bytes to_be_bytes
from_be_bytes-to_be_bytes zero n high rest h = grind arith
from_be_bytes-to_be_bytes (suc w) n high rest h =
    let room : n / 256 < 256 ^ w = grind arith in
    rw append_assoc (
      from_be_bytes-to_be_bytes w (n / 256) high (n % 256 ∷ rest) room
      ∙ ap (λ k. from_be_bytes k rest) (rw (pow_suc w) (carry high (256 ^ w) n)))

pub length-to_le_bytes : (w n : ℕ) → length (to_le_bytes w n) ≡ w
unfolding to_le_bytes
length-to_le_bytes zero n = refl
length-to_le_bytes (suc w) n = ap suc (length-to_le_bytes w (n / 256))

pub length-to_be_bytes : (w n : ℕ) → length (to_be_bytes w n) ≡ w
unfolding to_be_bytes
length-to_be_bytes zero n = refl
length-to_be_bytes (suc w) n = grind (arith, length-append, length-to_be_bytes w (n / 256))

pub to_le_bytes-IsByte : (w n : ℕ) → All IsByte (to_le_bytes w n)
unfolding to_le_bytes
to_le_bytes-IsByte zero n = tt
to_le_bytes-IsByte (suc w) n = (omega arith, to_le_bytes-IsByte w (n / 256))

pub All-append :
    {A : Type 0} (P : A → Type 0) (xs ys : List A) → All P xs → All P ys → All P (xs ++ ys)
All-append P [] ys hx hy = hy
All-append P (x ∷ xs) ys hx hy = (hx.0, All-append P xs ys hx.1 hy)

pub to_be_bytes-IsByte : (w n : ℕ) → All IsByte (to_be_bytes w n)
unfolding to_be_bytes
to_be_bytes-IsByte zero n = tt
to_be_bytes-IsByte (suc w) n =
    All-append IsByte (to_be_bytes w (n / 256)) (n % 256 ∷ []) (to_be_bytes-IsByte w (n / 256))
      (omega arith, tt)

-- Where the first parts are as long, equal strings have equal parts.
pub append-inj :
    (xs ys us vs : List ℕ) → length xs ≡ length ys → xs ++ us ≡ ys ++ vs → (xs ≡ ys) × (us ≡ vs)
append-inj [] [] us vs h same = (refl, same)
append-inj [] (y ∷ ys) us vs h same = absurd (omega arith)
append-inj (x ∷ xs) [] us vs h same = absurd (omega arith)
append-inj (x ∷ xs) (y ∷ ys) us vs h same = grind (arith, append-inj xs ys us vs)

pub to_be_bytes_injective :
    (w m n : ℕ) → m < 256 ^ w → n < 256 ^ w → to_be_bytes w m ≡ to_be_bytes w n → m ≡ n
unfolding from_be_bytes
to_be_bytes_injective w m n hm hn same =
    let spelt = ap (λ b. from_be_bytes 0 (b ++ [])) same in
    let both : from_be_bytes (0 * 256 ^ w + m) [] ≡ from_be_bytes (0 * 256 ^ w + n) [] =
      rw (from_be_bytes-to_be_bytes w m 0 [] hm, from_be_bytes-to_be_bytes w n 0 [] hn) at spelt in
    grind arith
