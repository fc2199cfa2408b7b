-- ===== src/Controller/AttestExamples.antt =====
-- The payload and the attestations at concrete inputs.
use de_fi_lending_stellar_pa.Prelude.{ℕ, ◌+◌, ◌≡◌, refl, length, All, arith, nat_equality}
use de_fi_lending_stellar_pa.Int.{ℤ, pos, negsuc, ◌+ℤ◌}
use de_fi_lending_stellar_pa.Soroban.{Address, ok, rem_u64, u64_limit, u32_limit, IsByte}
use de_fi_lending_stellar_pa.Controller.Payload.{payload_injective, payload-IsByte, payload_wraps}
use de_fi_lending_stellar_pa.Controller.Attest.{
  require_bridge, IsAttested, nobody, attested, require_bridge_complete,
}
use de_fi_lending_stellar_pa.Controller.ExampleBridge.{host, keys, open_controller, given, payload}

-- The recipient's XDR is its own number.
xdr_injective : (x y : Address) → host.to_xdr x ≡ host.to_xdr y → x ≡ y
xdr_injective x y same = cc

abbrev chain : ℕ
chain = 1

abbrev source : ℕ
source = 9

abbrev recipient : ℕ
recipient = 5

abbrev salt : ℕ
salt = 77

abbrev lock : ℕ
lock = 3

abbrev large : ℤ
large = pos 40 +ℤ pos u64_limit

payload_injective_example :
    (chain ≡ chain)
    × (source ≡ source)
    × (rem_u64 large ≡ rem_u64 (pos 40))
    × (recipient ≡ recipient)
    × (salt ≡ salt)
    × (lock ≡ lock)
payload_injective_example =
    payload_injective host chain chain source source large (pos 40) recipient recipient salt salt
      lock lock (omega arith, omega arith, omega arith, omega arith)
      (omega arith, omega arith, omega arith, omega arith) xdr_injective
      (payload_wraps host chain source (pos 40) recipient salt lock)

payload-IsByte_example : All IsByte payload × (length payload ≡ 88 + length (host.to_xdr recipient))
payload-IsByte_example = payload-IsByte host 1 9 (pos 40) recipient 77 3 (omega arith, tt)

two_keys : IsAttested host keys payload (negsuc 0) given
two_keys = attested refl refl refl (attested refl refl refl nobody)

require_bridge_complete_example :
    require_bridge host given 1 9 (pos 40) 5 77 3 open_controller ≡ ok tt
unfolding u32_limit
require_bridge_complete_example =
    require_bridge_complete host given 1 9 (pos 40) 5 77 3 open_controller refl (omega arith)
      (omega arith) two_keys
