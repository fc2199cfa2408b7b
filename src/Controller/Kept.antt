-- ===== src/Controller/Kept.antt =====
-- What no call of the administration takes back: the wrapped token's address, that there are admins,
-- the salts that are used
-- up, and a window of the mint cap that has not started.
use de_fi_lending_stellar_pa.Prelude.{ℕ, ◌≡◌, true, none, arith, nat_equality}
use de_fi_lending_stellar_pa.Map.{lookup, lookup-insert}
use de_fi_lending_stellar_pa.Soroban.{ok, Env, is_some}
use de_fi_lending_stellar_pa.Controller.{
  Controller, set_paused, set_mint_rate_limit, propose_bridge, execute_bridge, set_bridge,
  add_admin, remove_admin, set_threshold, check_and_bump_nonce, check_mint_rate,
}
use de_fi_lending_stellar_pa.Controller.Admins.{
  Op, set_paused_op, set_mint_rate_limit_op, propose_bridge_op, set_bridge_op, execute_bridge_op,
  add_admin_op, remove_admin_op, set_threshold_op, nonce_op, mint_op, invoke,
}

pub record IsKept (s s' : Controller) : Type 0 where
  pub wired : s'.wrapped_asset ≡ s.wrapped_asset
  pub opened : is_some s.admin_set ≡ true → is_some s'.admin_set ≡ true
  pub closed : s.mint_window_start ≡ none → s'.mint_window_start ≡ none
  pub salts : (k : ℕ) → is_some (lookup k s.nonces) ≡ true → is_some (lookup k s'.nonces) ≡ true

untouched :
    (s s' : Controller)
    → s'.wrapped_asset ≡ s.wrapped_asset
    → (is_some s.admin_set ≡ true → is_some s'.admin_set ≡ true)
    → s'.mint_window_start ≡ s.mint_window_start
    → s'.nonces ≡ s.nonces
    → IsKept s s'
untouched s s' w o m n = record {
  wired = w;
  opened = o;
  closed = λ h. rw m h;
  salts = λ k h. rw n h;
}

pub invoke-IsKept : (e : Env) (op : Op) (s s' : Controller) → invoke e op s ≡ ok s' → IsKept s s'
unfolding invoke set_paused set_mint_rate_limit propose_bridge set_bridge execute_bridge
    check_and_bump_nonce check_mint_rate add_admin remove_admin set_threshold
invoke-IsKept e (set_paused_op to) s s' h =
    untouched s s' (ground arith) (λ o. ground arith) (ground arith) (ground arith)
invoke-IsKept e (set_mint_rate_limit_op approvals limit) s s' h =
    untouched s s' (ground arith) (λ o. ground arith) (ground arith) (ground arith)
invoke-IsKept e (propose_bridge_op approvals keys n) s s' h =
    untouched s s' (ground arith) (λ o. ground arith) (ground arith) (ground arith)
invoke-IsKept e (set_bridge_op approvals keys n) s s' h =
    untouched s s' (ground arith) (λ o. ground arith) (ground arith) (ground arith)
invoke-IsKept e (execute_bridge_op approvals) s s' h =
    untouched s s' (ground arith) (λ o. ground arith) (ground arith) (ground arith)
invoke-IsKept e (add_admin_op approvals a) s s' h =
    untouched s s' (ground arith) (λ o. ground arith) (ground arith) (ground arith)
invoke-IsKept e (remove_admin_op approvals a) s s' h =
    untouched s s' (ground arith) (λ o. ground arith) (ground arith) (ground arith)
invoke-IsKept e (set_threshold_op approvals n) s s' h =
    untouched s s' (ground arith) (λ o. ground arith) (ground arith) (ground arith)
invoke-IsKept e (nonce_op salt) s s' h = record {
  wired = ground arith;
  opened = λ o. ground arith;
  closed = λ closed. ground arith;
  salts = λ k used. ground (arith, lookup-insert salt k true s.nonces);
}
invoke-IsKept e mint_op s s' h = record {
  wired = ground arith;
  opened = λ o. ground arith;
  closed = λ closed. ground arith;
  salts = λ k used. ground arith;
}
