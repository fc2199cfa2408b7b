-- ===== src/Controller/Bridge.antt =====
-- The timelock of the bridge set, the salts, and the cap on mints.
use de_fi_lending_stellar_pa.Prelude.{
  ℕ, ◌+◌, ◌≤◌, ◌≡◌, true, none, some, List, length, arith, nat_equality, ◌⊎◌, inl, inr, Bool-cases,
}
use de_fi_lending_stellar_pa.Int.{pos, ◌<ℤ◌, leb_ℤ}
use de_fi_lending_stellar_pa.Map.{lookup, lookup-insert_self}
use de_fi_lending_stellar_pa.Soroban.{
  Address, ok, err, Env, unwrap_or, is_some, run, run_invariant, salt_already_used,
  mint_rate_exceeded,
}
use de_fi_lending_stellar_pa.Controller.{
  Controller, deployed, initialize, propose_bridge, execute_bridge, require_bridge_set,
  check_and_bump_nonce, check_mint_rate, timelock_ledgers, max_per_hour,
}
use de_fi_lending_stellar_pa.Controller.Kept.{invoke-IsKept}
use de_fi_lending_stellar_pa.Controller.Admins.{Op, invoke}

-- A proposed bridge set is in force exactly as it was proposed, with a threshold between 1 and its
-- number of keys, and not before the timelock of 17,280 ledgers has passed; the proposal is gone then.
pub execute_bridge-propose_bridge :
    (e e' : Env) (approvals approvals' : List Address) (keys : List ℕ) (n : ℕ) (s : Controller)
    {s' s'' : Controller}
    → propose_bridge e approvals keys n s ≡ ok s'
    → execute_bridge e' approvals' s' ≡ ok s''
    → (e.sequence + timelock_ledgers ≤ e'.sequence)
      × (s''.bridge ≡ some (record { keys = keys; threshold = n }))
      × (1 ≤ n)
      × (n ≤ length keys)
      × (s''.pending_bridge ≡ none)
      × (s''.pending_bridge_at ≡ none)
unfolding propose_bridge execute_bridge require_bridge_set
execute_bridge-propose_bridge e e' approvals approvals' keys n s h h' = ground arith

pub keeps_salt :
    (salt : ℕ) (e : Env) (op : Op) (s s' : Controller)
    → is_some (lookup salt s.nonces) ≡ true
    → invoke e op s ≡ ok s'
    → is_some (lookup salt s'.nonces) ≡ true
keeps_salt salt e op s s' used h = (invoke-IsKept e op s s' h).salts salt used

-- A salt is good for one wrap: once its check has passed, every later check of it panics, whatever is
-- called of the administration and of the mint check in between.
salt_used_once :
    (salt : ℕ) (s : Controller) {s' : Controller} (calls : List (Env × Op))
    → check_and_bump_nonce salt s ≡ ok s'
    → check_and_bump_nonce salt (run invoke calls s') ≡ err salt_already_used
unfolding check_and_bump_nonce
salt_used_once salt s {s'} calls h =
    let used : is_some (lookup salt s'.nonces) ≡ true =
      ground (arith, lookup-insert_self salt true s.nonces) in
    let still : is_some (lookup salt (run invoke calls s').nonces) ≡ true =
      run_invariant invoke (λ u. is_some (lookup salt u.nonces) ≡ true) (keeps_salt salt) calls s'
        used in
    ground arith

keeps_closed :
    (e : Env) (op : Op) (s s' : Controller)
    → s.mint_window_start ≡ none
    → invoke e op s ≡ ok s'
    → s'.mint_window_start ≡ none
keeps_closed e op s s' closed h = (invoke-IsKept e op s s' h).closed closed

-- The window of the mint cap never starts: whatever is called of the administration and of the mint
-- check after the initialisation, no start of a window is stored. Either the count is still below the
-- cap, or the check of a mint panics in every ledger, however late.
pub mint_cap_halts :
    (e e' : Env) (admin : Address) (keys : List ℕ) (n : ℕ) (wrapped pool vault oracle : Address)
    (s : Controller) (calls : List (Env × Op))
    → initialize e admin keys n wrapped pool vault oracle deployed ≡ ok s
    → let t = run invoke calls s in
      (t.mint_window_start ≡ none)
      × ((unwrap_or t.mint_window_count (pos 0) <ℤ unwrap_or t.mint_rate_limit max_per_hour)
          ⊎ (check_mint_rate e' t ≡ err mint_rate_exceeded))
unfolding initialize check_mint_rate
mint_cap_halts e e' admin keys n wrapped pool vault oracle s calls h =
    let start : s.mint_window_start ≡ none = ground arith in
    let closed : (run invoke calls s).mint_window_start ≡ none =
      run_invariant invoke (λ u. u.mint_window_start ≡ none) keeps_closed calls s start in
    let t = run invoke calls s in
    let cap = unwrap_or t.mint_rate_limit max_per_hour in
    let count = unwrap_or t.mint_window_count (pos 0) in
    elim (Bool-cases (leb_ℤ cap count)) [
      | inl reached ↦ (closed, inr (ground arith))
      | inr below ↦ (closed, inl (ground arith))
    ]
