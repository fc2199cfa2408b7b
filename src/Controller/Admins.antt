-- ===== src/Controller/Admins.antt =====
-- The multisig check, and the set of admins through every history of calls.
use de_fi_lending_stellar_pa.Prelude.{
  ℕ, ◌+◌, ◌≤◌, ◌≡◌, refl, Bool, true, false, some, List, [], ◌∷◌, ◌++◌, length, length-append,
  arith, ◌==◌, ◌||◌, All, if◌then◌else◌, nat_equality, inl, inr, Option-cases, subst,
}
use de_fi_lending_stellar_pa.Int.{ℤ}
use de_fi_lending_stellar_pa.Soroban.{
  Address, Result, ok, Env, authorized, run, run_invariant, is_some,
}
use de_fi_lending_stellar_pa.Pool.State.{contains}
use de_fi_lending_stellar_pa.Controller.{
  AdminSet, Controller, deployed, initialize, check_approvals, require_admin_multisig, set_paused,
  set_mint_rate_limit, propose_bridge, execute_bridge, set_bridge, add_admin, without, remove_admin,
  set_threshold, admin_set, check_and_bump_nonce, check_mint_rate,
}

-- No address stands in the list twice.
abbrev pub IsDistinct : List Address → Type 0
IsDistinct [] = Unit
IsDistinct (x ∷ xs) = (contains x xs ≡ false) × IsDistinct xs

contains-append :
    (a b : Address) (xs : List Address) → contains a (xs ++ b ∷ []) ≡ (contains a xs || b == a)
unfolding contains
contains-append a b [] = ground arith
contains-append a b (x ∷ xs) = ground (arith, contains-append a b xs)

append-IsDistinct :
    (b : Address) (xs : List Address)
    → IsDistinct xs
    → contains b xs ≡ false
    → IsDistinct (xs ++ b ∷ [])
unfolding contains
append-IsDistinct b [] d h = (refl, tt)
append-IsDistinct b (x ∷ xs) d h =
    (ground (arith, contains-append x b xs), append-IsDistinct b xs d.1 (ground arith))

contains-without :
    (a x : Address) (xs : List Address) → contains x xs ≡ false → contains x (without a xs) ≡ false
unfolding contains without
contains-without a x [] h = refl
contains-without a x (y ∷ ys) h = ground (arith, contains-without a x ys)

without-IsDistinct : (a : Address) (xs : List Address) → IsDistinct xs → IsDistinct (without a xs)
unfolding without
without-IsDistinct a [] d = tt
without-IsDistinct a (x ∷ xs) d =
    ground (arith, without-IsDistinct a xs d.1, contains-without a x xs d.0)

-- One admin at most goes.
length-without :
    (a : Address) (xs : List Address)
    → IsDistinct xs
    → length (without a xs) + (if contains a xs then 1 else 0) ≡ length xs
unfolding contains without
length-without a [] d = ground arith
length-without a (x ∷ xs) d = ground (arith, length-without a xs d.1)

-- What is not among `a` and those passed is neither `a` nor among those.
passed-split :
    (a : Address) (passed rest : List Address)
    → All (λ x. contains x (a ∷ passed) ≡ false) rest
    → All (λ x. contains x passed ≡ false) rest × (contains a rest ≡ false)
unfolding contains
passed-split a passed [] h = (tt, refl)
passed-split a passed (x ∷ xs) h =
    let (others, apart) = passed-split a passed xs h.1 in ((ground arith, others), ground arith)

-- The approvals that pass are admins that authorised the call, none of them twice.
check_approvals-quorum :
    (e : Env) (admins passed approvals : List Address)
    → check_approvals e admins passed approvals ≡ ok tt
    → All (λ a. (contains a admins ≡ true) × (authorized e a ≡ true)) approvals
      × All (λ a. contains a passed ≡ false) approvals
      × IsDistinct approvals
unfolding check_approvals
check_approvals-quorum e admins passed [] h = (tt, tt, tt)
check_approvals-quorum e admins passed (a ∷ rest) h =
    let (sound, apart, distinct) =
      check_approvals-quorum e admins (a ∷ passed) rest (ground arith) in
    let (before, alone) = passed-split a passed rest apart in
    (((ground arith, ground arith), sound), (ground arith, before), (alone, distinct))

-- A call that passes the multisig check is approved by as many admins as the threshold asks for: all
-- of the approvals are admins, no two are the same, and each has authorised the call.
pub multisig_quorum :
    (e : Env) (approvals : List Address) (s : Controller) (set : AdminSet)
    → admin_set s ≡ ok set
    → require_admin_multisig e approvals s ≡ ok tt
    → (set.threshold ≤ length approvals)
      × All (λ a. (contains a set.admins ≡ true) × (authorized e a ≡ true)) approvals
      × IsDistinct approvals
unfolding admin_set require_admin_multisig
multisig_quorum e approvals s set found h =
    let (sound, _, distinct) = check_approvals-quorum e set.admins [] approvals (ground arith) in
    (ground arith, sound, distinct)

-- A set whose threshold can be reached.
pub record IsReachable (set : AdminSet) : Type 0 where
  pub distinct : IsDistinct set.admins
  pub some_needed : 1 ≤ set.threshold
  pub enough : set.threshold ≤ length set.admins

pub record IsSound (s : Controller) : Type 0 where
  pub present : is_some s.admin_set ≡ true
  pub reachable : (set : AdminSet) → s.admin_set ≡ some set → IsReachable set

same-IsSound : (s t : Controller) → t.admin_set ≡ s.admin_set → IsSound s → IsSound t
same-IsSound s t same v = record { present = rw same v.present; reachable = rw same v.reachable }

-- A new set is stored.
stored-IsSound :
    (t : Controller) (set : AdminSet) → t.admin_set ≡ some set → IsReachable set → IsSound t
stored-IsSound t set stored v = record {
  present = rw stored refl;
  reachable = λ other h. let same : set ≡ other = ground arith in subst IsReachable same v;
}

module _ (e : Env) (approvals : List Address) (s : Controller) {s' : Controller} where
  add_admin-IsSound : (a : Address) → IsSound s → add_admin e approvals a s ≡ ok s' → IsSound s'
  unfolding add_admin
  add_admin-IsSound a v h = elim (Option-cases s.admin_set) [
    | inl missing ↦ absurd (ground (arith, v.present))
    | inr (set, found) ↦
        let r = v.reachable set found in
        let stored : s'.admin_set ≡ some (record set { admins = set.admins ++ a ∷ [] }) =
          ground arith in
        stored-IsSound s' _ stored (record {
          distinct = append-IsDistinct a set.admins r.distinct (ground arith);
          some_needed = r.some_needed;
          enough = omega (arith, r.enough, length-append set.admins (a ∷ []));
        })
  ]

  remove_admin-IsSound :
      (a : Address) → IsSound s → remove_admin e approvals a s ≡ ok s' → IsSound s'
  unfolding remove_admin
  remove_admin-IsSound a v h = elim (Option-cases s.admin_set) [
    | inl missing ↦ absurd (ground (arith, v.present))
    | inr (set, found) ↦
        let r = v.reachable set found in
        let stored : s'.admin_set ≡ some (record set { admins = without a set.admins }) =
          ground arith in
        stored-IsSound s' _ stored (record {
          distinct = without-IsDistinct a set.admins r.distinct;
          some_needed = r.some_needed;
          enough = ground (arith, length-without a set.admins r.distinct);
        })
  ]

  set_threshold-IsSound : (n : ℕ) → IsSound s → set_threshold e approvals n s ≡ ok s' → IsSound s'
  unfolding set_threshold
  set_threshold-IsSound n v h = elim (Option-cases s.admin_set) [
    | inl missing ↦ absurd (ground (arith, v.present))
    | inr (set, found) ↦
        let r = v.reachable set found in
        let stored : s'.admin_set ≡ some (record set { threshold = n }) = ground arith in
        stored-IsSound s' _ stored
          (record { distinct = r.distinct; some_needed = ground arith; enough = ground arith })
  ]

-- The administrative calls, and the two checks of `wrap` that write.
pub data Op : Type 0 where
  set_paused_op : Bool → Op
  set_mint_rate_limit_op : List Address → ℤ → Op
  propose_bridge_op set_bridge_op : List Address → List ℕ → ℕ → Op
  execute_bridge_op : List Address → Op
  add_admin_op remove_admin_op : List Address → Address → Op
  set_threshold_op : List Address → ℕ → Op
  nonce_op : ℕ → Op
  mint_op : Op

unfoldable pub invoke : Env → Op → Controller → Result Controller
invoke e (set_paused_op to) s = set_paused e to s
invoke e (set_mint_rate_limit_op approvals limit) s = set_mint_rate_limit e approvals limit s
invoke e (propose_bridge_op approvals keys n) s = propose_bridge e approvals keys n s
invoke e (set_bridge_op approvals keys n) s = set_bridge e approvals keys n s
invoke e (execute_bridge_op approvals) s = execute_bridge e approvals s
invoke e (add_admin_op approvals a) s = add_admin e approvals a s
invoke e (remove_admin_op approvals a) s = remove_admin e approvals a s
invoke e (set_threshold_op approvals n) s = set_threshold e approvals n s
invoke e (nonce_op salt) s = check_and_bump_nonce salt s
invoke e mint_op s = check_mint_rate e s

invoke-IsSound :
    (e : Env) (op : Op) (s s' : Controller) → IsSound s → invoke e op s ≡ ok s' → IsSound s'
unfolding invoke set_paused set_mint_rate_limit propose_bridge set_bridge execute_bridge
    check_and_bump_nonce check_mint_rate
invoke-IsSound e (set_paused_op to) s s' v h = same-IsSound s s' (ground arith) v
invoke-IsSound e (set_mint_rate_limit_op approvals limit) s s' v h =
    same-IsSound s s' (ground arith) v
invoke-IsSound e (propose_bridge_op approvals keys n) s s' v h = same-IsSound s s' (ground arith) v
invoke-IsSound e (set_bridge_op approvals keys n) s s' v h = same-IsSound s s' (ground arith) v
invoke-IsSound e (execute_bridge_op approvals) s s' v h = same-IsSound s s' (ground arith) v
invoke-IsSound e (add_admin_op approvals a) s s' v h = add_admin-IsSound e approvals s a v h
invoke-IsSound e (remove_admin_op approvals a) s s' v h = remove_admin-IsSound e approvals s a v h
invoke-IsSound e (set_threshold_op approvals n) s s' v h = set_threshold-IsSound e approvals s n v h
invoke-IsSound e (nonce_op salt) s s' v h = same-IsSound s s' (ground arith) v
invoke-IsSound e mint_op s s' v h = same-IsSound s s' (ground arith) v

-- Once the controller has been initialised, however its administration is called, there is a set of
-- admins, none of them twice, whose threshold is at least 1 and at most their number: the multisig
-- can be met and is never empty.
pub history_admins-IsReachable :
    (e : Env) (admin : Address) (keys : List ℕ) (n : ℕ) (wrapped pool vault oracle : Address)
    (s : Controller) (calls : List (Env × Op))
    → initialize e admin keys n wrapped pool vault oracle deployed ≡ ok s
    → (set : AdminSet) × (admin_set (run invoke calls s) ≡ ok set) × IsReachable set
unfolding initialize admin_set contains
history_admins-IsReachable e admin keys n wrapped pool vault oracle s calls h =
    let first : AdminSet = record { admins = admin ∷ []; threshold = 1 } in
    let stored : s.admin_set ≡ some first = ground arith in
    let start : IsSound s =
      stored-IsSound s first stored
        (record { distinct = (refl, tt); some_needed = omega arith; enough = omega arith }) in
    let t = run invoke calls s in
    let v : IsSound t = run_invariant invoke IsSound invoke-IsSound calls s start in
    elim (Option-cases t.admin_set) [
      | inl missing ↦ absurd (ground (arith, v.present))
      | inr (set, found) ↦ (set, rw found refl, v.reachable set found)
    ]
