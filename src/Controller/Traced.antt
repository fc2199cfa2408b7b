-- ===== src/Controller/Traced.antt =====
-- The wrap events of a history: the attestations behind them, and their salts.
use de_fi_lending_stellar_pa.Prelude.{
  ℕ, ◌≡◌, refl, ap, ◌∙◌, true, false, List, [], ◌∷◌, ◌++◌, All, arith, nat_equality, inl, inr,
}
use de_fi_lending_stellar_pa.Map.{lookup}
use de_fi_lending_stellar_pa.Soroban.{Result-cases, ok, Env, is_some, run, committed}
use de_fi_lending_stellar_pa.Pool.State.{contains}
use de_fi_lending_stellar_pa.Controller.{Controller}
use de_fi_lending_stellar_pa.Controller.Admins.{IsDistinct}
use de_fi_lending_stellar_pa.Controller.Bridge.{keeps_salt}
use de_fi_lending_stellar_pa.Controller.Payload.{Host}
use de_fi_lending_stellar_pa.Controller.Attest.{require_bridge-IsAttested}
use de_fi_lending_stellar_pa.Controller.Deployment.{
  Deployment, Event, wrap_event, unwrap_event, supply_event, borrow_event, repay_event,
  withdraw_collateral_event,
}
use de_fi_lending_stellar_pa.Controller.Runs.{Op, invoke}
use de_fi_lending_stellar_pa.Controller.Replay.{invoke-keeps, initialize_keeps_salt}
use de_fi_lending_stellar_pa.Controller.Sources.{salts, IsAttestedIn, IsSource, invoke-IsPublished}

run-step :
    (host : Host) (e : Env) (op : Op) (rest : List (Env × Op)) (d d1 : Deployment)
    → committed (invoke host e op d) d ≡ d1
    → run (invoke host) ((e, op) ∷ rest) d ≡ run (invoke host) rest d1
unfolding run
run-step host e op rest d d1 step = ap (λ s. run (invoke host) rest s) step

module _ (host : Host) (e : Env) (op : Op) (rest : List (Env × Op)) (d d1 : Deployment) where
  -- What is attested after the first call is attested in the whole history.
  later-IsAttestedIn :
      committed (invoke host e op d) d ≡ d1
      → (x : Event) → IsAttestedIn host rest d1 x
      → IsAttestedIn host ((e, op) ∷ rest) d x
  later-IsAttestedIn step (wrap_event c a to n salt k)
        (before, after, e', given, bridge, split, in_force, enough, v) =
      (
        (e, op) ∷ before,
        after,
        e',
        given,
        bridge,
        ap (λ calls. (e, op) ∷ calls) split,
        ap (λ s. s.controller.bridge) (run-step host e op before d d1 step) ∙ in_force,
        enough,
        v,
      )
  later-IsAttestedIn step (unwrap_event user n c a k) v = tt
  later-IsAttestedIn step (supply_event user x n) v = tt
  later-IsAttestedIn step (borrow_event user x y n) v = tt
  later-IsAttestedIn step (repay_event user x n m) v = tt
  later-IsAttestedIn step (withdraw_collateral_event user x n) v = tt

  -- What the first call publishes is attested in it.
  first-IsAttestedIn :
      (x : Event) → IsSource host op d d1 x → IsAttestedIn host ((e, op) ∷ rest) d x
  unfolding run
  first-IsAttestedIn (wrap_event c a to n salt k) (given, call, passed, _, _) =
      let (bridge, stored, enough, v) =
        require_bridge-IsAttested host given c a n to salt k d.controller passed in
      ([], rest, e, given, bridge, ap (λ op. (e, op) ∷ rest) call, stored, enough, v)
  first-IsAttestedIn (unwrap_event user n c a k) v = tt
  first-IsAttestedIn (supply_event user x n) v = tt
  first-IsAttestedIn (borrow_event user x y n) v = tt
  first-IsAttestedIn (repay_event user x n m) v = tt
  first-IsAttestedIn (withdraw_collateral_event user x n) v = tt

  later-All :
      committed (invoke host e op d) d ≡ d1
      → (xs : List Event) → All (IsAttestedIn host rest d1) xs
      → All (IsAttestedIn host ((e, op) ∷ rest) d) xs
  later-All step [] h = tt
  later-All step (x ∷ xs) h = (later-IsAttestedIn step x h.0, later-All step xs h.1)

append-All : (P : Event → Type 0) (xs ys : List Event) → All P xs → All P ys → All P (xs ++ ys)
append-All P [] ys h k = k
append-All P (x ∷ xs) ys h k = (h.0, append-All P xs ys h.1 k)

append_one : (xs : List Event) (x : Event) (ys : List Event) → xs ++ x ∷ ys ≡ (xs ++ x ∷ []) ++ ys
append_one [] x ys = refl
append_one (y ∷ xs) x ys = ap (λ zs. y ∷ zs) (append_one xs x ys)

-- The events that a history adds are attested in it.
pub run-IsAttestedIn :
    (host : Host) (calls : List (Env × Op)) (d : Deployment)
    → (new : List Event) × ((run (invoke host) calls d).events ≡ new ++ d.events)
      × All (IsAttestedIn host calls d) new
run-IsAttestedIn host [] d = ([], unfold run in refl, tt)
run-IsAttestedIn host ((e, op) ∷ rest) d = elim (Result-cases (invoke host e op d)) [
  | inr (x, failed) ↦
      let same : committed (invoke host e op d) d ≡ d = rw failed refl in
      let (new, added, v) = run-IsAttestedIn host rest d in
      (
        new,
        ap (λ s. s.events) (run-step host e op rest d d same) ∙ added,
        later-All host e op rest d d same new v,
      )
  | inl (d1, done) ↦
      let step : committed (invoke host e op d) d ≡ d1 = rw done refl in
      let (new, added, v) = run-IsAttestedIn host rest d1 in
      let later = later-All host e op rest d d1 step new v in
      let follows = ap (λ s. s.events) (run-step host e op rest d d1 step) ∙ added in
      elim (invoke-IsPublished host e op d d1 done) [
        | inl quiet ↦ (new, follows ∙ ap (λ ys. new ++ ys) quiet, later)
        | inr (x, published, source) ↦ (
          new ++ x ∷ [],
          follows ∙ ap (λ ys. new ++ ys) published ∙ append_one new x d.events,
          append-All _ new (x ∷ []) later (first-IsAttestedIn host e op rest d d1 x source, tt),
        )
      ]
]

-- The salts of the wraps so far are distinct and used up.
pub record IsSalted (d : Deployment) : Type 0 where
  pub distinct : IsDistinct (salts d.events)
  pub used : All (λ k. is_some (lookup k d.controller.nonces) ≡ true) (salts d.events)

unused_salt :
    (salt : ℕ) (s : Controller) (ks : List ℕ)
    → is_some (lookup salt s.nonces) ≡ false
    → All (λ k. is_some (lookup k s.nonces) ≡ true) ks
    → contains salt ks ≡ false
unfolding contains
unused_salt salt s [] fresh used = refl
unused_salt salt s (k ∷ ks) fresh used = ground (arith, unused_salt salt s ks fresh used.1)

still_used :
    (s s' : Controller) (ks : List ℕ)
    → ((k : ℕ) → is_some (lookup k s.nonces) ≡ true → is_some (lookup k s'.nonces) ≡ true)
    → All (λ k. is_some (lookup k s.nonces) ≡ true) ks
    → All (λ k. is_some (lookup k s'.nonces) ≡ true) ks
still_used s s' [] keep used = tt
still_used s s' (k ∷ ks) keep used = (keep k used.0, still_used s s' ks keep used.1)

published-IsSalted :
    (host : Host) (op : Op) (d d' : Deployment) (x : Event)
    → d'.events ≡ x ∷ d.events
    → IsSource host op d d' x
    → IsDistinct (salts d.events)
    → All (λ k. is_some (lookup k d.controller.nonces) ≡ true) (salts d.events)
    → All (λ k. is_some (lookup k d'.controller.nonces) ≡ true) (salts d.events)
    → IsSalted d'
published-IsSalted host op d d' (wrap_event c a to n salt k) events (_, _, _, fresh, now) v old
      kept =
    record {
      distinct = rw events (unused_salt salt d.controller (salts d.events) fresh old, v);
      used = rw events (now, kept);
    }
published-IsSalted host op d d' (unwrap_event user n c a k) events _ v old kept = record {
  distinct = rw events v;
  used = rw events kept;
}
published-IsSalted host op d d' (supply_event user x n) events _ v old kept = record {
  distinct = rw events v;
  used = rw events kept;
}
published-IsSalted host op d d' (borrow_event user x y n) events _ v old kept = record {
  distinct = rw events v;
  used = rw events kept;
}
published-IsSalted host op d d' (repay_event user x n m) events _ v old kept = record {
  distinct = rw events v;
  used = rw events kept;
}
published-IsSalted host op d d' (withdraw_collateral_event user x n) events _ v old kept = record {
  distinct = rw events v;
  used = rw events kept;
}

pub invoke-IsSalted :
    (host : Host) (e : Env) (op : Op) (d d' : Deployment)
    → IsSalted d
    → invoke host e op d ≡ ok d'
    → IsSalted d'
invoke-IsSalted host e op d d' v h =
    let keep : (k : ℕ)
        → is_some (lookup k d.controller.nonces) ≡ true
        → is_some (lookup k d'.controller.nonces) ≡ true =
      λ k used.
        invoke-keeps host (λ s. is_some (lookup k s.nonces) ≡ true) (keeps_salt k)
          (initialize_keeps_salt k) e op d d' used h in
    let kept = still_used d.controller d'.controller (salts d.events) keep v.used in
    elim (invoke-IsPublished host e op d d' h) [
      | inl quiet ↦ record { distinct = rw quiet v.distinct; used = rw quiet kept }
      | inr (x, events, source) ↦
          published-IsSalted host op d d' x events source v.distinct v.used kept
    ]
