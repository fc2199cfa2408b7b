-- ===== src/Rewards/Earnings.antt =====
-- What a user has earned: it is what a claim pays, and staking more does not change it.
use de_fi_lending_stellar_pa.Prelude.{
  ◌≡◌, refl, true, some, arith, nat_equality, pair_equality, ◌∙◌, inl, inr, ap,
}
use de_fi_lending_stellar_pa.Int.{ℤ, pos, ◌+ℤ◌, ◌-ℤ◌, ◌*ℤ◌, quot, ◌≤ℤ◌, int_laws}
use de_fi_lending_stellar_pa.Map.{lookup, insert, lookup-insert_self}
use de_fi_lending_stellar_pa.Map.Sum.{amount_at}
use de_fi_lending_stellar_pa.Soroban.{Address, Symbol, ok, Env, in_i128, Result-cases}
use de_fi_lending_stellar_pa.Rewards.Stakes.{update_reward-SameStakes}
use de_fi_lending_stellar_pa.Rewards.{
  Rewards, update_reward, stake, claim, earned, gathered, gathered_if_staked, reward_per_token,
  pay_out, since_or_zero, total_accrued, shown_to, scale,
}

-- The two ways to compute what is due agree.
due_as_shown :
    (user : Address) (x : Symbol) (t : Rewards) (due shown : ℤ)
    → pos 0 ≤ℤ amount_at (user, x) t.stakes
    → total_accrued user x t ≡ ok due
    → shown_to user x t ≡ ok shown
    → due ≡ shown
unfolding total_accrued shown_to gathered_if_staked gathered since_or_zero
due_as_shown user x t due shown own0 counted seen =
    let credit = amount_at (user, x) t.accrued in
    let zero_right : credit +ℤ pos 0 ≡ credit = grind int_laws in ground (arith, zero_right)

claim-pays :
    (e : Env) (user : Address) (x : Symbol) (s : Rewards) {u : Rewards} {paid : ℤ}
    → claim e user x s ≡ ok (u, paid)
    → (t : Rewards) × (update_reward e x s ≡ ok t) × (total_accrued user x t ≡ ok paid)
unfolding claim pay_out
claim-pays e user x s {u} {paid} h = elim (Result-cases (update_reward e x s)) [
  | inr (_, failed) ↦ absurd (ground arith)
  | inl (t, updated) ↦ elim (Result-cases (total_accrued user x t)) [
    | inr (_, failed) ↦ absurd (ground arith)
    | inl (due, counted) ↦
        let same : due ≡ paid = ground arith in (t, updated, counted ∙ ap ok same)
  ]
]

-- A claim that goes through pays what `earned` shows in the same storage, for a stake that is not
-- negative.
claim_pays_earned :
    (e : Env) (user : Address) (x : Symbol) (s : Rewards) {u u' : Rewards} {shown paid : ℤ}
    → pos 0 ≤ℤ amount_at (user, x) s.stakes
    → earned e user x s ≡ ok (u, shown)
    → claim e user x s ≡ ok (u', paid)
    → paid ≡ shown
unfolding earned
claim_pays_earned e user x s {u} {u'} {shown} {paid} own0 viewed claimed =
    let (t, updated, counted) = claim-pays e user x s claimed in
    let b = update_reward-SameStakes e x s updated in
    let own : pos 0 ≤ℤ amount_at (user, x) t.stakes = rw (b.stakes) own0 in
    let seen : shown_to user x t ≡ ok shown = ground arith in
    due_as_shown user x t paid shown own counted seen

update_reward-clock :
    (e : Env) (x : Symbol) (s : Rewards) {t : Rewards}
    → update_reward e x s ≡ ok t
    → lookup x t.last_updates ≡ some e.sequence
unfolding update_reward
update_reward-clock e x s h = ground (arith, lookup-insert_self x e.sequence s.last_updates)

-- A second accrual in the ledger of the last one changes nothing that counts.
update_reward-again :
    (e : Env) (x : Symbol) (s : Rewards) {t : Rewards}
    → lookup x s.last_updates ≡ some e.sequence
    → update_reward e x s ≡ ok t
    → t.rewards_per_token ≡ s.rewards_per_token
unfolding update_reward
update_reward-again e x s now h = ground arith

stake-checkpoint :
    (e : Env) (user : Address) (x : Symbol) (n : ℤ) (s : Rewards) {s' : Rewards}
    → stake e user x n s ≡ ok s'
    → (t : Rewards) × (credit : ℤ) × (update_reward e x s ≡ ok t)
      × (total_accrued user x t ≡ ok credit)
      × (s'.accrued ≡ insert (user, x) credit t.accrued)
      × (s'.paid ≡ insert (user, x) (reward_per_token x t) t.paid)
      × (s'.rewards_per_token ≡ t.rewards_per_token)
      × (s'.last_updates ≡ t.last_updates)
unfolding stake total_accrued
stake-checkpoint e user x n s {s'} h = elim (Result-cases (update_reward e x s)) [
  | inr (_, failed) ↦ absurd (ground arith)
  | inl (t, updated) ↦
      elim (Result-cases (
        gathered_if_staked (amount_at (user, x) t.stakes) (reward_per_token x t)
          (amount_at (user, x) t.paid))) [
            | inr (_, failed) ↦ absurd (ground arith)
            | inl (fresh, counted) ↦ (
              t,
              amount_at (user, x) t.accrued +ℤ fresh,
              updated,
              ground arith,
              ground arith,
              ground arith,
              ground arith,
              ground arith,
            )
          ]
]

-- At its checkpoint a user is shown the credit alone.
shown_at_checkpoint :
    (user : Address) (x : Symbol) (t : Rewards) {shown : ℤ}
    → amount_at (user, x) t.paid ≡ reward_per_token x t
    → shown_to user x t ≡ ok shown
    → shown ≡ amount_at (user, x) t.accrued
unfolding shown_to since_or_zero
shown_at_checkpoint user x t {shown} even seen =
    let own = amount_at (user, x) t.stakes in
    let rpt = reward_per_token x t in
    let nothing : rpt -ℤ rpt ≡ pos 0 = grind int_laws in
    let product : own *ℤ pos 0 ≡ pos 0 = unfold ◌*ℤ◌ in ground arith in
    let quotient : quot (pos 0) scale ≡ pos 0 = unfold quot in refl in
    let inside : in_i128 (pos 0) ≡ true = unfold in_i128 in refl in
    let zero_right : amount_at (user, x) t.accrued +ℤ pos 0 ≡ amount_at (user, x) t.accrued =
      grind int_laws in
    ground arith

-- Staking more does not change what the user has earned in that ledger.
stake_keeps_earned :
    (e : Env) (user : Address) (x : Symbol) (n : ℤ) (s : Rewards) {s' u u' : Rewards}
    {shown shown' : ℤ}
    → pos 0 ≤ℤ amount_at (user, x) s.stakes
    → stake e user x n s ≡ ok s'
    → earned e user x s ≡ ok (u, shown)
    → earned e user x s' ≡ ok (u', shown')
    → shown' ≡ shown
unfolding earned
stake_keeps_earned e user x n s {s'} {u} {u'} {shown} {shown'} own0 done before after =
    let (t, credit, updated, counted, ea, ep, er, el) = stake-checkpoint e user x n s done in
    let b = update_reward-SameStakes e x s updated in
    let seen : shown_to user x t ≡ ok shown = ground arith in
    let same = due_as_shown user x t credit shown (rw (b.stakes) own0) counted seen in
    elim (Result-cases (update_reward e x s')) [
      | inr (_, failed) ↦ absurd (ground arith)
      | inl (t', updated') ↦
          let b' = update_reward-SameStakes e x s' updated' in
          let clock = update_reward-clock e x s updated in
          let still : t'.rewards_per_token ≡ t.rewards_per_token =
            update_reward-again e x s' (rw el clock) updated' ∙ er in
          let seen' : shown_to user x t' ≡ ok shown' = ground arith in
          let even : amount_at (user, x) t'.paid ≡ reward_per_token x t' =
            unfold reward_per_token in rw (b'.paid, ep, lookup-insert_self, still) refl in
          shown_at_checkpoint user x t' even seen' ∙ rw (b'.accrued, ea, lookup-insert_self) same
    ]
