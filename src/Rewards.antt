-- ===== src/Rewards.antt =====
-- Rewards (contracts/rewards/soroban/src/lib.rs): stakes, the accumulated reward per staked unit, and
-- the pool that claims are paid from.
pub mod Stakes
pub mod Solvency
pub mod Earnings
mod Examples
use de_fi_lending_stellar_pa.Prelude.{
  ℕ, ◌-◌, ◌*◌, ◌^◌, leb, ◌||◌, Bool, true, false, Option, none, some, List, [], ◌∷◌, if◌then◌else◌,
  nat_equality, pair_equality,
}
use de_fi_lending_stellar_pa.Int.{ℤ, pos, ◌-ℤ◌, ltb_ℤ, leb_ℤ, eqb_ℤ}
use de_fi_lending_stellar_pa.Map.{Map, lookup, insert}
use de_fi_lending_stellar_pa.Map.Sum.{amount_at}
use de_fi_lending_stellar_pa.Soroban.{
  Address, Symbol, Result, ok, err, ◌>>=◌, ◌>>◌, Env, panic_if, is_some, unwrap_or, require_auth,
  require_admin, require_positive, in_i128, add_i128, sub_i128, mul_i128, div_i128,
  already_initialized, amount_not_positive, insufficient_stake, insufficient_reward_pool,
}

-- `SCALE`, and the ledgers of a week.
abbrev pub scale : ℤ
scale = pos (10 ^ 18)

abbrev pub duration_ledgers : ℤ
duration_ledgers = pos 120_960

pub data Event : Type 0 where
  reward_notified : Symbol → ℤ → Event
  staked unstaked claimed : Address → Symbol → ℤ → Event

-- The keys of `DataKey`; `events` holds what was published, the latest first.
pub record Rewards : Type 0 where
  pub admin : Option Address
  pub totals : Map Symbol ℤ
  pub reward_pools : Map Symbol ℤ
  pub reward_rates : Map Symbol ℤ
  pub last_updates : Map Symbol ℕ
  pub rewards_per_token : Map Symbol ℤ
  pub stakes : Map (Address × Symbol) ℤ
  pub paid : Map (Address × Symbol) ℤ
  pub accrued : Map (Address × Symbol) ℤ
  pub events : List Event

abbrev pub deployed : Rewards
deployed = record {
  admin = none;
  totals = [];
  reward_pools = [];
  reward_rates = [];
  last_updates = [];
  rewards_per_token = [];
  stakes = [];
  paid = [];
  accrued = [];
  events = [];
}

unfoldable pub initialize : Env → Address → Rewards → Result Rewards
initialize e admin s = do
  panic_if (is_some s.admin) already_initialized
  require_auth e admin
  ok (record s { admin = some admin })

unfoldable pub reward_per_token : Symbol → Rewards → ℤ
reward_per_token asset s = amount_at asset s.rewards_per_token

unfoldable pub total_staked : Symbol → Rewards → ℤ
total_staked asset s = amount_at asset s.totals

unfoldable pub reward_rate : Symbol → Rewards → ℤ
reward_rate asset s = amount_at asset s.reward_rates

abbrev pub last_update : Env → Symbol → Rewards → ℕ
last_update e asset s = unwrap_or (lookup asset s.last_updates) e.sequence

-- What one staked unit gains over some ledgers.
unfoldable pub unit_gain : ℕ → ℤ → ℤ → Result ℤ
unit_gain ledgers rate total = do gained ← mul_i128 (pos ledgers) rate; div_i128 gained total

unfoldable pub update_reward : Env → Symbol → Rewards → Result Rewards
update_reward e asset s =
    let touched = record s { last_updates = insert asset e.sequence s.last_updates } in
    if leb e.sequence (last_update e asset s) || eqb_ℤ (total_staked asset s) (pos 0)
    then ok touched
    else if eqb_ℤ (reward_rate asset s) (pos 0)
    then ok touched
    else (do
      delta ←
          unit_gain (e.sequence - last_update e asset s) (reward_rate asset s)
            (total_staked asset s)
      rpt ← add_i128 (reward_per_token asset s) delta
      ok (record touched { rewards_per_token = insert asset rpt s.rewards_per_token }))

unfoldable pub notify_reward : Env → Address → Symbol → ℤ → Rewards → Result Rewards
notify_reward e admin asset amount s = do
  require_admin e s.admin
  require_auth e admin
  require_positive amount amount_not_positive
  t ← update_reward e asset s
  pool ← add_i128 (amount_at asset t.reward_pools) amount
  scaled ← mul_i128 amount scale
  rate ← div_i128 scaled duration_ledgers
  ok (record t {
    reward_pools = insert asset pool t.reward_pools;
    reward_rates = insert asset rate t.reward_rates;
    last_updates = insert asset e.sequence t.last_updates;
    events = reward_notified asset amount ∷ t.events;
  })

-- What a stake has gathered since its checkpoint.
unfoldable pub gathered : ℤ → ℤ → ℤ → Result ℤ
gathered stake rpt paid = do
  since ← sub_i128 rpt paid
  scaled ← mul_i128 stake since
  div_i128 scaled scale

-- `if cur_stake > 0 { .. } else { 0 }`
unfoldable pub gathered_if_staked : ℤ → ℤ → ℤ → Result ℤ
gathered_if_staked stake rpt paid =
    if ltb_ℤ (pos 0) stake then gathered stake rpt paid else ok (pos 0)

unfoldable pub stake : Env → Address → Symbol → ℤ → Rewards → Result Rewards
stake e user asset amount s = do
  require_auth e user
  require_positive amount amount_not_positive
  t ← update_reward e asset s
  let own = amount_at (user, asset) t.stakes
  let rpt = reward_per_token asset t
  fresh ← gathered_if_staked own rpt (amount_at (user, asset) t.paid)
  credit ← add_i128 (amount_at (user, asset) t.accrued) fresh
  own' ← add_i128 own amount
  total ← add_i128 (amount_at asset t.totals) amount
  ok (record t {
    accrued = insert (user, asset) credit t.accrued;
    stakes = insert (user, asset) own' t.stakes;
    paid = insert (user, asset) rpt t.paid;
    totals = insert asset total t.totals;
    events = staked user asset amount ∷ t.events;
  })

unfoldable pub unstake : Env → Address → Symbol → ℤ → Rewards → Result Rewards
unstake e user asset amount s = do
  require_auth e user
  require_positive amount amount_not_positive
  t ← update_reward e asset s
  let own = amount_at (user, asset) t.stakes
  panic_if (ltb_ℤ own amount) insufficient_stake
  let rpt = reward_per_token asset t
  fresh ← gathered own rpt (amount_at (user, asset) t.paid)
  credit ← add_i128 (amount_at (user, asset) t.accrued) fresh
  own' ← sub_i128 own amount
  total ← sub_i128 (amount_at asset t.totals) amount
  ok (record t {
    accrued = insert (user, asset) credit t.accrued;
    stakes = insert (user, asset) own' t.stakes;
    paid = insert (user, asset) rpt t.paid;
    totals = insert asset total t.totals;
    events = unstaked user asset amount ∷ t.events;
  })

-- The end of `claim`, from the total that is due.
unfoldable pub pay_out : Address → Symbol → ℤ → Rewards → Result (Rewards × ℤ)
pay_out user asset due t = if eqb_ℤ due (pos 0) then ok (t, pos 0) else (do
  let pool = amount_at asset t.reward_pools
  panic_if (ltb_ℤ pool due) insufficient_reward_pool
  left ← sub_i128 pool due
  ok (
    record t {
      reward_pools = insert asset left t.reward_pools;
      accrued = insert (user, asset) (pos 0) t.accrued;
      paid = insert (user, asset) (reward_per_token asset t) t.paid;
      events = claimed user asset due ∷ t.events;
    },
    due,
  ))

-- The accrued rewards and what has been gathered since.
unfoldable pub total_accrued : Address → Symbol → Rewards → Result ℤ
total_accrued user asset t = do
  let own = amount_at (user, asset) t.stakes
  fresh ← gathered_if_staked own (reward_per_token asset t) (amount_at (user, asset) t.paid)
  add_i128 (amount_at (user, asset) t.accrued) fresh

unfoldable pub claim : Env → Address → Symbol → Rewards → Result (Rewards × ℤ)
claim e user asset s = do
  require_auth e user
  t ← update_reward e asset s
  due ← total_accrued user asset t
  pay_out user asset due t

-- `rpt.checked_sub(paid).unwrap_or(0)`
unfoldable pub since_or_zero : ℤ → ℤ → ℤ
since_or_zero rpt paid = if in_i128 (rpt -ℤ paid) then rpt -ℤ paid else pos 0

-- What `earned` returns, once the rewards are up to date.
unfoldable pub shown_to : Address → Symbol → Rewards → Result ℤ
shown_to user asset t =
    let own = amount_at (user, asset) t.stakes in
    let credit = amount_at (user, asset) t.accrued in
    if eqb_ℤ own (pos 0) then ok credit else (do
      let since = since_or_zero (reward_per_token asset t) (amount_at (user, asset) t.paid)
      scaled ← mul_i128 own since
      fresh ← div_i128 scaled scale
      add_i128 credit fresh)

-- This view writes what `update_reward` writes.
unfoldable pub earned : Env → Address → Symbol → Rewards → Result (Rewards × ℤ)
earned e user asset s = do t ← update_reward e asset s; shown ← shown_to user asset t; ok (t, shown)
