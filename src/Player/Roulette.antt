-- ===== src/Player/Roulette.antt =====
-- The lucky wheel of server/player_state/roulette.py. The daily period is a number in place of its
-- date, and the random choice is the number of the slot that it takes.
pub mod Limits
use sevensins_server.Prelude.{
  ℕ, ◌+◌, Option, some, none, List, [], ◌∷◌, ◌++◌, Bool, true, false, ◌||◌, not, Dict, lookup_or,
  insert, get_or, ◌==◌, nat_eq, leb, if◌then◌else◌, Result, ok, err, ℤ, pos,
}
use sevensins_server.Player.Types.{Wheel, Design, State}
use sevensins_server.Player.Quests.{bump_quest_counter, case_roulette}
use sevensins_server.Player.Bag.{spend_cost}

-- BaseBox, free, and ItemCostBox, which takes a Spin-Dat-Coin.
abbrev pub base_box : ℕ
base_box = 101

abbrev pub cost_box : ℕ
cost_box = 102

abbrev pub roulette_draw_max : ℕ
roulette_draw_max = 4

pub roulette_slots : List (ℕ × ℤ)
roulette_slots =
    (1, pos 30)
    ∷ (5, pos 10)
    ∷ (1, pos 50)
    ∷ (1, pos 10)
    ∷ (210, pos 20)
    ∷ (2, pos 20000)
    ∷ (211, pos 20)
    ∷ (202, pos 5)
    ∷ (2, pos 50000)
    ∷ (203, pos 5)
    ∷ (2, pos 5000)
    ∷ (5, pos 20)
    ∷ []

-- The loop of `expire_roulette_day`, with `changed`.
pub expire_rows : Dict ℕ Wheel → Bool × Dict ℕ Wheel
expire_rows [] = (false, [])
expire_rows ((box, r) ∷ rows) =
    let (changed, rest) = expire_rows rows in
    if r.day == 0 then (changed, (box, r) ∷ rest) else (true, (box, record r { day = 0 }) ∷ rest)

-- Is this the period that the counters are of?
abbrev pub is_current : ℕ → Option ℕ → Bool
is_current period none = false
is_current period (some p) = p == period

pub expire_roulette_day : ℕ → State → Bool × State
expire_roulette_day period s =
    let (changed, rows) = expire_rows s.roulette in
    if is_current period s.roulette_day
    then (false, s)
    else (changed, record s { roulette_day = some period; roulette = rows })

-- The counters of a box, 0 where there are none.
abbrev pub wheel_of : ℕ → State → Wheel
wheel_of box s = lookup_or box (record { day = 0; sum = 0 }) s.roulette

abbrev pub put_wheel : ℕ → Wheel → State → State
put_wheel box r s = record s { roulette = insert box r s.roulette }

-- Why a draw is declined.
pub data Decline : Type 0 where
  unknown_box : Decline
  no_draws_left : Decline
  cannot_pay : Decline

-- What pays a prize out: `grant_reward` of core.py, which does not touch the wheel's counters.
module _ {ℓ} {Bucket : Type ℓ} (grant_reward : ℕ → ℤ → State → Bucket × State) where
  -- The counting of a spin that was paid for, and the bonus of every fourth.
  pub count_spin : Design → ℕ → List Bucket × State → List Bucket × State
  count_spin d box (buckets, s) =
      let r = wheel_of box s in
      let t =
        (bump_quest_counter d case_roulette (pos 1) none none
          (put_wheel box (record r { day = r.day + 1 }) s)).1 in
      let sum = r.sum + 1 in
      let v = put_wheel box (record { day = r.day + 1; sum = sum }) t in
      let (b, u) = grant_reward 210 (pos 50) v in
      if leb roulette_draw_max sum
      then (b ∷ buckets, put_wheel box (record { day = r.day + 1; sum = 0 }) u)
      else (buckets, v)

  -- The draw once the account has paid.
  pub spin : Design → ℕ → ℕ → State → Result Decline (List (ℕ × ℕ × ℤ) × List Bucket) × State
  spin d choice box s =
      let (item, amount) = get_or roulette_slots choice (1, pos 30) in
      let (b, t) = grant_reward item amount s in
      let (buckets, u) = count_spin d box (b ∷ [], t) in (ok ((box, item, amount) ∷ [], buckets), u)

  pub roulette_draw :
      Design → ℕ → ℕ → ℕ → State → Result Decline (List (ℕ × ℕ × ℤ) × List Bucket) × State
  roulette_draw d period choice box s =
      let t = (expire_roulette_day period s).1 in
      let (paid, u) : Bool × State =
        if box == base_box then (true, t) else spend_cost d 123 (pos 1) t in
      if not (box == base_box || box == cost_box)
      then (err unknown_box, t)
      else if leb roulette_draw_max (wheel_of box t).day
      then (err no_draws_left, t)
      else if not paid
      then (err cannot_pay, u)
      else spin d choice box u
