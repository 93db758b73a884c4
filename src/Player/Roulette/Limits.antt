-- ===== src/Player/Roulette/Limits.antt =====
-- The counters of the wheel under `expire_roulette_day` and `roulette_draw`.
use sevensins_server.Prelude.{
  ℕ, ◌+◌, ◌≤◌, ◌<◌, ◌≡◌, ◌∙◌, ap, refl, none, List, [], ◌∷◌, Bool, true, ◌||◌, not, Dict, lookup_or,
  lookup_or-insert, ◌==◌, nat_eq, leb, by_test, get_or, if◌then◌else◌, Result, ok, err, ℤ, pos,
  arith,
}
use sevensins_server.Player.Types.{Wheel, Design, State}
use sevensins_server.Player.Quests.{bump_quest_counter, case_roulette}
use sevensins_server.Player.Money.{spend_diamonds}
use sevensins_server.Player.Bag.{spend_item, spend_cost}
use sevensins_server.Player.Roulette.{
  unknown_box, no_draws_left, cannot_pay, roulette_slots, roulette_draw_max, expire_rows,
  expire_roulette_day, wheel_of, put_wheel, Decline, count_spin, spin, roulette_draw, base_box,
  cost_box,
}

-- No box is spun more than four times a day, and its bonus track stands below four.
pub record IsLimited (s : State) : Type 0 where
  pub day : (box : ℕ) → (wheel_of box s).day ≤ 4
  pub sum : (box : ℕ) → (wheel_of box s).sum ≤ 3

expire_rows_lem :
    (box : ℕ) (rows : Dict ℕ Wheel)
    → let zero_wheel : Wheel = record { day = 0; sum = 0 } in
      ((lookup_or box zero_wheel (expire_rows rows).1).day ≡ 0)
      × ((lookup_or box zero_wheel (expire_rows rows).1).sum ≡ (lookup_or box zero_wheel rows).sum)
unfolding expire_rows
expire_rows_lem box [] = (refl, refl)
expire_rows_lem box ((k, r) ∷ rows) = ground (arith, expire_rows_lem box rows)

expire-IsLimited :
    (period : ℕ) (s : State) → IsLimited s → IsLimited (expire_roulette_day period s).1
unfolding expire_roulette_day
expire-IsLimited period s h = record {
  day = λ box. ground (arith, expire_rows_lem box s.roulette, h.day box);
  sum = λ box. ground (arith, expire_rows_lem box s.roulette, h.sum box);
}

-- The limits depend on the counters only.
limits_of_eq : (s t : State) → t.roulette ≡ s.roulette → IsLimited s → IsLimited t
limits_of_eq s t e h = record { day = λ box. rw e (h.day box); sum = λ box. rw e (h.sum box) }

spend_diamonds-roulette :
    (d : Design) (amount : ℤ) (s : State) → (spend_diamonds d amount s).1.roulette ≡ s.roulette
unfolding spend_diamonds bump_quest_counter
spend_diamonds-roulette d amount s = ground arith

spend_cost-roulette :
    (d : Design) (item : ℕ) (amount : ℤ) (s : State)
    → (spend_cost d item amount s).1.roulette ≡ s.roulette
unfolding spend_cost spend_item
spend_cost-roulette d item amount s = ground (arith, spend_diamonds-roulette d amount s)

bump-roulette :
    (d : Design) (c : ℕ) (s : State)
    → (bump_quest_counter d c (pos 1) none none s).1.roulette ≡ s.roulette
unfolding bump_quest_counter
bump-roulette d c s = refl

wheel-put :
    (k box : ℕ) (r : Wheel) (s : State)
    → wheel_of k (put_wheel box r s) ≡ (if box == k then r else wheel_of k s)
wheel-put k box r s = lookup_or-insert box k r (record { day = 0; sum = 0 }) s.roulette

-- The counters of a box after a spin.
pub spun : Wheel → Wheel
spun r = record { day = r.day + 1; sum = if leb 4 (r.sum + 1) then 0 else r.sum + 1 }

-- A payout that leaves the counters of the wheel alone.
pub record IsPayout {ℓ} {Bucket : Type ℓ} (grant : ℕ → ℤ → State → Bucket × State) : Type ℓ where
  pub keeps : (item : ℕ) (amount : ℤ) (s : State) → (grant item amount s).1.roulette ≡ s.roulette

module _ {ℓ} {Bucket : Type ℓ} (grant : ℕ → ℤ → State → Bucket × State) (g : IsPayout grant) where
  wheel-grant :
      (k item : ℕ) (amount : ℤ) (s : State) → wheel_of k (grant item amount s).1 ≡ wheel_of k s
  wheel-grant k item amount s = rw (g.keeps item amount s)

  module _ (d : Design) (box k : ℕ) where
    wheel-count_spin :
        (buckets : List Bucket) (s : State)
        → wheel_of k (count_spin grant d box (buckets, s)).1
          ≡ (if box == k then spun (wheel_of box s) else wheel_of k s)
    unfolding count_spin spun
    wheel-count_spin buckets s =
        let r = wheel_of box s in
        let paid = put_wheel box (record r { day = r.day + 1 }) s in
        let t = (bump_quest_counter d case_roulette (pos 1) none none paid).1 in
        let counted : Wheel = record { day = r.day + 1; sum = r.sum + 1 } in
        let v = put_wheel box counted t in
        let u = (grant 210 (pos 50) v).1 in
        let at_t : wheel_of k t ≡ wheel_of k paid = rw (bump-roulette d case_roulette paid) in
        ground (
          arith,
          wheel-put k box (record { day = r.day + 1; sum = 0 }) u,
          wheel-grant k 210 (pos 50) v,
          wheel-put k box counted t,
          at_t,
          wheel-put k box (record r { day = r.day + 1 }) s,
        )

    wheel-spin :
        (choice : ℕ) (s : State)
        → wheel_of k (spin grant d choice box s).1
          ≡ (if box == k then spun (wheel_of box s) else wheel_of k s)
    unfolding spin
    wheel-spin choice s =
        let (item, amount) = get_or roulette_slots choice (1, pos 30) in
        let (b, t) = grant item amount s in
        ground (
          arith,
          wheel-count_spin (b ∷ []) t,
          wheel-grant k item amount s,
          wheel-grant box item amount s,
        )

-- What a draw makes of the counters, which stand as in `t` once the day has been rolled: nothing if
-- it is declined; else the box had a spin left, and it alone has one spin more.
pub DrawOutcome {ℓ} :
    {Bucket : Type ℓ} → ℕ → State → Result Decline (List (ℕ × ℕ × ℤ) × List Bucket) × State → Type 0
DrawOutcome box t (err why, u) = u.roulette ≡ t.roulette
DrawOutcome box t (ok won, u) =
    ((wheel_of box t).day < 4)
    × ((k : ℕ) → wheel_of k u ≡ (if box == k then spun (wheel_of box t) else wheel_of k t))

DrawOutcome-IsLimited {ℓ} :
    {Bucket : Type ℓ} (box : ℕ) (t : State)
    (out : Result Decline (List (ℕ × ℕ × ℤ) × List Bucket) × State)
    → IsLimited t
    → DrawOutcome box t out
    → IsLimited out.1
unfolding DrawOutcome spun
DrawOutcome-IsLimited box t (err why, u) h same = limits_of_eq t u same h
DrawOutcome-IsLimited box t (ok won, u) h (left, after) = record {
  day = λ k. ground (arith, after k, h.day k);
  sum = λ k. ground (arith, after k, h.sum k);
}

module _ {ℓ} {Bucket : Type ℓ} (grant : ℕ → ℤ → State → Bucket × State) (g : IsPayout grant)
    (d : Design) (period choice box : ℕ) where
  spin-outcome :
      (t u : State)
      → u.roulette ≡ t.roulette
      → (wheel_of box t).day < 4
      → DrawOutcome box t (spin grant d choice box u)
  unfolding DrawOutcome spin
  spin-outcome t u same left =
      let zero_wheel : Wheel = record { day = 0; sum = 0 } in
      (
        left,
        λ k.
            wheel-spin grant g d box k choice u
            ∙ ap
                (λ (ws : Dict ℕ Wheel).
                  if box == k
                  then spun (lookup_or box zero_wheel ws)
                  else lookup_or k zero_wheel ws)
                same,
      )

  payment-roulette :
      (t : State)
      → (if box == base_box then (true, t) else spend_cost d 123 (pos 1) t).1.roulette ≡ t.roulette
  payment-roulette t = ground (arith, spend_cost-roulette d 123 (pos 1) t)

  -- A draw of a box with a payout that leaves the counters alone: if it is declined, the counters
  -- stand as the roll of the day left them; else the box had a spin left of four, it has one fewer,
  -- its bonus track moved on or started again at the fourth spin, and no other box changed.
  pub roulette_draw-outcome :
      (s : State)
      → DrawOutcome box (expire_roulette_day period s).1 (roulette_draw grant d period choice box s)
  unfolding roulette_draw DrawOutcome
  roulette_draw-outcome s =
      let t = (expire_roulette_day period s).1 in
      let pay : Bool × State = if box == base_box then (true, t) else spend_cost d 123 (pos 1) t in
      let same = payment-roulette t in
      let P = DrawOutcome {Bucket = Bucket} box t in
      let last = if not pay.0 then (err cannot_pay, pay.1) else spin grant d choice box pay.1 in
      let spent = leb roulette_draw_max (wheel_of box t).day in
      by_test P (not (box == base_box || box == cost_box)) (err unknown_box, t)
        (if spent then (err no_draws_left, t) else last) (λ h. refl)
        (λ h.
          by_test P spent (err no_draws_left, t) last (λ k. refl)
            (λ left.
              by_test P (not pay.0) (err cannot_pay, pay.1) (spin grant d choice box pay.1)
                (λ k. same) (λ k. spin-outcome t pay.1 same (ground (arith, left)))))

  -- With such a payout, a draw from counters within their limits, declined or not, leaves them
  -- within their limits: four spins a day and box at most, and a bonus track below four.
  pub roulette_draw-IsLimited :
      (s : State) → IsLimited s → IsLimited (roulette_draw grant d period choice box s).1
  roulette_draw-IsLimited s h =
      DrawOutcome-IsLimited box (expire_roulette_day period s).1
        (roulette_draw grant d period choice box s) (expire-IsLimited period s h)
        (roulette_draw-outcome s)
