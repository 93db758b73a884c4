-- ===== src/Player/Casts/Climbing.antt =====
-- Where the level loops end.
use sevensins_server.Prelude.{
  ℕ, zero, suc, ◌+◌, ◌-◌, ◌≤◌, ◌<◌, ◌≡◌, ◌⊎◌, inl, inr, refl, ◌||◌, Bool-cases, ltb, ◌==◌, nat_eq,
  ℤ, pos, ◌+ℤ◌, ◌-ℤ◌, ◌<ℤ◌, ltb_ℤ, arith, int_laws,
}
use sevensins_server.Player.Casts.{climb}

-- The experience of the levels from `lv` on, `n` of them.
pub climb_cost : (ℕ → ℕ) → ℕ → ℕ → ℕ
climb_cost need lv zero = 0
climb_cost need lv (suc n) = need lv + climb_cost need (lv + 1) n

-- A loop that started at (lv, xp) ended at (lv', xp'): no experience was lost, the level did not
-- pass the bound nor fall, and what is left does not pay for one more level.
pub record IsClimbed (need : ℕ → ℕ) (bound lv : ℕ) (xp : ℤ) (lv' : ℕ) (xp' : ℤ) : Type 0 where
  pub up : lv ≤ lv'
  pub in_range : lv ≤ bound → lv' ≤ bound
  pub conserved : pos (climb_cost need lv (lv' - lv)) +ℤ xp' ≡ xp
  pub settled : (bound ≤ lv') ⊎ ((need lv' ≡ 0) ⊎ (xp' <ℤ pos (need lv')))

carry : (n c : ℕ) (x y : ℤ) → pos c +ℤ x ≡ y -ℤ pos n → pos (n + c) +ℤ x ≡ y
carry n c x y h =
    let split : pos (n + c) +ℤ x ≡ pos n +ℤ (pos c +ℤ x) = omega int_laws in
    rw (split, h) (omega int_laws)

module _ (need : ℕ → ℕ) (bound lv : ℕ) (xp : ℤ) where
  cost_none : (n : ℕ) → n ≡ 0 → climb_cost need lv n ≡ 0
  unfolding climb_cost
  cost_none zero h = refl
  cost_none (suc n) h = absurd (omega arith)

  cost_more :
      (lv' : ℕ)
      → lv + 1 ≤ lv'
      → climb_cost need lv (lv' - lv) ≡ need lv + climb_cost need (lv + 1) (lv' - (lv + 1))
  cost_more lv' h =
      let e : lv' - lv ≡ suc (lv' - (lv + 1)) = omega arith in rw e (unfold climb_cost in refl)

  stays :
      ((bound ≤ lv) ⊎ ((need lv ≡ 0) ⊎ (xp <ℤ pos (need lv)))) → IsClimbed need bound lv xp lv xp
  stays h = record {
    up = omega arith;
    in_range = λ k. k;
    conserved = let none_left = cost_none (lv - lv) (omega arith) in rw none_left (omega int_laws);
    settled = h;
  }

  steps :
      (lv' : ℕ) (xp' : ℤ)
      → lv < bound
      → IsClimbed need bound (lv + 1) (xp -ℤ pos (need lv)) lv' xp'
      → IsClimbed need bound lv xp lv' xp'
  steps lv' xp' h k = record {
    up = omega (arith, k.up);
    in_range = λ _. k.in_range (omega arith);
    conserved = let more = cost_more lv' k.up in rw more (carry (need lv) _ xp' xp k.conserved);
    settled = k.settled;
  }

pub climb-IsClimbed :
    (need : ℕ → ℕ) (fuel bound lv : ℕ) (xp : ℤ)
    → bound ≤ lv + fuel
    → let (lv', xp') = climb need fuel bound lv xp in IsClimbed need bound lv xp lv' xp'
unfolding climb
climb-IsClimbed need zero bound lv xp h = stays need bound lv xp (inl (omega arith))
climb-IsClimbed need (suc fuel) bound lv xp h = elim (Bool-cases (ltb lv bound)) [
  | inr top ↦ rw top (stays need bound lv xp (inl (ground arith)))
  | inl below ↦ elim (Bool-cases (need lv == 0 || ltb_ℤ xp (pos (need lv)))) [
    | inl short ↦ rw (below, short) (stays need bound lv xp (inr (ground arith)))
    | inr paid ↦
        rw (below, paid)
          (steps need bound lv xp _ _ (ground arith)
            (climb-IsClimbed need fuel bound (lv + 1) (xp -ℤ pos (need lv)) (omega arith)))
  ]
]
