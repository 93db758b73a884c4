-- ===== src/Player/Level/Bank.antt =====
-- The level loop of `grant_player_xp`: where it ends.
use sevensins_server.Prelude.{
  ℕ, zero, suc, ◌+◌, ◌-◌, ◌≤◌, ◌<◌, ◌≡◌, ◌⊎◌, inl, inr, refl, true, Bool-cases, ltb, nat_eq, arith,
}
use sevensins_server.Player.Types.{Design, State}
use sevensins_server.Player.Level.{player_level_xp_cap, climb, grant_player_xp}

-- The experience that the levels from `lv` on take, `n` of them.
pub levels_cost : ℕ → ℕ → ℕ
levels_cost lv zero = 0
levels_cost lv (suc n) = player_level_xp_cap lv + levels_cost (lv + 1) n

-- Where the loop ends: no experience vanishes, and it could not have gone on.
pub record IsClimbed (lv_max lv xp lv' xp' : ℕ) : Type 0 where
  pub up : lv ≤ lv'
  pub in_range : lv' ≤ lv_max
  pub conserved : levels_cost lv (lv' - lv) + xp' ≡ xp
  pub settled : (lv' ≡ lv_max) ⊎ (xp' < player_level_xp_cap lv')

levels_cost_same : (lv n : ℕ) → n ≡ 0 → levels_cost lv n ≡ 0
unfolding levels_cost
levels_cost_same lv zero h = refl
levels_cost_same lv (suc n) h = absurd (omega arith)

levels_cost_step :
    (lv lv' : ℕ)
    → lv + 1 ≤ lv'
    → levels_cost lv (lv' - lv) ≡ player_level_xp_cap lv + levels_cost (lv + 1) (lv' - (lv + 1))
levels_cost_step lv lv' h =
    let e : lv' - lv ≡ suc (lv' - (lv + 1)) = omega arith in rw e (unfold levels_cost in refl)

IsClimbed-stay :
    (lv_max lv xp : ℕ)
    → lv ≤ lv_max
    → (lv ≡ lv_max) ⊎ (xp < player_level_xp_cap lv)
    → IsClimbed lv_max lv xp lv xp
IsClimbed-stay lv_max lv xp h stop = record {
  up = omega arith;
  in_range = h;
  conserved = omega (arith, levels_cost_same lv (lv - lv) (omega arith));
  settled = stop;
}

IsClimbed-step :
    (lv_max lv xp lv' xp' : ℕ)
    → player_level_xp_cap lv ≤ xp
    → IsClimbed lv_max (lv + 1) (xp - player_level_xp_cap lv) lv' xp'
    → IsClimbed lv_max lv xp lv' xp'
IsClimbed-step lv_max lv xp lv' xp' h c = record {
  up = omega (arith, c.up);
  in_range = c.in_range;
  conserved = omega (arith, levels_cost_step lv lv' c.up, c.conserved);
  settled = c.settled;
}

climb-IsClimbed :
    (fuel lv_max lv xp : ℕ)
    → lv + fuel ≡ lv_max
    → let (lv', xp') = climb fuel lv_max lv xp in IsClimbed lv_max lv xp lv' xp'
unfolding climb
climb-IsClimbed zero lv_max lv xp h = IsClimbed-stay lv_max lv xp (omega arith) (inl (omega arith))
climb-IsClimbed (suc fuel) lv_max lv xp h =
    let below : ltb lv lv_max ≡ true = ground arith in
    elim (Bool-cases (ltb xp (player_level_xp_cap lv))) [
      | inl short ↦
          rw (below, short) (IsClimbed-stay lv_max lv xp (omega arith) (inr (ground arith)))
      | inr covered ↦
          rw (below, covered)
            (IsClimbed-step lv_max lv xp _ _ (ground arith)
              (climb-IsClimbed fuel lv_max (lv + 1) (xp - player_level_xp_cap lv) (omega arith)))
    ]

-- From a level up to `lv_max`, granting experience takes the account to one up to `lv_max`: the
-- levels taken and what stays in the bank make up the old bank and the grant, the bank no longer
-- covers a level unless the account is at `lv_max`, and the stored price is that of the new level.
pub grant_player_xp-IsClimbed :
    (d : Design) (add : ℕ) (s : State)
    → s.level.lv ≤ s.level.lv_max
    → let t = (grant_player_xp d add s).1 in
      IsClimbed s.level.lv_max s.level.lv (s.level.xp + add) t.level.lv t.level.xp
      × (t.level.xp_cap ≡ player_level_xp_cap t.level.lv)
unfolding grant_player_xp
grant_player_xp-IsClimbed d add s h = (
  climb-IsClimbed (s.level.lv_max - s.level.lv) s.level.lv_max s.level.lv (s.level.xp + add)
      (omega arith),
  refl,
)
