-- ===== src/Player/Level.antt =====
-- The account's level and stamina: `player_level_xp_cap`, `grant_player_xp` and the stamina ladder
-- of server/player_state/core.py.
pub mod Bank
pub mod Stamina
use Prim.Native.Nat.{max}
use sevensins_server.Prelude.{
  ℕ, zero, suc, ◌+◌, ◌-◌, ◌*◌, ◌^◌, min, Bool, true, false, not, Dict, lookup_or, insert, ◌==◌,
  nat_eq, if◌then◌else◌, ltb, ℤ, pos, ◌+ℤ◌,
}
use sevensins_server.Player.Types.{Design, Energy, Level, State}

-- ENERGY_ACTION
abbrev pub energy_action : ℕ
energy_action = 1

abbrev pub stamina_cap_max : ℕ
stamina_cap_max = 300

-- A design table with no `_cap_max` reads as 99999.
pub stamina_cap_for_level : Design → ℕ → ℕ
stamina_cap_for_level d lv =
    let cap = 148 + 2 * max 1 lv in
    let ceiling = if d.energy_cap_max == 0 then 99999 else d.energy_cap_max in
    min cap (min stamina_cap_max ceiling)

pub stamina_recovered_on_rank_up : ℕ → ℕ
stamina_recovered_on_rank_up lv = 5 * max 1 lv + 10

-- At level 0 this is 100 + 20 * -1 + 2 * (-1) ** 2.
pub player_level_xp_cap : ℕ → ℕ
player_level_xp_cap zero = 82
player_level_xp_cap (suc n) = 100 + 20 * n + 2 * n ^ 2

-- The `while` loop of `grant_player_xp` on (lv, xp), with as many rounds of fuel as levels are
-- left.
pub climb : ℕ → ℕ → ℕ → ℕ → ℕ × ℕ
climb zero lv_max lv xp = (lv, xp)
climb (suc fuel) lv_max lv xp =
    let next = climb fuel lv_max (lv + 1) (xp - player_level_xp_cap lv) in
    if not (ltb lv lv_max)
    then (lv, xp)
    else if ltb xp (player_level_xp_cap lv)
    then (lv, xp)
    else next

-- The loop over the ranks reached: `n` ranks from `reached` on.
pub recover : ℕ → ℕ → ℤ → ℤ
recover zero reached energy = energy
recover (suc n) reached energy =
    recover n (reached + 1) (energy +ℤ pos (stamina_recovered_on_rank_up reached))

pub grant_player_xp : Design → ℕ → State → (Bool × ℕ × ℕ) × State
grant_player_xp d add s =
    let old_lv = s.level.lv in
    let (lv, xp) = climb (s.level.lv_max - old_lv) s.level.lv_max old_lv (s.level.xp + add) in
    let slot = lookup_or energy_action (record { energy = pos 0; cap = pos 0 }) s.energy in
    (
      (not (lv == old_lv), old_lv, lv),
      record s {
        level = record {
          lv = lv;
          xp = xp;
          xp_cap = player_level_xp_cap lv;
          lv_max = s.level.lv_max;
        };
        energy =
            insert energy_action
              (record {
                energy = recover (lv - old_lv) (old_lv + 1) slot.energy;
                cap = pos (stamina_cap_for_level d lv);
              })
              s.energy;
      },
    )
