-- ===== src/Player/Level/Stamina.antt =====
-- Stamina in `grant_player_xp`, and the ladder of its cap.
use sevensins_server.Prelude.{
  ℕ, zero, suc, ◌+◌, ◌-◌, ◌≤◌, ◌≡◌, false, lookup, lookup_or, lookup_or-insert_self, lookup-insert,
  ap, ◌∙◌, ◌==◌, nat_eq, ℤ, pos, ◌+ℤ◌, int_laws, arith,
}
use sevensins_server.Player.Types.{Design, Energy, State}
use sevensins_server.Player.Level.{
  energy_action, stamina_cap_for_level, stamina_recovered_on_rank_up, recover, climb,
  grant_player_xp,
}

-- The stamina that the ranks from `reached` on give back, `n` of them.
pub recovered : ℕ → ℕ → ℕ
recovered reached zero = 0
recovered reached (suc n) = stamina_recovered_on_rank_up reached + recovered (reached + 1) n

pos-add : (a b : ℕ) → pos (a + b) ≡ pos a +ℤ pos b
pos-add a b = omega int_laws

recover-recovered :
    (n reached : ℕ) (energy : ℤ) → recover n reached energy ≡ energy +ℤ pos (recovered reached n)
unfolding recover recovered
recover-recovered zero reached energy = omega int_laws
recover-recovered (suc n) reached energy =
    let gain = stamina_recovered_on_rank_up reached in
    rw (recover-recovered n (reached + 1) (energy +ℤ pos gain)) (omega int_laws)

-- The cap never falls as the level rises, grows by 2 a level at most, and stops at 300, whatever
-- the table says.
pub stamina_cap_bounds :
    (d : Design) (lv : ℕ)
    → (stamina_cap_for_level d lv ≤ 300)
      × (stamina_cap_for_level d lv ≤ stamina_cap_for_level d (lv + 1))
      × (stamina_cap_for_level d (lv + 1) ≤ stamina_cap_for_level d lv + 2)
unfolding stamina_cap_for_level
stamina_cap_bounds d lv = (ground arith, ground arith, ground arith)

-- A grant of experience adds, for each rank reached, the stamina that the rank-up screen shows, and
-- sets the cap to that of the new rank. Another kind of energy is left alone.
pub grant_player_xp_stamina :
    (d : Design) (add : ℕ) (s : State)
    → let t = (grant_player_xp d add s).1 in
      let zero_slot : Energy = record { energy = pos 0; cap = pos 0 } in
      let slot = lookup_or energy_action zero_slot t.energy in
      (slot.energy
        ≡ (lookup_or energy_action zero_slot s.energy).energy
          +ℤ pos (recovered (s.level.lv + 1) (t.level.lv - s.level.lv)))
      × (slot.cap ≡ pos (stamina_cap_for_level d t.level.lv))
      × ((k : ℕ) → (k == energy_action) ≡ false → lookup k t.energy ≡ lookup k s.energy)
unfolding grant_player_xp
grant_player_xp_stamina d add s =
    let lv' =
      (climb (s.level.lv_max - s.level.lv) s.level.lv_max s.level.lv (s.level.xp + add)).0 in
    let zero_slot : Energy = record { energy = pos 0; cap = pos 0 } in
    let slot = lookup_or energy_action zero_slot s.energy in
    let new : Energy = record {
      energy = recover (lv' - s.level.lv) (s.level.lv + 1) slot.energy;
      cap = pos (stamina_cap_for_level d lv');
    } in
    let stored = lookup_or-insert_self energy_action new zero_slot s.energy in
    (
      ap (λ (e : Energy). e.energy) stored
          ∙ recover-recovered (lv' - s.level.lv) (s.level.lv + 1) slot.energy,
      ap (λ (e : Energy). e.cap) stored,
      λ k other. ground (arith, lookup-insert energy_action k new s.energy),
    )
