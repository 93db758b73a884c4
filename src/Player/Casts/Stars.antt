-- ===== src/Player/Casts/Stars.antt =====
-- The default star of a character.
use sevensins_server.Prelude.{
  ℕ, zero, suc, ◌+◌, ◌≤◌, subst, All, List, [], ◌∷◌, Bool, by_test, take, ◌==◌, nat_eq,
  if◌then◌else◌, arith,
}
use sevensins_server.Player.Types.{CharRow}
use sevensins_server.Player.Casts.{max_star, valid_rungs, best_rung, rarity_min_star, default_star}

-- The rungs that a default star is taken from.
valid_rungs-All :
    (i n : ℕ) (raw : List Bool) → All (λ r. (1 ≤ r) × (r ≤ i + n)) (valid_rungs i (take n raw))
unfolding valid_rungs
valid_rungs-All i zero raw = tt
valid_rungs-All i (suc n) [] = tt
valid_rungs-All i (suc n) (g ∷ raw) =
    let rest : All (λ r. (1 ≤ r) × (r ≤ i + suc n)) (valid_rungs (suc i) (take n raw)) =
      subst (λ m. All (λ r. (1 ≤ r) × (r ≤ m)) (valid_rungs (suc i) (take n raw))) (omega arith)
        (valid_rungs-All (suc i) n raw) in
    by_test (All (λ r. (1 ≤ r) × (r ≤ i + suc n))) g _ _ (λ _. ((omega arith, omega arith), rest))
      (λ _. rest)

best_rung-le :
    (bound n : ℕ) (ss : List ℕ) → All (λ r. (1 ≤ r) × (r ≤ n)) ss → best_rung bound ss ≤ n
unfolding best_rung
best_rung-le bound n [] h = omega arith
best_rung-le bound n (s ∷ ss) h = ground (arith, best_rung-le bound n ss h.1, h.0.1)

pub default_star-le : (row : CharRow) → (1 ≤ default_star row) × (default_star row ≤ max_star)
unfolding default_star
default_star-le row =
    let valid = valid_rungs 0 (take max_star row.grow_star) in
    let best =
      best_rung-le (rarity_min_star row) max_star valid
        (valid_rungs-All 0 max_star row.grow_star) in
    star_between valid (best_rung (rarity_min_star row) valid) best
      (valid_rungs-All 0 max_star row.grow_star)
  where
    star_between :
        (valid : List ℕ) (best : ℕ)
        → best ≤ max_star
        → All (λ r. (1 ≤ r) × (r ≤ max_star)) valid
        → let star : ℕ = elim valid [ [] ↦ 1 | lowest ∷ _ ↦ if best == 0 then lowest else best ] in
          (1 ≤ star) × (star ≤ max_star)
    star_between [] best h all = (omega arith, omega arith)
    star_between (r ∷ rs) best h all = ground (arith, all.0.0, all.0.1)
