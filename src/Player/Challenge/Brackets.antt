-- ===== src/Player/Challenge/Brackets.antt =====
-- The brackets that a score reaches.
use sevensins_server.Prelude.{
  ℕ, ◌+◌, ◌≤◌, ◌<◌, ◌≡◌, ◌∙◌, refl, ap, inl, inr, List, [], ◌∷◌, false, Bool-cases, by_test, All,
  length, take, leb, if◌then◌else◌, arith,
}
use sevensins_server.Player.Types.{RewardRow, Design}
use sevensins_server.Player.Challenge.{
  put_row, sort_rows, reward_rows, bracket_end, rows_items, bracket_rewards,
}

-- The rows whose threshold the score reaches.
pub reached : ℕ → List RewardRow → List RewardRow
reached score [] = []
reached score (r ∷ rs) = if leb r.lower score then r ∷ reached score rs else reached score rs

IsAscending : List RewardRow → Type 0
IsAscending [] = Unit
IsAscending (r ∷ rs) = All (λ x. r.lower ≤ x.lower) rs × IsAscending rs

All-put_row :
    (n : ℕ) (r : RewardRow) (xs : List RewardRow)
    → n ≤ r.lower
    → All (λ x. n ≤ x.lower) xs
    → All (λ x. n ≤ x.lower) (put_row r xs)
unfolding put_row
All-put_row n r [] h all = (h, tt)
All-put_row n r (x ∷ xs) h all =
    by_test (All (λ (y : RewardRow). n ≤ y.lower)) (leb r.lower x.lower) _ _ (λ _. (h, all))
      (λ _. (all.0, All-put_row n r xs h all.1))

All-weaken :
    (n m : ℕ) (xs : List RewardRow) → n ≤ m → All (λ x. m ≤ x.lower) xs → All (λ x. n ≤ x.lower) xs
All-weaken n m [] h all = tt
All-weaken n m (x ∷ xs) h all = (omega (arith, all.0), All-weaken n m xs h all.1)

put_row-IsAscending :
    (r : RewardRow) (xs : List RewardRow) → IsAscending xs → IsAscending (put_row r xs)
unfolding put_row IsAscending
put_row-IsAscending r [] h = (tt, tt)
put_row-IsAscending r (x ∷ xs) h =
    by_test IsAscending (leb r.lower x.lower) _ _
      (λ low.
        let le : r.lower ≤ x.lower = ground arith in
        ((le, All-weaken r.lower x.lower xs le h.0), h))
      (λ high.
        let ge : x.lower ≤ r.lower = ground arith in
        (All-put_row x.lower r xs ge h.0, put_row-IsAscending r xs h.1))

sort_rows-IsAscending : (rs : List RewardRow) → IsAscending (sort_rows rs)
unfolding sort_rows IsAscending
sort_rows-IsAscending [] = tt
sort_rows-IsAscending (r ∷ rs) = put_row-IsAscending r (sort_rows rs) (sort_rows-IsAscending rs)

-- Past the score no row is reached.
none_reached :
    (score n i hit : ℕ) (rs : List RewardRow)
    → score < n
    → All (λ x. n ≤ x.lower) rs
    → (bracket_end score i hit rs ≡ hit) × (reached score rs ≡ [])
unfolding bracket_end reached
none_reached score n i hit [] h all = (refl, refl)
none_reached score n i hit (r ∷ rs) h all =
    let (low, rest) = none_reached score n (i + 1) hit rs h all.1 in
    let over : leb r.lower score ≡ false = ground (arith, all.0) in rw over (low, rest)

bracket_end-length :
    (score i : ℕ) (rs : List RewardRow)
    → IsAscending rs
    → bracket_end score i i rs ≡ i + length (reached score rs)
unfolding bracket_end reached IsAscending
bracket_end-length score i [] h = omega arith
bracket_end-length score i (r ∷ rs) h = elim (Bool-cases (leb r.lower score)) [
  | inl low ↦ rw low (omega (arith, bracket_end-length score (i + 1) rs h.1))
  | inr high ↦
      let (end, nothing) = none_reached score r.lower (i + 1) i rs (ground arith) h.0 in
      rw (high, end, nothing) (omega arith)
]

take-reached :
    (score : ℕ) (rs : List RewardRow)
    → IsAscending rs
    → take (length (reached score rs)) rs ≡ reached score rs
unfolding reached IsAscending
take-reached score [] h = refl
take-reached score (r ∷ rs) h = elim (Bool-cases (leb r.lower score)) [
  | inl low ↦ rw low (ap (λ xs. r ∷ xs) (take-reached score rs h.1))
  | inr high ↦
      let (end, nothing) = none_reached score r.lower 0 0 rs (ground arith) h.0 in
      rw (high, nothing) refl
]

-- What `_bracket_rewards` cuts off at the last row that the score reaches are the items of every
-- row that the score reaches, in the order of the thresholds: no bracket is left out and none is
-- paid that the score does not reach.
pub bracket_rewards-reached :
    (d : Design) (type group score : ℕ)
    → bracket_rewards d type group score ≡ rows_items (reached score (reward_rows d type group))
unfolding bracket_rewards reward_rows
bracket_rewards-reached d type group score =
    let rows = reward_rows d type group in
    let up : IsAscending rows = sort_rows-IsAscending _ in
    let end : bracket_end score 0 0 rows ≡ length (reached score rows) =
      omega (arith, bracket_end-length score 0 rows up) in
    ap (λ n. rows_items (take n rows)) end ∙ ap rows_items (take-reached score rows up)
