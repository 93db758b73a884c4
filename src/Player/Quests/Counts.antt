-- ===== src/Player/Quests/Counts.antt =====
-- The shared counters under `bump_quest_counter`.
use sevensins_server.Prelude.{
  ℕ, ◌≡◌, ◌∙◌, refl, Text, Option, List, [], ◌∷◌, Bool, false, ◌&&◌, ◌||◌, not, lookup_or,
  lookup-insert, ◌==◌, nat_eq, text_eq, text_beq, text_beq_iff, if◌then◌else◌, ℤ, pos, arith,
}
use sevensins_server.Player.Types.{Design, QuestRow, Counters, State}
use sevensins_server.Player.Quests.{
  case_type_sp, case_key, Touched, touches, bumped, is_bumped, bump_sp, bump_case, bump_row,
  bump_rows, bump_quest_counter,
}

-- The value that a shared counter has, 0 where it was never bumped.
abbrev pub count_of : Text → Counters → ℤ
count_of key c = lookup_or key (pos 0) c.quest_db

module _ (case_id : ℕ) (case_v1 : Option ℕ) (amount : ℤ) (to : Option ℤ) where
  -- Does a row that this bump takes share the counter `key`?
  abbrev pub shares : Text → QuestRow → Bool
  shares key row =
      is_bumped case_id case_v1 row
      && not (row.case_type == case_type_sp)
      && text_beq (case_key row) key

  pub is_shared : Text → List (ℕ × QuestRow) → Bool
  is_shared key [] = false
  is_shared key ((q, row) ∷ rows) = shares key row || is_shared key rows

  touches_sp :
      (key : Text) (qid : ℕ) (row : QuestRow) (ts : List Touched) (c : Counters)
      → (touches key (bump_sp amount to qid row (ts, c)).0 ≡ touches key ts)
        × (count_of key (bump_sp amount to qid row (ts, c)).1 ≡ count_of key c)
  unfolding bump_sp
  touches_sp key qid row ts c = ground arith

  touches_case :
      (key : Text) (row : QuestRow) (ts : List Touched) (c : Counters)
      → (touches key (bump_case amount to row (ts, c)).0
          ≡ (text_beq (case_key row) key || touches key ts))
        × (count_of key (bump_case amount to row (ts, c)).1 ≡ (
            if text_beq (case_key row) key && not (touches key ts)
            then bumped amount to (count_of key c)
            else count_of key c))
  unfolding bump_case
  touches_case key row ts c = ground (
    arith,
    text_beq_iff (case_key row) key,
    lookup-insert (case_key row) key (bumped amount to (count_of (case_key row) c)) c.quest_db,
  )

  -- One round: the case of a row that is taken is marked, and its counter moves if it was not.
  touches_row :
      (key : Text) (qid : ℕ) (row : QuestRow) (ts : List Touched) (c : Counters)
      → (touches key (bump_row case_id case_v1 amount to (qid, row) (ts, c)).0
          ≡ (shares key row || touches key ts))
        × (count_of key (bump_row case_id case_v1 amount to (qid, row) (ts, c)).1 ≡ (
            if shares key row && not (touches key ts)
            then bumped amount to (count_of key c)
            else count_of key c))
  unfolding bump_row
  touches_row key qid row ts c =
      ground (arith, touches_sp key qid row ts c, touches_case key row ts c)

  -- A counter that a taken row shares moves once, unless it is marked already; the others stay.
  count_rows :
      (key : Text) (rows : List (ℕ × QuestRow)) (ts : List Touched) (c : Counters)
      → count_of key (bump_rows case_id case_v1 amount to rows (ts, c)).1 ≡ (
          if is_shared key rows && not (touches key ts)
          then bumped amount to (count_of key c)
          else count_of key c)
  unfolding bump_rows is_shared
  count_rows key [] ts c = refl
  count_rows key ((qid, row) ∷ rows) ts c =
      let (ts', c') = bump_row case_id case_v1 amount to (qid, row) (ts, c) in
      ground (arith, touches_row key qid row ts c, count_rows key rows ts' c')

  -- However many quests share a counter, one bump moves it once: by the amount, or up to the floor.
  -- A counter that no quest of this case shares does not move.
  pub count-bump :
      (d : Design) (s : State) (key : Text)
      → count_of key (bump_quest_counter d case_id amount case_v1 to s).1.counters ≡ (
          if is_shared key d.quests
          then bumped amount to (count_of key s.counters)
          else count_of key s.counters)
  unfolding bump_quest_counter
  count-bump d s key = count_rows key d.quests [] s.counters ∙ ground arith
