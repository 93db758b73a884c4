-- ===== src/Player/StageQuests.antt =====
-- Quests that clearing a stage completes: `complete_stage_quests` of server/player_state/quests.py.
use sevensins_server.Prelude.{
  ℕ, ◌≡◌, refl, ap, List, [], ◌∷◌, Bool, true, false, ◌&&◌, ◌||◌, not, All, contains, insert,
  lookup-insert, ◌==◌, nat_eq, if◌then◌else◌, pos, arith,
}
use sevensins_server.Player.Types.{Design, QuestRow, SpQuest, Counters, State}
use sevensins_server.Player.Quests.{case_type_sp, sp_complete, is_unsupported}

-- QUEST_CASE_CLEAR_STAGE_ID, the default of `cases`
abbrev pub case_clear_stage_id : ℕ
case_clear_stage_id = 4

-- The tests at the head of the loop's body.
is_cleared_by : ℕ → List ℕ → QuestRow → Bool
is_cleared_by stage cases row =
    is_case row.case_id cases && row.case_v1 == stage && not (is_unsupported row.type)
  where
    is_case : ℕ → List ℕ → Bool
    is_case id [] = false
    is_case id (c ∷ cs) = c == id || is_case id cs

-- One round: whether the quest is newly completed, and the counters after.
clear_row : ℕ → List ℕ → ℕ × QuestRow → Counters → Bool × Counters
clear_row stage cases (qid, row) c =
    let cnt = pos (if row.case_cnt == 0 then 1 else row.case_cnt) in
    if not (is_cleared_by stage cases row)
    then (false, c)
    else if row.case_type == case_type_sp
    then (if contains qid c.sp_quests then (false, c) else (
      true,
      record c { sp_quests = insert qid (record { cnt = cnt; status = sp_complete }) c.sp_quests },
    ))
    else if contains qid c.quests
    then (false, c)
    else (true, record c { quests = insert qid 1 c.quests })

clear_rows : ℕ → List ℕ → List (ℕ × QuestRow) → Counters → List ℕ × Counters
clear_rows stage cases [] c = ([], c)
clear_rows stage cases ((qid, row) ∷ rows) c =
    let (new, e) = clear_row stage cases (qid, row) c in
    let (newly, after) = clear_rows stage cases rows e in
    ((if new then qid ∷ newly else newly), after)

pub complete_stage_quests : Design → ℕ → List ℕ → State → List ℕ × State
complete_stage_quests d stage cases s =
    let (newly, c) = clear_rows stage cases d.quests s.counters in
    (newly, record s { counters = c })

-- The row names a quest that is not cleared by the stage, or that has its completion on record.
settled_by : ℕ → List ℕ → Counters → ℕ × QuestRow → Bool
settled_by stage cases c (qid, row) =
    not (is_cleared_by stage cases row)
    || (if row.case_type == case_type_sp then contains qid c.sp_quests else contains qid c.quests)

module _ (stage : ℕ) (cases : List ℕ) where
  abbrev IsSettled : Counters → ℕ × QuestRow → Type 0
  IsSettled c q = settled_by stage cases c q ≡ true

  clear_settled :
      (q : ℕ × QuestRow) (c : Counters) → IsSettled c q → clear_row stage cases q c ≡ (false, c)
  unfolding clear_row settled_by
  clear_settled (qid, row) c h = ground (arith, h)

  clear_row-IsSettled :
      (q : ℕ × QuestRow) (c : Counters) → IsSettled (clear_row stage cases q c).1 q
  unfolding clear_row settled_by
  clear_row-IsSettled (qid, row) c =
      let sp : SpQuest = record {
        cnt = pos (if row.case_cnt == 0 then 1 else row.case_cnt);
        status = sp_complete;
      } in
      ground (arith, lookup-insert qid qid sp c.sp_quests, lookup-insert qid qid 1 c.quests)

  kept-IsSettled :
      (q p : ℕ × QuestRow) (c : Counters)
      → IsSettled c q
      → IsSettled (clear_row stage cases p c).1 q
  unfolding clear_row settled_by
  kept-IsSettled (qid, row) (pid, other) c h =
      let sp : SpQuest = record {
        cnt = pos (if other.case_cnt == 0 then 1 else other.case_cnt);
        status = sp_complete;
      } in
      ground (arith, h, lookup-insert pid qid sp c.sp_quests, lookup-insert pid qid 1 c.quests)

  rows_keep :
      (q : ℕ × QuestRow) (rows : List (ℕ × QuestRow)) (c : Counters)
      → IsSettled c q
      → IsSettled (clear_rows stage cases rows c).1 q
  unfolding clear_rows
  rows_keep q [] c h = h
  rows_keep q (p ∷ rows) c h =
      rows_keep q rows (clear_row stage cases p c).1 (kept-IsSettled q p c h)

  rows-IsSettled :
      (rows : List (ℕ × QuestRow)) (c : Counters)
      → All (IsSettled (clear_rows stage cases rows c).1) rows
  unfolding clear_rows
  rows-IsSettled [] c = tt
  rows-IsSettled (q ∷ rows) c = (
    rows_keep q rows (clear_row stage cases q c).1 (clear_row-IsSettled q c),
    rows-IsSettled rows (clear_row stage cases q c).1,
  )

  clear_rows_settled :
      (rows : List (ℕ × QuestRow)) (c : Counters)
      → All (IsSettled c) rows
      → clear_rows stage cases rows c ≡ ([], c)
  unfolding clear_rows
  clear_rows_settled [] c h = refl
  clear_rows_settled (q ∷ rows) c h =
      rw (clear_settled q c h.0, clear_rows) (clear_rows_settled rows c h.1)

-- Clearing a stage once more completes no quest again and changes nothing.
pub complete_stage_quests-again :
    (d : Design) (stage : ℕ) (cases : List ℕ) (s : State)
    → let t = (complete_stage_quests d stage cases s).1 in
      complete_stage_quests d stage cases t ≡ ([], t)
unfolding complete_stage_quests
complete_stage_quests-again d stage cases s =
    let c = (clear_rows stage cases d.quests s.counters).1 in
    ap (λ (r : List ℕ × Counters). (r.0, record s { counters = r.1 }))
      (clear_rows_settled stage cases d.quests c (rows-IsSettled stage cases d.quests s.counters))
