-- ===== src/Player/Quests.antt =====
-- Quest counters: `case_key`, `quest_completed` and `bump_quest_counter` of
-- server/player_state/core.py.
pub mod Counts
pub mod Completed
use sevensins_server.Prelude.{
  ℕ, ◌+◌, Text, Option, some, none, List, [], ◌∷◌, Bool, true, false, ◌&&◌, ◌||◌, not, Dict, lookup,
  lookup_or, contains, insert, ◌==◌, nat_eq, text_eq, text_beq, if◌then◌else◌, ltb, ℤ, pos, ◌+ℤ◌,
  max_ℤ,
}
use sevensins_server.Player.Types.{Design, QuestRow, SpQuest, Counters, State}

abbrev pub case_type_sp : ℕ
case_type_sp = 2

abbrev pub sp_complete : ℕ
sp_complete = 1

abbrev pub sp_in_progress : ℕ
sp_in_progress = 0

-- QUEST_CASE_LOGIN_DAYS, _KARMA_RANKUP, _GACHA, _SPEND_DIAMOND, _ROULETTE
abbrev pub case_login_days : ℕ
case_login_days = 9

abbrev pub case_karma_rankup : ℕ
case_karma_rankup = 11

abbrev pub case_spend_diamond : ℕ
case_spend_diamond = 2014

abbrev pub case_roulette : ℕ
case_roulette = 33

-- UNSUPPORTED_QUEST_TYPES
abbrev pub is_unsupported : ℕ → Bool
is_unsupported t = t == 4 || t == 6 || t == 7 || t == 8 || t == 9

unfoldable pub case_key : QuestRow → Text
case_key row =
    if ltb row.case_v2 1
    then row.case_id ∷ row.case_v1 ∷ []
    else row.case_id ∷ row.case_v1 ∷ row.case_v2 ∷ []

pub quest_completed : Counters → ℕ → Bool
quest_completed c qid =
    if qid == 0
    then true
    else if contains qid c.quests
    then true
    else elim (lookup qid c.sp_quests) [ none ↦ false | some e ↦ e.status == sp_complete ]

-- An entry of the list that `bump_quest_counter` returns: a quest id, or a case key.
pub data Touched : Type 0 where
  quest : ℕ → Touched
  case : Text → Touched

abbrev pub touches : Text → List Touched → Bool
touches key [] = false
touches key (quest q ∷ ts) = touches key ts
touches key (case k ∷ ts) = text_beq k key || touches key ts

-- What a bump asks for: `amount`, or the floor `to`.
pub bumped : ℤ → Option ℤ → ℤ → ℤ
bumped amount none n = n +ℤ amount
bumped amount (some to) n = max_ℤ n to

-- The tests at the head of the loop's body.
unfoldable pub is_bumped : ℕ → Option ℕ → QuestRow → Bool
is_bumped case_id case_v1 row =
    row.case_id == case_id
    && elim case_v1 [ none ↦ true | some v ↦ row.case_v1 == v ]
    && not (is_unsupported row.type)

-- The branch for a quest with a counter of its own.
pub bump_sp : ℤ → Option ℤ → ℕ → QuestRow → List Touched × Counters → List Touched × Counters
bump_sp amount to qid row (ts, c) =
    let e = lookup_or qid (record { cnt = pos 0; status = sp_in_progress }) c.sp_quests in
    if not (quest_completed c row.pre_quest)
    then (ts, c)
    else if e.status == sp_complete
    then (ts, c)
    else (
      quest qid ∷ ts,
      record c { sp_quests = insert qid (record e { cnt = bumped amount to e.cnt }) c.sp_quests },
    )

-- The branch for a quest that shares the counter of its case.
pub bump_case : ℤ → Option ℤ → QuestRow → List Touched × Counters → List Touched × Counters
bump_case amount to row (ts, c) = if touches (case_key row) ts then (ts, c) else (
  case (case_key row) ∷ ts,
  record c {
    quest_db =
        insert (case_key row) (bumped amount to (lookup_or (case_key row) (pos 0) c.quest_db))
          c.quest_db;
  },
)

-- One round of the loop.
pub bump_row :
    ℕ → Option ℕ → ℤ → Option ℤ → ℕ × QuestRow → List Touched × Counters → List Touched × Counters
bump_row case_id case_v1 amount to (qid, row) acc =
    if not (is_bumped case_id case_v1 row)
    then acc
    else if row.case_type == case_type_sp
    then bump_sp amount to qid row acc
    else bump_case amount to row acc

pub bump_rows :
    ℕ
    → Option ℕ
    → ℤ
    → Option ℤ
    → List (ℕ × QuestRow)
    → List Touched × Counters
    → List Touched × Counters
bump_rows case_id case_v1 amount to [] acc = acc
bump_rows case_id case_v1 amount to (r ∷ rows) acc =
    bump_rows case_id case_v1 amount to rows (bump_row case_id case_v1 amount to r acc)

-- The newest entry of the returned list comes first here.
unfoldable pub bump_quest_counter :
    Design → ℕ → ℤ → Option ℕ → Option ℤ → State → List Touched × State
bump_quest_counter d case_id amount case_v1 to s =
    let (ts, c) = bump_rows case_id case_v1 amount to d.quests ([], s.counters) in
    (ts, record s { counters = c })
