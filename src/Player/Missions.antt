-- ===== src/Player/Missions.antt =====
-- The daily, weekly and monthly missions of server/player_state/quests.py:
-- `reset_periodic_missions` and `mission_quest_ids`. The window of a group, a text in the source,
-- is a number that the clock gives.
pub mod Windows
use sevensins_server.Prelude.{
  ℕ, Option, some, none, List, [], ◌∷◌, ◌++◌, Bool, true, false, ◌&&◌, not, Dict, lookup, insert,
  ◌==◌, nat_eq, if◌then◌else◌, ℤ, pos, negsuc,
}
use sevensins_server.Player.Types.{QuestRow, Design, SpQuest, State}
use sevensins_server.Player.Quests.{sp_complete, sp_in_progress}

-- QUEST_TYPE_MISSION and MISSION_GROUPS.
abbrev pub quest_type_mission : ℕ
quest_type_mission = 3

abbrev pub mission_groups : List ℕ
mission_groups = 4 ∷ 5 ∷ 6 ∷ []

pub mission_quest_ids : ℕ → List (ℕ × QuestRow) → List ℕ
mission_quest_ids group [] = []
mission_quest_ids group ((id, r) ∷ rows) =
    if r.type == quest_type_mission && r.group == group
    then id ∷ mission_quest_ids group rows
    else mission_quest_ids group rows

-- Nothing to reset: no progress, and not completed.
abbrev pub is_fresh : SpQuest → Bool
is_fresh e = elim e.cnt [ pos n ↦ n == 0 | negsuc n ↦ false ] && not (e.status == sp_complete)

abbrev pub fresh_quest : SpQuest
fresh_quest = record { cnt = pos 0; status = sp_in_progress }

-- The loop over the missions of a group, with the ids that are reset.
pub reset_ids : List ℕ → Dict ℕ SpQuest → List ℕ × Dict ℕ SpQuest
reset_ids [] quests = ([], quests)
reset_ids (i ∷ ids) quests = elim (lookup i quests) [
  | none ↦ reset_ids ids quests
  | some e ↦
      let skipped = reset_ids ids quests in
      let (done, after) = reset_ids ids (insert i fresh_quest quests) in
      if is_fresh e then skipped else (i ∷ done, after)
]

-- stamps.get(str(group)) == now_period
abbrev pub is_stamped : ℕ → Option ℕ → Bool
is_stamped window none = false
is_stamped window (some w) = w == window

-- A group whose window is new.
unfoldable pub open_window : Design → ℕ → ℕ → State → List ℕ × State
open_window d group window s =
    let (ids, quests) = reset_ids (mission_quest_ids group d.quests) s.counters.sp_quests in
    (
      ids,
      record s {
        mission_periods = insert group window s.mission_periods;
        counters = record s.counters { sp_quests = quests };
      },
    )

unfoldable pub reset_groups : Design → (ℕ → ℕ) → List ℕ → State → List ℕ × State
reset_groups d window [] s = ([], s)
reset_groups d window (g ∷ gs) s =
    let skipped = reset_groups d window gs s in
    let (ids, t) = open_window d g (window g) s in
    let (more, u) = reset_groups d window gs t in
    if is_stamped (window g) (lookup g s.mission_periods) then skipped else (ids ++ more, u)

unfoldable pub reset_periodic_missions : Design → (ℕ → ℕ) → State → List ℕ × State
reset_periodic_missions d window s = reset_groups d window mission_groups s
