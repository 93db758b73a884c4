-- ===== src/Player/DailyTests.antt =====
-- The theorems on mail and on the login ladder, at a sample account.
use sevensins_server.Prelude.{
  ℕ, ◌/◌, ◌≡◌, refl, some, [], ◌∷◌, ◌||◌, ◌==◌, nat_eq, if◌then◌else◌, ℤ, pos, zero, Text, Result,
  ok, err, arith,
}
use sevensins_server.Player.StageQuests.{complete_stage_quests, complete_stage_quests-again}
use sevensins_server.Player.Types.{Design, QuestRow, State}
use sevensins_server.Player.Sample.{design, account}
use sevensins_server.Player.Money.{add_currency}
use sevensins_server.Player.Mail.{asks, grant_items, paid_row, claim_rows, claim_mail}
use sevensins_server.Player.Mail.Claims.{claim_mail-claim_mail}
use sevensins_server.Player.LoginBonus.{
  ladder_from, ladder, is_empty, last_rung, advance_login_bonus,
}
use sevensins_server.Player.LoginBonus.Ladder.{IsRolled, IsOnLadder, advance_login_bonus_lem}

-- Every reward is diamonds, and a reward of nothing raises.
grant : ℕ → ℤ → State → Result Text ℤ × State
grant item (pos zero) s = (err [], s)
grant item count s = let (n, t) = add_currency 1 count s in (ok n, t)

claim_mail-claim_mail_example :
    let t = (claim_mail grant 99 (some (1 ∷ [])) account).1 in
    claim_mail grant 100 (some (1 ∷ [])) t ≡ (ok ([], []), t)
unfolding claim_mail claim_rows paid_row grant_items asks grant add_currency
claim_mail-claim_mail_example =
    claim_mail-claim_mail grant 99 100 (some (1 ∷ [])) account
      (claim_mail grant 99 (some (1 ∷ [])) account).1 _ refl

on_ladder : IsOnLadder design account
unfolding ladder ladder_from last_rung
on_ladder = (omega arith, omega arith)

advance_login_bonus_lem_example :
    let (paid, t) = advance_login_bonus design 1_000_000 account in
    if (account.login.last_day == 1_000_000 / 86400) || is_empty (ladder design)
    then (paid ≡ []) × (t ≡ account)
    else IsRolled design (1_000_000 / 86400) paid account t
advance_login_bonus_lem_example = advance_login_bonus_lem design 1_000_000 account on_ladder

-- One daily mission, completed on the day before.
abbrev missions : Design
missions = record design {
  quests =
      (
        20,
        record {
          case_id = 1001;
          case_v1 = 0;
          case_v2 = 0;
          case_type = 2;
          case_cnt = 5;
          type = 3;
          pre_quest = 0;
          group = 4;
        },
      )
      ∷ [];
}

abbrev busy : State
busy = record account {
  counters = record {
    quests = [];
    quest_db = [];
    sp_quests = (20, record { cnt = pos 1; status = 1 }) ∷ [];
  };
}

-- Two quests of the stage 101, one with a counter of its own.
abbrev stage_quest : ℕ → QuestRow
stage_quest kind = record {
  case_id = 4;
  case_v1 = 101;
  case_v2 = 0;
  case_type = kind;
  case_cnt = 1;
  type = 1;
  pre_quest = 0;
  group = 0;
}

abbrev stage_design : Design
stage_design = record design { quests = (21, stage_quest 1) ∷ (22, stage_quest 2) ∷ [] }

complete_stage_quests-again_example :
    let t = (complete_stage_quests stage_design 101 (4 ∷ []) account).1 in
    complete_stage_quests stage_design 101 (4 ∷ []) t ≡ ([], t)
complete_stage_quests-again_example = complete_stage_quests-again stage_design 101 (4 ∷ []) account
