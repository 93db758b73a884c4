-- ===== src/Player/LoginBonus.antt =====
-- The ladder of login rewards of server/player_state/loginbonus.py.
pub mod Ladder
use Prim.Native.Nat.{max}
use sevensins_server.Prelude.{
  ℕ, zero, suc, ◌+◌, ◌/◌, Text, Option, some, none, List, [], ◌∷◌, Bool, true, false, ◌&&◌, not,
  Dict, lookup, insert, ◌==◌, nat_eq, ltb, if◌then◌else◌, ℤ, pos,
}
use sevensins_server.Player.Types.{BonusRow, MailRow, Login, Design, State}
use sevensins_server.Player.Quests.{bump_quest_counter, case_login_days}
use sevensins_server.Player.Mail.{add_mail, str}

abbrev pub login_bonus_group : ℕ
login_bonus_group = 1

-- The comprehension over the rows, where a later row replaces an earlier one of its day.
unfoldable pub ladder_from : Dict ℕ BonusRow → List BonusRow → Dict ℕ BonusRow
ladder_from acc [] = acc
ladder_from acc (r ∷ rows) =
    ladder_from
      (if r.group == login_bonus_group && not (r.day == 0) then insert r.day r acc else acc) rows

unfoldable pub ladder : Design → Dict ℕ BonusRow
ladder d = ladder_from [] d.login_bonus

-- not ladder
pub is_empty : Dict ℕ BonusRow → Bool
is_empty [] = true
is_empty (r ∷ rs) = false

-- max(ladder)
unfoldable pub last_rung : Dict ℕ BonusRow → ℕ
last_rung [] = 0
last_rung ((day, row) ∷ rest) = max day (last_rung rest)

-- The rung and book that follow.
pub next_rung : ℕ → Login → ℕ × ℕ
next_rung last l =
    if ltb last (l.claimed_day + 1) then (1, l.book + 1) else (l.claimed_day + 1, l.book)

-- What a rung pays: the mail's form, the item and the count. A `_param` of 0 or none is 1.
pub reward_of : Design → ℕ → Option (ℕ × ℕ × ℕ)
reward_of d day = elim (lookup day (ladder d)) [
  | none ↦ none
  | some row ↦ elim (d.mail row.mail) [
    | none ↦ none
    | some m ↦
        if m.item_id == 0
        then none
        else some (row.mail, m.item_id, (if m.param == 0 then 1 else m.param))
  ]
]

-- The mail of the rung, if it pays, and what was paid.
pub pay_rung : Design → ℕ → ℕ → State → List (ℕ × ℕ × ℕ) × State
pay_rung d now day s = elim (reward_of d day) [
  | none ↦ ([], s)
  | some (form, item, count) ↦
      ((day, item, count) ∷ [], (add_mail now form ((item, pos count) ∷ []) (str day) s).1)
]

-- The writes behind the payment.
pub roll : Design → ℕ → ℕ × ℕ → State → State
roll d today (day, book) s =
    let total = s.login.total_days + 1 in
    (bump_quest_counter d case_login_days (pos 1) none (some (pos total)) (record s {
      login = record {
        last_day = today;
        claimed_day = day;
        book = book;
        checkin_day = day;
        total_days = total;
      };
    })).1

pub advance_login_bonus : Design → ℕ → State → List (ℕ × ℕ × ℕ) × State
advance_login_bonus d now s =
    let today = now / 86400 in
    let (day, book) = next_rung (last_rung (ladder d)) s.login in
    let (paid, t) = pay_rung d now day s in
    if s.login.last_day == today
    then ([], s)
    else if is_empty (ladder d)
    then ([], s)
    else (paid, roll d today (day, book) t)
