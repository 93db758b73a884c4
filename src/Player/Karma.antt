-- ===== src/Player/Karma.antt =====
-- Karma of a cast: `karma_of`, `karma_rank_rows`, `karma_rank_rewards` and `grant_karma` of
-- server/player_state/core.py, and the gifts that raise it, `gift_karma_xp` and `give_gifts` of
-- charprogress.py. The keys `_paid` and `_rows` of the karma entry, which only carry the answer,
-- are returned.
pub mod Gifts
use sevensins_server.Prelude.{
  ℕ, zero, suc, ◌+◌, ◌-◌, ◌*◌, Text, Option, some, none, List, [], ◌∷◌, ◌++◌, length, Bool, true,
  false, ◌&&◌, ◌||◌, not, Dict, lookup_or, insert, ◌==◌, nat_eq, leb, ltb, if◌then◌else◌, ℤ, pos,
  ◌+ℤ◌, times, leb_ℤ, ltb_ℤ,
}
use sevensins_server.Player.Types.{FlvRow, Formulas, Design, Karma, State}
use sevensins_server.Player.Quests.{case_karma_rankup, bump_quest_counter}
use sevensins_server.Player.Bag.{spend_item, storage_normal}
use sevensins_server.Player.Casts.{climb, all_held}
use sevensins_server.Player.Mail.{str, add_mail}
use sevensins_server.Player.Teams.{add_gains, sorted}

abbrev pub max_flv : ℕ
max_flv = 30

abbrev pub karma_of : ℕ → State → Karma
karma_of char s = lookup_or char (record { flv = 1; fxp = pos 0 }) s.karma

-- The ranks of a character that are crossed, of the table.
pub crossed : ℕ → ℕ → ℕ → List FlvRow → List FlvRow
crossed char from upto [] = []
crossed char from upto (r ∷ rs) =
    if r.char_id == char && ltb from r.flv && leb r.flv upto
    then r ∷ crossed char from upto rs
    else crossed char from upto rs

-- sorted((flv, id)), then the ids that are not 0.
pub place_row : FlvRow → List FlvRow → List FlvRow
place_row r [] = r ∷ []
place_row r (x ∷ xs) =
    if ltb r.flv x.flv || (r.flv == x.flv && leb r.id x.id) then r ∷ x ∷ xs else x ∷ place_row r xs

pub sorted_rows : List FlvRow → List FlvRow
sorted_rows [] = []
sorted_rows (r ∷ rs) = place_row r (sorted_rows rs)

pub row_ids : List FlvRow → List ℕ
row_ids [] = []
row_ids (r ∷ rs) = if r.id == 0 then row_ids rs else r.id ∷ row_ids rs

pub karma_rank_rows : Design → ℕ → ℕ → ℕ → List ℕ
karma_rank_rows d char from upto = row_ids (sorted_rows (crossed char from upto d.char_flv))

-- KARMA_UNLOCK_ITEM
abbrev pub karma_unlock_item : ℕ
karma_unlock_item = 5

pub bonus_items : List FlvRow → List (ℕ × ℤ)
bonus_items [] = []
bonus_items (r ∷ rs) =
    if r.unlock_type == karma_unlock_item
      && not (r.bonus_item_id == 0)
      && not (r.bonus_item_cnt == 0)
    then (r.bonus_item_id, pos r.bonus_item_cnt) ∷ bonus_items rs
    else bonus_items rs

pub karma_rank_rewards : Design → ℕ → ℕ → ℕ → List (ℕ × ℤ)
karma_rank_rewards d char from upto = bonus_items (crossed char from upto d.char_flv)

abbrev pub karma_rank_mail_format : ℕ
karma_rank_mail_format = 105

-- "Karma Rank "
abbrev pub karma_rank : Text
karma_rank = 75 ∷ 97 ∷ 114 ∷ 109 ∷ 97 ∷ 32 ∷ 82 ∷ 97 ∷ 110 ∷ 107 ∷ 32 ∷ []

-- The entry after the rank loop.
unfoldable pub risen : Formulas → ℕ → ℤ → Karma → Karma
risen f rarity fexp k =
    let (flv, fxp) =
      climb (f.char_flv_need_xp rarity) (max_flv - k.flv) max_flv k.flv (k.fxp +ℤ fexp) in
    if leb max_flv flv
    then record { flv = max_flv; fxp = pos 0 }
    else record { flv = flv; fxp = fxp }

-- The mail of the ranks' rewards, where there are any.
unfoldable pub mail_rewards : ℕ → ℕ → List (ℕ × ℤ) → State → State
mail_rewards now flv [] s = s
mail_rewards now flv (p ∷ owed) s =
    (add_mail now karma_rank_mail_format (add_gains (p ∷ owed) []) (karma_rank ++ str flv) s).1

-- (the rewards that are mailed, the rows that are crossed)
unfoldable pub grant_karma : Formulas → Design → ℕ → ℕ → ℤ → State → (List (ℕ × ℤ) × List ℕ) × State
grant_karma f d now char fexp s =
    let k = karma_of char s in
    let r = risen f (d.char char).rarity fexp k in
    let t = record s { karma = insert char r s.karma } in
    let owed = karma_rank_rewards d char k.flv r.flv in
    let u =
      (bump_quest_counter d case_karma_rankup (pos (r.flv - k.flv)) none none
        (mail_rewards now r.flv owed t)).1 in
    if leb r.flv k.flv then (([], []), t) else ((owed, karma_rank_rows d char k.flv r.flv), u)

abbrev pub gift_item_action : ℕ
gift_item_action = 3

pub gift_karma_xp : Design → ℕ → ℕ → ℤ → ℤ
gift_karma_xp d char item amount =
    let row = d.item item in
    let rate : ℕ =
      if item == (d.char char).favorite_gift
      then 10
      else if not (row.param1 == 0) && row.param1 == (d.char char).favorite_group
      then 2
      else 1 in
    if not (row.action == gift_item_action) then pos 0 else times (row.param2 * rate) amount

-- The pairs of a positive amount.
pub positive : List (ℕ × ℤ) → List (ℕ × ℤ)
positive [] = []
positive ((i, n) ∷ pairs) = if leb_ℤ n (pos 0) then positive pairs else (i, n) ∷ positive pairs

pub amounts : List (ℕ × ℤ) → ℤ
amounts [] = pos 0
amounts ((i, n) ∷ items) = n +ℤ amounts items

pub gifts_xp : Design → ℕ → List (ℕ × ℤ) → ℤ
gifts_xp d char [] = pos 0
gifts_xp d char ((i, n) ∷ items) = gift_karma_xp d char i n +ℤ gifts_xp d char items

-- `if not spend_item(...): return`, for each
unfoldable pub spend_gifts : List (ℕ × ℤ) → State → Bool × State
spend_gifts [] s = (true, s)
spend_gifts ((item, n) ∷ items) s =
    let (paid, t) = spend_item item n storage_normal s in
    let rest = spend_gifts items t in if not paid then (false, t) else rest

abbrev pub max_gift_types : ℕ
max_gift_types = 15

abbrev pub max_gifts : ℤ
max_gifts = pos 200

-- (ok, karma gained, the gifts, the rewards that are mailed)
abbrev pub Given : Type 0
Given = Bool × ℤ × List (ℕ × ℤ) × List (ℕ × ℤ)

abbrev pub not_given : Given
not_given = (false, pos 0, [], [])

unfoldable pub wanted_of : List (ℕ × ℤ) → List (ℕ × ℤ)
wanted_of pairs = sorted (add_gains (positive pairs) [])

unfoldable pub give_gifts : Formulas → Design → ℕ → ℕ → List (ℕ × ℤ) → State → Given × State
give_gifts f d now char pairs s =
    let wanted = wanted_of pairs in
    let total = gifts_xp d char wanted in
    let (paid, t) = spend_gifts wanted s in
    let ((owed, rows), u) = grant_karma f d now char total t in
    if leb (length wanted) 0
    then (not_given, s)
    else if ltb max_gift_types (length wanted)
    then (not_given, s)
    else if ltb_ℤ max_gifts (amounts wanted)
    then (not_given, s)
    else if not (all_held wanted s)
    then (not_given, s)
    else if leb_ℤ total (pos 0)
    then (not_given, s)
    else if not paid
    then (not_given, t)
    else ((true, total, wanted, owed), u)
