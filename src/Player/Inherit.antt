-- ===== src/Player/Inherit.antt =====
-- `inherit_char` of server/player_state/charprogress.py: a skill level moves from a mentor to an
-- apprentice.
use sevensins_server.Prelude.{
  ℕ, ◌+◌, ◌-◌, Text, some, none, List, [], ◌∷◌, Bool, ◌||◌, not, lookup, get_or, set, replicate,
  length, ◌==◌, nat_eq, text_eq, text_beq, leb, ltb, if◌then◌else◌, Result, ok, err, ℤ, pos,
}
use sevensins_server.Player.Types.{Design, Cast, State}
use sevensins_server.Player.Money.{spend_diamonds}
use sevensins_server.Player.Bag.{spend_item, storage_normal}
use sevensins_server.Player.Casts.{char_rarity, put_cast, in_formation}
use sevensins_server.Player.Feeding.{max_limit_book, max_total_limit}

-- The five inherit groups, by the alignment of a cast, whose numbers start at 100.
abbrev pub alignment_count : ℕ
alignment_count = 5

abbrev pub alignment_base : ℕ
alignment_base = 100

abbrev pub inherit_materials : List ℕ
inherit_materials = 12 ∷ 21 ∷ 13 ∷ 14 ∷ 23 ∷ []

abbrev pub inherit_diamonds : List ℤ
inherit_diamonds = pos 2000 ∷ pos 1500 ∷ pos 1500 ∷ pos 1000 ∷ pos 500 ∷ []

abbrev pub inherit_cost_diamond : ℕ
inherit_cost_diamond = 2

-- What is left of each group: a list of another length is replaced.
pub impart_limit : State → List ℕ
impart_limit s =
    if length s.impart_limit == alignment_count
    then s.impart_limit
    else replicate alignment_count 99

-- Why an inherit is declined.
pub data NoInherit : Type 0 where
  missing_cast : NoInherit
  rarity_below_4 : NoInherit
  rarity_mismatch : NoInherit
  mentor_in_formation : NoInherit
  no_group : NoInherit
  none_remaining : NoInherit
  nothing_to_give : NoInherit
  at_the_cap : NoInherit
  not_enough_diamonds : NoInherit
  no_gem : NoInherit

-- The apprentice with one book level more, and the mentor with one level less, its cast levels
-- first.
unfoldable pub apprenticed : Cast → Cast
apprenticed app = record app { limit_book = app.limit_book + 1 }

unfoldable pub mentored : Cast → Cast
mentored men =
    if leb 1 men.limit_char
    then record men { limit_char = men.limit_char - 1 }
    else record men { limit_book = men.limit_book - 1 }

-- The payment: the diamonds of the group, or one of its gems.
unfoldable pub pay_inherit : Design → ℕ → ℕ → State → Bool × State
pay_inherit d cost_type idx s =
    if cost_type == inherit_cost_diamond
    then spend_diamonds d (get_or inherit_diamonds idx (pos 0)) s
    else spend_item (get_or inherit_materials idx 0) (pos 1) storage_normal s

-- The two casts, the counter of the group and the answer, once it is paid.
unfoldable pub imparted : Text → Text → Cast → Cast → ℕ → State → (ℕ × ℕ × ℕ) × State
imparted in_uid out_uid app men idx s =
    let left = impart_limit s in
    (
      (app.limit_book + 1, (mentored men).limit_book, (mentored men).limit_char),
      put_cast out_uid (mentored men) (
          put_cast in_uid (apprenticed app)
            (record s { impart_limit = set left idx (get_or left idx 0 - 1) })),
    )

-- From the counter of the group on.
unfoldable pub impart :
    Design → Text → Text → ℕ → ℕ → Cast → Cast → State → Result NoInherit (ℕ × ℕ × ℕ) × State
impart d in_uid out_uid cost_type idx app men s =
    let t = record s { impart_limit = impart_limit s } in
    let (paid, u) = pay_inherit d cost_type idx t in
    let (answer, v) = imparted in_uid out_uid app men idx u in
    if get_or (impart_limit s) idx 0 == 0
    then (err none_remaining, t)
    else if men.limit_book + men.limit_char == 0
    then (err nothing_to_give, t)
    else if leb max_limit_book app.limit_book
        || leb max_total_limit (app.limit_book + app.limit_char)
    then (err at_the_cap, t)
    else if not paid
    then (err (if cost_type == inherit_cost_diamond then not_enough_diamonds else no_gem), u)
    else (ok answer, v)

unfoldable pub inherit_char :
    Design → Text → Text → ℕ → State → Result NoInherit (ℕ × ℕ × ℕ) × State
inherit_char d in_uid out_uid cost_type s = elim (lookup in_uid s.roster) [
  | none ↦ (err missing_cast, s)
  | some app ↦ elim (lookup out_uid s.roster) [
    | none ↦ (err missing_cast, s)
    | some men ↦
        let alignment = (d.char app.id).alignment in
        if text_beq in_uid out_uid
        then (err missing_cast, s)
        else if ltb (char_rarity d app.id) 4 || ltb (char_rarity d men.id) 4
        then (err rarity_below_4, s)
        else if not (char_rarity d app.id == char_rarity d men.id)
        then (err rarity_mismatch, s)
        else if in_formation out_uid s.formations
        then (err mentor_in_formation, s)
        else if ltb alignment alignment_base || leb (alignment_base + alignment_count) alignment
        then (err no_group, s)
        else impart d in_uid out_uid cost_type (alignment - alignment_base) app men s
  ]
]
