-- ===== src/Player/Progress.antt =====
-- Levels and stars of casts in server/player_state/charprogress.py: `level_up_char`,
-- `apply_char_xp`, `rank_up_char` and `super_rank_up_char`.
pub mod Training
use sevensins_server.Prelude.{
  ℕ, zero, suc, ◌+◌, ◌-◌, ◌*◌, Text, Option, some, none, List, [], ◌∷◌, Bool, true, false, ◌||◌,
  ◌&&◌, not, Dict, lookup, lookup_or, insert, get_or, ◌==◌, nat_eq, text_eq, leb, ltb,
  if◌then◌else◌, ℤ, pos, negsuc, ◌+ℤ◌, ◌-ℤ◌, times, leb_ℤ, ltb_ℤ,
}
use sevensins_server.Player.Types.{Formulas, Design, Cast, State}
use sevensins_server.Player.Bag.{has_item, spend_item, storage_normal}
use sevensins_server.Player.Casts.{
  max_star, star_of, char_rarity, char_max_lv, coins, take_coins, put_cast, climb, all_held,
  spend_all,
}

-- TRAINER_ITEM_IDS with LEVEL_UP_MATERIAL_XP.
abbrev pub trainers : Dict ℕ ℕ
trainers = (101, 1725) ∷ (102, 3600) ∷ (103, 9000) ∷ (104, 22500) ∷ (105, 60000) ∷ []

abbrev pub trainer_coin_cost : ℕ
trainer_coin_cost = 1000

abbrev pub is_zero : ℤ → Bool
is_zero (pos n) = n == 0
is_zero (negsuc n) = false

-- The item ids and counts of the trainers that are asked for; a request may be shorter or longer
-- than the list of trainers, and a count negative.
pub consumed : Dict ℕ ℕ → List ℤ → List (ℕ × ℤ)
consumed [] counts = []
consumed (t ∷ ts) [] = []
consumed ((item, xp) ∷ ts) (n ∷ counts) =
    if is_zero n then consumed ts counts else (item, n) ∷ consumed ts counts

pub is_empty : List (ℕ × ℤ) → Bool
is_empty [] = true
is_empty (i ∷ items) = false

-- sum(n for _i, n in consumed)
pub total_of : List (ℕ × ℤ) → ℤ
total_of [] = pos 0
total_of ((item, n) ∷ items) = n +ℤ total_of items

pub gained_of : List (ℕ × ℤ) → ℤ
gained_of [] = pos 0
gained_of ((item, n) ∷ items) = times (lookup_or item 0 trainers) n +ℤ gained_of items

-- The entry after the level loop; at its cap a cast has no experience.
unfoldable pub trained : Formulas → Design → Cast → ℤ → Cast
trained f d e gained =
    let bound = char_max_lv d e in
    let (lv, xp) =
      climb (f.char_lvup_need_xp (d.char e.id).rarity) (bound - e.lv) bound e.lv (e.xp +ℤ gained) in
    record e { lv = lv; xp = if leb bound lv then pos 0 else xp }

-- The part of `level_up_char` that changes the account.
unfoldable pub train : Formulas → Design → Text → Cast → List (ℕ × ℤ) → State → State
train f d uid e items s =
    take_coins (times trainer_coin_cost (total_of items))
      (spend_all items (put_cast uid (trained f d e (gained_of items)) s))

unfoldable pub level_up_char :
    Formulas → Design → Text → List ℤ → State → (Bool × ℤ × List (ℕ × ℤ)) × State
level_up_char f d uid counts s = elim (lookup uid s.roster) [
  | none ↦ ((false, pos 0, []), s)
  | some e ↦
      let items = consumed trainers counts in
      let cost = times trainer_coin_cost (total_of items) in
      if is_empty items
      then ((false, pos 0, []), s)
      else if ltb_ℤ (coins s) cost
      then ((false, pos 0, []), s)
      else if not (all_held items s)
      then ((false, pos 0, []), s)
      else ((true, cost, items), train f d uid e items s)
]

-- (old level, old experience, its need, the new need) and the entry. A cast above its cap is left.
unfoldable pub apply_char_xp : Formulas → Design → ℤ → Cast → (ℕ × ℤ × ℕ × ℕ) × Cast
apply_char_xp f d add e =
    let need = f.char_lvup_need_xp (char_rarity d e.id) in
    let bound = char_max_lv d e in
    let old_lv = if e.lv == 0 then 1 else e.lv in
    let (lv, xp) =
      if leb old_lv bound
      then climb need (bound - old_lv) bound old_lv (e.xp +ℤ add)
      else (old_lv, e.xp) in
    ((old_lv, e.xp, need old_lv, need lv), record e { lv = lv; xp = xp })

abbrev pub rankup_gem : ℕ
rankup_gem = 556

-- rank_up_cost(star), for a star from 0 on: Python reads RANKUP_GEM_BY_STAR[-1] for star 0.
pub rank_up_cost : ℕ → ℕ × ℕ
rank_up_cost star = (
  elim star [ zero ↦ 0 | suc n ↦ get_or (0 ∷ 0 ∷ 525 ∷ 1200 ∷ 3000 ∷ 0 ∷ []) n 0 ],
  lookup_or star 0 ((3, 50000) ∷ (4, 150000) ∷ (5, 500000) ∷ []),
)

unfoldable pub rank_up_char : Design → Text → State → (Bool × ℕ × ℕ) × State
rank_up_char d uid s = elim (lookup uid s.roster) [
  | none ↦ ((false, 0, 0), s)
  | some e ↦
      let star = star_of d e in
      let (gems, cost) = rank_up_cost star in
      let t = take_coins (pos cost) (spend_item rankup_gem (pos gems) storage_normal s).1 in
      if ltb star 3 || leb max_star star
      then ((false, 0, 0), s)
      else if gems == 0
      then ((false, 0, 0), s)
      else if not (has_item rankup_gem (pos gems) s)
      then ((false, 0, 0), s)
      else if ltb_ℤ (coins s) (pos cost)
      then ((false, 0, 0), s)
      else ((true, gems, cost), put_cast uid (record e { star = some (star + 1) }) t)
]

-- SUPER_RANKUP_COINS
abbrev pub super_rankup_coins : List ℕ
super_rankup_coins = 500_000 ∷ 1_000_000 ∷ 1_500_000 ∷ 2_000_000 ∷ 3_000_000 ∷ 5_000_000 ∷ []

unfoldable pub super_rank_up_cost : Design → Cast → Option ℕ
super_rank_up_cost d e =
    if ltb (star_of d e) max_star
    then none
    else if leb 6 e.super_star
    then none
    else some (get_or super_rankup_coins e.super_star 0)

unfoldable pub super_rank_up_char : Design → Text → State → (Bool × ℕ) × State
super_rank_up_char d uid s = elim (lookup uid s.roster) [
  | none ↦ ((false, 0), s)
  | some e ↦ elim (super_rank_up_cost d e) [
    | none ↦ ((false, 0), s)
    | some cost ↦ if ltb_ℤ (coins s) (pos cost) then ((false, 0), s) else (
      (true, cost),
      put_cast uid (record e { star = some max_star; super_star = e.super_star + 1 })
          (take_coins (pos cost) s),
    )
  ]
]
