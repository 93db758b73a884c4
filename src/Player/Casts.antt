-- ===== src/Player/Casts.antt =====
-- A cast of the roster: its rarity, star and level cap, and what the operations on casts share, of
-- server/player_state/core.py and charprogress.py, with `_default_star` of server/battle.py.
pub mod Climbing
pub mod Spending
pub mod Stars
use Prim.Native.Nat.{max}
use sevensins_server.Prelude.{
  ℕ, zero, suc, ◌+◌, ◌-◌, ◌*◌, min, Text, Option, some, none, List, [], ◌∷◌, Bool, true, false,
  ◌&&◌, ◌||◌, not, Dict, lookup, lookup_or, insert, take, ◌==◌, nat_eq, text_eq, text_beq, leb, ltb,
  if◌then◌else◌, ℤ, pos, ◌+ℤ◌, ◌-ℤ◌, leb_ℤ, ltb_ℤ,
}
use sevensins_server.Player.Types.{CharRow, Design, Cast, Formation, State}
use sevensins_server.Player.Money.{balance}
use sevensins_server.Player.Bag.{has_item, spend_item, storage_normal}
use sevensins_server.Player.Equips.{mem}

abbrev pub currency_coin : ℕ
currency_coin = 16

abbrev pub max_star : ℕ
max_star = 6

pub char_rarity : Design → ℕ → ℕ
char_rarity d id = let r = (d.char id).rarity in if r == 0 then 1 else r

-- RARITY_MIN_STAR.get(rarity or 1, 1)
pub rarity_min_star : CharRow → ℕ
rarity_min_star row =
    if row.rarity == 2
    then 3
    else if row.rarity == 3
    then 4
    else if row.rarity == 4 || row.rarity == 5
    then 5
    else 1

-- [i + 1 for i, g in enumerate(raw) if g]
pub valid_rungs : ℕ → List Bool → List ℕ
valid_rungs i [] = []
valid_rungs i (g ∷ raw) = if g then suc i ∷ valid_rungs (suc i) raw else valid_rungs (suc i) raw

-- max([s for s in valid if s <= bound], default=0)
pub best_rung : ℕ → List ℕ → ℕ
best_rung bound [] = 0
best_rung bound (s ∷ ss) = if leb s bound then max s (best_rung bound ss) else best_rung bound ss

unfoldable pub default_star : CharRow → ℕ
default_star row =
    let valid = valid_rungs 0 (take max_star row.grow_star) in
    let best = best_rung (rarity_min_star row) valid in
    elim valid [ [] ↦ 1 | lowest ∷ _ ↦ if best == 0 then lowest else best ]

-- entry.get("star"), or the default where it is None
unfoldable pub star_of : Design → Cast → ℕ
star_of d e = elim e.star [ none ↦ default_star (d.char e.id) | some s ↦ s ]

unfoldable pub char_max_lv : Design → Cast → ℕ
char_max_lv d e = e.plus + 10 * star_of d e + 5 * e.super_star

-- int(state["currency"].get(str(CURRENCY_COIN), 0)), and the same less a cost.
abbrev pub coins : State → ℤ
coins s = balance currency_coin s.currency

abbrev pub take_coins : ℤ → State → State
take_coins cost s = record s { currency = insert currency_coin (coins s -ℤ cost) s.currency }

-- The entry of a cast is changed in place.
abbrev pub put_cast : Text → Cast → State → State
put_cast uid e s = record s { roster = insert uid e s.roster }

-- `while lv < bound: need = ...; if need <= 0 or xp < need: break; ...` on (lv, xp), with the
-- rounds that are left for fuel.
pub climb : (ℕ → ℕ) → ℕ → ℕ → ℕ → ℤ → ℕ × ℤ
climb need zero bound lv xp = (lv, xp)
climb need (suc fuel) bound lv xp =
    let next = climb need fuel bound (lv + 1) (xp -ℤ pos (need lv)) in
    if not (ltb lv bound)
    then (lv, xp)
    else if need lv == 0 || ltb_ℤ xp (pos (need lv))
    then (lv, xp)
    else next

-- if any of the items is short: return; then spend each
unfoldable pub all_held : List (ℕ × ℤ) → State → Bool
all_held [] s = true
all_held ((item, n) ∷ items) s = has_item item n s && all_held items s

unfoldable pub spend_all : List (ℕ × ℤ) → State → State
spend_all [] s = s
spend_all ((item, n) ∷ items) s = spend_all items (spend_item item n storage_normal s).1

-- u in {u for f in formations for u in f["array"] if u}
unfoldable pub in_formation : Text → List Formation → Bool
in_formation u [] = false
in_formation u (f ∷ fs) = (not (text_beq u []) && mem u f.array) || in_formation u fs
