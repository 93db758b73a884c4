-- ===== src/Player/Feeding.antt =====
-- The operations of server/player_state/charprogress.py that consume casts: `transcend_char`,
-- `ultra_transcend` and `skill_up`. A `del` of a key that is gone raises the KeyError of that key,
-- and leaves what was changed before it.
pub mod Consuming
pub mod Outcomes
use sevensins_server.Prelude.{
  ℕ, zero, suc, ◌+◌, ◌-◌, ◌*◌, ◌/◌, ◌^◌, min, Text, Option, some, none, List, [], ◌∷◌, Bool, true,
  false, ◌||◌, ◌&&◌, not, Dict, lookup, contains, erase, length, ◌==◌, nat_eq, text_eq, text_beq,
  leb, ltb, if◌then◌else◌, Result, ok, err, ℤ, pos, ◌+ℤ◌, ltb_ℤ,
}
use sevensins_server.Player.Types.{Formulas, Design, Cast, Formation, State}
use sevensins_server.Player.Casts.{
  char_rarity, star_of, coins, take_coins, put_cast, climb, in_formation,
}

-- [m for m in material_uids if m and m != uid and m in state["roster"]]
unfoldable pub materials : Text → List Text → Dict Text Cast → List Text
materials uid [] roster = []
materials uid (m ∷ ms) roster =
    if not (text_beq m []) && not (text_beq m uid) && contains m roster
    then m ∷ materials uid ms roster
    else materials uid ms roster

-- any(m in in_party for m in mats)
unfoldable pub any_in_formation : List Text → List Formation → Bool
any_in_formation [] fs = false
any_in_formation (m ∷ ms) fs = in_formation m fs || any_in_formation ms fs

pub is_none : List Text → Bool
is_none [] = true
is_none (m ∷ ms) = false

-- for m in mats: del state["roster"][m]
unfoldable pub delete_casts : List Text → State → Result Text (Unit {0}) × State
delete_casts [] s = (ok tt, s)
delete_casts (m ∷ ms) s =
    let rest = delete_casts ms (record s { roster = erase m s.roster }) in
    if contains m s.roster then rest else (err m, s)

-- The end of the three: the materials are deleted, then the coins are charged.
unfoldable pub consume : {A : Type 0} → List Text → ℕ → A → State → Result Text A × State
consume mats cost answer s =
    let (r, t) = delete_casts mats s in
    elim r [ err k ↦ (err k, t) | ok _ ↦ (ok answer, take_coins (pos cost) t) ]

-- (ok, consumed, gained, coins)
abbrev pub Fed : Type 0
Fed = Bool × List Text × ℕ × ℕ

abbrev pub not_fed : Fed
not_fed = (false, [], 0, 0)

abbrev pub max_plus : ℕ
max_plus = 30

pub plusup_square : ℕ → ℕ
plusup_square s = (if leb s 2 then s else s + 1) ^ 2

-- math.floor(base * 1.5) for a cast of the same job
pub plusup_food_pxp : ℕ → Bool → ℕ
plusup_food_pxp star same = let base = plusup_square star in if same then base * 3 / 2 else base

pub plusup_food_cost : ℕ → ℕ
plusup_food_cost star = plusup_square star * 100

-- target_job is not None and char_job(mat["id"]) == target_job
abbrev pub same_job : Option ℕ → Option ℕ → Bool
same_job (some a) (some b) = b == a
same_job _ _ = false

-- The sums (pxp, coins) over the materials.
pub food_totals : Design → Option ℕ → List Text → Dict Text Cast → ℕ × ℕ
food_totals d job [] roster = (0, 0)
food_totals d job (m ∷ ms) roster =
    let (pxp, cost) = food_totals d job ms roster in
    elim (lookup m roster) [
      | none ↦ (pxp, cost)
      | some e ↦ (
        plusup_food_pxp (star_of d e) (same_job job (d.char e.id).job) + pxp,
        plusup_food_cost (star_of d e) + cost,
      )
    ]

-- char_plusup_need_xp, 0 from MAX_PLUS on.
pub plus_need : Formulas → ℕ → ℕ
plus_need f plus = if leb max_plus plus then 0 else f.char_plusup_need_xp plus

-- The entry after the loop.
unfoldable pub transcended : Formulas → ℕ → Cast → Cast
transcended f pxp e =
    let (plus, banked) =
      climb (plus_need f) (max_plus - e.plus) max_plus e.plus (e.pxp +ℤ pos pxp) in
    record e { plus = plus; pxp = if leb max_plus plus then pos 0 else banked }

unfoldable pub transcend_char :
    Formulas → Design → Text → List Text → State → Result Text Fed × State
transcend_char f d uid uids s = elim (lookup uid s.roster) [
  | none ↦ (ok not_fed, s)
  | some e ↦
      let mats = materials uid uids s.roster in
      let (pxp, cost) = food_totals d (d.char e.id).job mats s.roster in
      if is_none mats
      then (ok not_fed, s)
      else if any_in_formation mats s.formations
      then (ok not_fed, s)
      else if ltb_ℤ (coins s) (pos cost)
      then (ok not_fed, s)
      else consume mats cost (true, mats, pxp, cost) (put_cast uid (transcended f pxp e) s)
]

-- SUPER_LIMIT_DEFINE["max_super_limit"], and what a material gives and costs.
abbrev pub max_super_limit : ℕ
max_super_limit = 20

abbrev pub ultra_levels : ℕ
ultra_levels = 5

abbrev pub ultra_coin_cost : ℕ
ultra_coin_cost = 3_000_000

-- The materials of `ultra_transcend`: of the same character, and in no formation.
unfoldable pub ultra_materials : Text → ℕ → List Text → State → List Text
ultra_materials uid id [] s = []
ultra_materials uid id (m ∷ ms) s =
    let rest = ultra_materials uid id ms s in
    elim (lookup m s.roster) [
      | none ↦ rest
      | some e ↦
          if not (text_beq m [])
            && not (text_beq m uid)
            && e.id == id
            && not (in_formation m s.formations)
          then m ∷ rest
          else rest
    ]

unfoldable pub ultra_transcend : Design → Text → List Text → State → Result Text Fed × State
ultra_transcend d uid uids s = elim (lookup uid s.roster) [
  | none ↦ (ok not_fed, s)
  | some e ↦
      let mats = ultra_materials uid e.id uids s in
      let cost = ultra_coin_cost * length mats in
      let level = min max_super_limit (e.super_limit + ultra_levels * length mats) in
      if not ((d.char e.id).rarity == 5)
      then (ok not_fed, s)
      else if leb max_super_limit e.super_limit
      then (ok not_fed, s)
      else if is_none mats
      then (ok not_fed, s)
      else if ltb_ℤ (coins s) (pos cost)
      then (ok not_fed, s)
      else consume mats cost (true, mats, level - e.super_limit, cost)
          (put_cast uid (record e { super_limit = level }) s)
]

abbrev pub max_total_limit : ℕ
max_total_limit = 13

abbrev pub max_limit_book : ℕ
max_limit_book = 9

pub char_limitup_cost : ℕ → ℕ
char_limitup_cost rarity = 1200 * 5 ^ ((if rarity == 0 then 1 else rarity) - 1)

-- char_type(id) in LIMIT_MATERIAL_CHAR_SIDE
pub is_char_side : Design → ℕ → Bool
is_char_side d id = (d.char id).type == 1 || (d.char id).type == 2

-- (add_book, add_char): what the materials carry, and one for each.
pub limit_totals : Design → List Text → Dict Text Cast → ℕ × ℕ
limit_totals d [] roster = (0, 0)
limit_totals d (m ∷ ms) roster =
    let (book, char) = limit_totals d ms roster in
    elim (lookup m roster) [
      | none ↦ (book, char)
      | some e ↦
          if is_char_side d e.id
          then (e.limit_book + book, e.limit_char + 1 + char)
          else (e.limit_book + 1 + book, e.limit_char + char)
    ]

-- The entry with its two counters clamped.
unfoldable pub skilled : ℕ × ℕ → Cast → Cast
skilled (add_book, add_char) e =
    let book = min (e.limit_book + add_book) max_limit_book in
    record e {
      limit_book = book;
      limit_char = min (e.limit_char + add_char) (max_total_limit - book);
    }

unfoldable pub skill_up : Design → Text → List Text → State → Result Text Fed × State
skill_up d uid uids s = elim (lookup uid s.roster) [
  | none ↦ (ok not_fed, s)
  | some e ↦
      let mats = materials uid uids s.roster in
      let cur = e.limit_book + e.limit_char in
      let added = limit_totals d mats s.roster in
      let gained = min (cur + added.0 + added.1) max_total_limit - cur in
      let cost = gained * char_limitup_cost (char_rarity d e.id) in
      if is_none mats
      then (ok not_fed, s)
      else if any_in_formation mats s.formations
      then (ok not_fed, s)
      else if leb max_total_limit cur
      then (ok not_fed, s)
      else if gained == 0
      then (ok not_fed, s)
      else if ltb_ℤ (coins s) (pos cost)
      then (ok not_fed, s)
      else consume mats cost (true, mats, gained, cost) (put_cast uid (skilled added e) s)
]
