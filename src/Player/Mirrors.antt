-- ===== src/Player/Mirrors.antt =====
-- Soulmirrors of server/player_state/gear.py: the padlock, `upgrade_soulmirror` and
-- `dismantle_soulmirrors`. `int(spent * 0.8 + base)` is the whole part, with no float.
pub mod Without
pub mod Checks
pub mod Loop
pub mod Dismantling
use sevensins_server.Prelude.{
  ℕ, zero, suc, ◌+◌, ◌-◌, ◌*◌, ◌/◌, ◌^◌, min, max, Text, Option, some, none, List, [], ◌∷◌, ◌++◌,
  Bool, true, false, ◌&&◌, Dict, lookup_or, insert, erase, ◌==◌, nat_eq, text_eq, text_beq,
  if◌then◌else◌, ltb, leb, ℤ, pos, ◌-ℤ◌, ltb_ℤ, Result, ok, err,
}
use sevensins_server.Player.Types.{Design, FormulaRow, Attr, Item, Bag, State}
use sevensins_server.Player.Bag.{
  bag_of, put_bag, item_count, grant_item, spend_item, storage_normal,
}
use sevensins_server.Player.Equips.{mem, storage_equipment, unequip_everywhere}
use sevensins_server.Player.Casts.{currency_coin, coins}
use sevensins_server.Player.Teams.{add_gains}
use sevensins_server.Player.Gear.{Host, soulfrag_max_level}
use sevensins_server.Player.Gear.Granting.{storage_soulfrag}
use sevensins_server.Player.Runes.{
  find_rune, attr_of, not_negative, enhance_steps, rune_levels_per_enhance, apply_enhances,
}

abbrev pub soulfrag_enhance_material : ℕ
soulfrag_enhance_material = 30

abbrev pub soulfrag_ultra_material : ℕ
soulfrag_ultra_material = 39011

abbrev pub soulfrag_bonus_attrs : ℕ
soulfrag_bonus_attrs = 1

-- EQUIP_LOCK_STORAGES
abbrev pub equip_lock_storages : List ℕ
equip_lock_storages = storage_equipment ∷ storage_soulfrag ∷ 4 ∷ []

abbrev pub find_soulmirror : Text → State → Option (ℕ × Item)
find_soulmirror uid s = find_rune uid (bag_of storage_soulfrag s)

-- The storages that are left; an attribute that is not there is made. The result is the storage and
-- the entry, or `none` for the LookupError.
unfoldable pub lock_in : List ℕ → Text → Bool → State → Option (ℕ × Item) × State
lock_in [] uid to_lock s = (none, s)
lock_in (storage ∷ storages) uid to_lock s = elim (find_rune uid (bag_of storage s)) [
  | none ↦ lock_in storages uid to_lock s
  | some (sid, e) ↦
      let locked : Item = record e { attr = some (record (attr_of e.attr) { lock = to_lock }) } in
      (some (storage, locked), put_bag storage (insert sid locked (bag_of storage s)) s)
]

unfoldable pub set_equip_lock : Text → Bool → State → Option (ℕ × Item) × State
set_equip_lock uid to_lock s = lock_in equip_lock_storages uid to_lock s

-- (rarity, sfType), with the type 0 for what is no soulmirror.
unfoldable pub soulmirror_tier : Design → Item → ℕ × ℕ
soulmirror_tier d e =
    let row = d.item e.iid in
    let action = row.action in
    (
      (if row.param2 == 0 then 1 else row.param2),
      if leb 101 action && leb action 103
          then 1
          else if leb 104 action && leb action 106
          then 2
          else if leb 107 action && leb action 109
          then 3
          else 0,
    )

-- `20 * lv - 20` is below 0 at level 0 only, where it is multiplied by 0.
unfoldable pub soulfrag_material_count : ℕ → ℕ → ℕ
soulfrag_material_count rarity lv = ((20 * lv - 20) * ((lv + 1) / 3) + 10) * 2 ^ (max 1 rarity - 1)

-- Over `n` levels from `before` on.
unfoldable pub soulfrag_material_cost : ℕ → ℕ → ℕ → ℕ
soulfrag_material_cost rarity before zero = 0
soulfrag_material_cost rarity before (suc n) =
    soulfrag_material_count rarity before + soulfrag_material_cost rarity (before + 1) n

pub soulfrag_enhance_coin_cost : ℕ → ℕ → ℕ
soulfrag_enhance_coin_cost rarity levels = 10000 * 2 ^ (max 1 rarity - 1) * levels

-- The coins and the items of one level, by the rows of the types 1 and 21.
pub formula_coins : ℕ → List FormulaRow → ℕ
formula_coins lv [] = 0
formula_coins lv (r ∷ rows) =
    let rest = formula_coins lv rows in
    if r.type == 1 && r.param1 == lv then r.param2 + rest else rest

pub formula_items : ℕ → List FormulaRow → Dict ℕ ℕ → Dict ℕ ℕ
formula_items lv [] items = items
formula_items lv (r ∷ rows) items = formula_items lv rows (
    if r.type == 21 && r.param1 == lv
    then (if r.param3 == 0
        then items
        else insert r.param3 (lookup_or r.param3 0 items + r.param2) items)
    else items)

-- The rest of the loop over the levels, `n` of them from `lv` on.
pub soulfrag_ultra_cost : Design → ℕ → ℕ → ℕ × Dict ℕ ℕ → ℕ × Dict ℕ ℕ
soulfrag_ultra_cost d lv zero acc = acc
soulfrag_ultra_cost d lv (suc n) (spent, items) =
    soulfrag_ultra_cost d (lv + 1) n
      (spent + formula_coins (lv + 1) d.formula, formula_items (lv + 1) d.formula items)

-- The item and the amount.
unfoldable pub soulmirror_refund : Design → ℕ → ℕ → ℕ → ℕ × ℕ
soulmirror_refund d rarity sf_type lv =
    let base = 10 * 2 ^ (max 1 rarity - 1) in
    let ultra = (soulfrag_ultra_cost d 0 lv (0, [])).1 in
    let item = if sf_type == 3 then soulfrag_ultra_material else soulfrag_enhance_material in
    let spent =
      if sf_type == 3
      then lookup_or soulfrag_ultra_material 0 ultra
      else soulfrag_material_cost rarity 0 lv in
    (item, spent * 4 / 5 + base)

-- The LookupError and the ValueErrors.
pub data MirrorError : Type 0 where
  no_soulmirror : MirrorError
  no_tier : MirrorError
  max_level_reached : MirrorError
  coins_short : MirrorError
  material_short : MirrorError
  listed_twice : MirrorError
  mirror_locked : MirrorError

-- any(item_count(state, iid) < need)
pub is_short : Dict ℕ ℕ → State → Bool
is_short [] s = false
is_short ((iid, need) ∷ mats) s =
    if ltb_ℤ (item_count storage_normal iid s) (pos need) then true else is_short mats s

pub spend_materials : Dict ℕ ℕ → State → State
spend_materials [] s = s
spend_materials ((iid, need) ∷ mats) s =
    spend_materials mats (if need == 0 then s else (spend_item iid (pos need) storage_normal s).1)

pub total : Dict ℕ ℕ → ℕ
total [] = 0
total ((iid, need) ∷ mats) = need + total mats

-- The coins and the materials of the levels from `before` to `to`.
unfoldable pub soulmirror_cost : Design → ℕ → ℕ → ℕ → ℕ → ℕ × Dict ℕ ℕ
soulmirror_cost d rarity sf_type before to =
    if sf_type == 3 then soulfrag_ultra_cost d before (to - before) (0, []) else (
      soulfrag_enhance_coin_cost rarity (to - before),
      (soulfrag_enhance_material, soulfrag_material_cost rarity before (to - before)) ∷ [],
    )

abbrev pub put_mirror : ℕ → Item → State → State
put_mirror sid e s = put_bag storage_soulfrag (insert sid e (bag_of storage_soulfrag s)) s

unfoldable pub upgrade_mirror :
    Host → Design → ℕ → Item → ℤ → State → Result MirrorError (Item × ℕ × ℕ × ℕ) × State
upgrade_mirror host d sid e levels s =
    let (rarity, sf_type) = soulmirror_tier d e in
    let attr = attr_of e.attr in
    let s1 = put_mirror sid (record e { attr = some attr }) s in
    let before = attr.level in
    let to = min (before + not_negative levels) soulfrag_max_level in
    let (price, mats) = soulmirror_cost d rarity sf_type before to in
    let steps = enhance_steps before to rune_levels_per_enhance in
    let raised =
      (apply_enhances host s (record attr { level = to }) steps soulfrag_bonus_attrs).1 in
    let e1 : Item = record e { attr = some raised } in
    if sf_type == 0
    then (err no_tier, s)
    else if leb to before
    then (err max_level_reached, s1)
    else if ltb_ℤ (coins s) (pos price)
    then (err coins_short, s1)
    else if is_short mats s
    then (err material_short, s1)
    else (
      ok (e1, to - before, price, total mats),
      put_mirror sid e1 (
          spend_materials mats
            (record s { currency = insert currency_coin (coins s -ℤ pos price) s.currency })),
    )

unfoldable pub upgrade_soulmirror :
    Host → Design → Text → ℤ → State → Result MirrorError (Item × ℕ × ℕ × ℕ) × State
upgrade_soulmirror host d uid levels s = elim (find_soulmirror uid s) [
  | none ↦ (err no_soulmirror, s)
  | some (sid, e) ↦ upgrade_mirror host d sid e levels s
]

-- `per_item`, `removed` and `affected`.
pub record Dismantled : Type 0 where
  pub per_item : Dict ℕ ℤ
  pub removed : List ℕ
  pub affected : Dict Text (List Text)

-- The tests of one round on the entry found, with its slot and refund.
unfoldable pub check_entry : Design → Option (ℕ × Item) → Result MirrorError (ℕ × (ℕ × ℕ))
check_entry d none = err no_soulmirror
check_entry d (some (sid, e)) =
    let attr = attr_of e.attr in
    let (rarity, sf_type) = soulmirror_tier d e in
    if attr.lock
    then err mirror_locked
    else if sf_type == 0
    then err no_tier
    else ok (sid, soulmirror_refund d rarity sf_type attr.level)

unfoldable pub check_mirror : Design → List Text → Text → State → Result MirrorError (ℕ × (ℕ × ℕ))
check_mirror d seen uid s =
    if mem uid seen then err listed_twice else check_entry d (find_soulmirror uid s)

-- affected.update(rows)
pub update_rows : Dict Text (List Text) → Dict Text (List Text) → Dict Text (List Text)
update_rows [] affected = affected
update_rows ((uid, slots) ∷ rows) affected = update_rows rows (insert uid slots affected)

-- The piece comes off every cast and out of the storage.
unfoldable pub take_apart : Text → ℕ → State → Dict Text (List Text) × State
take_apart uid sid s =
    let (rows, t) = unequip_everywhere (uid ∷ []) none s in
    (rows, put_bag storage_soulfrag (erase sid (bag_of storage_soulfrag t)) t)

unfoldable pub noted : ℕ × (ℕ × ℕ) → Dict Text (List Text) → Dismantled → Dismantled
noted (sid, (item, amount)) rows acc = record {
  per_item = add_gains ((item, pos amount) ∷ []) acc.per_item;
  removed = acc.removed ++ (sid ∷ []);
  affected = update_rows rows acc.affected;
}

-- The loop over the uids.
unfoldable pub dismantle_rows :
    Design → List Text → Dismantled → List Text → State → Result MirrorError Dismantled × State
dismantle_rows d seen acc [] s = (ok acc, s)
dismantle_rows d seen acc (uid ∷ uids) s = elim (check_mirror d seen uid s) [
  | err x ↦ (err x, s)
  | ok (sid, refund) ↦
      let (rows, t) = take_apart uid sid s in
      dismantle_rows d (uid ∷ seen) (noted (sid, refund) rows acc) uids t
]

-- The loop that grants `per_item`.
unfoldable pub grant_refunds : Dict ℕ ℤ → State → State
grant_refunds [] s = s
grant_refunds ((item, pos zero) ∷ items) s = grant_refunds items s
grant_refunds ((item, amount) ∷ items) s =
    grant_refunds items (grant_item item amount storage_normal s).1

unfoldable pub paid_out :
    Result MirrorError Dismantled × State → Result MirrorError Dismantled × State
paid_out (err x, s) = (err x, s)
paid_out (ok acc, s) = (ok acc, grant_refunds acc.per_item s)

unfoldable pub dismantle_soulmirrors :
    Design → List Text → State → Result MirrorError Dismantled × State
dismantle_soulmirrors d uids s =
    paid_out (dismantle_rows d [] (record { per_item = []; removed = []; affected = [] }) uids s)
