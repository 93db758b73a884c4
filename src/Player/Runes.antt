-- ===== src/Player/Runes.antt =====
-- A starshard's level: `rune_upgrade_cost`, `apply_enhances` and `upgrade_rune` of
-- server/player_state/runes.py. `random.choice` is the `choice` of a `Host`, numbered by the round.
pub mod Balanced
pub mod Upgraded
use sevensins_server.Prelude.{
  ℕ, zero, suc, ◌+◌, ◌-◌, ◌*◌, ◌/◌, min, Text, Option, some, none, List, [], ◌∷◌, Bool, true, false,
  Dict, lookup_or, contains, insert, ◌==◌, nat_eq, text_beq, if◌then◌else◌, ltb, leb, ℤ, pos,
  negsuc, ◌-ℤ◌, ltb_ℤ, Result, ok, err,
}
use sevensins_server.Player.Types.{Formulas, Design, Attr, Item, Bag, State}
use sevensins_server.Player.Money.{balance}
use sevensins_server.Player.Bag.{bag_of, put_bag}
use sevensins_server.Player.Equips.{storage_equipment}
use sevensins_server.Player.Casts.{currency_coin, coins}
use sevensins_server.Player.Gear.{Host, rune_max_level, rune_bonus_attrs}

abbrev pub rune_levels_per_enhance : ℕ
rune_levels_per_enhance = 3

unfoldable pub rune_level_cost : Formulas → Design → ℕ → ℕ → ℕ
rune_level_cost f d iid before =
    let row = d.item iid in 50 * f.gem_fifties row.rarity row.param2 before

-- The sum over `n` levels from `before` on, `range(before_lv, to_lv)`.
unfoldable pub range_cost : Formulas → Design → ℕ → ℕ → ℕ → ℕ
range_cost f d iid before zero = 0
range_cost f d iid before (suc n) =
    rune_level_cost f d iid before + range_cost f d iid (before + 1) n

unfoldable pub rune_upgrade_cost : Formulas → Design → ℕ → ℕ → ℕ → ℕ
rune_upgrade_cost f d iid before to = range_cost f d iid before (to - before)

unfoldable pub find_rune : Text → Bag → Option (ℕ × Item)
find_rune uid [] = none
find_rune uid ((sid, e) ∷ bag) = if text_beq e.uid uid then some (sid, e) else find_rune uid bag

unfoldable pub enhance_steps : ℕ → ℕ → ℕ → ℕ
enhance_steps before to per = if per == 0 then 0 else to / per - before / per

-- int(attr.get(f"be_{j}", 0) or 0)
abbrev pub enhance_of : Dict ℕ ℕ → ℕ → ℕ
enhance_of enhances j = lookup_or j 0 enhances

-- [j for j in range(first, first + n) if f"bid_{j}" in attr]
unfoldable pub sub_slots : Dict ℕ ℕ → ℕ → ℕ → List ℕ
sub_slots subs first zero = []
sub_slots subs first (suc n) =
    let rest = sub_slots subs (first + 1) n in if contains first subs then first ∷ rest else rest

-- min(... for j in slots)
unfoldable pub lowest : Dict ℕ ℕ → List ℕ → ℕ
lowest enhances [] = 0
lowest enhances (j ∷ []) = enhance_of enhances j
lowest enhances (j ∷ k ∷ slots) = min (enhance_of enhances j) (lowest enhances (k ∷ slots))

-- [j for j in slots if ... == low]
unfoldable pub at_low : Dict ℕ ℕ → ℕ → List ℕ → List ℕ
at_low enhances low [] = []
at_low enhances low (j ∷ slots) =
    if enhance_of enhances j == low
    then j ∷ at_low enhances low slots
    else at_low enhances low slots

-- The sub-stat that the round `n` picks, and the enhances after it.
unfoldable pub picked : Host → State → ℕ → List ℕ → Dict ℕ ℕ → ℕ
picked host s n slots enhances = host.choice s n (at_low enhances (lowest enhances slots) slots)

unfoldable pub enhance_round : Host → State → ℕ → List ℕ → Dict ℕ ℕ → Dict ℕ ℕ
enhance_round host s n slots enhances =
    let j = picked host s n slots enhances in insert j (enhance_of enhances j + 1) enhances

-- The rounds that are left, with `touched`.
unfoldable pub enhance_rounds :
    Host → State → ℕ → ℕ → List ℕ → Dict ℕ ℕ × Dict ℕ ℕ → Dict ℕ ℕ × Dict ℕ ℕ
enhance_rounds host s zero n slots (touched, enhances) = (touched, enhances)
enhance_rounds host s (suc steps) n slots (touched, enhances) =
    let j = picked host s n slots enhances in
    enhance_rounds host s steps (n + 1) slots
      (insert j (enhance_of enhances j + 1) touched, enhance_round host s n slots enhances)

unfoldable pub enhanced : Host → State → Attr → ℕ → List ℕ → Dict ℕ ℕ × Attr
enhanced host s attr steps [] = ([], attr)
enhanced host s attr steps (j ∷ slots) =
    let (touched, enhances) = enhance_rounds host s steps 0 (j ∷ slots) ([], attr.enhances) in
    (touched, record attr { enhances = enhances })

-- `touched`, and the attributes after. Without steps, sub-stats or slots nothing changes.
unfoldable pub apply_enhances : Host → State → Attr → ℕ → ℕ → Dict ℕ ℕ × Attr
apply_enhances host s attr steps count = enhanced host s attr steps (sub_slots attr.subs 1 count)

-- The LookupError and the ValueErrors.
pub data RuneError : Type 0 where
  no_starshard : RuneError
  max_level_reached : RuneError
  coins_short : RuneError

-- entry.setdefault("attr", {})
unfoldable pub attr_of : Option Attr → Attr
attr_of (some attr) = attr
attr_of none = record {
  level = 0;
  ts = 0;
  lock = false;
  primary = none;
  ihid = none;
  subs = [];
  enhances = [];
}

-- max(0, int(levels))
unfoldable pub not_negative : ℤ → ℕ
not_negative (pos n) = n
not_negative (negsuc n) = 0

abbrev pub put_rune : ℕ → Item → State → State
put_rune sid e s = put_bag storage_equipment (insert sid e (bag_of storage_equipment s)) s

-- `upgrade_rune` from its entry on.
unfoldable pub upgrade_entry :
    Host → Formulas → Design → ℕ → Item → ℤ → State → Result RuneError (Item × ℕ × ℕ) × State
upgrade_entry host f d sid e levels s =
    let attr = attr_of e.attr in
    let s1 = put_rune sid (record e { attr = some attr }) s in
    let before = attr.level in
    let to = min (before + not_negative levels) rune_max_level in
    let cost = rune_upgrade_cost f d e.iid before to in
    let raised =
      (apply_enhances host s (record attr { level = to })
        (enhance_steps before to rune_levels_per_enhance) rune_bonus_attrs).1 in
    let e1 = record e { attr = some raised } in
    if leb to before
    then (err max_level_reached, s1)
    else if ltb_ℤ (coins s) (pos cost)
    then (err coins_short, s1)
    else (
      ok (e1, to - before, cost),
      put_rune sid e1
          (record s { currency = insert currency_coin (coins s -ℤ pos cost) s.currency }),
    )

unfoldable pub upgrade_rune :
    Host → Formulas → Design → Text → ℤ → State → Result RuneError (Item × ℕ × ℕ) × State
upgrade_rune host f d uid levels s = elim (find_rune uid (bag_of storage_equipment s)) [
  | none ↦ (err no_starshard, s)
  | some (sid, e) ↦ upgrade_entry host f d sid e levels s
]
