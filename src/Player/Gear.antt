-- ===== src/Player/Gear.antt =====
-- Starshards and Soulmirrors of server/player_state/core.py: which items they are, and how
-- `make_rune` and `make_soulmirror` roll one. The clock, the random choices and the regular
-- expression of `is_test_item` are a `Host`.
pub mod Granting
pub mod Free
pub mod Stored
pub mod Rolled
pub mod Made
use sevensins_server.Prelude.{
  ℕ, zero, suc, ◌+◌, ◌-◌, min, Text, Option, some, none, List, [], ◌∷◌, ◌++◌, Bool, true, false,
  ◌&&◌, ◌||◌, not, Dict, lookup_or, insert, get_or, length, ◌==◌, nat_eq, leb, if◌then◌else◌, ltb_ℤ,
  Result, ok, err, pos,
}
use sevensins_server.Player.Types.{EquipmentBonusRow, Design, Attr, Item, State}

-- What the module takes of Python: the clock, `\btest\b` in any case, `str.strip`, the number
-- behind a `★` at the start, and `choice` and `sample` of `random`, whose results may depend on the
-- account and on the number of the draw.
pub record Host : Type 0 where
  pub now : ℕ
  pub test_word : Text → Bool
  pub strip : Text → Text
  pub star_prefix : Text → Option ℕ
  pub choice : State → ℕ → List ℕ → ℕ
  pub sample : State → List ℕ → ℕ → List ℕ

-- The ValueErrors.
pub data GearError : Type 0 where
  test_row : GearError
  not_starshard : GearError
  not_soulmirror : GearError
  internal_row : GearError
  no_bonus_rows : GearError

-- Attribute types.
abbrev pub attr_atk : ℕ
attr_atk = 2

abbrev pub rune_max_level : ℕ
rune_max_level = 15

abbrev pub soulfrag_max_level : ℕ
soulfrag_max_level = 15

abbrev pub rune_bonus_attrs : ℕ
rune_bonus_attrs = 4

abbrev pub bonus_type_attribute : ℕ
bonus_type_attribute = 1

abbrev pub rune_sub_types : List ℕ
rune_sub_types = 1 ∷ 2 ∷ 3 ∷ 5 ∷ 101 ∷ 102 ∷ 103 ∷ 6 ∷ 8 ∷ 10 ∷ 11 ∷ []

-- action in RUNE_ACTION_RANGE
abbrev pub is_rune_action : ℕ → Bool
is_rune_action action = leb 111 action && leb action 116

-- RUNE_SLOT_PRIMARY.get(slot, ATTR_ATK)
abbrev pub rune_slot_primary : ℕ → ℕ
rune_slot_primary slot =
    if slot == 2
    then 3
    else if slot == 3
    then 1
    else if slot == 4
    then 6
    else if slot == 5
    then 10
    else if slot == 6
    then 8
    else attr_atk

-- SOULFRAG_SLOT_INDEX.get(action)
unfoldable pub soulfrag_slot_index : ℕ → Option ℕ
soulfrag_slot_index action =
    if leb 101 action && leb action 106
    then some (action - 95)
    else if leb 107 action && leb action 109
    then some (action - 92)
    else none

unfoldable pub rune_slot : Design → ℕ → Option ℕ
rune_slot d iid =
    let action = (d.item iid).action in if is_rune_action action then some (action - 110) else none

unfoldable pub soulfrag_slot : Design → ℕ → Option ℕ
soulfrag_slot d iid = soulfrag_slot_index (d.item iid).action

abbrev pub starts_with : Text → Text → Bool
starts_with [] t = true
starts_with (c ∷ cs) [] = false
starts_with (c ∷ cs) (x ∷ xs) = c == x && starts_with cs xs

-- needle in text
unfoldable pub is_part : Text → Text → Bool
is_part needle [] = starts_with needle []
is_part needle (x ∷ xs) = starts_with needle (x ∷ xs) || is_part needle xs

-- "測試" and "_"
unfoldable pub is_test_item : Host → Design → ℕ → Bool
is_test_item host d iid =
    let row = d.item iid in is_part (28204 ∷ 35430 ∷ []) row.name || host.test_word row.name_en

unfoldable pub is_internal_soulmirror : Design → ℕ → Bool
is_internal_soulmirror d iid = elim (soulfrag_slot d iid) [
  | none ↦ false
  | some _ ↦ is_part (95 ∷ []) (d.item iid).name
]

-- r.get("_group") == group, where either may be None
abbrev pub is_same : Option ℕ → Option ℕ → Bool
is_same none none = true
is_same none (some k) = false
is_same (some j) none = false
is_same (some j) (some k) = j == k

-- The row is in the group, bears a stat and has a value.
unfoldable pub is_usable : Option ℕ → EquipmentBonusRow → Bool
is_usable group r =
    is_same r.group group && r.type == bonus_type_attribute && ltb_ℤ (pos 0) r.attr_init_v

unfoldable pub usable_rows : Option ℕ → List (ℕ × EquipmentBonusRow) → List ℕ
usable_rows group [] = []
usable_rows group ((rid, r) ∷ rows) =
    if is_usable group r then rid ∷ usable_rows group rows else usable_rows group rows

unfoldable pub bonus_group_rows : Design → ℕ → List ℕ
bonus_group_rows d iid = usable_rows (d.equipment (d.item iid).param1) d.equipment_bonus

abbrev pub is_among : ℕ → List ℕ → Bool
is_among n [] = false
is_among n (x ∷ xs) = x == n || is_among n xs

-- The loop of `_bonus_rows_by_attr` with an item, on the dict `out`.
unfoldable pub rows_by_attr :
    List ℕ → List (ℕ × EquipmentBonusRow) → Dict ℕ (List ℕ) → Dict ℕ (List ℕ)
rows_by_attr allowed [] out = out
rows_by_attr allowed ((rid, r) ∷ rows) out = rows_by_attr allowed rows (
    if r.type == bonus_type_attribute && is_among rid allowed
    then insert r.attr_type (lookup_or r.attr_type [] out ++ (rid ∷ [])) out
    else out)

unfoldable pub bonus_rows_by_attr : Design → ℕ → Dict ℕ (List ℕ)
bonus_rows_by_attr d iid = rows_by_attr (bonus_group_rows d iid) d.equipment_bonus []

-- The closure `pick` of `make_rune`, at the draw `n`.
unfoldable pub pick : Host → State → ℕ → List ℕ → Option ℕ
pick host s n ids = elim ids [ [] ↦ none | x ∷ xs ↦ some (host.choice s n (x ∷ xs)) ]

-- bool(ids)
abbrev pub has_rows : List ℕ → Bool
has_rows [] = false
has_rows (x ∷ xs) = true

-- The sub-stats that a starshard may have next to its primary.
unfoldable pub sub_pool : Dict ℕ (List ℕ) → ℕ → List ℕ → List ℕ
sub_pool by_attr primary [] = []
sub_pool by_attr primary (a ∷ types) =
    let rest = sub_pool by_attr primary types in
    if not (a == primary) && has_rows (lookup_or a [] by_attr) then a ∷ rest else rest

-- The loop over the sampled types, from the number `j` on: a row of each. A type of the pool has
-- rows.
unfoldable pub roll_subs : Host → State → Dict ℕ (List ℕ) → ℕ → List ℕ → Dict ℕ ℕ
roll_subs host s by_attr j [] = []
roll_subs host s by_attr j (a ∷ types) =
    (j, host.choice s j (lookup_or a [] by_attr)) ∷ roll_subs host s by_attr (j + 1) types

-- {j: enhance for j in subs}
unfoldable pub enhances_of : ℕ → Dict ℕ ℕ → Dict ℕ ℕ
enhances_of enhance [] = []
enhances_of enhance ((j, rid) ∷ subs) = (j, enhance) ∷ enhances_of enhance subs

unfoldable pub rolled_rune : Host → Dict ℕ (List ℕ) → ℕ → ℕ → ℕ → ℕ → State → Item
rolled_rune host by_attr iid slot level enhance s =
    let primary = rune_slot_primary slot in
    let pool = sub_pool by_attr primary rune_sub_types in
    let subs =
      roll_subs host s by_attr 1 (host.sample s pool (min rune_bonus_attrs (length pool))) in
    record {
      iid = iid;
      amount = pos 1;
      uid = [];
      attr = some (record {
        level = min level rune_max_level;
        ts = host.now;
        lock = false;
        primary = pick host s 0 (lookup_or primary [] by_attr);
        ihid = none;
        subs = subs;
        enhances = enhances_of enhance subs;
      });
    }

-- `make_rune` from the test of the slot on, by the slot and the rows of the item.
unfoldable pub rune_of :
    Host → ℕ → ℕ → ℕ → State → Option ℕ → Dict ℕ (List ℕ) → Result GearError Item
rune_of host iid level enhance s none by_attr = err not_starshard
rune_of host iid level enhance s (some slot) [] = err no_bonus_rows
rune_of host iid level enhance s (some slot) (group ∷ groups) =
    ok (rolled_rune host (group ∷ groups) iid slot level enhance s)

-- The item decides the slot, whatever the caller passes.
unfoldable pub make_rune : Host → Design → ℕ → ℕ → ℕ → State → Result GearError Item
make_rune host d iid level enhance s =
    if is_test_item host d iid
    then err test_row
    else rune_of host iid level enhance s (rune_slot d iid) (bonus_rows_by_attr d iid)

-- picks[i] of the picks, padded to three with the first.
abbrev pub pick_of : List ℕ → ℕ → ℕ
pick_of picks i = get_or picks i (get_or picks 0 0)

unfoldable pub rolled_mirror : Host → List ℕ → ℕ → ℕ → ℕ → State → Item
rolled_mirror host rows iid level enhance s =
    let picks = host.sample s rows (min 3 (length rows)) in
    record {
      iid = iid;
      amount = pos 1;
      uid = [];
      attr = some (record {
        level = min level soulfrag_max_level;
        ts = host.now;
        lock = false;
        primary = some (pick_of picks 0);
        ihid = some (pick_of picks 1);
        subs = (1, pick_of picks 2) ∷ [];
        enhances = (1, enhance) ∷ [];
      });
    }

-- `make_soulmirror` from the test of the slot on, with whether the row is internal.
unfoldable pub mirror_of :
    Host → ℕ → ℕ → ℕ → State → Option ℕ → Bool → List ℕ → Result GearError Item
mirror_of host iid level enhance s none internal rows = err not_soulmirror
mirror_of host iid level enhance s (some slot) true rows = err internal_row
mirror_of host iid level enhance s (some slot) false [] = err no_bonus_rows
mirror_of host iid level enhance s (some slot) false (row ∷ rows) =
    ok (rolled_mirror host (row ∷ rows) iid level enhance s)

unfoldable pub make_soulmirror : Host → Design → ℕ → ℕ → ℕ → State → Result GearError Item
make_soulmirror host d iid level enhance s =
    mirror_of host iid level enhance s (soulfrag_slot d iid) (is_internal_soulmirror d iid)
      (bonus_group_rows d iid)
