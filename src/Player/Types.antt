-- ===== src/Player/Types.antt =====
-- The account dict of server/player_state/core.py as a record, and what the module takes from
-- outside. A dict key that is `str` of an int is that int. Python's ints are ℤ where the program
-- can make them negative, and ℕ for ids, levels, slots and times.
use sevensins_server.Prelude.{ℕ, Text, Option, List, Bool, Dict, ℤ}

-- A row of the design table `item`. A missing column is 0, or an empty name: the program tests only
-- for other values.
pub record ItemRow : Type 0 where
  pub action : ℕ
  pub param1 : ℕ
  pub param2 : ℕ
  pub param3 : ℕ
  pub class : ℕ
  pub rarity : ℕ
  pub name : Text
  pub name_en : Text

-- A row of `equipment_bonus`: which group and attribute it belongs to, and its first value.
pub record EquipmentBonusRow : Type 0 where
  pub group : Option ℕ
  pub type : ℕ
  pub attr_type : ℕ
  pub attr_init_v : ℤ

-- A row of `formula`.
pub record FormulaRow : Type 0 where
  pub type : ℕ
  pub param1 : ℕ
  pub param2 : ℕ
  pub param3 : ℕ

-- A row of the design table `quest`.
pub record QuestRow : Type 0 where
  pub case_id : ℕ
  pub case_v1 : ℕ
  pub case_v2 : ℕ
  pub case_type : ℕ
  pub case_cnt : ℕ
  pub type : ℕ
  pub pre_quest : ℕ
  pub group : ℕ

-- A row of the design table `char`. A row that is not there has the columns 0, and no `job` or
-- `group`. Of `_growStar` it says which rungs are not 0.
pub record CharRow : Type 0 where
  pub known : Bool
  pub rarity : ℕ
  pub alignment : ℕ
  pub type : ℕ
  pub job : Option ℕ
  pub grow_star : List Bool
  pub favorite_gift : ℕ
  pub favorite_group : ℕ
  pub sell_id : ℕ
  pub sell_number : ℤ
  pub group : Option ℕ

-- A row of `char_decompose`.
pub record DecomposeRow : Type 0 where
  pub group : Option ℕ
  pub item_id : ℕ
  pub item_count : ℤ

-- A row of the design table `stage`.
pub record StageRow : Type 0 where
  pub book : ℕ
  pub sort : ℕ
  pub difficulty : ℕ

-- A row of `challenge_reward`: from the score `lower` on, it pays these items.
pub record RewardRow : Type 0 where
  pub type : ℕ
  pub group : ℕ
  pub lower : ℕ
  pub ids : List ℕ
  pub counts : List ℤ

-- A row of the design table `char_flv`.
pub record FlvRow : Type 0 where
  pub id : ℕ
  pub char_id : ℕ
  pub flv : ℕ
  pub unlock_type : ℕ
  pub bonus_item_id : ℕ
  pub bonus_item_cnt : ℕ

-- A row of `login_bonus` with its day, and a row of `mail`.
pub record BonusRow : Type 0 where
  pub day : ℕ
  pub group : ℕ
  pub mail : ℕ

pub record MailRow : Type 0 where
  pub item_id : ℕ
  pub param : ℕ

-- The tables of the game (of `equipment`, the `_bonusID` of a row), which server/design_data.py
-- reads from a bundle that the repository does not hold.
pub record Design : Type 0 where
  pub item : ℕ → ItemRow
  pub item_ids : List ℕ
  pub equipment : ℕ → Option ℕ
  pub equipment_bonus : List (ℕ × EquipmentBonusRow)
  pub formula : List FormulaRow
  pub quests : List (ℕ × QuestRow)
  pub char_flv : List FlvRow
  pub char : ℕ → CharRow
  pub char_decompose : List DecomposeRow
  pub challenge_reward : List RewardRow
  pub stages : List (ℕ × StageRow)
  pub login_bonus : List BonusRow
  pub mail : ℕ → Option MailRow
  pub energy_cap_max : ℕ

-- The formulas of the program with a real exponent, which floating-point numbers compute: the
-- experience from a level to the next, by rarity, that from a plus to the next, and the karma from
-- a rank to the next. `gem_fifties` is `int(raw / 50)` of `rune_level_cost`, by star, rarity and
-- level.
pub record Formulas : Type 0 where
  pub char_lvup_need_xp : ℕ → ℕ → ℕ
  pub char_plusup_need_xp : ℕ → ℕ
  pub char_flv_need_xp : ℕ → ℕ → ℕ
  pub gem_fifties : ℕ → ℕ → ℕ → ℕ

-- One stored `energies` entry, and the account's level.
pub record Energy : Type 0 where
  pub energy : ℤ
  pub cap : ℤ

pub record Level : Type 0 where
  pub lv : ℕ
  pub xp : ℕ
  pub xp_cap : ℕ
  pub lv_max : ℕ

-- The `attr` of a piece of equipment: the keys `lv`, `ts`, `l`, `pid_1` and `ihid`, and by its
-- number each `bid_` and `be_`.
pub record Attr : Type 0 where
  pub level : ℕ
  pub ts : ℕ
  pub lock : Bool
  pub primary : Option ℕ
  pub ihid : Option ℕ
  pub subs : Dict ℕ ℕ
  pub enhances : Dict ℕ ℕ

-- A BackpackItemData. Its `sid` is its key in the bag.
pub record Item : Type 0 where
  pub iid : ℕ
  pub amount : ℤ
  pub uid : Text
  pub attr : Option Attr

-- slot → item
abbrev pub Bag : Type 0
Bag = Dict ℕ Item

pub record SpQuest : Type 0 where
  pub cnt : ℤ
  pub status : ℕ

-- The keys `quests`, `quest_db` and `sp_quests`. A case key, the text "id_v1" or "id_v1_v2", is the
-- list of its numbers.
pub record Counters : Type 0 where
  pub quests : Dict ℕ ℕ
  pub quest_db : Dict Text ℤ
  pub sp_quests : Dict ℕ SpQuest

pub record Karma : Type 0 where
  pub flv : ℕ
  pub fxp : ℤ

pub record Mail : Type 0 where
  pub uid : ℕ
  pub format_id : ℕ
  pub items : Dict ℕ ℤ
  pub custom : Text
  pub read : Bool
  pub expired : Bool
  pub timestamp : ℕ
  pub updatetime : ℕ

-- The keys `login_last_day`, `login_claimed_day`, `login_book`, `login_checkin_day` and
-- `login_total_days`.
pub record Login : Type 0 where
  pub last_day : ℕ
  pub claimed_day : ℕ
  pub book : ℕ
  pub checkin_day : ℕ
  pub total_days : ℕ

-- The counters of one roulette box.
pub record Wheel : Type 0 where
  pub day : ℕ
  pub sum : ℕ

-- A roster entry. An `equips_list` that is not there is empty.
pub record Cast : Type 0 where
  pub id : ℕ
  pub lv : ℕ
  pub xp : ℤ
  pub plus : ℕ
  pub pxp : ℤ
  pub super_limit : ℕ
  pub limit_book : ℕ
  pub limit_char : ℕ
  pub lock : Bool
  pub star : Option ℕ
  pub super_star : ℕ
  pub equips : List Text

-- A saved team, with the 1-based slot of the support character, 0 for none.
pub record Formation : Type 0 where
  pub array : List Text
  pub sup : ℤ

-- The key `guild`, a guild of one.
pub record Guild : Type 0 where
  pub uid : Text
  pub name : Text
  pub ad : Text
  pub announce : Text
  pub badge : ℤ
  pub join_free : ℤ
  pub area : ℕ
  pub create_time : ℕ
  pub edit_time : ℕ
  pub rank : ℕ
  pub contribution : ℤ
  pub sign_sum : ℕ
  pub sign_day : ℕ
  pub sign_paid : ℕ
  pub member_sign : List Text
  pub challenge_top : Dict ℕ ℕ

-- The key `challenge`. A key that is not there is `none`, the empty list or 0.
pub record Challenge : Type 0 where
  pub key : Option ℕ
  pub day : Option ℕ
  pub today : List ℕ
  pub best : ℕ
  pub runs : ℕ
  pub group : Option ℕ
  pub refilled : Option ℕ
  pub pending : Option ℕ

-- An entry of `challenge_pending`.
pub record Settlement : Type 0 where
  pub pscore : ℕ
  pub gscore : ℕ
  pub personal : List (ℕ × ℤ)
  pub guild : List (ℕ × ℤ)

-- A card of a shop, a row of its goods by the columns that the purchase reads.
pub record Goods : Type 0 where
  pub id : ℕ
  pub cycle : ℕ
  pub limit : ℤ
  pub item_id : ℕ
  pub item_count : ℕ
  pub cost_id : ℕ
  pub cost_count : ℕ
  pub once_max : ℕ

-- What was bought of a card, and when its window ends.
pub record Purchase : Type 0 where
  pub count : ℕ
  pub reset : ℕ

pub record State : Type 0 where
  pub player_id : Text
  pub currency : Dict ℕ ℤ
  pub energy : Dict ℕ Energy
  pub level : Level
  pub roster : Dict Text Cast
  pub formations : List Formation
  pub impart_limit : List ℕ
  pub backpack : Dict ℕ Bag
  pub counters : Counters
  pub karma : Dict ℕ Karma
  pub mail : List Mail
  pub login : Login
  pub roulette : Dict ℕ Wheel
  pub roulette_day : Option ℕ
  pub guild : Option Guild
  pub challenge : Option Challenge
  pub challenge_pending : List Settlement
  pub mission_periods : Dict ℕ ℕ
  pub shop_goods : Dict ℕ (List Goods)
  pub shop_bought : Dict ℕ (Dict ℕ Purchase)
  pub last_purchase : Dict ℕ (ℕ × ℤ)
  pub last_payout : Dict ℕ (List (ℕ × ℤ))
