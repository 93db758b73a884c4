-- ===== src/Player/Sample.antt =====
-- Design tables and an account to run the operations on.
use sevensins_server.Prelude.{
  ℕ, ◌*◌, ◌+◌, some, none, true, List, [], ◌∷◌, false, Dict, ◌==◌, nat_eq, if◌then◌else◌, ℤ, pos,
}
use sevensins_server.Player.Types.{QuestRow, Formulas, Design, Bag, State}

-- Two quests share the counter of a case, a third has one of its own.
abbrev pub rows : List (ℕ × QuestRow)
rows =
    (
      10,
      record {
        case_id = 2014;
        case_v1 = 1;
        case_v2 = 0;
        case_type = 0;
        case_cnt = 5;
        type = 1;
        pre_quest = 0;
        group = 4;
      },
    )
    ∷ (
      11,
      record {
        case_id = 2014;
        case_v1 = 1;
        case_v2 = 0;
        case_type = 0;
        case_cnt = 5;
        type = 1;
        pre_quest = 10;
        group = 0;
      },
    )
    ∷ (
      12,
      record {
        case_id = 2014;
        case_v1 = 1;
        case_v2 = 0;
        case_type = 2;
        case_cnt = 5;
        type = 1;
        pre_quest = 0;
        group = 4;
      },
    )
    ∷ []

abbrev pub design : Design
design = record {
  item = λ k. record {
    action = 0;
    param1 = 0;
    param2 = 0;
    param3 = 0;
    class = 0;
    rarity = 0;
    name = [];
    name_en = [];
  };
  item_ids = [];
  equipment = λ k. none;
  equipment_bonus = [];
  formula = [];
  quests = rows;
  char_flv = [];
  char = λ k. record {
    known = true;
    rarity = 5;
    alignment = 101;
    type = 0;
    job = some 2;
    grow_star = true ∷ true ∷ true ∷ true ∷ true ∷ true ∷ [];
    favorite_gift = 301;
    favorite_group = 7;
    sell_id = 0;
    sell_number = pos 0;
    group = some 1;
  };
  char_decompose = record { group = some 1; item_id = 12; item_count = pos 2 } ∷ [];
  challenge_reward =
      record { type = 3; group = 2; lower = 500; ids = 2 ∷ 4 ∷ []; counts = pos 100 ∷ pos 5 ∷ [] }
      ∷ record { type = 3; group = 2; lower = 100; ids = 2 ∷ []; counts = pos 10 ∷ [] }
      ∷ record { type = 5; group = 2; lower = 100; ids = 4 ∷ []; counts = pos 1 ∷ [] }
      ∷ [];
  stages =
      (8001, record { book = 8; sort = 2; difficulty = 1 })
      ∷ (8002, record { book = 8; sort = 2; difficulty = 2 })
      ∷ [];
  login_bonus =
      record { day = 1; group = 1; mail = 7 } ∷ record { day = 2; group = 1; mail = 8 } ∷ [];
  mail = λ k. if k == 7 then some (record { item_id = 1; param = 50 }) else none;
  energy_cap_max = 0;
}

abbrev pub wallet : Dict ℕ ℤ
wallet = (1, pos 300) ∷ (32, pos 200) ∷ (2, pos 1000) ∷ []

abbrev pub stocks : Bag
stocks =
    (1, record { iid = 501; amount = pos 3; uid = []; attr = none })
    ∷ (2, record { iid = 502; amount = pos 4; uid = []; attr = none })
    ∷ (5, record { iid = 501; amount = pos 6; uid = []; attr = none })
    ∷ []

abbrev pub account : State
account = record {
  player_id = 55 ∷ [];
  currency = wallet;
  energy = (1, record { energy = pos 20; cap = pos 150 }) ∷ [];
  level = record { lv = 1; xp = 90; xp_cap = 100; lv_max = 60 };
  roster =
      (
        71 ∷ [],
        record {
          id = 101;
          lv = 1;
          xp = pos 0;
          plus = 0;
          pxp = pos 0;
          super_limit = 0;
          limit_book = 0;
          limit_char = 3;
          lock = false;
          star = none;
          super_star = 0;
          equips = (65 ∷ []) ∷ [];
        },
      )
      ∷ (
        72 ∷ [],
        record {
          id = 102;
          lv = 1;
          xp = pos 0;
          plus = 0;
          pxp = pos 0;
          super_limit = 0;
          limit_book = 0;
          limit_char = 3;
          lock = false;
          star = none;
          super_star = 0;
          equips = [];
        },
      )
      ∷ [];
  formations = record { array = (71 ∷ []) ∷ [] ∷ [] ∷ [] ∷ [] ∷ []; sup = pos 0 } ∷ [];
  impart_limit = 99 ∷ 99 ∷ 99 ∷ 99 ∷ 99 ∷ [];
  backpack =
      (1, stocks)
      ∷ (2, (1, record { iid = 901; amount = pos 1; uid = 65 ∷ []; attr = none }) ∷ [])
      ∷ [];
  counters = record { quests = (10, 1) ∷ []; quest_db = []; sp_quests = [] };
  karma = [];
  mail =
      record {
        uid = 1;
        format_id = 7;
        items = (1, pos 50) ∷ [];
        custom = [];
        read = false;
        expired = false;
        timestamp = 0;
        updatetime = 0;
      }
      ∷ [];
  login = record { last_day = 0; claimed_day = 0; book = 1; checkin_day = 0; total_days = 0 };
  roulette = [];
  roulette_day = none;
  guild = none;
  challenge = none;
  challenge_pending = [];
  mission_periods = (4, 249) ∷ [];
  shop_goods = [];
  shop_bought = [];
  last_purchase = [];
  last_payout = [];
}

-- Formulas with no exponent.
abbrev pub formulas : Formulas
formulas = record {
  char_lvup_need_xp = λ rarity lv. 100 * rarity;
  char_plusup_need_xp = λ plus. 32;
  char_flv_need_xp = λ rarity flv. 150;
  gem_fifties = λ star rarity lv. 2 * (lv + 1);
}

-- The account with coins, and with items to train a cast.
abbrev pub rich : State
rich = record account {
  currency = (16, pos 9000000) ∷ [];
  backpack = (1, (1, record { iid = 101; amount = pos 3; uid = []; attr = none }) ∷ []) ∷ [];
}
