-- ===== src/Player/MirrorTests.antt =====
-- Soulmirrors at a concrete account.
use sevensins_server.Prelude.{◌≡◌, refl, some, [], ◌∷◌, true, false, nat_eq, pos, Text, err}
use sevensins_server.Player.Types.{Design, Attr, Item, State}
use sevensins_server.Player.Bag.{bag_of, storage_normal}
use sevensins_server.Player.Equips.{mem, unequip_everywhere}
use sevensins_server.Player.Sample.{design, account}
use sevensins_server.Player.Gear.Granting.{bag_uids}
use sevensins_server.Player.Gear.Stored.{IsStored}
use sevensins_server.Player.Runes.{find_rune, attr_of}
use sevensins_server.Player.Mirrors.{
  mirror_locked, soulfrag_material_count, soulfrag_material_cost, soulmirror_tier, check_entry,
  check_mirror, take_apart, dismantle_rows, paid_out, dismantle_soulmirrors, set_equip_lock,
  lock_in,
}
use sevensins_server.Player.Mirrors.Loop.{mirrors}
use sevensins_server.Player.Mirrors.Dismantling.{DismantleOutcome, dismantle_soulmirrors-outcome}

-- Every item is a soulmirror of the first kind and of the rarity 2.
abbrev tables : Design
tables = record design {
  item = λ k. record {
    action = 101;
    param1 = 0;
    param2 = 2;
    param3 = 0;
    class = 3;
    rarity = 1;
    name = [];
    name_en = [];
  };
}

abbrev worn_in : Attr
worn_in = record {
  level = 1;
  ts = 0;
  lock = false;
  primary = some 1;
  ihid = some 2;
  subs = (1, 3) ∷ [];
  enhances = (1, 0) ∷ [];
}

abbrev mirror : Text → Item
mirror uid = record { iid = 400001; amount = pos 1; uid = uid; attr = some worn_in }

-- Two soulmirrors, and the same with the second one locked.
abbrev keeper : State
keeper = record account { backpack = (3, (1, mirror (90 ∷ [])) ∷ (2, mirror (91 ∷ [])) ∷ []) ∷ [] }

abbrev locked_keeper : State
locked_keeper = (set_equip_lock (91 ∷ []) true keeper).1

keeper-IsStored : IsStored (mirrors keeper)
unfolding bag_uids mem
keeper-IsStored = record { slots = (refl, (refl, tt)); uids = (refl, (refl, tt)) }

dismantle_soulmirrors-outcome_example :
    DismantleOutcome tables
      ((90 ∷ []) ∷ (91 ∷ []) ∷ [])
      keeper
      (dismantle_soulmirrors tables ((90 ∷ []) ∷ (91 ∷ []) ∷ []) keeper)
dismantle_soulmirrors-outcome_example =
    dismantle_soulmirrors-outcome tables ((90 ∷ []) ∷ (91 ∷ []) ∷ []) keeper keeper-IsStored

-- The request is refused for the locked mirror, and the first one is gone for nothing.
refused :
    let r = dismantle_soulmirrors tables ((90 ∷ []) ∷ (91 ∷ []) ∷ []) locked_keeper in
    (r.0 ≡ err mirror_locked)
    × (bag_uids (mirrors r.1) ≡ (91 ∷ []) ∷ [])
    × (bag_of storage_normal r.1 ≡ [])
unfolding dismantle_soulmirrors paid_out dismantle_rows check_mirror mem check_entry find_rune
    set_equip_lock lock_in attr_of soulmirror_tier take_apart unequip_everywhere bag_uids
refused = (refl, refl, refl)

-- The fifteen levels of a mirror of the rarity 4 cost 50000.
full_price : soulfrag_material_cost 4 0 15 ≡ 50000
unfolding soulfrag_material_cost soulfrag_material_count
full_price = refl
