-- ===== src/Player/RewardTests.antt =====
-- Rewards and starshards at a concrete account.
use sevensins_server.Prelude.{
  ℕ, zero, suc, ◌+◌, ◌≤◌, ◌≡◌, refl, some, none, List, [], ◌∷◌, true, false, nat_eq, ◌==◌,
  if◌then◌else◌, take, length, lookup, insert, pos, ◌+ℤ◌, ok, arith,
}
use sevensins_server.Player.Types.{EquipmentBonusRow, Design, Attr, Item, State}
use sevensins_server.Player.Bag.{bag_of, item_count}
use sevensins_server.Player.Equips.{mem, storage_equipment}
use sevensins_server.Player.Roster.{IsPaying}
use sevensins_server.Player.Mail.{claim_mail}
use sevensins_server.Player.Mail.Claims.{ClaimOutcome, claim_mail_lem}
use sevensins_server.Player.Sample.{design, account, formulas}
use sevensins_server.Player.Gear.{
  Host, is_among, has_rows, is_part, is_test_item, is_usable, usable_rows, bonus_group_rows,
  rune_slot, rune_of, make_rune, rolled_rune, bonus_rows_by_attr, rows_by_attr,
}
use sevensins_server.Player.Gear.Granting.{bag_uids, store_rune}
use sevensins_server.Player.Gear.Rolled.{IsApart, IsRandom, IsShard, make_rune-IsShard}
use sevensins_server.Player.Gear.Stored.{IsStored, store_rune-fresh}
use sevensins_server.Player.Rewards.{equipment, at_least_one, grant_reward, item_bucket}
use sevensins_server.Player.Rewards.Interfaces.{
  IsLabelled, IsPaid, grant_reward-frame, grant_reward-IsPaying,
}
use sevensins_server.Player.Rewards.Buckets.{IsForeseen, grant_reward-item_bucket}
use sevensins_server.Player.Rewards.Lands.{starshard, grant_reward-pieces}
use sevensins_server.Player.Runes.{
  upgrade_rune, upgrade_entry, apply_enhances, enhanced, enhance_rounds, enhance_round, picked,
  at_low, lowest, sub_slots, find_rune, attr_of, enhance_steps, rune_upgrade_cost, not_negative,
  range_cost, rune_level_cost,
}
use sevensins_server.Player.Runes.Balanced.{IsBalanced, total_enhances, apply_enhances-spread}
use sevensins_server.Player.Runes.Upgraded.{UpgradeOutcome, upgrade_rune-outcome}

-- `choice` takes the first, `sample` the first ones; a name `★…` says one star.
abbrev host : Host
host = record {
  now = 1700000000;
  test_word = λ t. false;
  strip = λ t. t;
  star_prefix = λ t. elim t [ [] ↦ none | c ∷ cs ↦ if c == 9733 then some 1 else none ];
  choice = λ s n xs. elim xs [ [] ↦ 0 | x ∷ _ ↦ x ];
  sample = λ s xs k. take k xs;
}

take-in : (k a : ℕ) (xs : List ℕ) → is_among a (take k xs) ≡ true → is_among a xs ≡ true
take-in zero a xs h = absurd (ground arith)
take-in (suc k) a [] h = absurd (ground arith)
take-in (suc k) a (x ∷ xs) h = ground (arith, take-in k a xs)

take-IsApart : (k : ℕ) (xs : List ℕ) → IsApart xs → IsApart (take k xs)
take-IsApart zero xs h = tt
take-IsApart (suc k) [] h = tt
take-IsApart (suc k) (x ∷ xs) h = (ground (arith, h.0, take-in k x xs), take-IsApart k xs h.1)

take-length : (k : ℕ) (xs : List ℕ) → k ≤ length xs → length (take k xs) ≡ k
take-length zero xs h = refl
take-length (suc k) [] h = absurd (omega arith)
take-length (suc k) (x ∷ xs) h = ground (arith, take-length k xs)

host-IsRandom : IsRandom host
host-IsRandom = record {
  choice_in = λ s n x xs. ground arith;
  sample_in = λ s xs k a. take-in k a xs;
  sample_apart = λ s xs k. take-IsApart k xs;
  sample_length = λ s xs k. take-length k xs;
}

abbrev stat : ℕ → EquipmentBonusRow
stat a = record { group = some 9; type = 1; attr_type = a; attr_init_v = pos 5 }

-- Item 701 is a starshard of the slot 2, and any other a cast.
abbrev shop : Design
shop = record design {
  item = λ k. record {
    action = if k == 701 then 112 else 1;
    param1 = if k == 701 then 50 else 7;
    param2 = 0;
    param3 = 0;
    class = 0;
    rarity = 1;
    name = 9733 ∷ [];
    name_en = [];
  };
  equipment = λ k. if k == 50 then some 9 else none;
  equipment_bonus = (1, stat 3) ∷ (2, stat 1) ∷ (3, stat 2) ∷ (4, stat 2) ∷ [];
}

host-IsLabelled : IsLabelled host shop
host-IsLabelled = record { stars = λ iid n h. ground (arith, h) }

slot_two : rune_slot shop 701 ≡ some 2
unfolding rune_slot
slot_two = refl

real_item : is_test_item host shop 701 ≡ false
unfolding is_test_item is_part
real_item = refl

has_bonus_rows : has_rows (bonus_group_rows shop 701) ≡ true
unfolding bonus_group_rows usable_rows is_usable
has_bonus_rows = refl

grant_reward-frame_example : IsPaid account (grant_reward host shop 701 (pos 2) account).1
grant_reward-frame_example = grant_reward-frame host shop 701 (pos 2) account

grant_reward-IsPaying_example : IsPaying shop (grant_reward host shop)
grant_reward-IsPaying_example = grant_reward-IsPaying host shop host-IsLabelled

grant_reward-pieces_example :
    let paid = grant_reward host shop 701 (pos 2) account in
    (paid.0 ≡ ok equipment)
    × (item_count storage_equipment 701 paid.1
        ≡ item_count storage_equipment 701 account +ℤ pos (at_least_one (pos 2)))
grant_reward-pieces_example =
    grant_reward-pieces host shop 701 storage_equipment (pos 2) account (starshard 2 slot_two)
      real_item has_bonus_rows

grant_reward-item_bucket_example :
    IsForeseen (item_bucket host shop 701) (grant_reward host shop 701 (pos 2) account).0
grant_reward-item_bucket_example = grant_reward-item_bucket host shop 701 (pos 2) account real_item

-- A starshard of the slot 2, with its defence and the other attributes of its group.
abbrev shard : Item
shard = rolled_rune host (bonus_rows_by_attr shop 701) 701 2 0 0 account

made : make_rune host shop 701 0 0 account ≡ ok shard
unfolding make_rune rune_of is_test_item is_part rune_slot bonus_rows_by_attr rows_by_attr
    bonus_group_rows usable_rows is_usable
made = refl

make_rune-IsShard_example : IsShard shop 701 0 0 shard
make_rune-IsShard_example = make_rune-IsShard host host-IsRandom shop 701 0 0 account shard made

storage-IsStored : IsStored (bag_of storage_equipment account)
unfolding bag_uids mem
storage-IsStored = record { slots = (refl, tt); uids = (refl, tt) }

-- The slot 1 is taken, and so is the uid.
abbrev taken : ℕ × Item
taken = (1, record shard { uid = 65 ∷ [] })

store_rune-fresh_example :
    let stored = (store_rune shop taken account).0 in
    let after = bag_of storage_equipment (store_rune shop taken account).1 in
    (lookup stored.0 (bag_of storage_equipment account) ≡ none)
    × (mem stored.1.uid (bag_uids (bag_of storage_equipment account)) ≡ false)
    × (after ≡ insert stored.0 stored.1 (bag_of storage_equipment account))
    × IsStored after
store_rune-fresh_example = store_rune-fresh shop taken account storage-IsStored

abbrev attr : Attr
attr = record {
  level = 2;
  ts = 0;
  lock = false;
  primary = some 1;
  ihid = none;
  subs = (1, 2) ∷ (2, 3) ∷ [];
  enhances = (1, 1) ∷ (2, 0) ∷ [];
}

attr-IsBalanced : IsBalanced (sub_slots attr.subs 1 4) attr.enhances
unfolding sub_slots
attr-IsBalanced i j hi hj = ground (arith, hi, hj)

attr_has_subs : has_rows (sub_slots attr.subs 1 4) ≡ true
unfolding sub_slots
attr_has_subs = refl

apply_enhances-spread_example :
    let after = (apply_enhances host account attr 3 4).1 in
    IsBalanced (sub_slots attr.subs 1 4) after.enhances
    × (total_enhances after.enhances (sub_slots attr.subs 1 4)
        ≡ total_enhances attr.enhances (sub_slots attr.subs 1 4) + 3)
apply_enhances-spread_example =
    apply_enhances-spread host host-IsRandom account attr 3 4 attr_has_subs attr-IsBalanced

-- The account with the starshard and coins.
abbrev smith : State
smith = record account {
  currency = (16, pos 5000) ∷ [];
  backpack =
      (2, (4, record { iid = 701; amount = pos 1; uid = 66 ∷ []; attr = some attr }) ∷ []) ∷ [];
}

abbrev held : Item
held = record { iid = 701; amount = pos 1; uid = 66 ∷ []; attr = some attr }

found : find_rune (66 ∷ []) (bag_of storage_equipment smith) ≡ some (4, held)
unfolding find_rune
found = refl

upgrade_rune-outcome_example :
    UpgradeOutcome formulas shop 4 held smith
      (upgrade_rune host formulas shop (66 ∷ []) (pos 2) smith)
upgrade_rune-outcome_example =
    upgrade_rune-outcome host formulas shop (66 ∷ []) (pos 2) smith 4 held found

-- The third level costs 300 and the fourth 400, and one enhance goes to the second sub-stat.
raised :
    (upgrade_rune host formulas shop (66 ∷ []) (pos 2) smith).0
    ≡ ok (
      record held { attr = some (record attr { level = 4; enhances = (1, 1) ∷ (2, 1) ∷ [] }) },
      2,
      700,
    )
unfolding upgrade_rune upgrade_entry apply_enhances enhanced enhance_rounds enhance_round picked
    at_low lowest sub_slots find_rune attr_of enhance_steps rune_upgrade_cost not_negative
    range_cost rune_level_cost
raised = refl

-- The mails of the account, paid by `grant_reward`.
claim_mail_lem_example :
    ClaimOutcome
      (grant_reward host shop)
      99
      none
      account
      (claim_mail (grant_reward host shop) 99 none account)
claim_mail_lem_example = claim_mail_lem (grant_reward host shop) 99 none account
