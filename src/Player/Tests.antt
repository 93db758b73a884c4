-- ===== src/Player/Tests.antt =====
-- The theorems on money, bags, quests and levels at a sample account.
use sevensins_server.Prelude.{
  ℕ, ◌-◌, ◌≡◌, ◌≢◌, refl, none, [], ◌∷◌, true, false, lookup, lookup_or, ◌==◌, nat_eq,
  if◌then◌else◌, pos, negsuc, ◌+ℤ◌, ◌≤ℤ◌, ltb_ℤ, arith, int_laws,
}
use sevensins_server.Player.Types.{Energy}
use sevensins_server.Player.Sample.{rows, design, wallet, stocks, account}
use sevensins_server.Player.Quests.{bump_quest_counter, bumped}
use sevensins_server.Player.Quests.Counts.{count_of, is_shared, count-bump}
use sevensins_server.Player.Quests.Completed.{SameFinished, bump-SameFinished}
use sevensins_server.Player.Money.{
  balance_max, capped_balance, balance, credit, diamond_balance, spend_diamonds,
}
use sevensins_server.Player.Money.Capped.{IsCapped, capped_balance_lem, credit-IsCapped}
use sevensins_server.Player.Money.Diamonds.{IsPaid, spend_diamonds_lem}
use sevensins_server.Player.Bag.{bag_of, item_count, grant_item, spend_item}
use sevensins_server.Player.Bag.Stock.{spend_item_lem}
use sevensins_server.Player.Bag.Slots.{IsUnique, IsGranted, grant_item_lem}
use sevensins_server.Player.Level.{
  energy_action, player_level_xp_cap, stamina_cap_for_level, grant_player_xp,
}
use sevensins_server.Player.Level.Bank.{IsClimbed, grant_player_xp-IsClimbed}
use sevensins_server.Player.Level.Stamina.{recovered, grant_player_xp_stamina}

count-bump_example :
    count_of (2014 ∷ 1 ∷ []) (bump_quest_counter design 2014 (pos 300) none none account).1.counters
    ≡ (if is_shared 2014 none (pos 300) none (2014 ∷ 1 ∷ []) rows
        then bumped (pos 300) none (count_of (2014 ∷ 1 ∷ []) account.counters)
        else count_of (2014 ∷ 1 ∷ []) account.counters)
count-bump_example = count-bump 2014 none (pos 300) none design account (2014 ∷ 1 ∷ [])

bump-SameFinished_example :
    SameFinished
      (bump_quest_counter design 2014 (pos 300) none none account).1.counters
      account.counters
bump-SameFinished_example = bump-SameFinished (pos 300) none 2014 none design account

capped_balance_lem_example :
    (pos 0 ≤ℤ capped_balance (pos 1_000_000_500) (pos 200))
    × (capped_balance (pos 1_000_000_500) (pos 200) +ℤ pos 200 ≤ℤ balance_max)
    × (pos 0 ≤ℤ pos 1_000_000_500
        → pos 1_000_000_500 +ℤ pos 200 ≤ℤ balance_max
        → capped_balance (pos 1_000_000_500) (pos 200) ≡ pos 1_000_000_500)
capped_balance_lem_example =
    capped_balance_lem (pos 1_000_000_500) (pos 200) (omega int_laws) (omega int_laws)

balance-wallet : (key : ℕ) → (pos 0 ≤ℤ balance key wallet) × (balance key wallet ≤ℤ balance_max)
balance-wallet key = ground arith

wallet-IsCapped : IsCapped wallet
wallet-IsCapped = record {
  nonneg = λ key. (balance-wallet key).0;
  ceiling = λ key. (balance-wallet key).1;
  diamonds = omega int_laws;
}

credit-IsCapped_example : IsCapped (credit 1 (negsuc 999) wallet)
credit-IsCapped_example = credit-IsCapped 1 (negsuc 999) wallet wallet-IsCapped

spend_diamonds_lem_example :
    let (done, t) = spend_diamonds design (pos 450) account in
    if ltb_ℤ (diamond_balance account) (pos 450)
    then (done ≡ false) × (t ≡ account)
    else (done ≡ true) × IsPaid (pos 450) wallet t.currency
spend_diamonds_lem_example =
    spend_diamonds_lem design (pos 450) account wallet-IsCapped (omega int_laws)

spend_item_lem_example :
    let (done, t) = spend_item 501 (pos 5) 1 account in
    if ltb_ℤ (item_count 1 501 account) (pos 5)
    then (done ≡ false) × (t ≡ account)
    else (done ≡ true)
      × (item_count 1 501 t +ℤ pos 5 ≡ item_count 1 501 account)
      × ((j : ℕ) → j ≢ 501 → item_count 1 j t ≡ item_count 1 j account)
spend_item_lem_example = spend_item_lem 501 1 (pos 5) account (omega int_laws)

stocks-IsUnique : IsUnique stocks
stocks-IsUnique = (refl, (refl, (refl, tt)))

grant_item_lem_example :
    IsGranted 501 (pos 9) stocks (bag_of 1 (grant_item 501 (pos 9) 1 account).1)
    × ((k : ℕ) → k ≢ 1 → bag_of k (grant_item 501 (pos 9) 1 account).1 ≡ bag_of k account)
grant_item_lem_example = grant_item_lem 501 1 (pos 9) account stocks-IsUnique

grant_player_xp-IsClimbed_example :
    let t = (grant_player_xp design 250 account).1 in
    IsClimbed 60 1 340 t.level.lv t.level.xp × (t.level.xp_cap ≡ player_level_xp_cap t.level.lv)
grant_player_xp-IsClimbed_example = grant_player_xp-IsClimbed design 250 account (omega arith)

grant_player_xp_stamina_example :
    let t = (grant_player_xp design 250 account).1 in
    let zero_slot : Energy = record { energy = pos 0; cap = pos 0 } in
    let slot = lookup_or energy_action zero_slot t.energy in
    (slot.energy ≡ pos 20 +ℤ pos (recovered 2 (t.level.lv - 1)))
    × (slot.cap ≡ pos (stamina_cap_for_level design t.level.lv))
    × ((k : ℕ) → (k == energy_action) ≡ false → lookup k t.energy ≡ lookup k account.energy)
grant_player_xp_stamina_example = grant_player_xp_stamina design 250 account
