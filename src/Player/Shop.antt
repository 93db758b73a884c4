-- ===== src/Player/Shop.antt =====
-- Purchases of server/player_state/shop.py: `find_shop_goods`, `expire_shop_bought` and
-- `buy_shop_goods`. The cards of DEFAULT_SHOP_GOODS, `grant_goods`, the clock and `next_reset_time`
-- are arguments.
pub mod Windows
pub mod Outcomes
use sevensins_server.Prelude.{
  ℕ, ◌+◌, ◌*◌, Text, Option, some, none, List, [], ◌∷◌, Bool, true, false, ◌&&◌, not, Dict, lookup,
  lookup_or, insert, ◌==◌, nat_eq, if◌then◌else◌, ltb, ℤ, pos, ltb_ℤ, Result, ok, err,
}
use sevensins_server.Player.Types.{Design, Goods, Purchase, State}
use sevensins_server.Player.Quests.{bump_quest_counter}
use sevensins_server.Player.Bag.{spend_cost}
use sevensins_server.Player.Rewards.{at_least_one}

abbrev pub store_shop_ids : List ℕ
store_shop_ids = 1 ∷ 2 ∷ 3 ∷ 5 ∷ []

abbrev pub case_buy_goods : ℕ
case_buy_goods = 2003

-- The account's own list of a shop, or else the default one.
unfoldable pub goods_of : (ℕ → List Goods) → State → ℕ → List Goods
goods_of cards s shop = elim (lookup_or shop [] s.shop_goods) [ [] ↦ cards shop | g ∷ gs ↦ g ∷ gs ]

unfoldable pub find_goods : ℕ → List Goods → Option Goods
find_goods id [] = none
find_goods id (g ∷ gs) = if g.id == id then some g else find_goods id gs

-- The shops that are left.
unfoldable pub find_in_shops : (ℕ → List Goods) → ℕ → State → List ℕ → Option (ℕ × Goods)
find_in_shops cards id s [] = none
find_in_shops cards id s (shop ∷ shops) = elim (find_goods id (goods_of cards s shop)) [
  | some g ↦ some (shop, g)
  | none ↦ find_in_shops cards id s shops
]

abbrev pub find_shop_goods : (ℕ → List Goods) → ℕ → State → Option (ℕ × Goods)
find_shop_goods cards id s = find_in_shops cards id s store_shop_ids

-- {row[0]: row[3] for row in goods}
pub goods_cycles : List Goods → Dict ℕ ℕ → Dict ℕ ℕ
goods_cycles [] cycles = cycles
goods_cycles (g ∷ gs) cycles = goods_cycles gs (insert g.id g.cycle cycles)

-- A record whose cycle this is, in the loop of `expire_shop_bought`.
unfoldable pub is_expired : ℕ → ℕ → Purchase → Bool
is_expired now cycle r = not (cycle == 0) && not (not (r.reset == 0) && ltb now r.reset)

unfoldable pub expire_cards : (ℕ → ℕ → ℕ) → ℕ → Dict ℕ ℕ → Dict ℕ Purchase → Bool × Dict ℕ Purchase
expire_cards next now cycles [] = (false, [])
expire_cards next now cycles ((id, r) ∷ rows) =
    let cycle = lookup_or id 0 cycles in
    let (changed, rest) = expire_cards next now cycles rows in
    if is_expired now cycle r
    then (true, (id, record { count = 0; reset = next cycle now }) ∷ rest)
    else (changed, (id, r) ∷ rest)

abbrev pub bought_of : ℕ → State → Dict ℕ Purchase
bought_of shop s = lookup_or shop [] s.shop_bought

-- The records of the shop, none of which is left as it is.
unfoldable pub expire_with : (ℕ → ℕ → ℕ) → ℕ → Dict ℕ ℕ → ℕ → Dict ℕ Purchase → State → Bool × State
expire_with next now cycles shop [] s = (false, s)
expire_with next now cycles shop (row ∷ rows) s =
    let (changed, bought) = expire_cards next now cycles (row ∷ rows) in
    (changed, record s { shop_bought = insert shop bought s.shop_bought })

unfoldable pub expire_shop_bought : (ℕ → ℕ → ℕ) → (ℕ → List Goods) → ℕ → ℕ → State → Bool × State
expire_shop_bought next cards now shop s =
    expire_with next now (goods_cycles (goods_of cards s shop) []) shop (bought_of shop s) s

-- The state in which the cap is tested: the shop has a record, and no window that is over.
abbrev pub renewed : (ℕ → ℕ → ℕ) → (ℕ → List Goods) → ℕ → ℕ → State → State
renewed next cards now shop s =
    (expire_shop_bought next cards now shop
      (record s { shop_bought = insert shop (bought_of shop s) s.shop_bought })).1

-- The refusals, and an exception of `grant_goods`.
pub data BuyError {ℓ} (E : Type ℓ) : Type ℓ where
  unknown_goods : BuyError E
  over_once_max : BuyError E
  over_cap : BuyError E
  cannot_pay : BuyError E
  raised : E → BuyError E

abbrev pub card_of : ℕ → ℕ → State → Purchase
card_of shop id s = lookup_or id (record { count = 0; reset = 0 }) (bought_of shop s)

module _ {E : Type 0} (next : ℕ → ℕ → ℕ) (cards : ℕ → List Goods)
    (grant_goods : ℕ → ℤ → State → Result E (List Text × ℕ × ℤ) × State) (d : Design)
    (now : ℕ) where
  -- The purchase once the goods are handed out, with the record of the card that was read before.
  unfoldable pub sell :
      ℕ
      → Goods
      → ℕ
      → Purchase
      → Result E (List Text × ℕ × ℤ) × State
      → Result (BuyError E) (ℕ × List Text) × State
  sell shop g n r (err e, t) = (err (raised e), t)
  sell shop g n r (ok (chars, out_id, out_count), t) =
      let stamp : ℕ = if not (g.cycle == 0) && r.reset == 0 then next g.cycle now else r.reset in
      let r1 : Purchase = record { count = r.count + n; reset = stamp } in
      (
        ok (shop, chars),
        (bump_quest_counter d case_buy_goods (pos n) (some g.id) none (record t {
          shop_bought = insert shop (insert g.id r1 (bought_of shop t)) t.shop_bought;
          last_purchase = insert g.id (out_id, out_count) t.last_purchase;
        })).1,
      )

  -- The purchase once it is paid.
  unfoldable pub hand_over :
      ℕ → Goods → ℕ → Purchase → State → Result (BuyError E) (ℕ × List Text) × State
  hand_over shop g n r s =
      sell shop g n r
        (grant_goods g.item_id (pos (g.item_count * n)) (record s { last_payout = [] }))

  -- `buy_shop_goods` from the card on, with the state after the expiry.
  unfoldable pub buy_card :
      ℕ → Goods → ℕ → State → State → Result (BuyError E) (ℕ × List Text) × State
  buy_card shop g n s t =
      let r = card_of shop g.id t in
      let (paid, u) = spend_cost d g.cost_id (pos (g.cost_count * n)) t in
      let done = hand_over shop g n r u in
      if not (g.once_max == 0) && ltb g.once_max n
      then (err over_once_max, s)
      else if ltb_ℤ (pos 0) g.limit && ltb_ℤ g.limit (pos (r.count + n))
      then (err over_cap, t)
      else if not paid
      then (err cannot_pay, t)
      else done

  unfoldable pub buy_shop_goods : ℕ → ℤ → State → Result (BuyError E) (ℕ × List Text) × State
  buy_shop_goods id count s = elim (find_shop_goods cards id s) [
    | none ↦ (err unknown_goods, s)
    | some (shop, g) ↦ buy_card shop g (at_least_one count) s (renewed next cards now shop s)
  ]
