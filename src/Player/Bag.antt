-- ===== src/Player/Bag.antt =====
-- Items of server/player_state/core.py: counting, granting and spending, and costs that may be a
-- currency.
pub mod Stock
pub mod Slots
use Prim.Native.Nat.{max}
use sevensins_server.Prelude.{
  ℕ, ◌+◌, Option, some, none, List, [], ◌∷◌, Bool, true, false, ◌&&◌, not, Dict, lookup, lookup_or,
  insert, ◌==◌, nat_eq, if◌then◌else◌, ℤ, pos, ◌+ℤ◌, ◌-ℤ◌, min_ℤ, leb_ℤ, ltb_ℤ,
}
use sevensins_server.Player.Types.{Design, Item, Bag, State}
use sevensins_server.Player.Money.{capped_balance, balance, currency_cash, spend_diamonds}

abbrev pub storage_normal : ℕ
storage_normal = 1

-- ITEM_ACTION_CURRENCY
abbrev pub action_currency : ℕ
action_currency = 5

-- The bag of a storage; one that is not there is empty.
abbrev pub bag_of : ℕ → State → Bag
bag_of storage s = lookup_or storage [] s.backpack

abbrev pub put_bag : ℕ → Bag → State → State
put_bag storage bag s = record s { backpack = insert storage bag s.backpack }

-- sum(e["amount"] for e in bag.values() if e["iid"] == item_id)
pub count_in : ℕ → Bag → ℤ
count_in iid [] = pos 0
count_in iid ((slot, e) ∷ bag) =
    if e.iid == iid then e.amount +ℤ count_in iid bag else count_in iid bag

unfoldable pub item_count : ℕ → ℕ → State → ℤ
item_count storage iid s = count_in iid (bag_of storage s)

unfoldable pub has_item : ℕ → ℤ → State → Bool
has_item iid amount s = leb_ℤ amount (item_count storage_normal iid s)

-- The slot and item that hold an item id first.
pub find_stack : ℕ → Bag → Option (ℕ × Item)
find_stack iid [] = none
find_stack iid ((slot, e) ∷ bag) = if e.iid == iid then some (slot, e) else find_stack iid bag

-- max((int(k) for k in bag), default=0)
pub max_slot : Bag → ℕ
max_slot [] = 0
max_slot ((slot, e) ∷ bag) = max slot (max_slot bag)

-- `grant_item` on the bag: the slot and the bag after. A stack that is there is clamped; a new one
-- is stored as it is.
pub grant_in : ℕ → ℤ → Bag → ℕ × Bag
grant_in iid amount bag = elim (find_stack iid bag) [
  | some (slot, e) ↦
      (slot, insert slot (record e { amount = capped_balance (e.amount +ℤ amount) (pos 0) }) bag)
  | none ↦
      let sid = max_slot bag + 1 in
      (sid, insert sid (record { iid = iid; amount = amount; uid = []; attr = none }) bag)
]

unfoldable pub grant_item : ℕ → ℤ → ℕ → State → ℕ × State
grant_item iid amount storage s =
    let (slot, bag) = grant_in iid amount (bag_of storage s) in (slot, put_bag storage bag s)

-- The loop of `spend_item` with what is left to take: a stack that is emptied is deleted, and the
-- loop stops once nothing is left.
pub drain : ℕ → ℤ → Bag → Bag
drain iid left [] = []
drain iid left ((slot, e) ∷ bag) =
    let take = min_ℤ e.amount left in
    let rest = drain iid left bag in
    let after = drain iid (left -ℤ take) bag in
    if leb_ℤ left (pos 0)
    then (slot, e) ∷ bag
    else if not (e.iid == iid)
    then (slot, e) ∷ rest
    else if leb_ℤ (e.amount -ℤ take) (pos 0)
    then after
    else (slot, record e { amount = e.amount -ℤ take }) ∷ after

unfoldable pub spend_item : ℕ → ℤ → ℕ → State → Bool × State
spend_item iid amount storage s =
    if leb_ℤ amount (pos 0)
    then (true, s)
    else if ltb_ℤ (count_in iid (bag_of storage s)) amount
    then (false, s)
    else (true, put_bag storage (drain iid amount (bag_of storage s)) s)

-- A cost that may be a currency. Diamonds go through `spend_diamonds`.
unfoldable pub spend_cost : Design → ℕ → ℤ → State → Bool × State
spend_cost d iid amount s =
    let row = d.item iid in
    if row.action == action_currency && not (row.param1 == 0)
    then (if row.param1 == currency_cash
        then spend_diamonds d amount s
        else (if ltb_ℤ (balance row.param1 s.currency) amount then (false, s) else (
          true,
          record s {
            currency = insert row.param1 (balance row.param1 s.currency -ℤ amount) s.currency;
          },
        )))
    else spend_item iid amount storage_normal s
