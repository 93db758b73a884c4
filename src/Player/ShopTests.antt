-- ===== src/Player/ShopTests.antt =====
-- Purchases at a concrete account.
use sevensins_server.Prelude.{
  ℕ, Text, List, [], ◌∷◌, ◌==◌, nat_eq, if◌then◌else◌, ℤ, pos, Result, ok, ◌+◌, ◌*◌,
}
use sevensins_server.Player.Types.{Goods, State}
use sevensins_server.Player.Sample.{account}

-- A card with a cap of 3 a day, for one piece of the item 501.
abbrev ticket : Goods
ticket = record {
  id = 2204;
  cycle = 24;
  limit = pos 3;
  item_id = 6;
  item_count = 1;
  cost_id = 501;
  cost_count = 1;
  once_max = 10;
}

abbrev cards : ℕ → List Goods
cards shop = if shop == 2 then ticket ∷ [] else []

abbrev next : ℕ → ℕ → ℕ
next cycle now = now + 3600 * cycle

abbrev hand_out : ℕ → ℤ → State → Result Text (List Text × ℕ × ℤ) × State
hand_out item n s = (ok ([], item, n), record s { last_payout = (item, []) ∷ [] })

-- One ticket of the window is bought.
abbrev customer : State
customer = record account {
  shop_bought = (2, (2204, record { count = 1; reset = 5000 }) ∷ []) ∷ [];
}
