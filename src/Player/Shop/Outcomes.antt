-- ===== src/Player/Shop/Outcomes.antt =====
-- What a request for a card comes to.
use sevensins_server.Prelude.{
  ℕ, ◌+◌, ◌*◌, ◌≡◌, ◌≢◌, ◌<◌, ◌≤◌, ◌⊎◌, Text, some, none, List, [], Bool, true, false, ◌&&◌, nat_eq,
  ℤ, pos, ltb_ℤ, Result, ok, err,
}
use sevensins_server.Player.Types.{Design, Goods, State}
use sevensins_server.Player.Bag.{spend_cost}
use sevensins_server.Player.Rewards.{at_least_one}
use sevensins_server.Player.Shop.{
  find_shop_goods, BuyError, unknown_goods, over_once_max, over_cap, cannot_pay, raised, card_of,
  renewed,
}
use sevensins_server.Player.Shop.Windows.{window_count, cycle_of, IsRenewed}

module _ {E : Type 0} (next : ℕ → ℕ → ℕ) (cards : ℕ → List Goods)
    (grant_goods : ℕ → ℤ → State → Result E (List Text × ℕ × ℤ) × State) (d : Design)
    (now : ℕ) where
  -- How many of the card were bought in the window, before the request.
  abbrev pub so_far : ℕ → Goods → State → ℕ
  so_far shop g s = window_count now (cycle_of next cards now shop g.id s) (card_of shop g.id s)

  -- The account after the price is charged, and after the goods are handed out to it.
  abbrev pub charged : ℕ → Goods → ℕ → State → Bool × State
  charged shop g n s =
      spend_cost d g.cost_id (pos (g.cost_count * n)) (renewed next cards now shop s)

  abbrev pub handed : ℕ → Goods → ℕ → State → Result E (List Text × ℕ × ℤ) × State
  handed shop g n s =
      grant_goods g.item_id (pos (g.item_count * n))
        (record (charged shop g n s).1 { last_payout = [] })

  -- What lets a request for `n` of a card through: it fits the cap, if that is above 0, with what
  -- was bought in the window, and the maximum for one purchase, and the price can be charged.
  pub record IsAccepted (shop : ℕ) (g : Goods) (n : ℕ) (s : State) : Type 0 where
    pub once : (g.once_max ≡ 0) ⊎ (n ≤ g.once_max)
    pub cap : (ltb_ℤ (pos 0) g.limit && ltb_ℤ g.limit (pos (so_far shop g s + n))) ≡ false
    pub charge : (charged shop g n s).0 ≡ true

  -- A request that was accepted: the price was charged, the goods were handed out, and the record of
  -- the card counts them.
  pub record IsSold (shop : ℕ) (g : Goods) (n : ℕ) (s t : State) : Type 0 where
    pub accepted : IsAccepted shop g n s
    pub count : (card_of shop g.id t).count ≡ so_far shop g s + n
    pub currency : t.currency ≡ (handed shop g n s).1.currency
    pub bags : t.backpack ≡ (handed shop g n s).1.backpack
    pub roster : t.roster ≡ (handed shop g n s).1.roster

  -- Only the windows that are over changed.
  abbrev pub IsUncharged : ℕ → Goods → State → State → Type 0
  IsUncharged shop g s t = IsRenewed next cards now shop g.id s t

  -- A request that is refused, and why.
  abbrev pub IsRefused : ℕ → Goods → ℕ → State → BuyError E → State → Type 0
  IsRefused shop g n s unknown_goods t = ⊥
  IsRefused shop g n s over_once_max t = (g.once_max ≢ 0) × (g.once_max < n) × (t ≡ s)
  IsRefused shop g n s over_cap t =
      (ltb_ℤ (pos 0) g.limit ≡ true)
      × (ltb_ℤ g.limit (pos (so_far shop g s + n)) ≡ true)
      × IsUncharged shop g s t
  IsRefused shop g n s cannot_pay t = ((charged shop g n s).0 ≡ false) × IsUncharged shop g s t
  IsRefused shop g n s (raised e) t = IsAccepted shop g n s × (handed shop g n s ≡ (err e, t))

  abbrev pub CardOutcome :
      ℕ → Goods → ℕ → State → Result (BuyError E) (ℕ × List Text) × State → Type 0
  CardOutcome shop g n s (ok (k, chars), t) = (k ≡ shop) × IsSold shop g n s t
  CardOutcome shop g n s (err x, t) = IsRefused shop g n s x t

  abbrev pub BuyOutcome : ℕ → ℤ → State → Result (BuyError E) (ℕ × List Text) × State → Type 0
  BuyOutcome id count s r =
      ((find_shop_goods cards id s ≡ none) × (r ≡ (err unknown_goods, s)))
      ⊎ ((shop : ℕ) × (g : Goods) × (find_shop_goods cards id s ≡ some (shop, g))
          × (g.id ≡ id)
          × CardOutcome shop g (at_least_one count) s r)
