-- ===== src/Player/Shop/Windows.antt =====
-- The windows of the cards.
use sevensins_server.Prelude.{
  ℕ, ◌≡◌, refl, ap, ◌∙◌, List, [], ◌∷◌, Bool, ◌&&◌, not, by_test, Dict, lookup_or,
  lookup_or-insert_self, insert, nat_eq, ◌==◌, if◌then◌else◌, leb, arith,
}
use sevensins_server.Player.Types.{Goods, Purchase, State}
use sevensins_server.Player.Shop.{
  goods_of, goods_cycles, is_expired, expire_cards, expire_with, bought_of, expire_shop_bought,
  card_of, renewed,
}

-- How many of a card were bought in the window that `now` is in: a card with a reset cycle starts
-- again at the end of its window, one without never does.
abbrev pub window_count : ℕ → ℕ → Purchase → ℕ
window_count now cycle r = if not (cycle == 0) && leb r.reset now then 0 else r.count

abbrev pub nothing : Purchase
nothing = record { count = 0; reset = 0 }

module _ (next : ℕ → ℕ → ℕ) (cards : ℕ → List Goods) (now : ℕ) where
  -- The reset cycle that the cards of a shop give an id.
  abbrev pub cycle_of : ℕ → ℕ → State → ℕ
  cycle_of shop id s = lookup_or id 0 (goods_cycles (goods_of cards s shop) [])

  expire_cards-count :
      (cycles : Dict ℕ ℕ) (id : ℕ) (rows : Dict ℕ Purchase)
      → (lookup_or id nothing (expire_cards next now cycles rows).1).count
        ≡ window_count now (lookup_or id 0 cycles) (lookup_or id nothing rows)
  unfolding expire_cards is_expired
  expire_cards-count cycles id [] = ground arith
  expire_cards-count cycles id ((k, r) ∷ rows) =
      by_test
        (λ (q : Bool × Dict ℕ Purchase).
          (lookup_or id nothing q.1).count
          ≡ window_count now (lookup_or id 0 cycles) (lookup_or id nothing ((k, r) ∷ rows)))
        (is_expired now (lookup_or k 0 cycles) r) _ _
        (λ over. ground (arith, over, expire_cards-count cycles id rows))
        (λ kept. ground (arith, kept, expire_cards-count cycles id rows))

  -- Before the cap is tested only the windows that are over change.
  pub record IsRenewed (shop id : ℕ) (s t : State) : Type 0 where
    pub frame : t ≡ record s { shop_bought = t.shop_bought }
    pub count :
        (card_of shop id t).count ≡ window_count now (cycle_of shop id s) (card_of shop id s)

  expire_with-IsRenewed :
      (cycles : Dict ℕ ℕ) (shop id : ℕ) (rows : Dict ℕ Purchase) (s : State)
      → bought_of shop s ≡ rows
      → let t = (expire_with next now cycles shop rows s).1 in
        (t ≡ record s { shop_bought = t.shop_bought })
        × ((card_of shop id t).count
            ≡ window_count now (lookup_or id 0 cycles) (lookup_or id nothing rows))
  unfolding expire_with
  expire_with-IsRenewed cycles shop id [] s same =
      (refl, ap (λ rows. (lookup_or id nothing rows).count) same ∙ ground arith)
  expire_with-IsRenewed cycles shop id (row ∷ rows) s same = (
    refl,
    ap (λ rows. (lookup_or id nothing rows).count)
          (lookup_or-insert_self shop (expire_cards next now cycles (row ∷ rows)).1 []
            s.shop_bought)
        ∙ expire_cards-count cycles id (row ∷ rows),
  )

  pub renewed-IsRenewed :
      (shop id : ℕ) (s : State) → IsRenewed shop id s (renewed next cards now shop s)
  unfolding expire_shop_bought goods_of
  renewed-IsRenewed shop id s =
      let t : State = record s { shop_bought = insert shop (bought_of shop s) s.shop_bought } in
      let same : bought_of shop t ≡ bought_of shop s =
        lookup_or-insert_self shop (bought_of shop s) [] s.shop_bought in
      let (frame, count) =
        expire_with-IsRenewed (goods_cycles (goods_of cards t shop) []) shop id (bought_of shop t) t
          refl in
      record {
        frame = frame;
        count =
            count
            ∙ ap (λ rows. window_count now (cycle_of shop id s) (lookup_or id nothing rows)) same;
      }
