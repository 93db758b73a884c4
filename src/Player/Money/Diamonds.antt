-- ===== src/Player/Money/Diamonds.antt =====
-- `spend_diamonds` of core.py.
use sevensins_server.Prelude.{
  ℕ, ◌≡◌, ◌≢◌, ◌⊎◌, refl, inl, inr, none, true, false, Dict, insert, lookup-insert, ◌==◌, nat_eq,
  if◌then◌else◌, ℤ, pos, ◌+ℤ◌, ◌-ℤ◌, ◌≤ℤ◌, min_ℤ, leb_ℤ, ltb_ℤ, leb_ℤ-cases, ltb_ℤ-cases, int_laws,
  arith,
}
use sevensins_server.Player.Types.{Design, State}
use sevensins_server.Player.Quests.{bump_quest_counter, case_spend_diamond}
use sevensins_server.Player.Money.{
  currency_cash, currency_cash_paid, balance, take_diamonds, diamond_balance, spend_diamonds,
}
use sevensins_server.Player.Money.Capped.{IsCapped}

balance-take :
    (amount : ℤ) (bag : Dict ℕ ℤ) (j : ℕ)
    → balance j (take_diamonds amount bag) ≡ (
        if j == currency_cash_paid
        then balance currency_cash_paid bag -ℤ (amount -ℤ min_ℤ (balance currency_cash bag) amount)
        else if j == currency_cash
        then balance currency_cash bag -ℤ min_ℤ (balance currency_cash bag) amount
        else balance j bag)
unfolding take_diamonds
balance-take amount bag j =
    let free = balance currency_cash bag in
    let paid = balance currency_cash_paid bag in
    let take_free = min_ℤ free amount in
    ground (
      arith,
      lookup-insert currency_cash_paid j (paid -ℤ (amount -ℤ take_free))
          (insert currency_cash (free -ℤ take_free) bag),
      lookup-insert currency_cash j (free -ℤ take_free) bag,
    )

-- The arithmetic of the two writes.
split_payment :
    (free paid amount : ℤ)
    → pos 0 ≤ℤ free
    → pos 0 ≤ℤ paid
    → pos 0 ≤ℤ amount
    → amount ≤ℤ free +ℤ paid
    → let free' = free -ℤ min_ℤ free amount in
      let paid' = paid -ℤ (amount -ℤ min_ℤ free amount) in
      (pos 0 ≤ℤ free')
      × (pos 0 ≤ℤ paid')
      × (free' ≤ℤ free)
      × (paid' ≤ℤ paid)
      × (free' +ℤ paid' +ℤ amount ≡ free +ℤ paid)
      × ((free' ≡ pos 0) ⊎ (paid' ≡ paid))
split_payment free paid amount hf hp ha h = elim (leb_ℤ-cases free amount) [
  | inl (test, le) ↦ rw test (
    omega int_laws,
    omega int_laws,
    omega int_laws,
    omega int_laws,
    omega int_laws,
    inl (omega int_laws),
  )
  | inr (test, lt) ↦ rw test (
    omega int_laws,
    omega int_laws,
    omega int_laws,
    omega int_laws,
    omega int_laws,
    inr (omega int_laws),
  )
]

-- What is left after a payment that the two balances cover.
pub record IsPaid (amount : ℤ) (b c : Dict ℕ ℤ) : Type 0 where
  pub total :
      balance currency_cash c +ℤ balance currency_cash_paid c +ℤ amount
      ≡ balance currency_cash b +ℤ balance currency_cash_paid b
  -- Paid diamonds go only once the free ones are gone.
  pub free_first :
      (balance currency_cash c ≡ pos 0)
      ⊎ (balance currency_cash_paid c ≡ balance currency_cash_paid b)
  pub others : (j : ℕ) → j ≢ currency_cash → j ≢ currency_cash_paid → balance j c ≡ balance j b
  pub capped : IsCapped c

take_diamonds-IsPaid :
    (amount : ℤ) (bag : Dict ℕ ℤ)
    → IsCapped bag
    → pos 0 ≤ℤ amount
    → amount ≤ℤ balance currency_cash bag +ℤ balance currency_cash_paid bag
    → IsPaid amount bag (take_diamonds amount bag)
take_diamonds-IsPaid amount bag h p q =
    let free = balance currency_cash bag in
    let paid = balance currency_cash_paid bag in
    let (f0, p0, f1, p1, sum, first) =
      split_payment free paid amount (h.nonneg currency_cash) (h.nonneg currency_cash_paid) p q in
    let bt = balance-take amount bag in
    record {
      total = rw (bt currency_cash, bt currency_cash_paid) sum;
      free_first = rw (bt currency_cash, bt currency_cash_paid) first;
      others = λ j a b. ground (arith, bt j);
      capped = record {
        nonneg = λ j. ground (arith, bt j, f0, p0, h.nonneg j);
        ceiling = λ j. ground (
          arith,
          bt j,
          f1,
          p1,
          h.ceiling j,
          h.ceiling currency_cash,
          h.ceiling currency_cash_paid,
        );
        diamonds = rw (bt currency_cash, bt currency_cash_paid) (omega int_laws);
      };
    }

not_leb : (amount : ℤ) → pos 1 ≤ℤ amount → leb_ℤ amount (pos 0) ≡ false
not_leb amount p = ground arith

currency-bump :
    (d : Design) (c : ℕ) (amount : ℤ) (s : State)
    → (bump_quest_counter d c amount none none s).1.currency ≡ s.currency
unfolding bump_quest_counter
currency-bump d c amount s = refl

spend-short :
    (d : Design) (amount : ℤ) (s : State)
    → pos 1 ≤ℤ amount
    → ltb_ℤ (diamond_balance s) amount ≡ true
    → spend_diamonds d amount s ≡ (false, s)
unfolding spend_diamonds diamond_balance
spend-short d amount s p test = rw (not_leb amount p, test)

spend-done :
    (d : Design) (amount : ℤ) (s : State)
    → pos 1 ≤ℤ amount
    → ltb_ℤ (diamond_balance s) amount ≡ false
    → (spend_diamonds d amount s).0 ≡ true
unfolding spend_diamonds diamond_balance
spend-done d amount s p test = rw (not_leb amount p, test)

currency-spend :
    (d : Design) (amount : ℤ) (s : State)
    → pos 1 ≤ℤ amount
    → ltb_ℤ (diamond_balance s) amount ≡ false
    → (spend_diamonds d amount s).1.currency ≡ take_diamonds amount s.currency
unfolding spend_diamonds diamond_balance
currency-spend d amount s p test = ground (
  arith,
  currency-bump d case_spend_diamond amount
      (record s { currency = take_diamonds amount s.currency }),
)

-- From balances in range, a positive amount is charged exactly when the two diamond balances cover
-- it together. Then the balances stay in range, the free diamonds go first, the total falls by the
-- amount, and no other balance changes; otherwise the account is left as it was.
pub spend_diamonds_lem :
    (d : Design) (amount : ℤ) (s : State)
    → IsCapped s.currency
    → pos 1 ≤ℤ amount
    → let (done, t) = spend_diamonds d amount s in
      if ltb_ℤ (diamond_balance s) amount
      then (done ≡ false) × (t ≡ s)
      else (done ≡ true) × IsPaid amount s.currency t.currency
spend_diamonds_lem d amount s h p = elim (ltb_ℤ-cases (diamond_balance s) amount) [
  | inl (test, short) ↦ rw (test, spend-short d amount s p test) (refl, refl)
  | inr (test, enough) ↦ rw test (
    spend-done d amount s p test,
    rw (currency-spend d amount s p test)
        (take_diamonds-IsPaid amount s.currency h (omega arith) (unfold diamond_balance in enough)),
  )
]
