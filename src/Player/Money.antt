-- ===== src/Player/Money.antt =====
-- Balances of server/player_state/core.py: the shared ceiling, currencies and diamonds.
pub mod Capped
pub mod Diamonds
use sevensins_server.Prelude.{
  ℕ, ◌≡◌, Option, some, none, List, [], ◌∷◌, Bool, true, false, ◌||◌, Dict, lookup, lookup_or,
  insert, ◌==◌, nat_eq, if◌then◌else◌, ℤ, pos, ◌+ℤ◌, ◌-ℤ◌, min_ℤ, max_ℤ, leb_ℤ, ltb_ℤ,
}
use sevensins_server.Player.Types.{Design, State}
use sevensins_server.Player.Quests.{bump_quest_counter, case_spend_diamond}

abbrev pub balance_max : ℤ
balance_max = pos 1_000_000_000

-- CurrencyType: Cash, and its paid partner RealCash.
abbrev pub currency_cash : ℕ
currency_cash = 1

abbrev pub currency_cash_paid : ℕ
currency_cash_paid = 32

pub capped_balance : ℤ → ℤ → ℤ
unfolding ◌-ℤ◌
capped_balance value headroom = max_ℤ (pos 0) (min_ℤ value (balance_max -ℤ headroom))

abbrev pub balance : ℕ → Dict ℕ ℤ → ℤ
balance key bag = lookup_or key (pos 0) bag

-- The sum over the other cash keys: one of them at most is another.
abbrev pub headroom_of : ℕ → Dict ℕ ℤ → ℤ
headroom_of key bag =
    if key == currency_cash
    then balance currency_cash_paid bag
    else if key == currency_cash_paid
    then balance currency_cash bag
    else pos 0

-- `add_currency` on the dict of balances, and on the account. The new balance is the result.
pub credit : ℕ → ℤ → Dict ℕ ℤ → Dict ℕ ℤ
credit key amount bag =
    insert key (capped_balance (balance key bag +ℤ amount) (headroom_of key bag)) bag

unfoldable pub add_currency : ℕ → ℤ → State → ℤ × State
unfolding credit
add_currency key amount s = (
  balance key (credit key amount s.currency),
  record s { currency = credit key amount s.currency },
)

pub diamond_balance : State → ℤ
diamond_balance s = balance currency_cash s.currency +ℤ balance currency_cash_paid s.currency

-- The two writes of `spend_diamonds`, free diamonds first.
pub take_diamonds : ℤ → Dict ℕ ℤ → Dict ℕ ℤ
take_diamonds amount bag =
    let free = balance currency_cash bag in
    let paid = balance currency_cash_paid bag in
    let take_free = min_ℤ free amount in
    insert currency_cash_paid (paid -ℤ (amount -ℤ take_free))
      (insert currency_cash (free -ℤ take_free) bag)

unfoldable pub spend_diamonds : Design → ℤ → State → Bool × State
spend_diamonds d amount s =
    if leb_ℤ amount (pos 0)
    then (true, s)
    else if ltb_ℤ (balance currency_cash s.currency +ℤ balance currency_cash_paid s.currency) amount
    then (false, s)
    else (
      true,
      (bump_quest_counter d case_spend_diamond amount none none
          (record s { currency = take_diamonds amount s.currency })).1,
    )
