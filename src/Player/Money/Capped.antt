-- ===== src/Player/Money/Capped.antt =====
-- `capped_balance` and the range of the balances that `add_currency` credits.
use sevensins_server.Prelude.{
  ℕ, ◌≡◌, Dict, lookup-insert, ◌==◌, nat_eq, if◌then◌else◌, ℤ, pos, ◌+ℤ◌, ◌≤ℤ◌, +ℤ_comm, int_laws,
  arith,
}
use sevensins_server.Player.Money.{
  balance_max, currency_cash, currency_cash_paid, capped_balance, balance, headroom_of, credit,
}

-- What the client can show of the balances.
pub record IsCapped (bag : Dict ℕ ℤ) : Type 0 where
  pub nonneg : (key : ℕ) → pos 0 ≤ℤ balance key bag
  pub ceiling : (key : ℕ) → balance key bag ≤ℤ balance_max
  pub diamonds : balance currency_cash bag +ℤ balance currency_cash_paid bag ≤ℤ balance_max

-- The clamp is the value where that fits between 0 and what the headroom leaves, else the end that
-- it passed.
pub capped_balance_lem :
    (value headroom : ℤ)
    → pos 0 ≤ℤ headroom
    → headroom ≤ℤ balance_max
    → (pos 0 ≤ℤ capped_balance value headroom)
      × (capped_balance value headroom +ℤ headroom ≤ℤ balance_max)
      × (pos 0 ≤ℤ value → value +ℤ headroom ≤ℤ balance_max → capped_balance value headroom ≡ value)
unfolding capped_balance ◌+ℤ◌
capped_balance_lem value headroom h k = (ground arith, ground arith, λ p q. ground arith)

balance-credit :
    (key j : ℕ) (amount : ℤ) (bag : Dict ℕ ℤ)
    → balance j (credit key amount bag) ≡ (
        if key == j
        then capped_balance (balance key bag +ℤ amount) (headroom_of key bag)
        else balance j bag)
unfolding credit
balance-credit key j amount bag = ground (
  arith,
  lookup-insert key j (capped_balance (balance key bag +ℤ amount) (headroom_of key bag)) bag,
)

headroom-bounds :
    (key : ℕ) (bag : Dict ℕ ℤ)
    → IsCapped bag
    → (pos 0 ≤ℤ headroom_of key bag) × (headroom_of key bag ≤ℤ balance_max)
headroom-bounds key bag h = ground (
  arith,
  h.nonneg currency_cash,
  h.nonneg currency_cash_paid,
  h.ceiling currency_cash,
  h.ceiling currency_cash_paid,
)

le_of_sum : (x y z : ℤ) → pos 0 ≤ℤ y → x +ℤ y ≤ℤ z → x ≤ℤ z
le_of_sum x y z h k = omega int_laws

-- Crediting any amount, negative or huge, to balances in range keeps them in range: each from 0 to
-- the ceiling, the two diamond balances together too.
pub credit-IsCapped :
    (key : ℕ) (amount : ℤ) (bag : Dict ℕ ℤ) → IsCapped bag → IsCapped (credit key amount bag)
credit-IsCapped key amount bag h =
    let b = headroom-bounds key bag h in
    let c = capped_balance_lem (balance key bag +ℤ amount) (headroom_of key bag) b.0 b.1 in
    record {
      nonneg = λ j. ground (arith, c.0, balance-credit key j amount bag, h.nonneg j);
      ceiling = λ j.
          ground (
            arith,
            le_of_sum _ _ balance_max b.0 c.1,
            balance-credit key j amount bag,
            h.ceiling j,
          );
      diamonds = ground (
        arith,
        c.1,
        h.diamonds,
        +ℤ_comm (capped_balance (balance key bag +ℤ amount) (headroom_of key bag))
            (balance currency_cash bag),
        balance-credit key currency_cash amount bag,
        balance-credit key currency_cash_paid amount bag,
      );
    }
