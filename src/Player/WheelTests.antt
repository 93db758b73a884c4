-- ===== src/Player/WheelTests.antt =====
-- The theorems on the lucky wheel, at a sample account.
use sevensins_server.Prelude.{ℕ, refl, ℤ, arith}
use sevensins_server.Player.Types.{State}
use sevensins_server.Player.Sample.{design, account}
use sevensins_server.Player.Money.{add_currency}
use sevensins_server.Player.Roulette.{expire_roulette_day, roulette_draw}
use sevensins_server.Player.Roulette.Limits.{
  IsLimited, IsPayout, DrawOutcome, roulette_draw-outcome, roulette_draw-IsLimited,
}

-- Every prize is diamonds.
prize : ℕ → ℤ → State → ℤ × State
prize item amount s = add_currency 1 amount s

prize-IsPayout : IsPayout prize
unfolding prize add_currency
prize-IsPayout = record { keeps = λ item amount s. refl }

account-IsLimited : IsLimited account
account-IsLimited = record { day = λ box. omega arith; sum = λ box. omega arith }

roulette_draw-outcome_example :
    DrawOutcome 101 (expire_roulette_day 7 account).1 (roulette_draw prize design 7 3 101 account)
roulette_draw-outcome_example = roulette_draw-outcome prize prize-IsPayout design 7 3 101 account

roulette_draw-IsLimited_example : IsLimited (roulette_draw prize design 7 3 101 account).1
roulette_draw-IsLimited_example =
    roulette_draw-IsLimited prize prize-IsPayout design 7 3 101 account account-IsLimited
