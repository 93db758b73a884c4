-- ===== src/Player/GuildTests.antt =====
-- The theorems on the guild and Guild Weekly, at a sample account.
use sevensins_server.Prelude.{ℕ, ◌≡◌, refl, some, none, [], ◌∷◌, ℤ, pos, nat_eq}
use sevensins_server.Player.Types.{Challenge, State}
use sevensins_server.Player.Sample.{design, account}
use sevensins_server.Player.Money.{add_currency}
use sevensins_server.Player.Guild.{guild_sign}
use sevensins_server.Player.Guild.SignOnce.{IsGuildKept, guild_sign-again}
use sevensins_server.Player.Challenge.{Clock, finish_challenge}
use sevensins_server.Player.Challenge.Scores.{IsBest, Call, Call-IsBest}

prize : ℕ → ℤ → State → ℤ × State
prize item amount s = add_currency 1 amount s

prize-IsGuildKept : IsGuildKept prize
unfolding prize add_currency
prize-IsGuildKept = record { guild = λ item n s. refl; player_id = λ item n s. refl }

abbrev member : State
member = record account {
  guild = some (record {
    uid = 103 ∷ 55 ∷ [];
    name = 65 ∷ [];
    ad = [];
    announce = [];
    badge = pos 1;
    join_free = pos 0;
    area = 0;
    create_time = 100;
    edit_time = 100;
    rank = 1;
    contribution = pos 0;
    sign_sum = 1;
    sign_day = 6;
    sign_paid = 1;
    member_sign = (55 ∷ []) ∷ [];
    challenge_top = [];
  });
}

guild_sign-again_example :
    let (answer, t) = guild_sign prize 7 member in guild_sign prize 7 t ≡ ((answer.0, []), t)
guild_sign-again_example = guild_sign-again prize prize-IsGuildKept 7 member

-- A Sunday's record, seen on the Monday after it.
abbrev sunday : Challenge
sunday = record {
  key = some 36;
  day = some 250;
  today = 200 ∷ [];
  best = 200;
  runs = 1;
  group = some 2;
  refilled = some 250;
  pending = none;
}

abbrev monday : Clock
monday = record { week = 37; period = 251; weekday = 1 }

abbrev played : State
played = record account { challenge = some sunday }

Call-IsBest_example : IsBest (finish_challenge prize design monday (pos 300) account).1.challenge
unfolding IsBest
Call-IsBest_example =
    Call-IsBest prize design account (finish_challenge prize design monday (pos 300) account).1
      (Call.finished monday (pos 300) account) tt
