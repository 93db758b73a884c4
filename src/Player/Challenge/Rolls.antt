-- ===== src/Player/Challenge/Rolls.antt =====
-- The record when the day or the week changes.
use sevensins_server.Prelude.{◌≡◌, true, nat_eq}
use sevensins_server.Player.Types.{Challenge}
use sevensins_server.Player.Challenge.{Clock, is_at, with_group}

-- A record that is of the clock's week and day, and refilled.
record IsToday (c : Clock) (ch : Challenge) : Type 0 where
  week : is_at c.week ch.key ≡ true
  day : is_at c.period ch.day ≡ true
  refilled : is_at c.period ch.refilled ≡ true
  grouped : with_group c ch ≡ ch
