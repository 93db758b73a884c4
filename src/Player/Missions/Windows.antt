-- ===== src/Player/Missions/Windows.antt =====
-- The missions when no window has changed since they were reset.
use sevensins_server.Prelude.{ℕ, ◌≡◌, true, lookup, nat_eq}
use sevensins_server.Player.Types.{Design, State}
use sevensins_server.Player.Missions.{is_stamped}

module _ (d : Design) (window : ℕ → ℕ) where
  -- The stamp of a group is its window.
  abbrev IsStamped : State → ℕ → Type 0
  IsStamped s g = is_stamped (window g) (lookup g s.mission_periods) ≡ true
