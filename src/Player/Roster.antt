-- ===== src/Player/Roster.antt =====
-- The roster of an account as the operations on it change it.
pub mod Limits
pub mod Cases
pub mod Kept
pub mod Inheriting
pub mod Slots
pub mod Standing
pub mod Moved
pub mod Steps
use sevensins_server.Prelude.{ℕ, ◌+◌, ◌≤◌, ◌≡◌, true, ℤ, contains, Dict, Text, AllValues, text_eq}
use sevensins_server.Player.Types.{Design, Cast, State}
use sevensins_server.Player.Casts.{max_star, star_of, char_max_lv}
use sevensins_server.Player.Feeding.{max_plus, max_super_limit, max_limit_book, max_total_limit}

-- What the game allows of a cast: its star and the super star on top, its plus, its ultra level,
-- its skill levels, and a level that the star, the super star and the plus allow.
pub record IsCast (d : Design) (e : Cast) : Type 0 where
  pub star_low : 1 ≤ star_of d e
  pub star_high : star_of d e ≤ max_star
  pub super_high : e.super_star ≤ 6
  pub plus_high : e.plus ≤ max_plus
  pub ultra_high : e.super_limit ≤ max_super_limit
  pub book_high : e.limit_book ≤ max_limit_book
  pub limit_high : e.limit_book + e.limit_char ≤ max_total_limit
  pub level_high : e.lv ≤ char_max_lv d e

abbrev pub IsRoster : Design → Dict Text Cast → Type 0
IsRoster d roster = AllValues (IsCast d) roster

-- A reward adds to the roster casts that the game allows, and changes no team.
pub record IsPaying {ℓ} {Bucket : Type ℓ} (d : Design)
    (grant_reward : ℕ → ℤ → State → Bucket × State) : Type 0 where
  pub roster :
      (item : ℕ) (amount : ℤ) (s : State)
      → IsRoster d s.roster
      → IsRoster d (grant_reward item amount s).1.roster
  pub holders :
      (item : ℕ) (amount : ℤ) (s : State) (u : Text)
      → contains u s.roster ≡ true
      → contains u (grant_reward item amount s).1.roster ≡ true
  pub teams :
      (item : ℕ) (amount : ℤ) (s : State) → (grant_reward item amount s).1.formations ≡ s.formations
