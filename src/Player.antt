-- ===== src/Player.antt =====
-- The persistent player state of server/player_state.
pub mod Types
pub mod Quests
pub mod Money
pub mod Bag
pub mod Level
pub mod Equips
pub mod Mail
pub mod LoginBonus
pub mod Sessions
pub mod Roulette
pub mod Casts
pub mod Progress
pub mod Feeding
pub mod Inherit
pub mod Teams
pub mod Roster
pub mod Gear
pub mod Rewards
pub mod Runes
pub mod Mirrors
pub mod Shop
pub mod Guild
pub mod Challenge
pub mod Karma
pub mod Missions
pub mod StageQuests
mod Sample
mod Tests
mod RosterTests
mod DailyTests
mod SessionTests
mod WheelTests
mod CastTests
mod GuildTests
mod RewardTests
mod MirrorTests
mod ShopTests
