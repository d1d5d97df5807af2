-- ===== src/Mirror.antt =====
-- The cards that mirror GitHub issues and pull requests into Discord.
pub mod Record
pub mod Updates
pub mod Store
pub mod Cards
pub mod Invariant
pub mod Actions
pub mod Document
pub mod Publisher
pub mod Publication
pub mod History
pub mod Tests
pub mod PublicationTests
pub mod DocumentTests
pub mod ActionTests
