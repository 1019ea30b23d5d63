-- ===== src/Chat.antt =====
-- The chat servers of section-07/lab/lab_4: what both share, and each with its way of waiting.
pub mod Types
pub mod Client
pub mod Message
pub mod Poll
pub mod Select
pub mod Slots
pub mod Delivery
pub mod Lines
pub mod Bounds
pub mod Invariant
pub mod Handling
pub mod Conversation
pub mod Orderly
pub mod Cooldown
pub mod Mirror
mod Tests
mod Examples
mod Runs
