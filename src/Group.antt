-- ===== src/Group.antt =====
-- The Durable Object that keeps one group's ledger (server/src/do/group/).
pub mod Schema
pub mod Tables
pub mod Refusal
pub mod Action
pub mod Store
pub mod Balances
pub mod Upkeep
pub mod Events
pub mod Entries
pub mod Departed
pub mod Ledger
pub mod Roster
pub mod Invites
pub mod Changes
pub mod Notices
pub mod Object
pub mod Frame
pub mod Books
pub mod Access
pub mod History
