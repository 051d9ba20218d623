-- ===== src/Fx.antt =====
-- server/src/do/fx/: the one writer of exchange rates, its database, and the month blobs that it
-- publishes.
pub mod Tables
pub mod Rates
pub mod Gaps
pub mod Runs
pub mod Immutable
