-- ===== src/Accounts.antt =====
-- The people behind accounts, in D1: their profiles, their devices, and the end of an account
-- (server/src/api/account.ts, server/src/forget.ts, server/src/scheduled.ts).
pub mod Profiles
pub mod Devices
pub mod Forget
pub mod Guests
