-- ===== src/Group/Roster.antt =====
-- server/src/do/group/roster.ts: the group and its people. Membership is the only permission; what
-- is left are column rules, which need the old and the new row.
pub mod Settings
pub mod Members
pub mod Accounts
