-- ===== src/Group/Invites.antt =====
-- server/src/do/group/invites.ts: two doors into a group. An invite hands one named placeholder to
-- whoever holds its token; the group link lets anybody who holds it join.
pub mod Links
pub mod Peek
pub mod Join
