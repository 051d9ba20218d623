-- ===== src/Directory.antt =====
-- What D1 holds (server/src/db/d1/schema.ts): accounts and profiles, and the indexes over the group
-- objects, which send every change of theirs through an outbox.
pub mod Tables
pub mod Apply
