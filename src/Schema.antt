-- ===== src/Schema.antt =====
-- src/schema: populating a database.
pub mod Migrations
