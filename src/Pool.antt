-- ===== src/Pool.antt =====
-- src/pool: the pool's clients and what they share.
pub mod Deallocate
pub mod FastArrayParsers
pub mod FastQuery
pub mod QueryTrail
