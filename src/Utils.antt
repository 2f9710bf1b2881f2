-- ===== src/Utils.antt =====
-- src/utils, and texts and maps as the code of src uses them.
pub mod Maps
pub mod SessionLock
pub mod StatementNames
