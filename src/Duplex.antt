-- ===== src/Duplex.antt =====
-- src/duplex.
pub mod Bytes
pub mod Constants
pub mod FrontendBuffer
pub mod RowDescription
pub mod BackendFramer
pub mod CopyIn
pub mod PgliteDuplex
