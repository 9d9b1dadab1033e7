-- ===== src/Store.antt =====
-- The key-value store of src/minweight_store: its log, files and handlers.
pub mod Status
pub mod Bytes
pub mod Crc
pub mod Position
pub mod Segment
pub mod Records
pub mod Recovery
pub mod Manifest
pub mod Names
pub mod Snapshot
pub mod Runs
