-- ===== src/Patricia.antt =====
-- The ordered Patricia index of src/minpatricia.
pub mod Status
pub mod Key
pub mod Route
pub mod Page
pub mod Records
pub mod Nodes
pub mod Index
