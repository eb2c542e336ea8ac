-- ===== src/Diff.antt =====
-- The diff engine (libparsex/include/parsex/diff, libparsex/src/diff).
pub mod Report
pub mod Fields
pub mod Nested
pub mod Match
pub mod Moves
pub mod Populate
pub mod Engine
pub mod Render
