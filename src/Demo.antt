-- ===== src/Demo.antt =====
-- The programs under src/demo and beside it: their command line.
pub mod ParseOptions
