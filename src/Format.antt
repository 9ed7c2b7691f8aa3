-- ===== src/Format.antt =====
-- modules/format: the containers and descriptions that are stored.
pub mod Object
pub mod Manifest
pub mod Diff
pub mod Examples
