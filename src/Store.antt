-- ===== src/Store.antt =====
-- modules/store: the commit graph, merges, refs and the journal.
pub mod Files
pub mod Refs
pub mod Journal
pub mod Dag
pub mod Loose
pub mod Gc
pub mod Merge
mod Examples
mod Runs
