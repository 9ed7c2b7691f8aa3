-- ===== src/Mount.antt =====
-- modules/mount: the read-only view of one commit, its interval table, its frame cache and its
-- readahead.
pub mod Prefetch
pub mod Cache
pub mod Intervals
mod Examples
