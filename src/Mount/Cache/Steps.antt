-- ===== src/Mount/Cache/Steps.antt =====
-- Any interleaving of readers: the sections of the cache as steps, and what holds after each.
use synapse_fs.Mount.Cache.Sound.{Sound}
use synapse_fs.Mount.Cache.{
  FrameKey, Entry, Cache, find_entry, erase_key, lookup_frame, publish, mark_failed, clean_failed,
  wake, release,
}
use synapse_fs.Prelude.{ℕ, ◌+◌, ◌^◌, ◌<◌, ◌≡◌, false, some, List, [], ◌∷◌}
use synapse_fs.Mount.Cache.Listing.{times}
use synapse_fs.Mount.Cache.Evict.{ready_bytes}
use synapse_fs.Mount.Cache.Kept.{after_lookup}
use synapse_fs.Mount.Cache.Leases.{Leased}

-- The cache, and the keys of the leases that readers hold, the pins of waiting readers included.
pub record World : Type 0 where
  pub cache : Cache
  pub leases : List FrameKey

-- A section that runs under the mutex, as get_or_fill and release reach it: a reader that wakes
-- finds its entry, one that filled a frame or failed to finds an entry that is not ready, and one
-- that releases has a lease. The sizes fit into 64 bits, and the leases of a key into 32.
pub data Step (w v : World) : Type 0 where
  looked :
      (k : FrameKey) (size_hint : ℕ)
      → times k w.leases + 1 < 2 ^ 32
      → v ≡ record {
        cache = (lookup_frame k size_hint w.cache).0;
        leases = after_lookup k (lookup_frame k size_hint w.cache).1 w.leases;
      }
      → Step w v
  woke :
      (k : FrameKey) (e : Entry)
      → find_entry k w.cache.entries ≡ some e
      → v ≡ record w { cache = wake k w.cache }
      → Step w v
  published :
      (k : FrameKey) (e : Entry)
      → find_entry k w.cache.entries ≡ some e
      → e.ready ≡ false
      → e.failed ≡ false
      → ready_bytes w.cache.entries + e.size < 2 ^ 64
      → e.refcount + 1 < 2 ^ 32
      → v ≡ record { cache = publish k w.cache; leases = k ∷ w.leases }
      → Step w v
  marked :
      (k : FrameKey) (e : Entry)
      → find_entry k w.cache.entries ≡ some e
      → e.ready ≡ false
      → v ≡ record w { cache = mark_failed k w.cache }
      → Step w v
  cleaned :
      (k : FrameKey) (e : Entry)
      → find_entry k w.cache.entries ≡ some e
      → e.ready ≡ false
      → v ≡ record w { cache = clean_failed k w.cache }
      → Step w v
  released :
      (k : FrameKey)
      → 0 < times k w.leases
      → times k w.leases < 2 ^ 32
      → v ≡ record { cache = release k w.cache; leases = erase_key k w.leases }
      → Step w v

pub data Reach (s : World) : World → Type 0 where
  here : Reach s s
  next : {w v : World} → Reach s w → Step w v → Reach s v

abbrev pub Lawful : World → Type 0
Lawful w = Sound w.cache × Leased w.cache w.leases

abbrev pub empty_cache : ℕ → Cache
empty_cache budget = record {
  budget_bytes = budget;
  entries = [];
  lru = [];
  bytes_resident = 0;
  hits = 0;
  misses = 0;
  single_flight_waits = 0;
  evictions = 0;
}
