-- ===== src/Mount/Examples.antt =====
-- Runs of the mount's tables, and their properties at concrete inputs.
use synapse_fs.Mount.Cache.Steps.{World, empty_cache}
use synapse_fs.Mount.Intervals.{
  Interval, IntervalTable, build_from, sort_intervals, pushed, build, find,
}
use synapse_fs.Mount.Intervals.Cover.{Holds, find-build}
use synapse_fs.Format.Examples.{a_manifest}
use synapse_fs.Prelude.{ℕ, ◌≤◌, ◌<◌, ◌≡◌, refl, true, false, none, some, [], ◌∷◌, arith}
use synapse_fs.Format.Manifest.{validate}
use synapse_fs.Core.Error.{ok}
use synapse_fs.Mount.Cache.{
  FrameKey, Entry, Cache, find_entry, erase_key, evict_if_needed, lookup_frame, publish, release,
}
use synapse_fs.Mount.Cache.Evict.{InUse, Settled, Accounted, evict_if_needed_lem}
use synapse_fs.Mount.Cache.Publish.{publish_lem}

abbrev table : IntervalTable
table = record {
  intervals = sort_intervals (pushed a_manifest);
  groups = (build_from a_manifest.buffer [] []).1;
  total_bytes = 128;
}

table-built : build a_manifest ≡ ok table
unfolding build validate
table-built = refl

find-build_example :
    (90 < a_manifest.file.total_bytes → (iv : Interval) × (find table 90 ≡ some iv) × Holds 90 iv)
    × (a_manifest.file.total_bytes ≤ 90 → find table 90 ≡ none)
find-build_example = find-build a_manifest table 90 (omega arith) table-built

abbrev key_of : ℕ → FrameKey
key_of n = record { artifact = record { raw = [] }; tensor_index = 0; frame_index = n }

-- A full cache: one frame in use, one not, and one that is being filled.
abbrev full_cache : Cache
full_cache = record {
  budget_bytes = 20;
  entries =
      record { key = key_of 3; size = 10; ready = false; failed = false; refcount = 0 }
      ∷ record { key = key_of 2; size = 10; ready = true; failed = false; refcount = 0 }
      ∷ record { key = key_of 1; size = 10; ready = true; failed = false; refcount = 2 }
      ∷ [];
  lru = key_of 3 ∷ key_of 2 ∷ key_of 1 ∷ [];
  bytes_resident = 20;
  hits = 0;
  misses = 3;
  single_flight_waits = 0;
  evictions = 0;
}

third_filling :
    find_entry (key_of 3) full_cache.entries
    ≡ some (record { key = key_of 3; size = 10; ready = false; failed = false; refcount = 0 })
unfolding find_entry
third_filling = refl

publish_lem_example :
    (find_entry (key_of 3) (publish (key_of 3) full_cache).entries
      ≡ some (record { key = key_of 3; size = 10; ready = true; failed = false; refcount = 1 }))
    × Accounted (publish (key_of 3) full_cache)
    × Settled (publish (key_of 3) full_cache)
publish_lem_example =
    publish_lem (key_of 3) full_cache
      (record { key = key_of 3; size = 10; ready = false; failed = false; refcount = 0 })
      third_filling refl refl (omega arith) (omega arith)

one_evicted : (publish (key_of 3) full_cache).evictions ≡ 1
unfolding publish
one_evicted = refl

evict_if_needed_lem_example :
    let c = record full_cache { budget_bytes = 15 } in
    Settled (evict_if_needed c)
    × Accounted (evict_if_needed c)
    × ((k : FrameKey) (p : Entry)
        → find_entry k c.entries ≡ some p
        → InUse p
        → find_entry k (evict_if_needed c).entries ≡ some p)
evict_if_needed_lem_example =
    evict_if_needed_lem (record full_cache { budget_bytes = 15 }) (omega arith) refl

-- A reader misses, fills the frame and publishes it; another finds it, and the first releases it.
abbrev nobody : World
nobody = record { cache = empty_cache 5; leases = [] }

abbrev after_miss : World
after_miss = record { cache = (lookup_frame (key_of 1) 10 nobody.cache).0; leases = [] }

abbrev after_fill : World
after_fill = record { cache = publish (key_of 1) after_miss.cache; leases = key_of 1 ∷ [] }

abbrev after_hit : World
after_hit = record {
  cache = (lookup_frame (key_of 1) 10 after_fill.cache).0;
  leases = key_of 1 ∷ key_of 1 ∷ [];
}

abbrev after_release : World
after_release = record {
  cache = release (key_of 1) after_hit.cache;
  leases = erase_key (key_of 1) after_hit.leases;
}
