-- ===== src/Gocache/Consistent.antt =====
-- The invariant of the store: what the budget counts and what the eviction heap knows agree with the
-- index.
use gocacheprog.Prelude.{ℕ, ◌<◌, ◌≡◌, Bool, ◌&&◌, some, List, String, eqb, tally, string_eq, ◌==◌}
use gocacheprog.Prelude.Int.{ℤ, pos}
use gocacheprog.Prelude.Maps.{lookup, total, Distinct}
use gocacheprog.Heap.Order.{IsHeap}
use gocacheprog.Gocache.{
  IndexEntry, HeapEntry, Store, entry_stored_size, heap_entry, entry_less, no_entry,
}

abbrev pub same_entry : HeapEntry → HeapEntry → Bool
same_entry a b = a.path == b.path && eqb a.size b.size && eqb a.mod_time_micro b.mod_time_micro

pub record Consistent (bucket : ℕ) (index : List (String × IndexEntry)) (bytes : ℤ)
    (heap : List HeapEntry) : Type 0 where
  pub distinct : Distinct index
  pub counted : bytes ≡ pos (total entry_stored_size index)
  pub ordered : IsHeap no_entry (entry_less bucket) heap
  pub covered :
      (path : String) (ie : IndexEntry)
      → lookup path index ≡ some ie
      → 0 < tally (same_entry (heap_entry path ie)) heap

-- No path is indexed twice, the byte count is the sum of the stored sizes, the heap is in order, and
-- it holds every entry of the index.
abbrev pub IsStore : Store → Type 0
IsStore s = Consistent s.eviction_bucket s.index s.current_disk_bytes s.evict_heap
