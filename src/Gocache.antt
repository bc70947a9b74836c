-- ===== src/Gocache.antt =====
-- internal/gocache/store.go and internal/gocache/eviction_heap.go: the index of the native cache
-- store, its eviction order and its eviction loops. Sizes and times (int64) stand for numbers that are
-- not negative; `current_disk_bytes` is an integer, since code may take it below zero.
pub mod Ordering
pub mod Consistent
pub mod Eviction
pub mod Budget
pub mod Save
pub mod Commits
pub mod Saves
pub mod Races
pub mod Manifest
pub mod Restore
pub mod Clear
pub mod Requests
pub mod Tests
use gocacheprog.Prelude.{
  ℕ, zero, suc, ◌+◌, ◌-◌, ◌*◌, ◌/◌, Bool, true, false, not, ◌&&◌, ◌||◌, Option, none, some, List,
  [], ◌∷◌, String, ltb, eqb, if◌then◌else◌, length, string_eq, ◌==◌,
}
use gocacheprog.Prelude.Int.{ℤ, pos, ◌+ℤ◌, ◌-ℤ◌, ltb_ℤ}
use gocacheprog.Prelude.Maps.{lookup, insert, remove}
use gocacheprog.Heap
use gocacheprog.RecordPool.{Pool}
use gocacheprog.RecordPool

pub record IndexEntry : Type 0 where
  pub size : ℕ
  pub mode : ℕ
  pub wire_size : ℕ
  pub compressed : ℕ
  pub mod_time_micro : ℕ
  pub pool_page : ℕ
  pub pool_slot : ℕ

abbrev pub entry_stored_size : IndexEntry → ℕ
entry_stored_size ie = if ltb 0 ie.wire_size then ie.wire_size else ie.size

pub record HeapEntry : Type 0 where
  pub path : String
  pub size : ℕ
  pub mod_time_micro : ℕ

abbrev pub heap_entry : String → IndexEntry → HeapEntry
heap_entry path ie = record {
  path = path;
  size = entry_stored_size ie;
  mod_time_micro = ie.mod_time_micro;
}

-- moreEvictable, on the times and sizes that it reads. The bucket is a time.Duration in nanoseconds,
-- 0 or at least a microsecond.
unfoldable pub more_evictable : ℕ → ℕ → ℕ → ℕ → ℕ → Bool
more_evictable mod_a size_a mod_b size_b bucket =
    if eqb bucket 0
    then ltb mod_a mod_b
    else (let bucket_micro = bucket / 1000 in
        let bucket_a = mod_a / bucket_micro in
        let bucket_b = mod_b / bucket_micro in
        if not (eqb bucket_a bucket_b) then ltb bucket_a bucket_b else ltb size_b size_a)

-- evictionHeap.Less, on the entries themselves
abbrev pub entry_less : ℕ → HeapEntry → HeapEntry → Bool
entry_less bucket a b = more_evictable a.mod_time_micro a.size b.mod_time_micro b.size bucket

abbrev pub no_entry : HeapEntry
no_entry = record { path = ""; size = 0; mod_time_micro = 0 }

-- evictionHeap.push
abbrev pub heap_push : ℕ → List HeapEntry → HeapEntry → List HeapEntry
heap_push bucket heap e = Heap.push no_entry (entry_less bucket) heap e

-- evictionHeap.pop
abbrev pub heap_pop : ℕ → List HeapEntry → Option (HeapEntry × List HeapEntry)
heap_pop bucket [] = none
heap_pop bucket (e ∷ rest) = some (Heap.pop no_entry (entry_less bucket) (e ∷ rest))

-- `objects` are the plain files under dir/objects, by the path that they are stored for.
pub record Store : Type 0 where
  pub compress : Bool
  pub max_disk_bytes : ℕ
  pub max_file_bytes : ℕ
  pub manifest_max_age : ℕ
  pub eviction_bucket : ℕ
  pub index : List (String × IndexEntry)
  pub dirty : Bool
  pub eviction_scheduled : Bool
  pub current_disk_bytes : ℤ
  pub pool : Pool
  pub evict_heap : List HeapEntry
  pub objects : List (String × List ℕ)
  pub hits : ℕ
  pub puts : ℕ
  pub puts_exist : ℕ
  pub errors : ℕ

abbrev pub entry_loc : IndexEntry → RecordPool.Loc
entry_loc ie = record { page = ie.pool_page; slot = ie.pool_slot }

-- removeObjectLocked, where os.Remove works or finds nothing
unfoldable pub remove_object : Store → String → IndexEntry → Store
remove_object s path ie =
    let plain = eqb ie.pool_page 0 in
    record s {
      objects = if plain then remove path s.objects else s.objects;
      pool = if plain then s.pool else RecordPool.free s.pool (entry_stored_size ie) (entry_loc ie);
    }

-- the part of evictOneLocked that removes a live entry, which removeBrokenEntry and Clear share
unfoldable pub drop_entry : Store → String → IndexEntry → Store
unfolding remove_object
drop_entry s path ie =
    remove_object
      (record s {
        index = remove path s.index;
        current_disk_bytes = s.current_disk_bytes -ℤ pos (entry_stored_size ie);
        dirty = true;
      })
      path ie

-- What a popped entry stands for in the live index; none if it is stale.
unfoldable pub live_entry : Store → HeapEntry → Option IndexEntry
live_entry s e = elim (lookup e.path s.index) [
  | none ↦ none
  | some ie ↦
      if eqb ie.mod_time_micro e.mod_time_micro && eqb (entry_stored_size ie) e.size
      then some ie
      else none
]

-- evictOneLocked; each round takes one entry off the heap
unfoldable pub evict_one : ℕ → Store → Bool × Store
evict_one zero s = (false, s)
evict_one (suc fuel) s = elim (heap_pop s.eviction_bucket s.evict_heap) [
  | none ↦ (false, s)
  | some (e, rest) ↦
      let s' = record s { evict_heap = rest } in
      elim (live_entry s' e) [
        | none ↦ evict_one fuel s'
        | some ie ↦ (true, drop_entry s' e.path ie)
      ]
]

-- EvictOne: enough fuel for every entry of the heap
abbrev pub evict_once : Store → Bool × Store
evict_once s = evict_one (suc (length s.evict_heap)) s

-- `for s.currentDiskBytes > target && s.evictOneLocked() {}`
unfoldable pub evict_until : ℕ → ℕ → Store → Store
evict_until zero target s = s
evict_until (suc fuel) target s =
    if ltb_ℤ (pos target) s.current_disk_bytes
    then (let (evicted, s') = evict_once s in
        elim evicted [ true ↦ evict_until fuel target s' | false ↦ s' ])
    else s

abbrev pub eviction_margin_fraction : ℕ
eviction_margin_fraction = 10

abbrev pub eviction_target : ℕ → ℕ
eviction_target max_disk_bytes = max_disk_bytes - max_disk_bytes / eviction_margin_fraction

-- evictIfNeededLocked, which is also EvictNow
unfoldable pub evict_if_needed : Store → Store
evict_if_needed s =
    if eqb s.max_disk_bytes 0 || not (ltb_ℤ (pos s.max_disk_bytes) s.current_disk_bytes)
    then s
    else evict_until (suc (length s.evict_heap)) (eviction_target s.max_disk_bytes) s

-- at most `n` evictions, as in the loop of evictOnDiskFullLocked
unfoldable pub evict_many : ℕ → Store → Store
evict_many zero s = s
evict_many (suc n) s =
    let (evicted, s') = evict_once s in elim evicted [ true ↦ evict_many n s' | false ↦ s' ]

abbrev pub disk_full_evict_fraction : ℕ
disk_full_evict_fraction = 10

-- evictOnDiskFullLocked
unfoldable pub evict_on_disk_full : Store → Store
evict_on_disk_full s =
    let n = length s.index / disk_full_evict_fraction in evict_many (if eqb n 0 then 1 else n) s
