-- ===== src/Http/Stores.antt =====
-- internal/http/handler.go: the two stores that the combined budget is for, internal/local/store.go and
-- internal/gocache/store.go, and their DiskBytes and EvictOne.
use gocacheprog.Prelude.{ℕ, suc, ◌≤◌, ◌<◌, ◌≡◌, ap, Bool, true, false, arith, length, string_eq}
use gocacheprog.Prelude.Int.{ℤ, pos}
use gocacheprog.Prelude.Maps.{total, length-remove_found}
use gocacheprog.Local
use gocacheprog.Local.Consistent.{IsCounted}
use gocacheprog.Local.Eviction.{EvictResult, evict_one-Evicts}
use gocacheprog.Local.Budget.{drop_entry-length, no_entries-size}
use gocacheprog.Gocache
use gocacheprog.Gocache.Consistent.{IsStore}
use gocacheprog.Gocache.Eviction as NativeEviction
use gocacheprog.Http.Budget.{DiskBudgetStore, IsBudgetStore}

-- A store of either kind.
pub data AnyStore : Type 0 where
  protocol : Local.Store → AnyStore
  native : Gocache.Store → AnyStore

abbrev pub evicted_protocol : Bool × Local.Store → Bool × AnyStore
evicted_protocol (b, s) = (b, protocol s)

abbrev pub evicted_native : Bool × Gocache.Store → Bool × AnyStore
evicted_native (b, s) = (b, native s)

unfoldable pub disk_bytes : AnyStore → ℤ
disk_bytes (protocol s) = s.current_disk_bytes
disk_bytes (native s) = s.current_disk_bytes

unfoldable pub evict_any : AnyStore → Bool × AnyStore
evict_any (protocol s) = evicted_protocol (Local.evict_one s)
evict_any (native s) = evicted_native (Gocache.evict_once s)

-- what both stores offer to the budget
abbrev pub both_stores : DiskBudgetStore AnyStore
both_stores = record { disk_bytes = disk_bytes; evict_one = evict_any }

unfoldable pub IsValid : AnyStore → Type 0
IsValid (protocol s) = IsCounted s
IsValid (native s) = IsStore s

unfoldable pub size : AnyStore → ℕ
size (protocol s) = total (λ n. n) s.output_sizes
size (native s) = total Gocache.entry_stored_size s.index

unfoldable pub entries : AnyStore → ℕ
entries (protocol s) = length s.index
entries (native s) = length s.index

disk_bytes-size : (s : AnyStore) → IsValid s → disk_bytes s ≡ pos (size s)
unfolding disk_bytes size IsValid
disk_bytes-size (protocol s) (d, c) = c.summed
disk_bytes-size (native s) v = v.counted

Evicts-fewer :
    (s : AnyStore)
    → IsValid s
    → (evict_any s).0 ≡ true
    → IsValid (evict_any s).1 × (entries (evict_any s).1 < entries s)
unfolding evict_any IsValid entries
Evicts-fewer (protocol s) v h =
    let (ok, e) : EvictResult s true (Local.evict_one s).1 = rw h at (evict_one-Evicts s v) in
    (ok, drop_entry-length s (Local.evict_one s).1 e)
Evicts-fewer (native s) v h =
    let (ok, e) : NativeEviction.EvictResult s true (Gocache.evict_once s).1 =
      rw h at
        (NativeEviction.evict_one-EvictResult (suc (length s.evict_heap)) s (omega arith) v) in
    (ok, rw e.gone (length-remove_found e.path e.entry s.index e.found))

Evicts-none :
    (s : AnyStore)
    → IsValid s
    → (evict_any s).0 ≡ false
    → IsValid (evict_any s).1 × (size (evict_any s).1 ≡ 0) × (entries (evict_any s).1 ≤ entries s)
unfolding evict_any IsValid entries size
Evicts-none (protocol s) v h =
    let (empty, same) : EvictResult s false (Local.evict_one s).1 =
      rw h at (evict_one-Evicts s v) in
    rw same (v, no_entries-size s v empty, omega arith)
Evicts-none (native s) v h =
    let (ok, empty, empty') : NativeEviction.EvictResult s false (Gocache.evict_once s).1 =
      rw h at
        (NativeEviction.evict_one-EvictResult (suc (length s.evict_heap)) s (omega arith) v) in
    (
      ok,
      ap (λ m. total Gocache.entry_stored_size m) empty',
      omega (arith, ap (λ m. length m) empty'),
    )

-- Both stores keep the contract that the combined budget relies on, with their consistency as
-- validity: DiskBytes is the sum of what is stored, an eviction that reports success leaves a
-- consistent store with fewer entries, and one that reports none leaves a consistent store with no
-- bytes and no more entries.
pub both_stores-IsBudgetStore : IsBudgetStore both_stores IsValid size entries
both_stores-IsBudgetStore = record {
  sized = disk_bytes-size;
  evicts = Evicts-fewer;
  evicts_none = Evicts-none;
}
