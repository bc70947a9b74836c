-- ===== src/Gocache/Tests.antt =====
-- A store of two entries, grown from an empty one, and saves into it.
use gocacheprog.Prelude.{
  ℕ, ◌+◌, ◌<◌, ◌≡◌, ◌≢◌, ◌&&◌, ltb, refl, true, false, none, some, [], ◌∷◌, arith, length,
  string_eq, List,
}
use gocacheprog.Prelude.Int.{pos, ◌+ℤ◌, ltb_ℤ}
use gocacheprog.Prelude.Maps.{lookup, remove, total}
use gocacheprog.Heap.{push, up}
use gocacheprog.RecordPool
use gocacheprog.Gocache.{
  IndexEntry, Store, entry_stored_size, more_evictable, evict_one, evict_if_needed, eviction_target,
}
use gocacheprog.Gocache.Consistent.{IsStore}
use gocacheprog.Gocache.Eviction.{EvictResult, evict_one-EvictResult}
use gocacheprog.Gocache.Budget.{Within, evict_if_needed-Within}
use gocacheprog.Gocache.Save.{
  Codec, FileItem, SaveIo, yields, written, Prepared, save_error, put_commit, put_one, body_for_put,
  entry_of,
}
use gocacheprog.Gocache.Saves.{SameStoredSize, Saved, put_one-Saved}
use gocacheprog.Gocache.Commits.{put_commit-IsStore}
use gocacheprog.Gocache.Races.{
  double_save_overcounts, save_after_eviction_undercounts, truncated_save_loses_entry,
}
use gocacheprog.Gocache.Restore.{RestoreEntry}
use gocacheprog.Gocache.Clear.{serve, ClearStats, clear_objects}
use gocacheprog.Gocache.Requests.{here, next, restore, evict_now, Reach-IsStore}
use gocacheprog.Gocache.Clear.Cleared.{Clears, clear_objects-Clears}

abbrev pub empty : Store
empty = record {
  compress = false;
  max_disk_bytes = 8;
  max_file_bytes = 0;
  manifest_max_age = 0;
  eviction_bucket = 0;
  index = [];
  dirty = false;
  eviction_scheduled = false;
  current_disk_bytes = pos 0;
  pool = RecordPool.new 4 8;
  evict_heap = [];
  objects = [];
  hits = 0;
  puts = 0;
  puts_exist = 0;
  errors = 0;
}

pub empty-IsStore : IsStore empty
empty-IsStore = record {
  distinct = tt;
  counted = refl;
  ordered = λ c pos below. absurd (omega arith);
  covered = λ path ie h. cc h;
}

abbrev entry : ℕ → ℕ → IndexEntry
entry size time = record {
  size = size;
  mode = 0;
  wire_size = 0;
  compressed = 0;
  mod_time_micro = time;
  pool_page = 0;
  pool_slot = 0;
}

abbrev one : Store
one = put_commit empty "a" none (entry 5 1)

one-IsStore : IsStore one
one-IsStore = put_commit-IsStore empty "a" none (entry 5 1) empty-IsStore refl (λ old h. cc h)

abbrev two : Store
two = put_commit one "b" none (entry 6 2)

b_is_new : lookup "b" one.index ≡ none
unfolding put_commit
b_is_new = refl

two-IsStore : IsStore two
two-IsStore = put_commit-IsStore one "b" none (entry 6 2) one-IsStore b_is_new (λ old h. cc h)

two_heap : length two.evict_heap < 3
unfolding put_commit push up more_evictable
two_heap = omega arith

two_limit : 0 < two.max_disk_bytes
unfolding put_commit
two_limit = omega arith

evict_one-EvictResult_example : EvictResult two (evict_one 3 two).0 (evict_one 3 two).1
evict_one-EvictResult_example = evict_one-EvictResult 3 two two_heap two-IsStore

evict_if_needed-Within_example :
    IsStore (evict_if_needed two)
    × Within two.max_disk_bytes (evict_if_needed two)
    × (ltb_ℤ (pos two.max_disk_bytes) two.current_disk_bytes ≡ true
        → Within (eviction_target two.max_disk_bytes) (evict_if_needed two))
evict_if_needed-Within_example = evict_if_needed-Within two two-IsStore two_limit

abbrev codec : Codec
codec = record { encode = λ b. b; decode = λ b. some b }

abbrev io : SaveIo
io = record {
  now = 3;
  pool = record { create = none; write = none };
  pool_disk_full = false;
  write = written;
  chtimes = true;
}

abbrev item : FileItem
item = record {
  path = "c";
  size = 6;
  mode = 0;
  is_compressed = false;
  wire_size = 0;
  body = yields (1 ∷ 2 ∷ 3 ∷ []);
}

new_item-SameStoredSize : SameStoredSize codec empty item
new_item-SameStoredSize old body h k = cc h

put_one-Saved_example :
    Saved empty item (put_one codec io empty item).0 (put_one codec io empty item).1
put_one-Saved_example = put_one-Saved codec io empty item empty-IsStore new_item-SameStoredSize

double_save_overcounts_example :
    (put_commit (put_commit empty "a" none (entry 5 1)) "a" none (entry 6 2)).current_disk_bytes
    ≡ pos (
        total entry_stored_size
          (put_commit (put_commit empty "a" none (entry 5 1)) "a" none (entry 6 2)).index
        + entry_stored_size (entry 5 1))
double_save_overcounts_example =
    double_save_overcounts empty "a" empty-IsStore refl (entry 5 1) (entry 6 2)

save_after_eviction_undercounts_example :
    (put_commit empty "a" (some (entry 5 1)) (entry 6 2)).current_disk_bytes
      +ℤ pos (entry_stored_size (entry 5 1))
    ≡ pos (total entry_stored_size (put_commit empty "a" (some (entry 5 1)) (entry 6 2)).index)
save_after_eviction_undercounts_example =
    save_after_eviction_undercounts empty "a" empty-IsStore refl (entry 5 1) (entry 6 2)

abbrev cut_short : Prepared
cut_short = record { bytes = 1 ∷ 2 ∷ 3 ∷ []; compressed = 0; wire_size = 0 }

abbrev with_file : Store
with_file = record (put_commit empty "c" none (entry 6 2)) {
  objects = ("c", 1 ∷ 2 ∷ 3 ∷ 4 ∷ 5 ∷ 6 ∷ []) ∷ [];
}

with_file_limit : (ltb 0 with_file.max_file_bytes && ltb with_file.max_file_bytes item.size) ≡ false
unfolding put_commit
with_file_limit = refl

with_file_c : lookup "c" with_file.index ≡ some (entry 6 2)
unfolding put_commit
with_file_c = refl

with_file_body : body_for_put codec item with_file.compress ≡ some cut_short
unfolding body_for_put put_commit
with_file_body = refl

abbrev saved_again : IndexEntry
saved_again = entry_of item (lookup "c" with_file.index) io.now cut_short

with_file_large : with_file.pool.max_record_bytes < entry_stored_size saved_again
unfolding put_commit
with_file_large = omega arith

with_file_short : length cut_short.bytes ≢ entry_stored_size saved_again
unfolding put_commit
with_file_short e = absurd (omega arith)

truncated_save_loses_entry_example :
    let r = put_one codec io with_file item in
    let (t, sent) = serve r.1 (record { path = "c"; ie = entry 6 2 } ∷ []) in
    (r.0 ≡ save_error)
    × (lookup "c" r.1.index ≡ some (entry 6 2))
    × (lookup "c" r.1.objects ≡ none)
    × (sent ≡ [])
    × (t.index ≡ remove "c" with_file.index)
truncated_save_loses_entry_example =
    truncated_save_loses_entry codec io with_file item cut_short (entry 6 2) refl with_file_limit
      with_file_c refl with_file_body with_file_large refl with_file_short

abbrev restored : List RestoreEntry
restored = record { path = "a"; ie = entry 5 1 } ∷ []

Reach-IsStore_example : IsStore (evict_if_needed (serve two restored).0)
Reach-IsStore_example = Reach-IsStore two-IsStore (next (next here (restore restored)) evict_now)

abbrev no_stats : ClearStats
no_stats = record { objects_kept = 0; objects_deleted = 0 }

clear_objects-Clears_example :
    let (ok, t, counts) = clear_objects ("b" ∷ []) (λ p. true) two no_stats ("a" ∷ "b" ∷ []) in
    Clears ("b" ∷ []) (λ p. true) ("a" ∷ "b" ∷ []) two no_stats ok t counts
clear_objects-Clears_example =
    clear_objects-Clears ("b" ∷ []) (λ p. true) two no_stats ("a" ∷ "b" ∷ []) two-IsStore
