-- ===== src/Local/Rebuild.antt =====
-- internal/local/store.go: rebuildStorageState, which counts the outputs of a loaded index. An error of
-- os.Stat other than a missing file is not modelled.
pub mod Counting
use gocacheprog.Prelude.{
  ℕ, ◌+◌, ◌≡◌, ◌∙◌, refl, inl, inr, true, false, not, Bool-cases, Option, none, some, List, [], ◌∷◌,
  String, arith, eqb, if◌then◌else◌, length, string_eq, ◌==◌, ==_iff, ==_refl,
}
use gocacheprog.Prelude.Int.{pos, ◌+ℤ◌}
use gocacheprog.Prelude.Maps.{lookup, insert, remove, Distinct, lookup-remove, remove-Distinct}
use gocacheprog.RecordPool.{is_zero, Pool}
use gocacheprog.RecordPool.Reconcile.{
  DirEntry, discover_pages, valid, note_occupied, note_unpromoted, finish_reconcile,
}
use gocacheprog.Gocache.Manifest.{mem}
use gocacheprog.Local.{
  Entry, Store, output_file, get_count, entry_stored_size, entry_loc, add_output_ref,
}
use gocacheprog.Local.Counted.{uses, same, Counts, add_output_ref-Counts, get_count-insert}
use gocacheprog.Local.Consistent.{IsCounted, Counts-same, uses-remove}
use gocacheprog.Local.Snapshot.{Holds}

-- outputFileSize
abbrev pub output_file_size : Store → Entry → ℕ
output_file_size s ie = elim (output_file s ie.output_id) [
  | none ↦ entry_stored_size ie
  | some b ↦ length b
]

-- an entry whose output is met for the first time
unfoldable pub count_first : Store → Entry → Store
count_first s ie =
    let size = if is_zero (entry_loc ie) then output_file_size s ie else entry_stored_size ie in
    record s {
      pool =
          if is_zero (entry_loc ie)
          then note_unpromoted s.pool (entry_stored_size ie)
          else note_occupied s.pool (entry_stored_size ie) (entry_loc ie);
      output_locs =
          if is_zero (entry_loc ie)
          then s.output_locs
          else insert ie.output_id (entry_loc ie) s.output_locs;
      output_sizes = insert ie.output_id size s.output_sizes;
      current_disk_bytes = s.current_disk_bytes +ℤ pos size;
    }

abbrev pub count_ref : Store → String → Store
count_ref s id = record s { output_refs = insert id (get_count s.output_refs id + 1) s.output_refs }

-- the loop over the index; `seen` are the outputs met so far
unfoldable pub rebuild_loop : List String → Store → List (String × Entry) → Store
unfolding count_first
rebuild_loop seen s [] = s
rebuild_loop seen s ((action, ie) ∷ rest) =
    let dropped =
      rebuild_loop seen (record s { index = remove action s.index; dirty = true }) rest in
    let again = rebuild_loop seen (count_ref s ie.output_id) rest in
    let first =
      rebuild_loop (ie.output_id ∷ seen) (count_first (count_ref s ie.output_id) ie) rest in
    if not (valid s.pool (entry_stored_size ie) (entry_loc ie))
    then dropped
    else if mem ie.output_id seen
    then again
    else first

-- rebuildStorageState, by what the pool's directory holds; none is an error
unfoldable pub rebuild_storage_state : List DirEntry → Store → Option Store
unfolding rebuild_loop
rebuild_storage_state dir s = elim (discover_pages s.pool dir) [
  | none ↦ none
  | some pool ↦
      let t = rebuild_loop [] (record s { pool = pool }) s.index in
      some (record t { pool = finish_reconcile t.pool })
]
