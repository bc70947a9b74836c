-- ===== src/Gocache/Save.antt =====
-- internal/gocache/store.go: putOne and what it calls. putOne reads the index, stores the body without
-- the lock, and then takes the lock again: the read in `put_one`, `store_put_body` and `put_commit` are
-- these parts, between which other requests can come.
use gocacheprog.Prelude.{
  ℕ, ◌+◌, Bool, true, not, ◌&&◌, ◌||◌, Option, none, some, List, [], String, ltb, leb, eqb,
  if◌then◌else◌, length, string_eq, ◌==◌,
}
use gocacheprog.Prelude.Int.{pos, ◌+ℤ◌, ◌-ℤ◌, ltb_ℤ}
use gocacheprog.Prelude.Maps.{lookup, insert, remove}
use gocacheprog.RecordPool
use gocacheprog.RecordPool.{Loc, PutResult, stored, declined, failed, panicked}
use gocacheprog.Gocache.{
  IndexEntry, Store, entry_stored_size, entry_loc, heap_entry, heap_push, evict_on_disk_full,
}

-- The compressor, klauspost/compress/zstd.
pub record Codec : Type 0 where
  pub encode : List ℕ → List ℕ
  pub decode : List ℕ → Option (List ℕ)

-- What an item's body reader gives: there is none, it fails, or it yields these bytes and ends.
pub data Body : Type 0 where
  no_reader failing : Body
  yields : List ℕ → Body

pub record FileItem : Type 0 where
  pub path : String
  pub size : ℕ
  pub mode : ℕ
  pub is_compressed : Bool
  pub wire_size : ℕ
  pub body : Body

-- How the environment answers a save: the clock, the pool's files, the write of a plain file, and the
-- setting of its time.
pub data WriteOutcome : Type 0 where
  written disk_full write_error : WriteOutcome

pub record SaveIo : Type 0 where
  pub now : ℕ
  pub pool : RecordPool.Io
  pub pool_disk_full : Bool
  pub write : WriteOutcome
  pub chtimes : Bool

-- WireBodyReader read to its end; a nil reader reads as no bytes
abbrev pub wire_body : FileItem → Option (List ℕ)
wire_body item =
    if eqb item.size 0 && eqb item.wire_size 0
    then some []
    else (elim item.body [ no_reader ↦ none | failing ↦ none | yields b ↦ some b ])

-- UncompressedBodyReader read to its end
abbrev pub uncompressed_body : Codec → FileItem → Option (List ℕ)
uncompressed_body z item =
    if eqb item.size 0 && eqb item.wire_size 0 then some [] else (elim item.body [
      | no_reader ↦ none
      | failing ↦ none
      | yields b ↦ if item.is_compressed then z.decode b else some b
    ])

abbrev pub min_compression_size : ℕ
min_compression_size = 200

-- The body to store, with the sizes that the index gets; none is an error of the reader.
pub record Prepared : Type 0 where
  pub bytes : List ℕ
  pub compressed : ℕ
  pub wire_size : ℕ

-- compressNowBodyReader, for an item that is not compressed and not empty
unfoldable pub compress_now : Codec → FileItem → Option Prepared
compress_now z item = elim item.body [
  | no_reader ↦ none
  | failing ↦ none
  | yields b ↦
      let packed = z.encode b in
      some (record { bytes = packed; compressed = 1; wire_size = length packed })
]

abbrev pub plain : Option (List ℕ) → Option Prepared
plain none = none
plain (some b) = some (record { bytes = b; compressed = 0; wire_size = 0 })

abbrev pub packed : ℕ → Option (List ℕ) → Option Prepared
packed wire_size none = none
packed wire_size (some b) = some (record { bytes = b; compressed = 1; wire_size = wire_size })

-- bodyReaderForPut
unfoldable pub body_for_put : Codec → FileItem → Bool → Option Prepared
unfolding compress_now
body_for_put z item compress =
    if item.is_compressed && compress
    then packed item.wire_size (wire_body item)
    else if item.is_compressed && not compress
    then plain (uncompressed_body z item)
    else if not item.is_compressed && compress && leb min_compression_size item.size
    then compress_now z item
    else plain (uncompressed_body z item)

abbrev pub entry_of : FileItem → Option IndexEntry → ℕ → Prepared → IndexEntry
entry_of item existing now body = record {
  size = item.size;
  mode = item.mode;
  wire_size = body.wire_size;
  compressed = body.compressed;
  mod_time_micro = elim existing [ some old ↦ old.mod_time_micro | none ↦ now ];
  pool_page = 0;
  pool_slot = 0;
}

abbrev pub at_loc : IndexEntry → Loc → IndexEntry
at_loc ie loc = record ie { pool_page = loc.page; pool_slot = loc.slot }

-- writeAtomic, the check of the length that was written, and Chtimes. A body that is shorter or longer
-- than announced has replaced the file before the check removes it.
unfoldable pub store_plain :
    SaveIo → Store → String → IndexEntry → List ℕ → Option IndexEntry × Store
store_plain io s path ie body = elim io.write [
  | disk_full ↦ (none, evict_on_disk_full s)
  | write_error ↦ (none, s)
  | written ↦
      if not (eqb (length body) (entry_stored_size ie))
      then (none, record s { objects = remove path (insert path body s.objects) })
      else if io.chtimes
      then (some ie, record s { objects = insert path body s.objects })
      else (none, record s { objects = insert path body s.objects })
]

-- storePutBody once the pool has answered
unfoldable pub store_pooled :
    SaveIo → Store → String → IndexEntry → List ℕ → PutResult → Option IndexEntry × Store
unfolding store_plain
store_pooled io s path ie body (stored loc) = (some (at_loc ie loc), s)
store_pooled io s path ie body declined = store_plain io s path ie body
store_pooled io s path ie body (failed e) =
    (none, if io.pool_disk_full then evict_on_disk_full s else s)
store_pooled io s path ie body panicked = (none, s)

-- storePutBody; none is an error
unfoldable pub store_put_body :
    SaveIo → Store → String → IndexEntry → List ℕ → Option IndexEntry × Store
unfolding store_pooled
store_put_body io s path ie body =
    let record_size = entry_stored_size ie in
    if ltb 0 record_size && leb record_size s.pool.max_record_bytes
    then (if not (eqb (length body) record_size)
        then (none, s)
        else (let (answer, pool) = RecordPool.put io.pool s.pool record_size body in
            store_pooled io (record s { pool = pool }) path ie body answer))
    else store_plain io s path ie body

-- releaseSupersededLocked
unfoldable pub release_superseded : Store → String → IndexEntry → IndexEntry → Store
release_superseded s path existing ie = record s {
  pool =
      if eqb existing.pool_page 0
      then s.pool
      else RecordPool.free s.pool (entry_stored_size existing) (entry_loc existing);
  objects =
      if eqb existing.pool_page 0 && not (eqb ie.pool_page 0)
      then remove path s.objects
      else s.objects;
}

-- scheduleEvictionLocked; the goroutine that it starts is a later step (`evict_if_needed`)
abbrev pub schedule_eviction : Store → Store
schedule_eviction s = record s {
  eviction_scheduled =
      s.eviction_scheduled
      || not (
          eqb s.manifest_max_age 0
          && (eqb s.max_disk_bytes 0 || not (ltb_ℤ (pos s.max_disk_bytes) s.current_disk_bytes)));
}

-- the last part of putOne, under the lock; `existing` is what the index held when putOne began
unfoldable pub put_commit : Store → String → Option IndexEntry → IndexEntry → Store
unfolding release_superseded
put_commit s path none ie = schedule_eviction (record s {
  current_disk_bytes = s.current_disk_bytes +ℤ pos (entry_stored_size ie);
  index = insert path ie s.index;
  evict_heap = heap_push s.eviction_bucket s.evict_heap (heap_entry path ie);
  dirty = true;
})
put_commit s path (some existing) ie =
    let s' = release_superseded s path existing ie in
    schedule_eviction (record s' {
      current_disk_bytes =
          s.current_disk_bytes -ℤ pos (entry_stored_size existing) +ℤ pos (entry_stored_size ie);
      index = insert path ie s.index;
      dirty = true;
    })

abbrev pub counted_put : Store → Option IndexEntry → Store
counted_put s none = record s { puts = s.puts + 1 }
counted_put s (some old) = record s { puts = s.puts + 1; puts_exist = s.puts_exist + 1 }

abbrev pub failed_put : Store → Store
failed_put s = record s { errors = s.errors + 1 }

pub data SaveResult : Type 0 where
  saved skipped empty_path save_error : SaveResult

abbrev pub put_stored : String → Option IndexEntry → Option IndexEntry × Store → SaveResult × Store
put_stored path existing (none, s) = (save_error, failed_put s)
put_stored path existing (some ie, s) = (saved, put_commit s path existing ie)

-- the middle of putOne, from what it read in the index to the body's place
unfoldable pub put_body :
    Codec → SaveIo → Store → FileItem → Option IndexEntry → Option Prepared → SaveResult × Store
unfolding store_put_body put_commit
put_body z io s item existing none = (save_error, failed_put s)
put_body z io s item existing (some body) =
    put_stored item.path existing
      (store_put_body io s item.path (entry_of item existing io.now body) body.bytes)

-- putOne with no other request between its parts
unfoldable pub put_one : Codec → SaveIo → Store → FileItem → SaveResult × Store
put_one z io s item =
    if item.path == ""
    then (empty_path, s)
    else if ltb 0 s.max_file_bytes && ltb s.max_file_bytes item.size
    then (skipped, s)
    else (let existing = lookup item.path s.index in
        put_body z io (counted_put s existing) item existing (body_for_put z item s.compress))
