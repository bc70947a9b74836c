-- ===== src/Local/Put.antt =====
-- internal/local/store.go: putOne and what it calls. putOne reads the index and the outputs, stores the
-- body without the lock, and then takes the lock again: the read in `put_one`, `store_put_body` and
-- `put_commit` are these parts, between which other requests can come.
use gocacheprog.Prelude.{
  ℕ, ◌+◌, Bool, true, not, ◌&&◌, Option, none, some, List, [], String, ltb, leb, eqb, if◌then◌else◌,
  length, string_eq, ◌==◌,
}
use gocacheprog.Prelude.Maps.{lookup, insert, remove}
use gocacheprog.RecordPool
use gocacheprog.RecordPool.{Loc, PutResult, stored, declined, failed, panicked}
use gocacheprog.Gocache.Save.{
  Codec, no_reader, failing, yields, WriteOutcome, written, disk_full, write_error,
  min_compression_size, Prepared, plain, packed,
}
use gocacheprog.Wire.Response.{ResponseItem}
use gocacheprog.Local.{
  Entry, Store, output_name, add_output_ref, replace_output_ref, entry_stored_size,
  schedule_eviction,
}

-- How the environment answers a put: the clock, the pool's files, and the write of a plain file.
pub record PutIo : Type 0 where
  pub now : ℕ
  pub pool : RecordPool.Io
  pub write : WriteOutcome

-- WireBodyReader read to its end; a nil reader reads as no bytes
abbrev pub wire_body : ResponseItem → Option (List ℕ)
wire_body item =
    if eqb item.size 0 && eqb item.wire_size 0
    then some []
    else (elim item.body [ no_reader ↦ none | failing ↦ none | yields b ↦ some b ])

-- UncompressedBodyReader read to its end
abbrev pub uncompressed_body : Codec → ResponseItem → Option (List ℕ)
uncompressed_body z item =
    if eqb item.size 0 && eqb item.wire_size 0 then some [] else (elim item.body [
      | no_reader ↦ none
      | failing ↦ none
      | yields b ↦ if item.is_compressed then z.decode b else some b
    ])

-- compressNowBodyReader and CompressedBodyReader, for an item that is not compressed and not empty
unfoldable pub compress_now : Codec → ResponseItem → Option Prepared
compress_now z item = elim item.body [
  | no_reader ↦ none
  | failing ↦ none
  | yields b ↦
      let encoded = z.encode b in
      some (record { bytes = encoded; compressed = 1; wire_size = length encoded })
]

-- bodyReaderForPut
unfoldable pub body_for_put : Codec → ResponseItem → Bool → Option Prepared
unfolding compress_now
body_for_put z item compress =
    if item.is_compressed
    then (if not compress
        then plain (uncompressed_body z item)
        else packed item.wire_size (wire_body item))
    else if compress && leb min_compression_size item.size
    then compress_now z item
    else plain (uncompressed_body z item)

abbrev pub entry_of : ResponseItem → ℕ → Prepared → Entry
entry_of item now body = record {
  output_id = item.output_id;
  size = item.size;
  time_micro = now;
  access_time_micro = now;
  compressed = body.compressed;
  wire_size = body.wire_size;
  pool_page = 0;
  pool_slot = 0;
}

abbrev pub no_loc : Loc
no_loc = record { page = 0; slot = 0 }

-- writeAtomic to OutputFilename
abbrev pub write_file : Store → String → List ℕ → Store
write_file s id body = record s { files = insert (output_name id) body s.files }

-- writeAtomic and the check of the length that was written
unfoldable pub store_plain : PutIo → Store → String → List ℕ → ℕ → Option Loc × Store
store_plain io s id body size = elim io.write [
  | disk_full ↦ (none, s)
  | write_error ↦ (none, s)
  | written ↦
      if not (eqb (length body) size)
      then (none, record s { files = remove (output_name id) s.files })
      else (some no_loc, write_file s id body)
]

-- storePoolEligibleBody once the pool has answered
unfoldable pub store_pooled : PutIo → Store → String → List ℕ → PutResult → Option Loc × Store
store_pooled io s id body (stored loc) = (some loc, s)
store_pooled io s id body declined = elim io.write [
  | disk_full ↦ (none, s)
  | write_error ↦ (none, s)
  | written ↦ (some no_loc, write_file s id body)
]
store_pooled io s id body (failed e) = (none, s)
store_pooled io s id body panicked = (none, s)

-- storePoolEligibleBody
unfoldable pub store_pool_eligible : PutIo → Store → String → List ℕ → ℕ → Option Loc × Store
unfolding store_pooled
store_pool_eligible io s id body size =
    if not (eqb (length body) size)
    then (none, s)
    else (let (answer, pool) = RecordPool.put io.pool s.pool size body in
        store_pooled io (record s { pool = pool }) id body answer)

-- storePutBody; none is an error. `existing` is the location of an output that is there, if it is.
unfoldable pub store_put_body :
    PutIo → Store → String → List ℕ → ℕ → Option Loc → Option Loc × Store
unfolding store_plain store_pool_eligible
store_put_body io s id body size (some loc) = (some loc, s)
store_put_body io s id body size none =
    if not s.pool_disabled && ltb 0 size && leb size s.pool.max_record_bytes
    then store_pool_eligible io s id body size
    else store_plain io s id body size

abbrev pub at_loc : Entry → Loc → Entry
at_loc ie loc = record ie { pool_page = loc.page; pool_slot = loc.slot }

-- the count of an output for a new or a replaced entry
unfoldable pub count_output : Store → Option Entry → Entry → ℕ → Loc → Store
unfolding replace_output_ref add_output_ref
count_output s none ie size loc = add_output_ref s ie.output_id size loc
count_output s (some old) ie size loc = replace_output_ref s old ie size loc

-- the last part of putOne, under the lock; `existing` is what the index held when putOne began
unfoldable pub put_commit : Store → String → Option Entry → Entry → Loc → Store
unfolding count_output
put_commit s action existing ie loc =
    let s' = count_output s existing ie (entry_stored_size ie) loc in
    schedule_eviction (record s' {
      index = insert action (at_loc ie loc) s'.index;
      dirty = true;
      puts_completed = s'.puts_completed + 1;
    })

abbrev pub failed_put : Store → Store
failed_put s = record s { errors = s.errors + 1 }

abbrev pub counted_put : Store → Option Entry → Store
counted_put s none = record s { puts = s.puts + 1 }
counted_put s (some old) = record s { puts = s.puts + 1; puts_exist = s.puts_exist + 1 }

pub data PutOutcome : Type 0 where
  completed skipped empty_output put_error : PutOutcome

abbrev pub put_stored : String → Option Entry → Entry → Option Loc × Store → PutOutcome × Store
put_stored action existing ie (none, s) = (put_error, failed_put s)
put_stored action existing ie (some loc, s) = (completed, put_commit s action existing ie loc)

-- where an output is stored, none if it is not; `Loc{}` for a plain file
abbrev pub stored_loc : Store → String → Option Loc
stored_loc s id = elim (lookup id s.output_refs) [
  | none ↦ none
  | some n ↦ elim (lookup id s.output_locs) [ none ↦ some no_loc | some loc ↦ some loc ]
]

-- the middle of putOne, from what it read to the body's place
unfoldable pub put_body :
    PutIo → Store → ResponseItem → Option Entry → Option Loc → Option Prepared → PutOutcome × Store
unfolding store_put_body put_commit
put_body io s item existing there none = (put_error, failed_put s)
put_body io s item existing there (some body) =
    let ie = entry_of item io.now body in
    put_stored item.action_id existing ie
      (store_put_body io s item.output_id body.bytes (entry_stored_size ie) there)

-- putOne with no other request between its parts
unfoldable pub put_one : Codec → PutIo → Store → ResponseItem → PutOutcome × Store
unfolding body_for_put put_body
put_one z io s item =
    if ltb 0 s.max_file_bytes && ltb s.max_file_bytes item.size
    then (skipped, s)
    else if item.output_id == ""
    then (empty_output, failed_put s)
    else (let existing = lookup item.action_id s.index in
        put_body io (counted_put s existing) item existing (stored_loc s item.output_id)
          (body_for_put z item s.compress))
