-- ===== src/Local/Get.antt =====
-- internal/local/store.go: Get and Preload. An item's body is what its reader gives when it is read
-- before another request comes; its disk path is the file's name, as `output_name` gives it.
use gocacheprog.Prelude.{
  ℕ, ◌+◌, Bool, true, false, not, ◌&&◌, ◌||◌, none, some, List, [], ◌∷◌, String, ltb, eqb,
  if◌then◌else◌, length, string_eq, map,
}
use gocacheprog.Prelude.Maps.{lookup, insert}
use gocacheprog.RecordPool
use gocacheprog.RecordPool.{found, read_error}
use gocacheprog.Gocache.Save.{Body, failing, yields}
use gocacheprog.Wire.Response.{ResponseItem}
use gocacheprog.Local.{
  Entry, Store, output_name, output_file, entry_stored_size, entry_loc, drop_entry,
}

-- poolBodyReader
abbrev pub pool_body : Store → Entry → Body
pool_body s ie = elim (RecordPool.read s.pool (entry_stored_size ie) (entry_loc ie)) [
  | found b ↦ yields b
  | read_error e ↦ failing
]

abbrev pub file_body : Store → Entry → Body
file_body s ie = elim (output_file s ie.output_id) [ none ↦ failing | some b ↦ yields b ]

-- responseItem
unfoldable pub response_item : Store → String → Entry → ResponseItem
response_item s action ie =
    let plain = eqb ie.pool_page 0 in
    record {
      action_id = action;
      miss = false;
      output_id = ie.output_id;
      size = ie.size;
      time = some ie.time_micro;
      is_compressed = eqb ie.compressed 1;
      wire_size = ie.wire_size;
      disk_path = if plain then output_name ie.output_id else "";
      body = if plain then file_body s ie else pool_body s ie;
    }

abbrev pub miss_item : String → ResponseItem
miss_item action = record {
  action_id = action;
  miss = true;
  output_id = "";
  size = 0;
  time = none;
  is_compressed = false;
  wire_size = 0;
  disk_path = "";
  body = failing;
}

abbrev pub missed : Store → Store
missed s = record s { misses = s.misses + 1 }

abbrev pub accessed : ℕ → Entry → Entry
accessed now ie = record ie { access_time_micro = now }

-- the rest of getOne for an entry that is there
abbrev pub get_listed : ℕ → Store → String → Entry → ResponseItem × Store
get_listed now s action ie =
    if ltb 0 s.max_file_bytes && ltb s.max_file_bytes ie.size
    then (miss_item action, missed s)
    else (let t = record s {
      hits = s.hits + 1;
      index = insert action (accessed now ie) s.index;
      dirty = true;
    } in
        (response_item t action (accessed now ie), t))

-- getOne
unfoldable pub get_one : ℕ → Store → String → ResponseItem × Store
unfolding response_item
get_one now s action = elim (lookup action s.index) [
  | none ↦ (miss_item action, missed s)
  | some ie ↦ get_listed now s action ie
]

-- removeBrokenActionEntry
unfoldable pub remove_broken : Store → String → Entry → Store
unfolding drop_entry
remove_broken s action ie = elim (lookup action s.index) [
  | none ↦ s
  | some current ↦ drop_entry s action ie
]

-- the test of Preload for a plain file: not there under its own name, or of another size
abbrev pub is_broken : Store → Entry → Bool
is_broken s ie = elim (lookup (output_name ie.output_id) s.files) [
  | none ↦ true
  | some b ↦ not (eqb (length b) (entry_stored_size ie))
]

-- what Preload leaves out without a look at the file; `filter` is the set of preloadFilterActionIDs
abbrev pub left_out : (String → Bool) → ℕ → String → Entry → Bool
left_out filter max_size action ie =
    not (filter action) || ltb max_size (if eqb ie.wire_size 0 then ie.size else ie.wire_size)

-- the loop of Preload over the snapshot of the index; the entries of the items that it collects are
-- the result
unfoldable pub preload_loop :
    (String → Bool) → ℕ → Store → List (String × Entry) → List (String × Entry) × Store
unfolding remove_broken
preload_loop filter max_size s [] = ([], s)
preload_loop filter max_size s ((action, ie) ∷ rest) =
    let broken = eqb ie.pool_page 0 && is_broken s ie in
    let without = preload_loop filter max_size s rest in
    let removed = preload_loop filter max_size (remove_broken s action ie) rest in
    if left_out filter max_size action ie
    then without
    else if broken
    then removed
    else ((action, ie) ∷ without.0, without.1)

-- an item that the loop collected, as the callback reads it after the loop: its path is that of the
-- file that the loop found under its own name, whatever has become of the file since
unfoldable pub preload_item : Store → String × Entry → ResponseItem
unfolding response_item
preload_item t (action, ie) = record (response_item t action ie) {
  body =
      if eqb ie.pool_page 0
      then (elim (lookup (output_name ie.output_id) t.files) [ none ↦ failing | some b ↦ yields b ])
      else pool_body t ie;
}

-- the limit of Preload, with its default
abbrev pub max_preload_size : ℕ → ℕ
max_preload_size max_size = if eqb max_size 0 then 600000 else max_size

-- Preload with no other request during it; the order of the snapshot is that of the index
unfoldable pub preload : (String → Bool) → ℕ → Store → List ResponseItem × Store
unfolding preload_loop preload_item
preload filter max_size s =
    let (chosen, t) = preload_loop filter (max_preload_size max_size) s s.index in
    (map (preload_item t) chosen, t)
