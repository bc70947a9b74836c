-- ===== src/Local.antt =====
-- internal/local/store.go: the store of the GOCACHEPROG protocol. Actions map to entries of an index,
-- and entries to outputs, which are stored once and counted. Sizes and times (int64) stand for numbers
-- that are not negative; `current_disk_bytes` is an integer.
pub mod Put
pub mod Counted
pub mod Consistent
pub mod Eviction
pub mod Budget
pub mod Puts
pub mod Get
pub mod Serving
pub mod Snapshot
pub mod Warming
pub mod Lasting
pub mod Preloads
pub mod Integrity
pub mod Rebuild
pub mod Requests
pub mod Races
pub mod RoundTrip
pub mod Lines
pub mod Manifests
pub mod Tests
use gocacheprog.Prelude.{
  ℕ, zero, suc, ◌+◌, ◌-◌, ◌/◌, Bool, true, false, not, ◌&&◌, ◌||◌, Option, none, some, List, [],
  ◌∷◌, String, ltb, leb, eqb, if◌then◌else◌, length, string_eq, ◌==◌,
}
use Prim.Native.String
use Prim.Native.Char.{code}
use gocacheprog.Prelude.Int.{ℤ, pos, ◌+ℤ◌, ◌-ℤ◌, ltb_ℤ}
use gocacheprog.Prelude.Maps.{lookup, insert, remove}
use gocacheprog.RecordPool
use gocacheprog.RecordPool.{Loc, is_zero, Pool}

pub record Entry : Type 0 where
  pub output_id : String
  pub size : ℕ
  pub time_micro : ℕ
  pub access_time_micro : ℕ
  pub compressed : ℕ
  pub wire_size : ℕ
  pub pool_page : ℕ
  pub pool_slot : ℕ

-- `files` are the plain files of OutputFilename, `legacy` those of legacyOutputFilename, both by the
-- name that `output_name` gives.
pub record Store : Type 0 where
  pub compress : Bool
  pub max_disk_bytes : ℕ
  pub max_file_bytes : ℕ
  pub manifest_max_age : ℕ
  pub index : List (String × Entry)
  pub output_refs : List (String × ℕ)
  pub output_sizes : List (String × ℕ)
  pub dirty : Bool
  pub current_disk_bytes : ℤ
  pub eviction_scheduled : Bool
  pub pool : Pool
  pub output_locs : List (String × Loc)
  pub pool_disabled : Bool
  pub files : List (String × List ℕ)
  pub legacy : List (String × List ℕ)
  pub hits : ℕ
  pub misses : ℕ
  pub puts : ℕ
  pub puts_exist : ℕ
  pub puts_completed : ℕ
  pub errors : ℕ

abbrev pub entry_stored_size : Entry → ℕ
entry_stored_size ie = if ltb 0 ie.wire_size then ie.wire_size else ie.size

abbrev pub entry_loc : Entry → Loc
entry_loc ie = record { page = ie.pool_page; slot = ie.pool_slot }

-- the name in OutputFilename and legacyOutputFilename, with each "/" replaced by "_"
unfoldable pub output_name : String → String
output_name String.[] = String.[]
output_name (String.◌∷◌ c s) = String.◌∷◌ (if eqb (code c) b'/' then "_" else c) (output_name s)

-- outputPathForRead: a file under its own name, else one of an older version
abbrev pub has_file : Store → String → Bool
has_file s id = elim (lookup (output_name id) s.files) [ none ↦ false | some b ↦ true ]

-- what the path that outputPathForRead gives holds
abbrev pub output_file : Store → String → Option (List ℕ)
output_file s id = elim (lookup (output_name id) s.files) [
  | none ↦ lookup (output_name id) s.legacy
  | some b ↦ some b
]

-- a counter or a size in a Go map, 0 for a key that is not there
abbrev pub get_count : List (String × ℕ) → String → ℕ
get_count m id = elim (lookup id m) [ none ↦ 0 | some n ↦ n ]

-- addOutputRefLocked
unfoldable pub add_output_ref : Store → String → ℕ → Loc → Store
add_output_ref s id size loc =
    let fresh = eqb (get_count s.output_refs id) 0 in
    record s {
      output_refs = insert id (get_count s.output_refs id + 1) s.output_refs;
      output_sizes = if fresh then insert id size s.output_sizes else s.output_sizes;
      current_disk_bytes = if fresh then s.current_disk_bytes +ℤ pos size else s.current_disk_bytes;
      output_locs =
          if fresh && not (is_zero loc) then insert id loc s.output_locs else s.output_locs;
    }

-- releaseOutputRefLocked; an error of os.Remove is not modelled
unfoldable pub release_output_ref : Store → String → Store
release_output_ref s id =
    let n = get_count s.output_refs id in
    let last = leb n 1 in
    let size = get_count s.output_sizes id in
    let loc = lookup id s.output_locs in
    let plain : Bool = elim loc [ none ↦ last | some l ↦ false ] in
    record s {
      output_refs = if last then remove id s.output_refs else insert id (n - 1) s.output_refs;
      output_sizes = if last then remove id s.output_sizes else s.output_sizes;
      current_disk_bytes = if last then s.current_disk_bytes -ℤ pos size else s.current_disk_bytes;
      pool =
          if last
          then (elim loc [ none ↦ s.pool | some l ↦ RecordPool.free s.pool size l ])
          else s.pool;
      output_locs = if last then remove id s.output_locs else s.output_locs;
      files = if plain && has_file s id then remove (output_name id) s.files else s.files;
      legacy = if plain && not (has_file s id) then remove (output_name id) s.legacy else s.legacy;
    }

-- the branch of replaceOutputRefLocked for an output that stays
unfoldable pub resize_output : Store → String → ℕ → Store
resize_output s id size = record s {
  output_sizes = insert id size s.output_sizes;
  current_disk_bytes = s.current_disk_bytes +ℤ (pos size -ℤ pos (get_count s.output_sizes id));
}

-- replaceOutputRefLocked
unfoldable pub replace_output_ref : Store → Entry → Entry → ℕ → Loc → Store
unfolding resize_output release_output_ref add_output_ref
replace_output_ref s old new size loc =
    if old.output_id == new.output_id
    then resize_output s old.output_id size
    else add_output_ref (release_output_ref s old.output_id) new.output_id size loc

-- what evictOneLocked, removeBrokenActionEntry and removeIfUnchanged do with an entry of the index
unfoldable pub drop_entry : Store → String → Entry → Store
unfolding release_output_ref
drop_entry s action ie =
    release_output_ref (record s { index = remove action s.index; dirty = true }) ie.output_id

abbrev pub lru_time_micro : Entry → ℕ
lru_time_micro ie = if not (eqb ie.access_time_micro 0) then ie.access_time_micro else ie.time_micro

-- the loop of evictOneLocked over the index, with the entry found so far
unfoldable pub least_recent : String × Entry → List (String × Entry) → String × Entry
least_recent best [] = best
least_recent best (e ∷ rest) =
    least_recent (if ltb (lru_time_micro e.1) (lru_time_micro best.1) then e else best) rest

-- evictOneLocked, which is EvictOne too
unfoldable pub evict_one : Store → Bool × Store
unfolding least_recent drop_entry
evict_one s = elim s.index [
  | [] ↦ (false, s)
  | e ∷ rest ↦ let (action, ie) = least_recent e rest in (true, drop_entry s action ie)
]

-- `for dc.currentDiskBytes > target && dc.evictOneLocked() {}`
unfoldable pub evict_until : ℕ → ℕ → Store → Store
unfolding evict_one
evict_until zero target s = s
evict_until (suc fuel) target s =
    if ltb_ℤ (pos target) s.current_disk_bytes
    then (let (evicted, s') = evict_one s in
        elim evicted [ true ↦ evict_until fuel target s' | false ↦ s' ])
    else s

abbrev pub eviction_margin_fraction : ℕ
eviction_margin_fraction = 10

abbrev pub eviction_target : ℕ → ℕ
eviction_target max_disk_bytes = max_disk_bytes - max_disk_bytes / eviction_margin_fraction

-- evictIfNeededLocked, which is EvictNow too
unfoldable pub evict_if_needed : Store → Store
unfolding evict_until
evict_if_needed s =
    if eqb s.max_disk_bytes 0 || not (ltb_ℤ (pos s.max_disk_bytes) s.current_disk_bytes)
    then s
    else evict_until (suc (length s.index)) (eviction_target s.max_disk_bytes) s

-- scheduleEvictionLocked; the goroutine that it starts is a later step (`evict_if_needed`)
abbrev pub schedule_eviction : Store → Store
schedule_eviction s = record s {
  eviction_scheduled =
      s.eviction_scheduled
      || not (
          eqb s.manifest_max_age 0
          && (eqb s.max_disk_bytes 0 || not (ltb_ℤ (pos s.max_disk_bytes) s.current_disk_bytes)));
}
