-- ===== src/Local/Manifests.antt =====
-- internal/local/store.go: the manifests of action IDs that builds used, and the filter that Preload
-- takes from them. A manifest file is its text, or is broken: it cannot be opened or read. What
-- strings.TrimSpace, regexp, net/url and path/filepath do is a parameter (`Keys`).
pub mod Reading
pub mod Merging
pub mod Aging
mod Tests
use gocacheprog.Prelude.{
  ℕ, ◌≡◌, Bool, true, false, not, ◌&&◌, ◌||◌, Option, none, some, List, [], ◌∷◌, ◌++◌, String, ltb,
  if◌then◌else◌, string_eq, ◌==◌,
}
use Prim.Native.String
use gocacheprog.Prelude.Maps.{lookup, insert}
use gocacheprog.Gocache.Manifest.{mem, take_lines}
use gocacheprog.Local.Lines.{concat, scan_lines, manifest_body}

pub record Keys : Type 0 where
  pub trim_space : String → String
  pub byte_length : String → ℕ
  pub valid_scoped_key_name : String → Bool
  pub query_escape : String → String
  pub join : List String → String

abbrev pub max_manifest_key_len : ℕ
max_manifest_key_len = 100

-- `prefix[:2]`, or all of a shorter one; the names are ASCII
abbrev pub prefix_of : String → String
prefix_of String.[] = String.[]
prefix_of (String.◌∷◌ c String.[]) = String.◌∷◌ c String.[]
prefix_of (String.◌∷◌ c (String.◌∷◌ d s)) = String.◌∷◌ c (String.◌∷◌ d String.[])

-- manifestScopeDir; none is an error
unfoldable pub manifest_scope_dir : Keys → String → Option String
unfolding concat
manifest_scope_dir k build_type =
    let name = k.trim_space build_type in
    if name == ""
    then some "default"
    else if ltb max_manifest_key_len (k.byte_length name)
    then none
    else if not (k.valid_scoped_key_name name)
    then none
    else some (concat "buildtype-" name)

abbrev pub under_scope : Keys → Option String → (String → List String) → Option String
under_scope k none rest = none
under_scope k (some scope) rest = some (k.join ("manifests" ∷ rest scope))

-- commitManifestPath, under the store's directory
unfoldable pub commit_manifest_path : Keys → String → String → Option String
unfolding manifest_scope_dir
commit_manifest_path k commit build_type =
    let name = k.trim_space commit in
    if ltb max_manifest_key_len (k.byte_length name)
    then none
    else if not (k.valid_scoped_key_name name)
    then none
    else under_scope k (manifest_scope_dir k build_type)
        (λ scope. scope ∷ prefix_of name ∷ name ∷ [])

-- changesManifestPath, under the store's directory
unfoldable pub changes_manifest_path : Keys → String → String → Option String
unfolding manifest_scope_dir
changes_manifest_path k changes_id build_type =
    let name = k.trim_space changes_id in
    let escaped = k.query_escape name in
    if name == ""
    then none
    else if ltb max_manifest_key_len (k.byte_length name)
    then none
    else under_scope k (manifest_scope_dir k build_type)
        (λ scope. scope ∷ "changes" ∷ prefix_of escaped ∷ escaped ∷ [])

pub data TextFile : Type 0 where
  text : String → TextFile
  broken : TextFile

abbrev pub Files : Type 0
Files = List (String × TextFile)

-- the test that loadManifest and mergeManifest make of a line
abbrev pub trimmed_line : Keys → String → Option String
trimmed_line k raw = if k.trim_space raw == "" then none else some (k.trim_space raw)

-- what loadManifest takes of the scanned lines
unfoldable pub load_lines : Keys → List String → List String
load_lines k [] = []
load_lines k (raw ∷ rest) =
    let ids = load_lines k rest in elim (trimmed_line k raw) [ none ↦ ids | some id ↦ id ∷ ids ]

pub data Loaded : Type 0 where
  missing unreadable : Loaded
  ids_of : List String → Loaded

abbrev pub scanned : Keys → Option (List String) → Loaded
scanned k none = unreadable
scanned k (some lines) = ids_of (load_lines k lines)

-- loadManifest
unfoldable pub read_manifest : Keys → Files → String → Loaded
unfolding load_lines scan_lines
read_manifest k files path = elim (lookup path files) [
  | none ↦ missing
  | some broken ↦ unreadable
  | some (text body) ↦ scanned k (scan_lines k.byte_length body)
]

-- writeManifest; false is an error
abbrev pub write_manifest : (String → Bool) → String → String → Files → Bool × Files
write_manifest writes path body files =
    if writes path then (true, insert path (text body) files) else (false, files)

abbrev pub merged_ids : Keys → List String → List String → List String
merged_ids k existing ids = (take_lines (trimmed_line k) [] (existing ++ ids)).0

-- mergeManifest
unfoldable pub merge_ids : Keys → (String → Bool) → String → List String → Files → Bool × Files
unfolding read_manifest take_lines manifest_body
merge_ids k writes path ids files = elim (read_manifest k files path) [
  | missing ↦ write_manifest writes path (manifest_body (merged_ids k [] ids)) files
  | unreadable ↦ (false, files)
  | ids_of existing ↦ write_manifest writes path (manifest_body (merged_ids k existing ids)) files
]

abbrev pub merge_at : Keys → (String → Bool) → Option String → List String → Files → Bool × Files
merge_at k writes none ids files = (false, files)
merge_at k writes (some path) ids files = merge_ids k writes path ids files

abbrev pub replace_at : (String → Bool) → Option String → List String → Files → Bool × Files
replace_at writes none ids files = (false, files)
replace_at writes (some path) ids files = write_manifest writes path (manifest_body ids) files

-- PostCacheUsed
unfoldable pub post_cache_used :
    Keys → (String → Bool) → String → String → String → List String → Bool → Files → Bool × Files
unfolding merge_ids commit_manifest_path changes_manifest_path manifest_body
post_cache_used k writes commit changes_id build_type ids replace_changes files =
    let (ok, files') =
      if commit == ""
      then (true, files)
      else merge_at k writes (commit_manifest_path k commit build_type) ids files in
    if not ok
    then (false, files')
    else if changes_id == ""
    then (true, files')
    else if replace_changes
    then replace_at writes (changes_manifest_path k changes_id build_type) ids files'
    else merge_at k writes (changes_manifest_path k changes_id build_type) ids files'

pub record PreloadRequest : Type 0 where
  pub commit : String
  pub parent_commit : String
  pub changes_id : String
  pub base_commit : String
  pub build_type : String

-- loadCommitManifest and loadChangesManifest, with the path of the one or the other
abbrev pub load_at : Keys → Files → String → Option String → Loaded
load_at k files name path =
    if k.trim_space name == ""
    then missing
    else (elim path [ none ↦ unreadable | some p ↦ read_manifest k files p ])

-- the loop over the candidates; none is an error
unfoldable pub gather_ids : List (String × Loaded) → Option (List String × List String)
gather_ids [] = some ([], [])
gather_ids ((name, found) ∷ rest) =
    let more = gather_ids rest in
    elim found [
      | missing ↦ more
      | unreadable ↦ none
      | ids_of ids ↦ elim more [
        | none ↦ none
        | some (all, sources) ↦ some (ids ++ all, name ∷ sources)
      ]
    ]

-- the end of preloadFilterActionIDs; `newest` is what loadNewestManifest gives
abbrev pub or_newest :
    Loaded → Option (List String × List String) → Option (List String × List String)
or_newest newest none = none
or_newest newest (some (all, s ∷ sources)) = some (all, s ∷ sources)
or_newest newest (some (all, [])) = elim newest [
  | missing ↦ none
  | unreadable ↦ none
  | ids_of [] ↦ some ([], "none" ∷ [])
  | ids_of (id ∷ ids) ↦ some (id ∷ ids, "newest" ∷ [])
]

-- preloadFilterActionIDs for a request that names a commit or changes
unfoldable pub preload_filter_action_ids :
    Keys → Files → Loaded → PreloadRequest → Option (List String × List String)
unfolding gather_ids commit_manifest_path changes_manifest_path read_manifest
preload_filter_action_ids k files newest r =
    let at_commit =
      λ (commit : String). load_at k files commit (commit_manifest_path k commit r.build_type) in
    or_newest newest (
      gather_ids (
        ("commit", at_commit r.commit)
        ∷ ("parent", at_commit r.parent_commit)
        ∷ (
          "changes",
          load_at k files r.changes_id (changes_manifest_path k r.changes_id r.build_type),
        )
        ∷ ("base", at_commit r.base_commit)
        ∷ []))
