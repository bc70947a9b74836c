-- ===== src/Gocache/Restore.antt =====
-- internal/gocache/store.go: Restore, the manifests that a request is answered from and the choice of
-- entries within the request's limits. `files` are the manifests on disk.
pub mod Budgeted
pub mod Sources
mod Tests
use gocacheprog.Prelude.{
  ℕ, ◌+◌, ◌*◌, Bool, true, false, not, ◌&&◌, ◌||◌, Option, none, some, List, [], ◌∷◌, ◌++◌, String,
  ltb, leb, eqb, if◌then◌else◌, length, take, string_eq, ◌==◌,
}
use gocacheprog.Prelude.Maps.{lookup, insert}
use gocacheprog.Gocache.{IndexEntry, entry_stored_size}
use gocacheprog.Gocache.Manifest.{Paths, ManifestFile, lines, broken, mem, load_manifest}

-- restoreEntry
pub record RestoreEntry : Type 0 where
  pub path : String
  pub ie : IndexEntry

-- the limits of a request and of the store; 0 is none
pub record Limits : Type 0 where
  pub request_max_file_bytes : ℕ
  pub store_max_file_bytes : ℕ
  pub max_preload_total_bytes : ℕ

-- the loop over the index in Restore
unfoldable pub restore_entries : List (String × IndexEntry) → List String → List RestoreEntry
restore_entries index [] = []
restore_entries index (p ∷ rest) = elim (lookup p index) [
  | none ↦ restore_entries index rest
  | some ie ↦ record { path = p; ie = ie } ∷ restore_entries index rest
]

abbrev pub small_enough : Limits → RestoreEntry → Bool
small_enough l e =
    not (ltb 0 l.request_max_file_bytes && ltb l.request_max_file_bytes e.ie.size)
    && not (ltb 0 l.store_max_file_bytes && ltb l.store_max_file_bytes e.ie.size)

unfoldable pub keep_small : Limits → List RestoreEntry → List RestoreEntry
keep_small l [] = []
keep_small l (e ∷ rest) =
    let kept = keep_small l rest in if small_enough l e then e ∷ kept else kept

-- the order of the sort: the newest first, then the smallest, then by path; `path_less` is `<` on
-- strings
unfoldable pub restored_before : (String → String → Bool) → RestoreEntry → RestoreEntry → Bool
restored_before path_less a b =
    if not (eqb a.ie.mod_time_micro b.ie.mod_time_micro)
    then ltb b.ie.mod_time_micro a.ie.mod_time_micro
    else if not (eqb a.ie.size b.ie.size)
    then ltb a.ie.size b.ie.size
    else path_less a.path b.path

-- sort.SliceStable by a test
module _ {A : Type 0} (before : A → A → Bool) where
  unfoldable pub insert_sorted : A → List A → List A
  insert_sorted a [] = a ∷ []
  insert_sorted a (b ∷ rest) =
      let later = insert_sorted a rest in if before b a then b ∷ later else a ∷ b ∷ rest

  unfoldable pub sort_stable : List A → List A
  unfolding insert_sorted
  sort_stable [] = []
  sort_stable (a ∷ rest) = insert_sorted a (sort_stable rest)

-- the loop that adds up stored sizes while they fit
unfoldable pub within_budget : ℕ → ℕ → List RestoreEntry → List RestoreEntry
within_budget budget used [] = []
within_budget budget used (e ∷ rest) =
    let more = within_budget budget (used + entry_stored_size e.ie) rest in
    if ltb budget (used + entry_stored_size e.ie) then [] else e ∷ more

-- what fewer than two entries give
unfoldable pub select_few : ℕ → List RestoreEntry → List RestoreEntry
select_few budget [] = []
select_few budget (e ∷ rest) =
    if ltb 0 budget && eqb (length rest) 0 && ltb budget (entry_stored_size e.ie)
    then []
    else e ∷ rest

-- selectRestoreEntries
unfoldable pub select_restore_entries :
    (String → String → Bool) → Limits → List RestoreEntry → List RestoreEntry
unfolding keep_small restored_before sort_stable within_budget select_few
select_restore_entries path_less l entries =
    let filtered = keep_small l entries in
    if eqb l.max_preload_total_bytes 0 || ltb (length filtered) 2
    then select_few l.max_preload_total_bytes filtered
    else within_budget l.max_preload_total_bytes 0
        (sort_stable (restored_before path_less) filtered)

-- What resolveCommitManifestPath or resolveChangesManifestPath gives for a part of a request.
pub data Resolved : Type 0 where
  blank invalid : Resolved
  at_path : String → Resolved

-- The paths so far, which are also the ones seen, the names of the sources, the manifests that were
-- matched, and the manifests on disk.
pub record Gathered : Type 0 where
  pub paths : List String
  pub sources : List String
  pub matched : List String
  pub files : List (String × ManifestFile)

abbrev pub nothing_gathered : List (String × ManifestFile) → Gathered
nothing_gathered files = record { paths = []; sources = []; matched = []; files = files }

unfoldable pub append_new : List String → List String → List String
append_new seen [] = seen
append_new seen (p ∷ rest) = elim (mem p seen) [
  | true ↦ append_new seen rest
  | false ↦ append_new (seen ++ p ∷ []) rest
]

-- the write-back of a manifest that loading has changed; `writes` says whether a write works
abbrev pub heal :
    Bool → String → List String × Bool → List (String × ManifestFile) → List (String × ManifestFile)
heal writes path (paths, changed) files =
    if changed && writes then insert path (lines paths) files else files

module _ (l : Paths) (index : List (String × IndexEntry)) (writes : Bool) where
  -- one round of the loop over the sources of a request; none is an error
  unfoldable pub gather_one : Gathered → String → Resolved → Option Gathered
  unfolding load_manifest append_new
  gather_one g name blank = some g
  gather_one g name invalid = none
  gather_one g name (at_path path) = elim (lookup path g.files) [
    | none ↦ some g
    | some broken ↦ none
    | some (lines text) ↦
        let loaded = load_manifest l index text in
        some (record {
          paths = append_new g.paths loaded.0;
          sources = g.sources ++ name ∷ [];
          matched = path ∷ g.matched;
          files = heal writes path loaded g.files;
        })
  ]

  unfoldable pub gather : Gathered → List (String × Resolved) → Option Gathered
  unfolding gather_one
  gather g [] = some g
  gather g ((name, r) ∷ rest) = elim (gather_one g name r) [
    | none ↦ none
    | some g' ↦ gather g' rest
  ]

-- a manifest of the build type, as loadDefaultManifestPaths lists it
pub record Candidate : Type 0 where
  pub path : String
  pub mod_time : ℕ
  pub is_pr : Bool

abbrev pub default_manifest_sample_size : ℕ
default_manifest_sample_size = 2

-- trunk manifests first, then the newest
unfoldable pub sampled_before : Candidate → Candidate → Bool
sampled_before a b =
    if (a.is_pr && not b.is_pr) || (not a.is_pr && b.is_pr)
    then not a.is_pr
    else ltb b.mod_time a.mod_time

unfoldable pub not_excluded : List String → List Candidate → List Candidate
not_excluded exclude [] = []
not_excluded exclude (c ∷ rest) =
    let kept = not_excluded exclude rest in if mem c.path exclude then kept else c ∷ kept

pub data Default : Type 0 where
  default_error : Default
  no_manifest : List (String × ManifestFile) → Default
  default_paths : List String → List (String × ManifestFile) → Default

module _ (l : Paths) (index : List (String × IndexEntry)) (writes : Bool) where
  -- the loop over the sample; a manifest that has gone is an error here
  unfoldable pub load_sample : List String → List (String × ManifestFile) → List Candidate → Default
  unfolding load_manifest append_new
  load_sample paths files [] = default_paths paths files
  load_sample paths files (c ∷ rest) = elim (lookup c.path files) [
    | none ↦ no_manifest files
    | some broken ↦ default_error
    | some (lines text) ↦
        let loaded = load_manifest l index text in
        load_sample (append_new paths loaded.0) (heal writes c.path loaded files) rest
  ]

  -- loadDefaultManifestPaths, on the listed manifests; the sort leaves open the order of candidates of
  -- one kind and one time
  unfoldable pub load_default_manifest_paths :
      List String → List (String × ManifestFile) → List Candidate → Default
  unfolding not_excluded sort_stable sampled_before load_sample
  load_default_manifest_paths exclude files candidates = elim (not_excluded exclude candidates) [
    | [] ↦ no_manifest files
    | c ∷ rest ↦
        load_sample [] files
          (take default_manifest_sample_size (sort_stable sampled_before (c ∷ rest)))
  ]

  unfoldable pub novel : List String → List String → ℕ
  novel seen [] = 0
  novel seen (p ∷ rest) = (if mem p seen then 0 else 1) + novel seen rest

  -- `resolved < total * smallRestoreRatio`, where the ratio is a half
  abbrev pub is_small : ℕ → ℕ → Bool
  is_small resolved fresh = ltb 0 (resolved + fresh) && ltb (2 * resolved) (resolved + fresh)

  -- supplementSmallResultWithDefault; none is an error
  unfoldable pub supplement : Gathered → List Candidate → Option Gathered
  unfolding load_default_manifest_paths novel
  supplement g candidates = elim (load_default_manifest_paths g.matched g.files candidates) [
    | no_manifest files ↦ some (record g { files = files })
    | default_error ↦ none
    | default_paths def files ↦
        if is_small (length g.paths) (novel g.paths def)
        then some (record g {
          paths = append_new g.paths def;
          sources = if eqb (novel g.paths def) 0 then g.sources else g.sources ++ "default" ∷ [];
          files = files;
        })
        else some (record g { files = files })
  ]

  -- the last part of restorePaths without a source, by defaultFallbackPaths
  unfoldable pub default_fallback : Gathered → List Candidate → Option Gathered
  unfolding load_default_manifest_paths
  default_fallback g candidates = elim (load_default_manifest_paths [] g.files candidates) [
    | no_manifest files ↦ some (record g { sources = "none" ∷ []; files = files })
    | default_error ↦ none
    | default_paths [] files ↦ some (record g { sources = "none" ∷ []; files = files })
    | default_paths (p ∷ def) files ↦
        some (record g {
          paths = append_new g.paths (p ∷ def);
          sources = "default" ∷ [];
          files = files;
        })
  ]

  -- what restorePaths adds to what the request's own manifests gave
  unfoldable pub add_default : Gathered → List Candidate → Option Gathered
  unfolding supplement default_fallback
  add_default g candidates = elim g.sources [
    | [] ↦ default_fallback g candidates
    | name ∷ more ↦ supplement g candidates
  ]

  abbrev pub all_blank : List (String × Resolved) → Bool
  all_blank [] = true
  all_blank ((name, blank) ∷ rest) = all_blank rest
  all_blank ((name, invalid) ∷ rest) = false
  all_blank ((name, at_path p) ∷ rest) = false

  -- restorePaths on what the parts of a request resolve to; none is an error
  unfoldable pub restore_paths :
      List (String × ManifestFile) → List Candidate → List (String × Resolved) → Option Gathered
  unfolding gather add_default
  restore_paths files candidates request = elim (all_blank request) [
    | true ↦ some (record { paths = []; sources = "none" ∷ []; matched = []; files = files })
    | false ↦ elim (gather l index writes (nothing_gathered files) request) [
      | none ↦ none
      | some g ↦ add_default g candidates
    ]
  ]
