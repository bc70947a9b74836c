-- ===== src/Gocache/Manifest.antt =====
-- internal/gocache/store.go: manifests, lists of paths that a commit or a pull request needs. A manifest
-- file is the lines that a scanner gives of its decoded text, or is broken: it cannot be read, decoded
-- or scanned. What strings and path/filepath do is a parameter (`Paths`).
pub mod Healing
use gocacheprog.Prelude.{
  ℕ, ◌≡◌, ◌≢◌, ◌∙◌, refl, sym, ap, inl, inr, Bool, true, false, not, ◌&&◌, ◌||◌, Bool-cases,
  Option-cases, Option, none, some, List, [], ◌∷◌, ◌++◌, String, arith, if◌then◌else◌, string_eq,
  ◌==◌, ==_iff, ==_refl, eqb, length,
}
use gocacheprog.Prelude.Maps.{lookup, insert}
use gocacheprog.Gocache.{IndexEntry}

-- strings.TrimSpace, filepath.IsAbs, filepath.Clean after FromSlash, the test for a prefix "../", and
-- filepath.ToSlash
pub record Paths : Type 0 where
  pub trim_space : String → String
  pub is_abs : String → Bool
  pub clean : String → String
  pub goes_up : String → Bool
  pub to_slash : String → String

-- cleanRelativePath
unfoldable pub clean_relative_path : Paths → String → Option String
clean_relative_path l path =
    let trimmed = l.trim_space path in
    let cleaned = l.clean trimmed in
    if trimmed == ""
    then none
    else if l.is_abs trimmed
    then none
    else if cleaned == "." || cleaned == ""
    then none
    else if cleaned == ".." || l.goes_up cleaned
    then none
    else some (l.to_slash cleaned)

abbrev pub mem : String → List String → Bool
mem p [] = false
mem p (q ∷ l) = q == p || mem p l

-- the line that the scan takes: none if it is blank or no path, or has been seen
unfoldable pub take_line : (String → Option String) → List String → String → Option String
take_line accept seen raw = elim (accept raw) [
  | none ↦ none
  | some p ↦ if mem p seen then none else some p
]

-- the lines that are taken, each once in the order in which they first come, and whether one was not
unfoldable pub take_lines :
    (String → Option String) → List String → List String → List String × Bool
unfolding take_line
take_lines accept seen [] = ([], false)
take_lines accept seen (raw ∷ rest) = elim (take_line accept seen raw) [
  | none ↦ ((take_lines accept seen rest).0, true)
  | some p ↦ (p ∷ (take_lines accept (p ∷ seen) rest).0, (take_lines accept (p ∷ seen) rest).1)
]

abbrev pub indexed : List (String × IndexEntry) → String → Bool
indexed index p = elim (lookup p index) [ none ↦ false | some ie ↦ true ]

unfoldable pub prune : (String → Bool) → List String → List String × Bool
prune keep [] = ([], false)
prune keep (p ∷ rest) =
    let (kept, dropped) = prune keep rest in if keep p then (p ∷ kept, dropped) else (kept, true)

-- the test that loadManifest makes of a line, trimmed already
abbrev pub manifest_line : Paths → String → Option String
manifest_line l raw =
    let trimmed = l.trim_space raw in if trimmed == "" then none else clean_relative_path l trimmed

-- loadManifest on the lines of a file
unfoldable pub load_manifest : Paths → List (String × IndexEntry) → List String → List String × Bool
unfolding take_lines prune
load_manifest l index lines =
    let (candidates, changed) = take_lines (manifest_line l) [] lines in
    let (paths, dropped) = prune (indexed index) candidates in (paths, changed || dropped)

abbrev pub union_line : Paths → String → Option String
union_line l raw = let trimmed = l.trim_space raw in if trimmed == "" then none else some trimmed

-- unionManifestPaths of two lists
unfoldable pub union_manifest_paths : Paths → List String → List String → List String
unfolding take_lines
union_manifest_paths l a b = (take_lines (union_line l) [] (a ++ b)).0

pub data ManifestFile : Type 0 where
  lines : List String → ManifestFile
  broken : ManifestFile

-- mergeManifest, with the write that works or fails; none is an error
unfoldable pub merge_manifest :
    Paths
    → List (String × IndexEntry)
    → Bool
    → List (String × ManifestFile)
    → String
    → List String
    → Option (List (String × ManifestFile))
unfolding load_manifest union_manifest_paths
merge_manifest l index writes files path paths =
    let write =
      λ (body : List String). if writes then some (insert path (lines body) files) else none in
    elim (lookup path files) [
      | none ↦ write (union_manifest_paths l [] paths)
      | some broken ↦ none
      | some (lines text) ↦ write (union_manifest_paths l (load_manifest l index text).0 paths)
    ]
