-- ===== src/Gocache/Restore/Tests.antt =====
-- A manifest of two lines, of which the index knows one path, and entries to choose from.
use gocacheprog.Prelude.{
  ◌⊎◌, ◌≢◌, ℕ, ◌≤◌, ◌<◌, ◌≡◌, Bool, true, false, ◌&&◌, List, [], ◌∷◌, String, tally,
}
use gocacheprog.Gocache.{IndexEntry}
use gocacheprog.Gocache.Manifest.{
  Paths, ManifestFile, lines, mem, indexed, manifest_line, load_manifest, union_manifest_paths,
}
use gocacheprog.Gocache.Manifest.Healing.{
  Fresh, named, Trimmed, mem-load_manifest, mem-union_manifest_paths,
}
use gocacheprog.Gocache.Restore.{
  RestoreEntry, Limits, select_restore_entries, Candidate, Resolved, at_path, restore_paths,
}
use gocacheprog.Gocache.Restore.Budgeted.{too_large, total_stored, total-select_restore_entries}
use gocacheprog.Gocache.Restore.Sources.{Answers, restore_paths-Answers}

abbrev paths : Paths
paths = record {
  trim_space = λ p. p;
  is_abs = λ p. false;
  clean = λ p. p;
  goes_up = λ p. false;
  to_slash = λ p. p;
}

abbrev entry : ℕ → IndexEntry
entry size = record {
  size = size;
  mode = 0;
  wire_size = 0;
  compressed = 0;
  mod_time_micro = 1;
  pool_page = 0;
  pool_slot = 0;
}

abbrev index : List (String × IndexEntry)
index = ("a", entry 5) ∷ []

abbrev text : List String
text = "a" ∷ "b" ∷ "a" ∷ []

mem-load_manifest_example :
    Fresh [] (load_manifest paths index text).0
    × ((p : String)
        → mem p (load_manifest paths index text).0
          ≡ (named (manifest_line paths) p text && indexed index p))
mem-load_manifest_example = mem-load_manifest paths index text

mem-union_manifest_paths_example :
    Fresh [] (union_manifest_paths paths text ("c" ∷ []))
    × ((p : String)
        → ((mem p (union_manifest_paths paths text ("c" ∷ [])) ≡ true)
            × (p ≢ "")
            × (Trimmed paths p text ⊎ Trimmed paths p ("c" ∷ [])))
          ⊎ ((mem p (union_manifest_paths paths text ("c" ∷ [])) ≡ false)
              × ((p ≡ "") ⊎ ¬ (Trimmed paths p text ⊎ Trimmed paths p ("c" ∷ [])))))
mem-union_manifest_paths_example = mem-union_manifest_paths paths text ("c" ∷ [])

abbrev limits : Limits
limits = record {
  request_max_file_bytes = 6;
  store_max_file_bytes = 0;
  max_preload_total_bytes = 8;
}

abbrev entries : List RestoreEntry
entries =
    record { path = "a"; ie = entry 5 }
    ∷ record { path = "b"; ie = entry 7 }
    ∷ record { path = "c"; ie = entry 4 }
    ∷ []

total-select_restore_entries_example :
    ((p : RestoreEntry → Bool)
      → tally p (select_restore_entries (λ a b. false) limits entries) ≤ tally p entries)
    × (tally (too_large limits) (select_restore_entries (λ a b. false) limits entries) ≡ 0)
    × (0 < 8 → total_stored (select_restore_entries (λ a b. false) limits entries) ≤ 8)
total-select_restore_entries_example = total-select_restore_entries (λ a b. false) limits entries

abbrev files : List (String × ManifestFile)
files = ("m", lines text) ∷ ("n", lines ("b" ∷ [])) ∷ []

abbrev candidates : List Candidate
candidates = record { path = "n"; mod_time = 1; is_pr = false } ∷ []

abbrev request : List (String × Resolved)
request = ("commit", at_path "m") ∷ []

restore_paths-Answers_example :
    Answers index (restore_paths paths index true files candidates request)
restore_paths-Answers_example = restore_paths-Answers paths index true files candidates request
