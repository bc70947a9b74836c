-- ===== src/Local/Manifests/Merging.antt =====
-- internal/local/store.go: PostCacheUsed and then Preload: what a build used is what the next one may get.
use gocacheprog.Prelude.{
  ◌≡◌, ◌∙◌, refl, sym, ap, Bool, true, false, ◌||◌, some, List, [], ◌∷◌, ◌++◌, String, string_eq,
  ◌==◌,
}
use gocacheprog.Gocache.Manifest.{mem}
use gocacheprog.Local.Lines.{manifest_body}
use gocacheprog.Local.Lines.Scans.{AreOneLine}
use gocacheprog.Local.Manifests.Reading.{
  TrimLaws, has_id, IsKept, named-mem, read_manifest-IsKept, read_manifest-merged_ids,
  mem-load_lines-merged_ids,
}
use gocacheprog.Gocache.Manifest.Healing.{named}
use gocacheprog.Local.Manifests.{
  Keys, Files, trimmed_line, load_lines, Loaded, missing, unreadable, ids_of, read_manifest,
  write_manifest, merged_ids, merge_ids, commit_manifest_path, changes_manifest_path,
  post_cache_used, load_at, gather_ids, or_newest, preload_filter_action_ids,
}

abbrev pub is_readable : Loaded → Bool
is_readable missing = true
is_readable unreadable = false
is_readable (ids_of l) = true

-- The other manifests that a preload takes.
abbrev pub others_of : Keys → Files → String → String → String → String → List (String × Loaded)
others_of k files parent changes base build_type =
    ("parent", load_at k files parent (commit_manifest_path k parent build_type))
    ∷ ("changes", load_at k files changes (changes_manifest_path k changes build_type))
    ∷ ("base", load_at k files base (commit_manifest_path k base build_type))
    ∷ []

module _ (k : Keys) (laws : TrimLaws k) where
  -- What a manifest holds after a merge into it.
  record Merged (path : String) (ids : List String) (before : Loaded) (r : Bool × Files)
      : Type 0 where
    done : r.0 ≡ true
    list : List String
    reads : read_manifest k r.1 path ≡ ids_of list
    holds : (p : String) → mem p list ≡ (has_id before p || named (trimmed_line k) p ids)

  write-Merged :
      (writes : String → Bool) (path : String) (existing ids : List String) (before : Loaded)
      (files : Files)
      → writes path ≡ true
      → AreOneLine k.byte_length ids
      → ((q : String) → named (trimmed_line k) q existing ≡ true → IsKept k q)
      → ((p : String) → named (trimmed_line k) p existing ≡ has_id before p)
      → Merged path ids before
          (write_manifest writes path (manifest_body (merged_ids k existing ids)) files)
  write-Merged writes path existing ids before files can one kept same = rw can (record {
    done = refl;
    list = load_lines k (merged_ids k existing ids);
    reads = read_manifest-merged_ids k laws existing ids one kept path files;
    holds = λ p. mem-load_lines-merged_ids k laws existing ids one kept p ∙ rw (same p);
  })

  merge_ids-Merged :
      (writes : String → Bool) (path : String) (ids : List String) (files : Files)
      → writes path ≡ true
      → is_readable (read_manifest k files path) ≡ true
      → AreOneLine k.byte_length ids
      → Merged path ids (read_manifest k files path) (merge_ids k writes path ids files)
  merge_ids-Merged writes path ids files can readable one =
      by_manifest (read_manifest k files path) refl
    where
      merge_ids-step :
          (before : Loaded)
          → read_manifest k files path ≡ before
          → merge_ids k writes path ids files ≡ elim before [
            | missing ↦ write_manifest writes path (manifest_body (merged_ids k [] ids)) files
            | unreadable ↦ (false, files)
            | ids_of existing ↦
                write_manifest writes path (manifest_body (merged_ids k existing ids)) files
          ]
      merge_ids-step before e = unfold merge_ids in rw (merge_ids, e)

      by_manifest :
          (before : Loaded)
          → read_manifest k files path ≡ before
          → Merged path ids before (merge_ids k writes path ids files)
      by_manifest missing e =
          rw (merge_ids-step missing e) (
            write-Merged writes path [] ids missing files can one (λ q h. absurd (cc h))
              (λ p. refl))
      by_manifest unreadable e = absurd (cc (rw e at readable))
      by_manifest (ids_of old) e =
          let stable : (q : String) → mem q old ≡ true → trimmed_line k q ≡ some q =
            λ q m. (read_manifest-IsKept k laws files path old e q m).0 in
          let same : (p : String) → named (trimmed_line k) p old ≡ mem p old =
            λ p. named-mem k laws p old stable in
          rw (merge_ids-step (ids_of old) e) (
            write-Merged writes path old ids (ids_of old) files can one
              (λ q h. read_manifest-IsKept k laws files path old e q (sym (same q) ∙ h)) same)

  gather_ids-found :
      (name : String) (list : List String) (rest : List (String × Loaded))
      (others sources : List String)
      → gather_ids rest ≡ some (others, sources)
      → gather_ids ((name, ids_of list) ∷ rest) ≡ some (list ++ others, name ∷ sources)
  gather_ids-found name list rest others sources e = unfold gather_ids in rw (gather_ids, e)

  -- When trimming follows its laws, the commit is not blank and has a path, the manifest there is
  -- absent or its text can be scanned, it can be written, and no ID of the build has a line break
  -- or as many bytes as the scanner takes at most, PostCacheUsed for the commit alone succeeds, and
  -- a preload of that commit and build type, which scans the text that was written and whose other
  -- manifests give no error, takes its filter from the commit's manifest first, in which stand
  -- exactly the IDs that it held before and the trimmed IDs of the build that are not blank.
  pub preload_filter_action_ids-post_cache_used :
      (writes : String → Bool) (commit build_type path : String) (ids : List String)
      (replace_changes : Bool) (files : Files)
      → (commit == "") ≡ false
      → (k.trim_space commit == "") ≡ false
      → commit_manifest_path k commit build_type ≡ some path
      → writes path ≡ true
      → is_readable (read_manifest k files path) ≡ true
      → AreOneLine k.byte_length ids
      → let (ok, files') =
          post_cache_used k writes commit "" build_type ids replace_changes files in
        (ok ≡ true)
        × ((parent changes base : String) (newest : Loaded) (others sources : List String)
            → gather_ids (others_of k files' parent changes base build_type)
              ≡ some (others, sources)
            → (list : List String) × (preload_filter_action_ids k files' newest (record {
              commit = commit;
              parent_commit = parent;
              changes_id = changes;
              base_commit = base;
              build_type = build_type;
            })
                ≡ some (list ++ others, "commit" ∷ sources))
              × ((p : String)
                  → mem p list
                    ≡ (has_id (read_manifest k files path) p || named (trimmed_line k) p ids)))
  preload_filter_action_ids-post_cache_used writes commit build_type path ids replace_changes files
        named_commit proper at_path can readable one =
      let merged = merge_ids-Merged writes path ids files can readable one in
      let after = posts merged.done in
      (
        ap (λ (r : Bool × Files). r.0) after,
        λ parent changes base newest others sources e. (
          merged.list,
          filter-finds (post_cache_used k writes commit "" build_type ids replace_changes files).1
              parent changes base newest merged.list others sources
              (ap (λ (r : Bool × Files). read_manifest k r.1 path) after ∙ merged.reads) e,
          merged.holds,
        ),
      )
    where
      posts :
          (merge_ids k writes path ids files).0 ≡ true
          → post_cache_used k writes commit "" build_type ids replace_changes files
            ≡ (true, (merge_ids k writes path ids files).1)
      posts done = unfold post_cache_used in rw (post_cache_used, named_commit, at_path, done)

      filter-finds :
          (files' : Files) (parent changes base : String) (newest : Loaded)
          (list others sources : List String)
          → read_manifest k files' path ≡ ids_of list
          → gather_ids (others_of k files' parent changes base build_type) ≡ some (others, sources)
          → preload_filter_action_ids k files' newest (record {
            commit = commit;
            parent_commit = parent;
            changes_id = changes;
            base_commit = base;
            build_type = build_type;
          })
            ≡ some (list ++ others, "commit" ∷ sources)
      filter-finds files' parent changes base newest list others sources reads e =
          let rest = others_of k files' parent changes base build_type in
          let loads : load_at k files' commit (commit_manifest_path k commit build_type)
              ≡ ids_of list =
            rw (load_at, proper, at_path) reads in
          unfold preload_filter_action_ids in
          (ap (λ (f : Loaded). or_newest newest (gather_ids (("commit", f) ∷ rest))) loads
            ∙ ap (or_newest newest) (gather_ids-found "commit" list rest others sources e))
