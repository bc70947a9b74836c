-- ===== src/Gocache/Restore/Sources.antt =====
-- Proofs about restorePaths: where the paths come from.
use gocacheprog.Prelude.{
  ◌≡◌, ◌⊎◌, refl, inl, inr, Bool, true, false, ◌||◌, Bool-cases, List-cases, Option, none, some,
  List, [], ◌∷◌, ◌++◌, String, arith, string_eq, ◌==◌, ==_iff, length,
}
use gocacheprog.Prelude.Maps.{lookup}
use gocacheprog.Gocache.{IndexEntry}
use gocacheprog.Gocache.Manifest.{Paths, ManifestFile, lines, broken, mem, indexed, load_manifest}
use gocacheprog.Gocache.Manifest.Healing.{mem-load_manifest}
use gocacheprog.Gocache.Restore.{
  Gathered, Resolved, blank, invalid, at_path, append_new, nothing_gathered, gather_one, gather,
  Candidate, Default, no_manifest, default_error, default_paths, load_sample,
  load_default_manifest_paths, supplement, default_fallback, restore_paths, add_default, all_blank,
  not_excluded, is_small, novel,
}

mem-append : (p : String) (a b : List String) → mem p (a ++ b) ≡ (mem p a || mem p b)
mem-append p [] b = refl
mem-append p (q ∷ a) b = ground (arith, mem-append p a b)

same_mem : (p q : String) (seen : List String) → (q == p) ≡ true → mem p seen ≡ mem q seen
same_mem p q seen h = let e : q ≡ p = (==_iff q p).0 h in rw e refl

mem-append_new :
    (p : String) (seen l : List String) → mem p (append_new seen l) ≡ (mem p seen || mem p l)
unfolding append_new
mem-append_new p seen [] = ground arith
mem-append_new p seen (q ∷ l) = by_test (mem q seen) refl (λ s. mem-append_new p s l)
  where
    by_test :
        (b : Bool)
        → mem q seen ≡ b
        → ((s : List String) → mem p (append_new s l) ≡ (mem p s || mem p l))
        → mem p (append_new seen (q ∷ l)) ≡ (mem p seen || mem p (q ∷ l))
    by_test true e later = rw (append_new, e) (ground (arith, later seen, same_mem p q seen))
    by_test false e later =
        rw (append_new, e) (ground (arith, later (seen ++ q ∷ []), mem-append p seen (q ∷ [])))

-- Every path is one of the index.
abbrev pub AllIndexed : List (String × IndexEntry) → List String → Type 0
AllIndexed index l = (p : String) → mem p l ≡ true → indexed index p ≡ true

-- An error, or paths of the index.
abbrev pub Answers : List (String × IndexEntry) → Option Gathered → Type 0
Answers index none = Unit
Answers index (some g) = AllIndexed index g.paths

module _ (l : Paths) (index : List (String × IndexEntry)) (writes : Bool) where
  append_new-AllIndexed :
      (seen text : List String)
      → AllIndexed index seen
      → AllIndexed index (append_new seen (load_manifest l index text).0)
  append_new-AllIndexed seen text ok p h = ground (
    arith,
    mem-append_new p seen (load_manifest l index text).0,
    (mem-load_manifest l index text).1 p,
    ok p,
  )

  load-AllIndexed : (text : List String) → AllIndexed index (load_manifest l index text).0
  load-AllIndexed text p h = ground (arith, (mem-load_manifest l index text).1 p)

  gather_one-Answers :
      (g : Gathered) (name : String) (r : Resolved)
      → AllIndexed index g.paths
      → Answers index (gather_one l index writes g name r)
  unfolding gather_one
  gather_one-Answers g name blank ok = ok
  gather_one-Answers g name invalid ok = tt
  gather_one-Answers g name (at_path path) ok = by_file (lookup path g.files) refl
    where
      by_file :
          (o : Option ManifestFile)
          → lookup path g.files ≡ o
          → Answers index (gather_one l index writes g name (at_path path))
      by_file none e = rw (gather_one, e) ok
      by_file (some broken) e = rw (gather_one, e) tt
      by_file (some (lines text)) e = rw (gather_one, e) (append_new-AllIndexed g.paths text ok)

  gather-Answers :
      (g : Gathered) (request : List (String × Resolved))
      → AllIndexed index g.paths
      → Answers index (gather l index writes g request)
  unfolding gather
  gather-Answers g [] ok = ok
  gather-Answers g ((name, r) ∷ rest) ok =
      by_round (gather_one l index writes g name r) refl (gather_one-Answers g name r ok)
        (λ g' ok'. gather-Answers g' rest ok')
    where
      by_round :
          (o : Option Gathered)
          → gather_one l index writes g name r ≡ o
          → Answers index o
          → ((g' : Gathered)
              → AllIndexed index g'.paths
              → Answers index (gather l index writes g' rest))
          → Answers index (gather l index writes g ((name, r) ∷ rest))
      by_round none e now later = rw (gather, e) tt
      by_round (some g') e now later = rw (gather, e) (later g' now)

  abbrev Defaults : Default → Type 0
  Defaults (default_paths def files) = AllIndexed index def
  Defaults (no_manifest files) = Unit
  Defaults default_error = Unit

  load_sample-Defaults :
      (paths : List String) (files : List (String × ManifestFile)) (cs : List Candidate)
      → AllIndexed index paths
      → Defaults (load_sample l index writes paths files cs)
  unfolding load_sample
  load_sample-Defaults paths files [] ok = ok
  load_sample-Defaults paths files (c ∷ rest) ok =
      by_file (lookup c.path files) refl
        (λ paths' files' ok'. load_sample-Defaults paths' files' rest ok')
    where
      by_file :
          (o : Option ManifestFile)
          → lookup c.path files ≡ o
          → ((paths' : List String) (files' : List (String × ManifestFile))
              → AllIndexed index paths'
              → Defaults (load_sample l index writes paths' files' rest))
          → Defaults (load_sample l index writes paths files (c ∷ rest))
      by_file none e later = rw (load_sample, e) tt
      by_file (some broken) e later = rw (load_sample, e) tt
      by_file (some (lines text)) e later =
          rw (load_sample, e) (later _ _ (append_new-AllIndexed paths text ok))

  load_default-Defaults :
      (exclude : List String) (files : List (String × ManifestFile)) (cs : List Candidate)
      → Defaults (load_default_manifest_paths l index writes exclude files cs)
  unfolding load_default_manifest_paths
  load_default-Defaults exclude files cs = by_kept (not_excluded exclude cs) refl
    where
      by_kept :
          (kept : List Candidate)
          → not_excluded exclude cs ≡ kept
          → Defaults (load_default_manifest_paths l index writes exclude files cs)
      by_kept [] e = rw (load_default_manifest_paths, e) tt
      by_kept (c ∷ rest) e =
          rw (load_default_manifest_paths, e) (load_sample-Defaults [] files _ (λ p h. cc h))

  supplement-Answers :
      (g : Gathered) (cs : List Candidate)
      → AllIndexed index g.paths
      → Answers index (supplement l index writes g cs)
  unfolding supplement
  supplement-Answers g cs ok =
      by_default (load_default_manifest_paths l index writes g.matched g.files cs) refl
        (load_default-Defaults g.matched g.files cs)
    where
      by_default :
          (o : Default)
          → load_default_manifest_paths l index writes g.matched g.files cs ≡ o
          → Defaults o
          → Answers index (supplement l index writes g cs)
      by_default (no_manifest files) e def = rw (supplement, e) ok
      by_default default_error e def = rw (supplement, e) tt
      by_default (default_paths more files) e def =
          rw (supplement, e)
            (elim (Bool-cases
              (is_small l index writes (length g.paths) (novel l index writes g.paths more))) [
                | inl q ↦ rw q (λ p h. ground (arith, mem-append_new p g.paths more, ok p, def p))
                | inr q ↦ rw q ok
              ])

  default_fallback-Answers :
      (g : Gathered) (cs : List Candidate)
      → AllIndexed index g.paths
      → Answers index (default_fallback l index writes g cs)
  unfolding default_fallback
  default_fallback-Answers g cs ok =
      by_default (load_default_manifest_paths l index writes [] g.files cs) refl
        (load_default-Defaults [] g.files cs)
    where
      by_default :
          (o : Default)
          → load_default_manifest_paths l index writes [] g.files cs ≡ o
          → Defaults o
          → Answers index (default_fallback l index writes g cs)
      by_default (no_manifest files) e def = rw (default_fallback, e) ok
      by_default default_error e def = rw (default_fallback, e) tt
      by_default (default_paths [] files) e def = rw (default_fallback, e) ok
      by_default (default_paths (q ∷ more) files) e def =
          rw (default_fallback, e)
            (λ p h. ground (arith, mem-append_new p g.paths (q ∷ more), ok p, def p))

  add_default-Answers :
      (g : Gathered) (cs : List Candidate)
      → AllIndexed index g.paths
      → Answers index (add_default l index writes g cs)
  unfolding add_default
  add_default-Answers g cs ok = elim (List-cases g.sources) [
    | inl e ↦ rw (add_default, e) (default_fallback-Answers g cs ok)
    | inr (name, more, e) ↦ rw (add_default, e) (supplement-Answers g cs ok)
  ]

  -- What restorePaths answers, when it is no error, are paths of the index, from whichever
  -- manifests they come.
  pub restore_paths-Answers :
      (files : List (String × ManifestFile)) (cs : List Candidate)
      (request : List (String × Resolved))
      → Answers index (restore_paths l index writes files cs request)
  unfolding restore_paths
  restore_paths-Answers files cs request = by_parts (Bool-cases (all_blank l index writes request))
    where
      by_gathered :
          (o : Option Gathered)
          → gather l index writes (nothing_gathered files) request ≡ o
          → Answers index o
          → all_blank l index writes request ≡ false
          → Answers index (restore_paths l index writes files cs request)
      by_gathered none q now e = rw (restore_paths, e, q) tt
      by_gathered (some g) q now e = rw (restore_paths, e, q) (add_default-Answers g cs now)

      by_parts :
          (all_blank l index writes request ≡ true) ⊎ (all_blank l index writes request ≡ false)
          → Answers index (restore_paths l index writes files cs request)
      by_parts (inl e) = rw (restore_paths, e) (λ p h. cc h)
      by_parts (inr e) =
          by_gathered (gather l index writes (nothing_gathered files) request) refl
            (gather-Answers (nothing_gathered files) request (λ p h. cc h)) e
