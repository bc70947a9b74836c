-- ===== src/Gocache/Clear/Cleared.antt =====
-- Proofs about what Clear and a restore take out: the invariant, and which entries are left.
use gocacheprog.Prelude.{
  ℕ, ◌+◌, ◌≡◌, ◌∙◌, sym, refl, inl, inr, Bool, true, false, not, ◌&&◌, Option-cases, none, some,
  List, [], ◌∷◌, String, arith, if◌then◌else◌, tally, eqb, ap, ◌++◌, Bool-cases, string_eq, ◌==◌,
  ==_iff,
}
use gocacheprog.Prelude.Int.{ℤ, pos, ◌-ℤ◌, pos--ℤ}
use gocacheprog.Prelude.Maps.{
  lookup, remove, total, total-remove, remove-Distinct, lookup-remove, lookup-remove-inv,
  remove-absent,
}
use gocacheprog.Gocache.{IndexEntry, HeapEntry, Store, entry_stored_size, drop_entry}
use gocacheprog.Gocache.Consistent.{Consistent, IsStore}
use gocacheprog.Gocache.Manifest.{mem}
use gocacheprog.Gocache.Restore.{RestoreEntry}
use gocacheprog.Gocache.Clear.{
  remove_broken_entry, is_broken, serve, clear_one, ClearStats, clear_objects,
}

module _ (bucket : ℕ) (index : List (String × IndexEntry)) (bytes : ℤ) (heap : List HeapEntry)
    (path : String) (v : Consistent bucket index bytes heap) where
  removed-Consistent :
      (ie : IndexEntry)
      → lookup path index ≡ some ie
      → Consistent bucket (remove path index) (bytes -ℤ pos (entry_stored_size ie)) heap
  removed-Consistent ie listed =
      let split : total entry_stored_size (remove path index) + entry_stored_size ie
          ≡ total entry_stored_size index =
        rw listed at (total-remove entry_stored_size path index v.distinct) in
      record {
        distinct = remove-Distinct path index v.distinct;
        counted = rw v.counted (pos--ℤ _ (entry_stored_size ie) _ split);
        ordered = v.ordered;
        covered = λ other je h. v.covered other je (lookup-remove-inv path other je index h).0;
      }

  absent-Consistent : lookup path index ≡ none → Consistent bucket (remove path index) bytes heap
  absent-Consistent e = rw (remove-absent path index e) v

remove_broken_entry-IsStore :
    (s : Store) (path : String) (ie : IndexEntry)
    → IsStore s
    → IsStore (remove_broken_entry s path ie)
unfolding remove_broken_entry
remove_broken_entry-IsStore s path ie v = elim (Option-cases (lookup path s.index)) [
  | inl e ↦
      rw e (absent-Consistent s.eviction_bucket s.index s.current_disk_bytes s.evict_heap path v e)
  | inr (old, e) ↦
      rw e (
        removed-Consistent s.eviction_bucket s.index s.current_disk_bytes s.evict_heap path v old e)
]

-- A restore that sends entries, and takes those out whose plain file is gone or has another length,
-- keeps a consistent store consistent.
pub serve-IsStore :
    (s : Store) (entries : List RestoreEntry) → IsStore s → IsStore (serve s entries).0
unfolding serve
serve-IsStore s [] v = v
serve-IsStore s (e ∷ rest) v = by_test (is_broken s e) refl (λ t ok. serve-IsStore t rest ok)
  where
    by_test :
        (b : Bool)
        → is_broken s e ≡ b
        → ((t : Store) → IsStore t → IsStore (serve t rest).0)
        → IsStore (serve s (e ∷ rest)).0
    by_test true q later = rw (serve, q) (later _ (remove_broken_entry-IsStore s e.path e.ie v))
    by_test false q later = rw (serve, q) (later _ v)

-- The index without the paths that are cleared and not kept.
abbrev pub Without : List String → List String → Store → Store → Type 0
Without keep paths s t =
    (p : String)
    → lookup p t.index ≡ (if mem p paths && not (mem p keep) then none else lookup p s.index)

-- Each path is counted once, as kept or as deleted.
abbrev pub CountsEach : List String → List String → ClearStats → ClearStats → Type 0
CountsEach keep paths stats counts =
    (counts.objects_kept ≡ stats.objects_kept + tally (λ p. mem p keep) paths)
    × (counts.objects_deleted ≡ stats.objects_deleted + tally (λ p. not (mem p keep)) paths)

-- What the loop leaves when it comes through, and when it ends at a path.
abbrev pub Clears :
    List String
    → (String → Bool)
    → List String
    → Store
    → ClearStats
    → Bool
    → Store
    → ClearStats
    → Type 0
Clears keep removes paths s stats true t counts =
    IsStore t × Without keep paths s t × CountsEach keep paths stats counts
Clears keep removes paths s stats false t counts =
    IsStore t
    × (before : List String) × (path : String) × (left : List String) × (paths
        ≡ before ++ path ∷ left)
    × (mem path keep ≡ false)
    × (removes path ≡ false)
    × Without keep (before ++ path ∷ []) s t
    × CountsEach keep before stats counts

pub Clears-IsStore :
    (keep : List String) (removes : String → Bool) (paths : List String) (s : Store)
    (stats : ClearStats) (ok : Bool) (t : Store) (counts : ClearStats)
    → Clears keep removes paths s stats ok t counts
    → IsStore t
Clears-IsStore keep removes paths s stats true t counts h = h.0
Clears-IsStore keep removes paths s stats false t counts h = h.0

-- What is left after one path is cleared, or its file cannot be removed.
record Cleared (removes : String → Bool) (s : Store) (path : String) (r : Bool × Store)
    : Type 0 where
  valid : IsStore r.1
  index : r.1.index ≡ remove path s.index
  failed : r.0 ≡ false → removes path ≡ false

clear_one-Cleared :
    (removes : String → Bool) (s : Store) (path : String)
    → IsStore s
    → Cleared removes s path (clear_one removes s path)
unfolding clear_one drop_entry
clear_one-Cleared removes s path v = elim (Option-cases (lookup path s.index)) [
  | inl e ↦
      let same = sym (remove-absent path s.index e) in
      elim (Bool-cases (removes path)) [
        | inl works ↦
            rw (clear_one, e, works)
              (record { valid = v; index = same; failed = λ h. absurd (cc h) })
        | inr fails ↦
            rw (clear_one, e, fails) (record { valid = v; index = same; failed = λ h. fails })
      ]
  | inr (ie, e) ↦
      let ok =
        removed-Consistent s.eviction_bucket s.index s.current_disk_bytes s.evict_heap path v ie
          e in
      elim (Bool-cases (eqb ie.pool_page 0 && not (removes path))) [
        | inl fails ↦
            rw (clear_one, e, fails)
              (record { valid = ok; index = refl; failed = λ h. ground (arith, fails) })
        | inr works ↦
            rw (clear_one, e, works)
              (record { valid = ok; index = refl; failed = λ h. absurd (cc h) })
      ]
]

-- A path that is kept, or cleared, before the rest.
module _ (keep : List String) (removes : String → Bool) (s : Store) (stats : ClearStats)
    (path : String) (rest : List String) where
  same_mem : (p : String) → (path == p) ≡ true → mem p keep ≡ mem path keep
  same_mem p h = rw ((==_iff path p).0 h) refl

  kept-Clears :
      (ok : Bool) (t : Store) (counts : ClearStats)
      → mem path keep ≡ true
      → Clears keep removes rest s
          (record stats { objects_kept = stats.objects_kept + 1 })
          ok
          t
          counts
      → Clears keep removes (path ∷ rest) s stats ok t counts
  kept-Clears true t counts e (valid, gone, each) =
      (valid, (λ p. ground (arith, gone p, same_mem p)), ground (arith, each, e))
  kept-Clears false t counts e (valid, before, stop, left, split, free, fails, gone, each) = (
    valid,
    path ∷ before,
    stop,
    left,
    ap (◌∷◌ path) split,
    free,
    fails,
    (λ p. ground (arith, gone p, same_mem p)),
    ground (arith, each, e),
  )

  cleared-Clears :
      (s' : Store) (ok : Bool) (t : Store) (counts : ClearStats)
      → mem path keep ≡ false
      → s'.index ≡ remove path s.index
      → Clears keep removes rest s'
          (record stats { objects_deleted = stats.objects_deleted + 1 })
          ok
          t
          counts
      → Clears keep removes (path ∷ rest) s stats ok t counts
  cleared-Clears s' true t counts e index (valid, gone, each) = (
    valid,
    (λ p. gone p ∙ rw index (ground (arith, lookup-remove path p s.index, same_mem p))),
    ground (arith, each, e),
  )
  cleared-Clears s' false t counts e index
        (valid, before, stop, left, split, free, fails, gone, each) =
      (
        valid,
        path ∷ before,
        stop,
        left,
        ap (◌∷◌ path) split,
        free,
        fails,
        (λ p. gone p ∙ rw index (ground (arith, lookup-remove path p s.index, same_mem p))),
        ground (arith, each, e),
      )

  stopped-Clears :
      (r : Bool × Store)
      → mem path keep ≡ false
      → Cleared removes s path r
      → r.0 ≡ false
      → Clears keep removes (path ∷ rest) s stats false r.1 stats
  stopped-Clears r e c stopped = (
    c.valid,
    [],
    path,
    rest,
    refl,
    e,
    c.failed stopped,
    (λ p. rw c.index (ground (arith, lookup-remove path p s.index, same_mem p))),
    ground arith,
  )

-- What is to show of the loop.
abbrev LoopClears : List String → (String → Bool) → Store → ClearStats → List String → Type 0
LoopClears keep removes s stats paths =
    let (ok, t, counts) = clear_objects keep removes s stats paths in
    Clears keep removes paths s stats ok t counts

-- Clear's loop over paths, on a consistent store, gives a consistent store. When it comes through,
-- exactly the paths are gone from the index that it is given and no other manifest keeps, every
-- other entry is as before, and each path is counted as kept or as deleted. When it ends with an
-- error, it ends at a path that is not kept and whose file cannot be removed; the same then holds
-- of the paths up to and with that one, each path before it is counted, and the later ones are
-- untouched.
pub clear_objects-Clears :
    (keep : List String) (removes : String → Bool) (s : Store) (stats : ClearStats)
    (paths : List String)
    → IsStore s
    → let (ok, t, counts) = clear_objects keep removes s stats paths in
      Clears keep removes paths s stats ok t counts
unfolding clear_objects
clear_objects-Clears keep removes s stats [] v = (v, (λ p. refl), ground arith)
clear_objects-Clears keep removes s stats (path ∷ rest) v =
    by_test (mem path keep) refl (clear_one removes s path).0 refl
      (λ s' stats' v'. clear_objects-Clears keep removes s' stats' rest v')
  where
    by_test :
        (b : Bool)
        → mem path keep ≡ b
        → (o : Bool) → (clear_one removes s path).0 ≡ o
        → ((s' : Store) (stats' : ClearStats) → IsStore s' → LoopClears keep removes s' stats' rest)
        → LoopClears keep removes s stats (path ∷ rest)
    by_test true e o c later =
        rw (clear_objects, e)
          (kept-Clears keep removes s stats path rest _ _ _ e
            (later s (record stats { objects_kept = stats.objects_kept + 1 }) v))
    by_test false e true c later =
        let k = clear_one-Cleared removes s path v in
        rw (clear_objects, e, c)
          (cleared-Clears keep removes s stats path rest (clear_one removes s path).1 _ _ _ e
            k.index
            (later (clear_one removes s path).1
              (record stats { objects_deleted = stats.objects_deleted + 1 }) k.valid))
    by_test false e false c later =
        let k = clear_one-Cleared removes s path v in
        rw (clear_objects, e, c)
          (stopped-Clears keep removes s stats path rest (clear_one removes s path) e k c)
