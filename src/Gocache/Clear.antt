-- ===== src/Gocache/Clear.antt =====
-- internal/gocache/store.go: what Clear and a restore take out of the store. For Clear, `removes` says of
-- a path whether os.Remove works for its file or finds none; a restore logs such an error and goes on,
-- and the file is taken to be removed.
pub mod Cleared
use gocacheprog.Prelude.{
  ℕ, ◌+◌, Bool, true, false, not, ◌&&◌, Option, none, some, List, [], ◌∷◌, String, eqb,
  if◌then◌else◌, length, string_eq,
}
use gocacheprog.Prelude.Int.{pos, ◌-ℤ◌}
use gocacheprog.Prelude.Maps.{lookup, remove}
use gocacheprog.Gocache.{IndexEntry, Store, entry_stored_size, drop_entry, remove_object}
use gocacheprog.Gocache.Manifest.{mem}
use gocacheprog.Gocache.Restore.{RestoreEntry}

-- removeBrokenEntry, which takes the current entry off the count and removes the object of the entry
-- that the restore read
unfoldable pub remove_broken_entry : Store → String → IndexEntry → Store
unfolding remove_object
remove_broken_entry s path ie =
    let current = lookup path s.index in
    remove_object
      (record s {
        index = remove path s.index;
        current_disk_bytes = elim current [
          | none ↦ s.current_disk_bytes
          | some old ↦ s.current_disk_bytes -ℤ pos (entry_stored_size old)
        ];
        dirty = elim current [ none ↦ s.dirty | some old ↦ true ];
      })
      path ie

-- a plain file that is gone, or has another length than the entry says
abbrev pub is_broken : Store → RestoreEntry → Bool
is_broken s e =
    eqb e.ie.pool_page 0
    && not (elim (lookup e.path s.objects) [
      | none ↦ false
      | some body ↦ eqb (length body) (entry_stored_size e.ie)
    ])

-- the loop of Restore that sends the entries it has chosen; the entries sent are the result
unfoldable pub serve : Store → List RestoreEntry → Store × List RestoreEntry
unfolding remove_broken_entry
serve s [] = (s, [])
serve s (e ∷ rest) = elim (is_broken s e) [
  | true ↦ serve (remove_broken_entry s e.path e.ie) rest
  | false ↦ (
    (serve (record s { hits = s.hits + 1 }) rest).0,
    e ∷ (serve (record s { hits = s.hits + 1 }) rest).1,
  )
]

-- one path in the loop of Clear that no manifest keeps; false is the error of os.Remove, which comes
-- after the entry has left the index
unfoldable pub clear_one : (String → Bool) → Store → String → Bool × Store
unfolding drop_entry
clear_one removes s path = elim (lookup path s.index) [
  | none ↦ if removes path then (true, record s { objects = remove path s.objects }) else (false, s)
  | some ie ↦
      if eqb ie.pool_page 0 && not (removes path)
      then (
        false,
        record s {
          index = remove path s.index;
          current_disk_bytes = s.current_disk_bytes -ℤ pos (entry_stored_size ie);
          dirty = true;
        },
      )
      else (true, drop_entry s path ie)
]

-- ClearStats, its counts of objects
pub record ClearStats : Type 0 where
  pub objects_kept : ℕ
  pub objects_deleted : ℕ

-- the loop of Clear over the paths of the manifests that it has deleted; `keep` are those that another
-- manifest has; false is an error, at which the loop ends
unfoldable pub clear_objects :
    List String → (String → Bool) → Store → ClearStats → List String → Bool × Store × ClearStats
unfolding clear_one
clear_objects keep removes s stats [] = (true, s, stats)
clear_objects keep removes s stats (path ∷ rest) = elim (mem path keep) [
  | true ↦
      clear_objects keep removes s (record stats { objects_kept = stats.objects_kept + 1 }) rest
  | false ↦
      let (ok, s') = clear_one removes s path in
      elim ok [
        | true ↦
            clear_objects keep removes s'
              (record stats { objects_deleted = stats.objects_deleted + 1 }) rest
        | false ↦ (false, s', stats)
      ]
]
