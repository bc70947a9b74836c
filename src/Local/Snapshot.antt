-- ===== src/Local/Snapshot.antt =====
-- internal/local/store.go: the loops of Preload and IntegrityCheck over a snapshot of the index, which
-- remove entries of the index as they go.
use gocacheprog.Prelude.{
  ◌≡◌, false, none, some, List, ◌∷◌, String, arith, if◌then◌else◌, string_eq, ◌==◌, ==_iff, ==_refl,
}
use gocacheprog.Prelude.Maps.{lookup, lookup-remove}
use gocacheprog.Local.{Entry, Store, drop_entry, release_output_ref}

-- The entries of the snapshot are still in the index.
abbrev pub Holds : List (String × Entry) → Store → Type 0
Holds snapshot s =
    (action : String) (ie : Entry)
    → lookup action snapshot ≡ some ie
    → lookup action s.index ≡ some ie

-- What the rest of a snapshot holds after its first entry.
module _ (s : Store) (action : String) (ie : Entry) (rest : List (String × Entry))
    (fresh : lookup action rest ≡ none) (holds : Holds ((action, ie) ∷ rest) s) where
  pub listed : lookup action s.index ≡ some ie
  listed = holds action ie (rw (==_refl action))

  pub drop_entry-lookup :
      (other : String)
      → lookup other (drop_entry s action ie).index
        ≡ (if action == other then none else lookup other s.index)
  unfolding drop_entry release_output_ref
  drop_entry-lookup other = lookup-remove action other s.index

  pub Holds-rest : Holds rest s
  Holds-rest other je h = holds other je (ground (arith, h, ==_iff action other))

  pub drop_entry-Holds : Holds rest (drop_entry s action ie)
  drop_entry-Holds other je h =
      ground (arith, drop_entry-lookup other, Holds-rest other je h, ==_iff action other)

  pub drop_entry-gone : lookup action (drop_entry s action ie).index ≡ none
  drop_entry-gone = rw (drop_entry-lookup action, ==_refl action)

  pub drop_entry-other :
      (other : String)
      → (action == other) ≡ false
      → lookup other (drop_entry s action ie).index ≡ lookup other s.index
  drop_entry-other other apart = rw (drop_entry-lookup other, apart)
