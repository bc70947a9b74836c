-- ===== src/RecordPool/Reconcile.antt =====
-- The start of a pool (DiscoverPages, Valid, NoteOccupied, NoteUnpromoted, FinishReconcile): the
-- stacks of free slots from what the caller's index says.
pub mod Views
use gocacheprog.Prelude.{
  ℕ, zero, suc, ◌+◌, ◌*◌, ◌≡◌, ◌∙◌, refl, Bool, true, false, not, ◌&&◌, ◌||◌, inl, inr, Bool-cases,
  Option-cases, Option, none, some, List, [], ◌∷◌, arith, eqb, eqb_iff, ltb, if◌then◌else◌, nat_eq,
}
use gocacheprog.Prelude.Maps.{lookup, insert, lookup-insert, lookup-map_values, map_values}
use gocacheprog.RecordPool.{
  Loc, is_zero, Page, Class, Pool, contains, set_page, set_class, page_capacity, count_of,
}
use gocacheprog.RecordPool.{read_at}
use gocacheprog.RecordPool.Put.{same_loc}
use gocacheprog.RecordPool.View.{page_view, class_view, view}

-- A directory entry: a directory, a name that is not a page's, or a page with the size and the number
-- of its name and, if it can be opened, its bytes.
pub data DirEntry : Type 0 where
  directory other_file : DirEntry
  page_file : ℕ → ℕ → Option (List ℕ) → DirEntry

-- the class of a size, made if it is new
unfoldable pub class_of : Pool → ℕ → Class
class_of p size = elim (lookup size p.classes) [
  | some c ↦ c
  | none ↦ record {
    record_size = size;
    capacity = page_capacity p.page_bytes size;
    pages = [];
    next_page = 0;
  }
]

abbrev pub add_discovered : Pool → ℕ → ℕ → List ℕ → Class → Pool
add_discovered p size n bytes c = set_class p size (record c {
  pages = insert n (record { file = bytes; free = [] }) c.pages;
  next_page = if ltb c.next_page n then n else c.next_page;
})

-- `none` is the error of a page that cannot be opened. Pages are registered with no free slot.
unfoldable pub discover_pages : Pool → List DirEntry → Option Pool
unfolding class_of
discover_pages p [] = some p
discover_pages p (directory ∷ rest) = discover_pages p rest
discover_pages p (other_file ∷ rest) = discover_pages p rest
discover_pages p (page_file zero n bytes ∷ rest) = discover_pages p rest
discover_pages p (page_file (suc size) n none ∷ rest) = none
discover_pages p (page_file (suc size) n (some bytes) ∷ rest) =
    discover_pages (add_discovered p (suc size) n bytes (class_of p (suc size))) rest

unfoldable pub valid : Pool → ℕ → Loc → Bool
valid p size loc = if is_zero loc then true else (elim (lookup size p.classes) [
  | none ↦ false
  | some c ↦ elim (lookup loc.page c.pages) [ none ↦ false | some pg ↦ ltb loc.slot c.capacity ]
])

-- until finish_reconcile `free` holds the occupied slots
unfoldable pub note_occupied : Pool → ℕ → Loc → Pool
note_occupied p size loc = if is_zero loc then p else (elim (lookup size p.classes) [
  | none ↦ p
  | some c ↦ elim (lookup loc.page c.pages) [
    | none ↦ p
    | some pg ↦ set_class p size (set_page c loc.page (record pg { free = loc.slot ∷ pg.free }))
  ]
])

unfoldable pub note_unpromoted : Pool → ℕ → Pool
note_unpromoted p size = elim (lookup size p.classes) [
  | some c ↦ p
  | none ↦ record p { counts = insert size (count_of p size + 1) p.counts }
]

-- the slots below `n` that `used` does not hold, the highest on top
unfoldable pub unused_below : ℕ → List ℕ → List ℕ
unused_below zero used = []
unused_below (suc n) used =
    let rest = unused_below n used in if contains used n then rest else n ∷ rest

unfoldable pub finish_page : ℕ → Page → Page
unfolding unused_below
finish_page capacity pg = record pg { free = unused_below capacity pg.free }

unfoldable pub finish_class : Class → Class
unfolding finish_page
finish_class c = record c { pages = map_values (finish_page c.capacity) c.pages }

unfoldable pub finish_reconcile : Pool → Pool
unfolding finish_class
finish_reconcile p = record p { classes = map_values finish_class p.classes }
