-- ===== src/RecordPool/Tests.antt =====
-- A pool with pages of eight bytes for records of up to four.
use gocacheprog.Prelude.{
  ℕ, ◌≡◌, refl, false, none, some, List, [], ◌∷◌, arith, eqb, ◌&&◌, if◌then◌else◌,
}
use gocacheprog.RecordPool.{
  Io, Pool, Class, Loc, new, put, stored, found, read, free, allocate, allocated, set_class,
  promote, count_of, write_record, write_at, find_free, create_page, add_page, slots_below,
  pop_slot, contains, read_at,
}
use gocacheprog.RecordPool.Files.{overwrite}
use gocacheprog.RecordPool.View.{view, IsPool, IsClass, class_view, page_view}
use gocacheprog.RecordPool.Put.{Puts, HasPages, same_loc, put-Puts}
use gocacheprog.RecordPool.Free.{read-put, view-free}
use gocacheprog.RecordPool.Allocation.{Takes, allocate-Takes}
use gocacheprog.RecordPool.Reconcile.{
  DirEntry, directory, page_file, discover_pages, class_of, finish_reconcile, valid,
}
use gocacheprog.RecordPool.Reconcile.Views.{note_all, noted, listed, bytes, view-reconcile}

abbrev io : Io
io = record { create = none; write = none }

abbrev empty : Pool
empty = new 4 8

empty-IsPool : IsPool empty
empty-IsPool = record { fits = omega arith; bounded = omega arith; classes = λ size c h. cc h }

empty-HasPages : HasPages empty 2
empty-HasPages c h = cc h

abbrev two_bytes : List ℕ
two_bytes = 7 ∷ 8 ∷ []

put-Puts_example :
    IsPool (put io empty 2 two_bytes).1
    × Puts empty 2 two_bytes (put io empty 2 two_bytes).0 (put io empty 2 two_bytes).1
put-Puts_example = put-Puts io empty 2 two_bytes empty-IsPool empty-HasPages

abbrev first_slot : Loc
first_slot = record { page = 1; slot = 3 }

abbrev filled : Pool
filled = (put io empty 2 two_bytes).1

put-two_bytes : put io empty 2 two_bytes ≡ (stored first_slot, filled)
unfolding put promote count_of allocate find_free create_page add_page slots_below pop_slot
    write_record write_at
put-two_bytes = refl

read-put_example :
    (read filled 2 first_slot ≡ found two_bytes)
    × ((k : ℕ) (l : Loc) (b : List ℕ) → view empty k l ≡ some b → read filled k l ≡ found b)
read-put_example =
    read-put io empty filled 2 two_bytes first_slot empty-IsPool empty-HasPages put-two_bytes

filled-IsPool : IsPool filled
filled-IsPool = (put-Puts io empty 2 two_bytes empty-IsPool empty-HasPages).0

view-two_bytes : view filled 2 first_slot ≡ some two_bytes
unfolding put promote count_of allocate find_free create_page add_page slots_below pop_slot
    write_record write_at overwrite view class_view page_view contains read_at
view-two_bytes = refl

view-free_example :
    IsPool (free filled 2 first_slot)
    × ((k : ℕ) (l : Loc)
        → view (free filled 2 first_slot) k l
          ≡ (if eqb 2 k && same_loc first_slot l then none else view filled k l))
view-free_example = view-free filled 2 first_slot two_bytes filled-IsPool view-two_bytes

abbrev no_pages : Class
no_pages = record { record_size = 2; capacity = 4; pages = []; next_page = 0 }

no_pages-IsClass : IsClass 2 no_pages
no_pages-IsClass = record { sized = refl; roomy = omega arith; pages = λ n pg h. cc h }

abbrev one_page : Class
one_page = record no_pages {
  pages = (1, record { file = 0 ∷ 0 ∷ 0 ∷ 0 ∷ 0 ∷ 0 ∷ 0 ∷ 0 ∷ []; free = 2 ∷ 1 ∷ 0 ∷ [] }) ∷ [];
  next_page = 1;
}

first_allocation : (allocate io 0 no_pages).0 ≡ allocated 1 3 one_page
unfolding allocate find_free create_page add_page slots_below pop_slot
first_allocation = refl

allocate-Takes_example : Takes 2 no_pages 1 3 one_page
allocate-Takes_example =
    allocate-Takes io 0 2 no_pages 1 3 one_page no_pages-IsClass (omega arith) first_allocation

abbrev files : List DirEntry
files = directory ∷ page_file 2 1 (some (1 ∷ 2 ∷ 3 ∷ 4 ∷ 5 ∷ 6 ∷ 7 ∷ 8 ∷ [])) ∷ []

abbrev discovered : Pool
discovered = set_class empty 2 (record no_pages {
  pages = (1, record { file = 1 ∷ 2 ∷ 3 ∷ 4 ∷ 5 ∷ 6 ∷ 7 ∷ 8 ∷ []; free = [] }) ∷ [];
  next_page = 1;
})

discover_files : discover_pages empty files ≡ some discovered
unfolding discover_pages class_of
discover_files = refl

nothing_noted : (k : ℕ) (l : Loc) → noted empty k l ≡ false
unfolding noted
nothing_noted k l = refl

view-reconcile_example :
    view (finish_reconcile (note_all discovered ((2, first_slot) ∷ []))) 2 first_slot ≡ (
      if listed ((2, first_slot) ∷ []) 2 first_slot && valid discovered 2 first_slot
      then bytes discovered 2 first_slot
      else none)
view-reconcile_example =
    view-reconcile empty discovered files ((2, first_slot) ∷ []) nothing_noted discover_files 2
      first_slot refl
