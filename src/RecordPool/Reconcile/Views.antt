-- ===== src/RecordPool/Reconcile/Views.antt =====
-- Proofs about the start of a pool: what the abstract view shows after FinishReconcile.
use gocacheprog.Prelude.{
  ℕ, zero, suc, ◌*◌, ◌≡◌, ◌∙◌, refl, Bool, false, not, ◌&&◌, ◌||◌, inl, inr, Bool-cases,
  Option-cases, Option, none, some, List, [], ◌∷◌, arith, eqb, eqb_iff, ltb, if◌then◌else◌, nat_eq,
}
use gocacheprog.Prelude.Maps.{lookup, insert, lookup-insert, lookup-map_values}
use gocacheprog.RecordPool.{Loc, is_zero, Page, Class, Pool, contains, set_page, read_at}
use gocacheprog.RecordPool.Put.{same_loc}
use gocacheprog.RecordPool.View.{page_view, class_view, view}
use gocacheprog.RecordPool.Reconcile.{
  DirEntry, directory, other_file, page_file, class_of, add_discovered, discover_pages, valid,
  note_occupied, unused_below, finish_page, finish_class, finish_reconcile,
}

contains-unused_below :
    (n s : ℕ) (used : List ℕ)
    → contains (unused_below n used) s ≡ (ltb s n && not (contains used s))
unfolding contains unused_below
contains-unused_below zero s used = ground arith
contains-unused_below (suc n) s used = ground (arith, contains-unused_below n s used)

-- NoteOccupied for each entry of an index.
unfoldable pub note_all : Pool → List (ℕ × Loc) → Pool
note_all p [] = p
note_all p ((size, loc) ∷ rest) = note_all (note_occupied p size loc) rest

abbrev pub listed : List (ℕ × Loc) → ℕ → Loc → Bool
listed [] k l = false
listed ((size, loc) ∷ rest) k l = (eqb size k && same_loc loc l) || listed rest k l

-- The location of a page that the pool has, and the slot of it is noted.
unfoldable pub noted : Pool → ℕ → Loc → Bool
noted p k l = elim (lookup k p.classes) [
  | none ↦ false
  | some c ↦ elim (lookup l.page c.pages) [
    | none ↦ false
    | some pg ↦ ltb l.slot c.capacity && contains pg.free l.slot
  ]
]

-- The bytes of a location, whether it is in use or not.
unfoldable pub bytes : Pool → ℕ → Loc → Option (List ℕ)
bytes p k l = elim (lookup k p.classes) [
  | none ↦ none
  | some c ↦ elim (lookup l.page c.pages) [
    | none ↦ none
    | some pg ↦ read_at pg.file (l.slot * c.record_size) c.record_size
  ]
]

view-finish_reconcile :
    (p : Pool) (k : ℕ) (l : Loc)
    → view (finish_reconcile p) k l ≡ (if noted p k l then bytes p k l else none)
unfolding view class_view page_view finish_reconcile noted bytes
view-finish_reconcile p k l = elim (Option-cases (lookup k p.classes)) [
  | inl e ↦ ground (arith, e, lookup-map_values finish_class k p.classes)
  | inr (c, e) ↦ elim (Option-cases (lookup l.page c.pages)) [
    | inl q ↦ ground (
      arith,
      lookup-map_values finish_class k p.classes,
      lookup-map_values (finish_page c.capacity) l.page c.pages,
    )
    | inr (pg, q) ↦ ground (
      arith,
      lookup-map_values finish_class k p.classes,
      lookup-map_values (finish_page c.capacity) l.page c.pages,
      contains-unused_below c.capacity l.slot pg.free,
    )
  ]
]

-- What a question about the page of a location answers.
abbrev at_page : {X : Type 0} → X → (ℕ → ℕ → Page → X) → Pool → ℕ → Loc → X
at_page absent f p k l = elim (lookup k p.classes) [
  | none ↦ absent
  | some c ↦ elim (lookup l.page c.pages) [
    | none ↦ absent
    | some pg ↦ f c.capacity c.record_size pg
  ]
]

-- The page of a location after NoteOccupied.
abbrev after_note : ℕ → Loc → ℕ → Loc → Page → Page
after_note size loc k l pg =
    if not (is_zero loc) && eqb size k && eqb loc.page l.page
    then record pg { free = loc.slot ∷ pg.free }
    else pg

at_page-note_occupied :
    {X : Type 0} (absent : X) (f : ℕ → ℕ → Page → X) (p : Pool) (size : ℕ) (loc : Loc) (k : ℕ)
    (l : Loc)
    → at_page absent f (note_occupied p size loc) k l
      ≡ at_page absent (λ capacity width pg. f capacity width (after_note size loc k l pg)) p k l
unfolding note_occupied
at_page-note_occupied absent f p size loc k l = elim (Bool-cases (is_zero loc)) [
  | inl z ↦ ground arith
  | inr z ↦ elim (Option-cases (lookup size p.classes)) [
    | inl e ↦ ground (arith, eqb_iff size k)
    | inr (c, e) ↦ elim (Option-cases (lookup loc.page c.pages)) [
      | inl q ↦ ground (arith, eqb_iff size k, eqb_iff loc.page l.page)
      | inr (pg, q) ↦
          let pg' = record pg { free = loc.slot ∷ pg.free } in
          ground (
            arith,
            eqb_iff size k,
            eqb_iff loc.page l.page,
            lookup-insert size k (set_page c loc.page pg') p.classes,
            lookup-insert loc.page l.page pg' c.pages,
          )
    ]
  ]
]

noted-note_occupied :
    (p : Pool) (size : ℕ) (loc : Loc) (k : ℕ) (l : Loc)
    → noted (note_occupied p size loc) k l
      ≡ (noted p k l || (eqb size k && same_loc loc l && not (is_zero loc) && valid p k l))
unfolding noted valid contains
noted-note_occupied p size loc k l =
    at_page-note_occupied false
      (λ capacity width pg. ltb l.slot capacity && contains pg.free l.slot) p size loc k l
    ∙ ground arith

bytes-note_occupied :
    (p : Pool) (size : ℕ) (loc : Loc) (k : ℕ) (l : Loc)
    → bytes (note_occupied p size loc) k l ≡ bytes p k l
unfolding bytes
bytes-note_occupied p size loc k l =
    at_page-note_occupied none (λ capacity width pg. read_at pg.file (l.slot * width) width) p size
      loc k l
    ∙ ground arith

valid-note_occupied :
    (p : Pool) (size : ℕ) (loc : Loc) (k : ℕ) (l : Loc)
    → valid (note_occupied p size loc) k l ≡ valid p k l
unfolding valid
valid-note_occupied p size loc k l = elim (Bool-cases (is_zero l)) [
  | inl z ↦ rw z
  | inr z ↦
      rw z (at_page-note_occupied false (λ capacity width pg. ltb l.slot capacity) p size loc k l)
]

noted-note_all :
    (p : Pool) (entries : List (ℕ × Loc)) (k : ℕ) (l : Loc)
    → is_zero l ≡ false
    → noted (note_all p entries) k l ≡ (noted p k l || (listed entries k l && valid p k l))
unfolding note_all
noted-note_all p [] k l h = ground arith
noted-note_all p ((size, loc) ∷ rest) k l h =
    noted-note_all (note_occupied p size loc) rest k l h
    ∙ ground (arith, noted-note_occupied p size loc k l, valid-note_occupied p size loc k l)

bytes-note_all :
    (p : Pool) (entries : List (ℕ × Loc)) (k : ℕ) (l : Loc)
    → bytes (note_all p entries) k l ≡ bytes p k l
unfolding note_all
bytes-note_all p [] k l = refl
bytes-note_all p ((size, loc) ∷ rest) k l =
    bytes-note_all (note_occupied p size loc) rest k l ∙ bytes-note_occupied p size loc k l

-- A pool where nothing is noted yet, such as a discovered one, holds after NoteOccupied for each
-- entry of an index and FinishReconcile exactly what the index lists: at each location that is not
-- the zero value, the bytes of the page if the index lists the location and Valid accepts it, and
-- nothing otherwise.
pub finish_reconcile-note_all :
    (p : Pool) (entries : List (ℕ × Loc))
    → ((k : ℕ) (l : Loc) → noted p k l ≡ false)
    → (k : ℕ) (l : Loc) → is_zero l ≡ false
    → view (finish_reconcile (note_all p entries)) k l
      ≡ (if listed entries k l && valid p k l then bytes p k l else none)
finish_reconcile-note_all p entries clean k l h =
    view-finish_reconcile (note_all p entries) k l
    ∙ ground (arith, noted-note_all p entries k l h, bytes-note_all p entries k l, clean k l)

noted-add_discovered :
    (p : Pool) (size n : ℕ) (file : List ℕ) (k : ℕ) (l : Loc)
    → noted p k l ≡ false
    → noted (add_discovered p size n file (class_of p size)) k l ≡ false
unfolding noted class_of contains
noted-add_discovered p size n file k l h =
    let c = class_of p size in
    let pg : Page = record { file = file; free = [] } in
    let c' : Class = record c {
      pages = insert n pg c.pages;
      next_page = if ltb c.next_page n then n else c.next_page;
    } in
    ground (
      arith,
      eqb_iff size k,
      eqb_iff n l.page,
      lookup-insert size k c' p.classes,
      lookup-insert n l.page pg c.pages,
    )

-- A pool whose pages were just discovered has nothing noted.
pub noted-discover_pages :
    (p q : Pool) (entries : List DirEntry)
    → ((k : ℕ) (l : Loc) → noted p k l ≡ false)
    → discover_pages p entries ≡ some q
    → (k : ℕ) (l : Loc) → noted q k l ≡ false
unfolding discover_pages
noted-discover_pages p q [] clean h k l = ground (arith, clean k l)
noted-discover_pages p q (directory ∷ rest) clean h k l = noted-discover_pages p q rest clean h k l
noted-discover_pages p q (other_file ∷ rest) clean h k l = noted-discover_pages p q rest clean h k l
noted-discover_pages p q (page_file zero n b ∷ rest) clean h k l =
    noted-discover_pages p q rest clean h k l
noted-discover_pages p q (page_file (suc size) n none ∷ rest) clean h k l = cc
noted-discover_pages p q (page_file (suc size) n (some b) ∷ rest) clean h k l =
    noted-discover_pages (add_discovered p (suc size) n b (class_of p (suc size))) q rest
      (λ k' l'. noted-add_discovered p (suc size) n b k' l' (clean k' l')) h k l

-- A pool in which no slot is noted, that then finds the page files of a directory and notes every
-- entry of an index, shows at a location that is not zero the bytes of its page if the index lists
-- the location and Valid accepts it, and else shows the location free.
pub view-reconcile :
    (p q : Pool) (files : List DirEntry) (entries : List (ℕ × Loc))
    → ((k : ℕ) (l : Loc) → noted p k l ≡ false)
    → discover_pages p files ≡ some q
    → (k : ℕ) (l : Loc) → is_zero l ≡ false
    → view (finish_reconcile (note_all q entries)) k l
      ≡ (if listed entries k l && valid q k l then bytes q k l else none)
view-reconcile p q files entries clean e k l h =
    finish_reconcile-note_all q entries (noted-discover_pages p q files clean e) k l h
