-- ===== src/RecordPool.antt =====
-- internal/recordpool/recordpool.go: records of one size packed into fixed-length page files.
-- A file is its bytes. The outcome of each call of the operating system is an argument (`Io`).
-- Sizes are int64 and stand for numbers that are not negative; page and slot numbers are uint32.
pub mod Files
pub mod View
pub mod Pages
pub mod Slots
pub mod Allocation
pub mod Classes
pub mod Promotion
pub mod Put
pub mod Free
pub mod Reconcile
mod Tests
unfoldable pub use Files.{write_at, read_at}
use gocacheprog.Prelude.{
  ℕ, zero, suc, ◌+◌, ◌-◌, ◌*◌, ◌/◌, ◌%◌, ◌^◌, Bool, true, false, not, ◌||◌, ◌&&◌, Option, none,
  some, List, [], ◌∷◌, map, ltb, eqb, if◌then◌else◌, length, take, replicate,
}
use gocacheprog.Prelude.Maps.{lookup, insert, remove}
use gocacheprog.Prelude.{nat_eq}

-- A page number of 0 says that the record is not in the pool.
pub record Loc : Type 0 where
  pub page : ℕ
  pub slot : ℕ

abbrev pub is_zero : Loc → Bool
is_zero loc = eqb loc.page 0

-- `free` is the stack of the free slots, its top first.
pub record Page : Type 0 where
  pub file : List ℕ
  pub free : List ℕ

pub record Class : Type 0 where
  pub record_size : ℕ
  pub capacity : ℕ
  pub pages : List (ℕ × Page)
  pub next_page : ℕ

pub record Pool : Type 0 where
  pub max_record_bytes : ℕ
  pub page_bytes : ℕ
  pub breakeven : ℕ
  pub write_seq : ℕ
  pub classes : List (ℕ × Class)
  pub counts : List (ℕ × ℕ)

abbrev pub u32_mod : ℕ
u32_mod = 2 ^ 32

-- New with its two options
abbrev pub new : ℕ → ℕ → Pool
new max_record_bytes page_bytes = record {
  max_record_bytes = max_record_bytes;
  page_bytes = page_bytes;
  breakeven = page_bytes / 4096;
  write_seq = 0;
  classes = [];
  counts = [];
}

-- The step of createPageLocked that fails.
pub data CreateFault : Type 0 where
  mkdir open_tmp zeroes close rename reopen : CreateFault

pub data PoolError : Type 0 where
  create_failed write_failed unknown_class unknown_page read_failed : PoolError

-- What the operating system answers: creating a page works or fails at a step; a write works, or
-- fails when `n` bytes are written.
pub record Io : Type 0 where
  pub create : Option CreateFault
  pub write : Option ℕ

abbrev pub page_capacity : ℕ → ℕ → ℕ
page_capacity page_bytes size = (page_bytes / size) % u32_mod

abbrev pub set_page : Class → ℕ → Page → Class
set_page c n pg = record c { pages = insert n pg c.pages }

abbrev pub set_class : Pool → ℕ → Class → Pool
set_class p size c = record p { classes = insert size c p.classes }

-- the slots below `n`, the highest on top
unfoldable pub slots_below : ℕ → List ℕ
slots_below zero = []
slots_below (suc n) = n ∷ slots_below n

unfoldable pub contains : List ℕ → ℕ → Bool
contains [] s = false
contains (t ∷ l) s = eqb t s || contains l s

-- createPageLocked; the number with the page is the new writeSeq
unfoldable pub create_page : Io → ℕ → Class → Option Page × ℕ
unfolding slots_below
create_page io seq c = elim io.create [
  | none ↦ (
    some
        (record { file = replicate (c.capacity * c.record_size) 0; free = slots_below c.capacity }),
    seq + 1,
  )
  | some mkdir ↦ (none, seq)
  | some _ ↦ (none, seq + 1)
]

pub data Alloc : Type 0 where
  allocated : ℕ → ℕ → Class → Alloc
  refused : Alloc
  -- the index into an empty free list panics
  no_slot : Alloc

-- the slot on top of the stack, and the page without it
unfoldable pub pop_slot : Page → Option (ℕ × Page)
pop_slot pg = elim pg.free [ [] ↦ none | s ∷ rest ↦ some (s, record pg { free = rest }) ]

-- `for pn := 1; pn <= nextPage; pn++`, with the rounds left
unfoldable pub find_free : ℕ → ℕ → List (ℕ × Page) → Option (ℕ × ℕ × Page)
unfolding pop_slot
find_free zero pn pages = none
find_free (suc rounds) pn pages = elim (lookup pn pages) [
  | none ↦ find_free rounds (suc pn) pages
  | some pg ↦ elim (pop_slot pg) [
    | none ↦ find_free rounds (suc pn) pages
    | some (s, rest) ↦ some (pn, s, rest)
  ]
]

-- the end of allocateLocked, with the page that createPageLocked returned
unfoldable pub add_page : Class → ℕ → Option Page → Alloc
unfolding pop_slot
add_page c n none = refused
add_page c n (some pg) = elim (pop_slot pg) [
  | none ↦ no_slot
  | some (s, rest) ↦ allocated n s (record c { pages = insert n rest c.pages; next_page = n })
]

unfoldable pub allocate : Io → ℕ → Class → Alloc × ℕ
unfolding find_free create_page add_page
allocate io seq c = elim (find_free c.next_page 1 c.pages) [
  | some (pn, s, pg) ↦ (allocated pn s (set_page c pn pg), seq)
  | none ↦
      let n = (c.next_page + 1) % u32_mod in
      let (made, seq') = create_page io seq c in (add_page c n made, seq')
]

-- freeLocked: the page goes when all its slots are free
unfoldable pub free_slot : Class → ℕ → ℕ → Class
free_slot c n s = elim (lookup n c.pages) [
  | none ↦ c
  | some pg ↦
      let free = s ∷ pg.free in
      if ltb (length free) c.capacity
      then set_page c n (record pg { free = free })
      else record c { pages = remove n c.pages }
]

pub data PutResult : Type 0 where
  stored : Loc → PutResult
  declined : PutResult
  failed : PoolError → PutResult
  panicked : PutResult

unfoldable pub count_of : Pool → ℕ → ℕ
count_of p size = elim (lookup size p.counts) [ none ↦ 0 | some n ↦ n ]

-- The class that a size has, or gets now; none while the size is not promoted.
unfoldable pub promote : Pool → ℕ → Option Class × Pool
unfolding count_of
promote p size = elim (lookup size p.classes) [
  | some c ↦ (some c, p)
  | none ↦
      let n = count_of p size + 1 in
      if ltb n p.breakeven
      then (none, record p { counts = insert size n p.counts })
      else (let c : Class = record {
        record_size = size;
        capacity = page_capacity p.page_bytes size;
        pages = [];
        next_page = 0;
      } in
          (some c, record (set_class p size c) { counts = remove size p.counts }))
]

-- WriteAt, and freeLocked if it fails
unfoldable pub write_record : Option ℕ → Pool → ℕ → List ℕ → Alloc → PutResult × Pool
unfolding free_slot write_at
write_record w p size body refused = (failed create_failed, p)
write_record w p size body no_slot = (panicked, p)
write_record w p size body (allocated n s c) = elim (lookup n c.pages) [
  | none ↦ (panicked, set_class p size c)
  | some pg ↦ elim w [
    | none ↦ (
      stored (record { page = n; slot = s }),
      set_class p size (set_page c n (record pg { file = write_at pg.file (s * size) body })),
    )
    | some k ↦
        let torn = record pg { file = write_at pg.file (s * size) (take k body) } in
        (failed write_failed, set_class p size (free_slot (set_page c n torn) n s))
  ]
]

-- Put once a class is asked for: none if the size is not promoted yet.
abbrev pub put_promoted : Io → ℕ → List ℕ → Option Class × Pool → PutResult × Pool
put_promoted io size body (none, p) = (declined, p)
put_promoted io size body (some c, p) =
    write_record io.write (record p { write_seq = (allocate io p.write_seq c).1 }) size body
      (allocate io p.write_seq c).0

unfoldable pub put : Io → Pool → ℕ → List ℕ → PutResult × Pool
unfolding promote allocate write_record
put io p size body =
    if eqb size 0 || ltb p.max_record_bytes size || not (eqb (length body) size)
    then (declined, p)
    else put_promoted io size body (promote p size)

pub data ReadResult : Type 0 where
  found : List ℕ → ReadResult
  read_error : PoolError → ReadResult

unfoldable pub read : Pool → ℕ → Loc → ReadResult
unfolding read_at
read p size loc = elim (lookup size p.classes) [
  | none ↦ read_error unknown_class
  | some c ↦ elim (lookup loc.page c.pages) [
    | none ↦ read_error unknown_page
    | some pg ↦ elim (read_at pg.file (loc.slot * size) size) [
      | none ↦ read_error read_failed
      | some body ↦ found body
    ]
  ]
]

unfoldable pub free : Pool → ℕ → Loc → Pool
unfolding free_slot
free p size loc = elim (lookup size p.classes) [
  | none ↦ p
  | some c ↦ set_class p size (free_slot c loc.page loc.slot)
]
