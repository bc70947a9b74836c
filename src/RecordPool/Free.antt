-- ===== src/RecordPool/Free.antt =====
-- Read and Free against the abstract view.
use gocacheprog.Prelude.{
  ℕ, ◌<◌, ◌*◌, ◌≡◌, ◌∙◌, true, false, ◌&&◌, inl, inr, Bool-cases, Option-cases, none, some, List,
  arith, eqb, eqb_iff, if◌then◌else◌, nat_eq,
}
use gocacheprog.Prelude.Maps.{lookup}
use gocacheprog.RecordPool.{
  Loc, Io, Page, Class, Pool, stored, put, read, free, found, contains, read_at,
}
use gocacheprog.RecordPool.View.{page_view, class_view, view, IsPool}
use gocacheprog.RecordPool.Classes.{class_view-free_slot_listed, free_slot-IsClass_listed}
use gocacheprog.RecordPool.Put.{HasPages, same_loc, put-Puts}
use gocacheprog.RecordPool.Promotion.{view-set_class, view-listed, set_class-IsPool}

-- Where the view shows a body there is a class with a page whose slot is in use.
record Held (p : Pool) (size : ℕ) (loc : Loc) (body : List ℕ) : Type 0 where
  class : Class
  page : Page
  listed : lookup size p.classes ≡ some class
  paged : lookup loc.page class.pages ≡ some page
  inside : loc.slot < class.capacity
  busy : contains page.free loc.slot ≡ false
  bytes : read_at page.file (loc.slot * class.record_size) class.record_size ≡ some body

view-Held :
    (p : Pool) (size : ℕ) (loc : Loc) (body : List ℕ)
    → view p size loc ≡ some body
    → Held p size loc body
view-Held p size loc body h = elim (Option-cases (lookup size p.classes)) [
  | inl e ↦ unfold view in cc (rw (e, view) at h)
  | inr (c, e) ↦ elim (Option-cases (lookup loc.page c.pages)) [
    | inl q ↦ unfold view class_view in cc (rw (e, view, class_view, q) at h)
    | inr (pg, q) ↦
        let shown : page_view c.record_size c.capacity pg loc.slot ≡ some body =
          unfold view class_view page_view in rw (e, view, class_view, q) at h in
        record {
          class = c;
          page = pg;
          listed = e;
          paged = q;
          inside = unfold page_view in ground (arith, shown);
          busy = unfold page_view in ground (arith, shown);
          bytes = unfold page_view in ground (arith, shown);
        }
  ]
]

-- Read returns what the view shows.
pub read-view :
    (p : Pool) (size : ℕ) (loc : Loc) (body : List ℕ)
    → IsPool p
    → view p size loc ≡ some body
    → read p size loc ≡ found body
unfolding read
read-view p size loc body v h =
    let s = view-Held p size loc body h in
    let sized = (v.classes size s.class s.listed).sized in
    rw (s.listed, read, s.paged, rw sized at s.bytes)

view-same :
    (p : Pool) (size k : ℕ) (a b : Loc)
    → (eqb size k && same_loc a b) ≡ true
    → view p k b ≡ view p size a
view-same p size k a b e =
    let sizes : k ≡ size = ground arith in let locs : b ≡ a = ground arith in rw (sizes, locs)

-- On a well-formed pool whose size class has page numbers left, a read at the location that put
-- gave returns the body that was put, and a read at any location that held a record before returns
-- that record.
pub read-put :
    (io : Io) (p p' : Pool) (size : ℕ) (body : List ℕ) (loc : Loc)
    → IsPool p
    → HasPages p size
    → put io p size body ≡ (stored loc, p')
    → (read p' size loc ≡ found body)
      × ((k : ℕ) (l : Loc) (b : List ℕ) → view p k l ≡ some b → read p' k l ≡ found b)
read-put io p p' size body loc v room e =
    let (ok, puts) = rw e at (put-Puts io p size body v room) in
    let (proper, fresh, after) = puts in
    (
      read-view p' size loc body ok (after size loc ∙ ground arith),
      λ k l b h. read-view p' k l b ok (
          after k l ∙ elim (Bool-cases (eqb size k && same_loc loc l)) [
            | inl same ↦ cc (fresh, h, view-same p size k loc l same)
            | inr other ↦ rw other h
          ]),
    )

-- On a well-formed pool, freeing a location that holds a record gives a well-formed pool in which
-- that location is free and every other location shows what it showed, also when the page goes with
-- its last record.
pub view-free :
    (p : Pool) (size : ℕ) (loc : Loc) (body : List ℕ)
    → IsPool p
    → view p size loc ≡ some body
    → IsPool (free p size loc)
      × ((k : ℕ) (l : Loc)
          → view (free p size loc) k l
            ≡ (if eqb size k && same_loc loc l then none else view p k l))
view-free p size loc body v h =
    let s = view-Held p size loc body h in
    let ok = v.classes size s.class s.listed in
    unfold free in
    rw (s.listed, free)
      (
        set_class-IsPool p size _ v (
            free_slot-IsClass_listed size s.class loc.page loc.slot ok s.page s.paged s.inside
              s.busy),
        λ k l. view-set_class p size _ k l ∙ elim (Bool-cases (eqb size k)) [
          | inl e ↦
              rw (e, ← (eqb_iff size k).0 e, view-listed p size s.class l s.listed)
                (class_view-free_slot_listed size s.class loc.page loc.slot ok s.page l.page l.slot
                  s.paged s.inside s.busy)
          | inr e ↦ rw e
        ],
      )
