-- ===== src/RecordPool/Put.antt =====
-- Proofs about Put against the abstract view.
use gocacheprog.Prelude.{
  ℕ, ◌+◌, ◌≤◌, ◌<◌, ◌≡◌, ◌≢◌, ◌∙◌, ap, refl, sym, Bool, false, not, ◌&&◌, ◌||◌, inl, inr,
  Bool-cases, Option-cases, Option, none, some, List, arith, eqb, eqb_iff, ltb, if◌then◌else◌,
  length, take, length-take_le, nat_eq,
}
use gocacheprog.Prelude.Maps.{lookup, lookup-insert_self}
use gocacheprog.RecordPool.{
  count_of, Loc, is_zero, Io, Class, Pool, PutResult, stored, declined, failed, panicked, Alloc,
  allocated, refused, no_slot, u32_mod, set_class, set_page, free_slot, promote, allocate,
  write_record, put, put_promoted,
}
use gocacheprog.RecordPool.View.{view, IsPool}
use gocacheprog.RecordPool.Allocation.{Takes, allocate-Takes, allocate-ne-no_slot}
use gocacheprog.RecordPool.Classes.{
  class_view-filled, filled, filled-IsClass, torn, torn_freed-IsClass, class_view-torn_freed,
}
use gocacheprog.RecordPool.Promotion.{
  SameRecords, view-set_class, view-listed, set_class-IsPool, Promoted, new_class, new_pool,
  promote-known, promote-few, promote-new, new_pool-Promoted,
}

abbrev pub same_loc : Loc → Loc → Bool
same_loc a b = eqb a.page b.page && eqb a.slot b.slot

-- A stored record gets a location that is not the zero value and held nothing, and every other
-- location is as before. Without a stored record no location changes, and there is no panic.
abbrev pub Puts : Pool → ℕ → List ℕ → PutResult → Pool → Type 0
Puts p size body (stored loc) p' =
    (is_zero loc ≡ false)
    × (view p size loc ≡ none)
    × ((k : ℕ) (l : Loc)
        → view p' k l ≡ (if eqb size k && same_loc loc l then some body else view p k l))
Puts p size body declined p' = SameRecords p p'
Puts p size body (failed e) p' = SameRecords p p'
Puts p size body panicked p' = ⊥

-- The page numbers of a size are not used up.
abbrev pub HasPages : Pool → ℕ → Type 0
HasPages p size = (c : Class) → lookup size p.classes ≡ some c → c.next_page + 1 < u32_mod

-- A record written to the slot that allocateLocked returned.
module _ (p : Pool) (size : ℕ) (body : List ℕ) (c : Class) (pr : Promoted p size c p) where
  module _ (n s : ℕ) (c' : Class) (t : Takes size c n s c') where
    page_of : lookup n c'.pages ≡ some t.page
    page_of = rw (t.made) (lookup-insert_self n t.page c.pages)

    view-stored :
        (k : ℕ) (l : Loc)
        → length body ≡ size
        → view (set_class p size (set_page c' n (filled size c n s body c' t))) k l ≡ (
            if eqb size k && same_loc (record { page = n; slot = s }) l
            then some body
            else view p k l)
    view-stored k l fits =
        view-set_class p size (set_page c' n (filled size c n s body c' t)) k l
        ∙ elim (Bool-cases (eqb size k)) [
          | inl e ↦
              rw (e, ← (eqb_iff size k).0 e, view-listed p size c l pr.listed)
                (class_view-filled size c n s body c' t pr.class l.page l.slot fits)
          | inr e ↦ rw e
        ]

    view-torn_freed :
        (bytes : List ℕ) (fits : length bytes ≤ size)
        → SameRecords p
            (set_class p size (free_slot (torn size c n s bytes c' t pr.class fits) n s))
    view-torn_freed bytes fits k l = view-set_class p size _ k l ∙ elim (Bool-cases (eqb size k)) [
      | inl e ↦
          rw (e, ← (eqb_iff size k).0 e, view-listed p size c l pr.listed)
            (class_view-torn_freed size c n s bytes c' t pr.class fits l.page l.slot)
      | inr e ↦ rw e
    ]

  write_record-Puts :
      (w : Option ℕ) (a : Alloc)
      → length body ≡ size
      → a ≢ no_slot
      → ((n s : ℕ) (c' : Class) → a ≡ allocated n s c' → Takes size c n s c')
      → IsPool (write_record w p size body a).1
        × Puts p size body (write_record w p size body a).0 (write_record w p size body a).1
  unfolding write_record
  write_record-Puts w refused fits some_slot takes = (pr.valid, λ k l. refl)
  write_record-Puts w no_slot fits some_slot takes = absurd (some_slot refl)
  write_record-Puts none (allocated n s c') fits some_slot takes =
      let t = takes n s c' refl in
      rw (page_of n s c' t, write_record)
        (
          set_class-IsPool p size _ pr.valid (filled-IsClass size c n s body c' t pr.class fits),
          (
            ground (arith, t.positive),
            view-listed p size c _ pr.listed ∙ t.fresh,
            λ k l. view-stored n s c' t k l fits,
          ),
        )
  write_record-Puts (some k) (allocated n s c') fits some_slot takes =
      let t = takes n s c' refl in
      let short : length (take k body) ≤ size = omega (arith, length-take_le k body) in
      rw (page_of n s c' t, write_record)
        (
          set_class-IsPool p size _ pr.valid
              (torn_freed-IsClass size c n s (take k body) c' t pr.class short),
          view-torn_freed n s c' t (take k body) short,
        )

Puts-from :
    (p q : Pool) (size : ℕ) (body : List ℕ) (r : PutResult) (p' : Pool)
    → SameRecords p q
    → Puts q size body r p'
    → Puts p size body r p'
Puts-from p q size body (stored loc) p' same (proper, fresh, after) = (
  proper,
  sym (same size loc) ∙ fresh,
  λ k l. after k l ∙ ap (λ o. if eqb size k && same_loc loc l then some body else o) (same k l),
)
Puts-from p q size body declined p' same h = λ k l. h k l ∙ same k l
Puts-from p q size body (failed e) p' same h = λ k l. h k l ∙ same k l
Puts-from p q size body panicked p' same h = h

abbrev Good : Pool → ℕ → List ℕ → PutResult × Pool → Type 0
Good p size body r = IsPool r.1 × Puts p size body r.0 r.1

-- The numbered temporary file plays no part in the records.
promote-Good_class :
    (io : Io) (p p' : Pool) (size : ℕ) (body : List ℕ) (c : Class)
    → Promoted p size c p'
    → length body ≡ size
    → Good p size body (
        write_record io.write
          (record p' { write_seq = (allocate io p'.write_seq c).1 })
          size
          body
          (allocate io p'.write_seq c).0)
unfolding view
promote-Good_class io p p' size body c pr fits =
    let q : Pool = record p' { write_seq = (allocate io p'.write_seq c).1 } in
    let prq : Promoted q size c q = record {
      listed = pr.listed;
      valid = record {
        fits = pr.valid.fits;
        bounded = pr.valid.bounded;
        classes = pr.valid.classes;
      };
      class = pr.class;
      same = λ k l. refl;
      pages = pr.pages;
    } in
    let (ok, puts) =
      write_record-Puts q size body c prq io.write (allocate io p'.write_seq c).0 fits
        (allocate-ne-no_slot io p'.write_seq size c pr.class)
        (λ n s c' e. allocate-Takes io p'.write_seq size c n s c' pr.class pr.pages e) in
    (ok, Puts-from p q size body _ _ pr.same puts)

put-promotes :
    (io : Io) (p : Pool) (size : ℕ) (body : List ℕ)
    → (eqb size 0 || ltb p.max_record_bytes size || not (eqb (length body) size)) ≡ false
    → put io p size body ≡ put_promoted io size body (promote p size)
put-promotes io p size body e = unfold put in rw (e, put)

put-taken :
    (io : Io) (p : Pool) (size : ℕ) (body : List ℕ)
    → IsPool p
    → HasPages p size
    → 0 < size
    → size ≤ p.max_record_bytes
    → length body ≡ size
    → Good p size body (put io p size body)
put-taken io p size body v room pos le fits = elim (Option-cases (lookup size p.classes)) [
  | inl e ↦ elim (Bool-cases (ltb (count_of p size + 1) p.breakeven)) [
    | inl few ↦
        rw (put-promotes io p size body guard, promote-few p size e few)
          (
            record { fits = v.fits; bounded = v.bounded; classes = v.classes },
            unfold view in λ k l. refl,
          )
    | inr enough ↦
        rw (put-promotes io p size body guard, promote-new p size e enough)
          (promote-Good_class io p (new_pool p size) size body (new_class p size)
            (new_pool-Promoted p size v pos le e) fits)
  ]
  | inr (c, e) ↦
      rw (put-promotes io p size body guard, promote-known p size c e)
        (promote-Good_class io p p size body c
          (record {
            listed = e;
            valid = v;
            class = v.classes size c e;
            same = λ k l. refl;
            pages = room c e;
          })
          fits)
]
  where
    guard : (eqb size 0 || ltb p.max_record_bytes size || not (eqb (length body) size)) ≡ false
    guard = ground arith

-- On a well-formed pool whose size class has page numbers left, put gives a well-formed pool; when
-- it stores the body, at a location that is not zero and showed no record, that location now shows
-- the body and every other location of every size shows what it showed; when it declines the body
-- or fails, every location shows what it showed; and it never meets an empty free list.
pub put-Puts :
    (io : Io) (p : Pool) (size : ℕ) (body : List ℕ)
    → IsPool p
    → HasPages p size
    → IsPool (put io p size body).1 × Puts p size body (put io p size body).0 (put io p size body).1
put-Puts io p size body v room =
    elim (Bool-cases (eqb size 0 || ltb p.max_record_bytes size || not (eqb (length body) size))) [
      | inl e ↦ unfold put in rw (e, put) (v, λ k l. refl)
      | inr e ↦ put-taken io p size body v room (ground arith) (ground arith) (ground arith)
    ]
