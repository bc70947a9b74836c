-- ===== src/RecordPool/Classes.antt =====
-- A record written to the slot that was taken, or given back, as the view of its class shows it.
use gocacheprog.Prelude.{
  ℕ, suc, ◌≤◌, ◌<◌, ◌≡◌, ◌≢◌, ◌∙◌, ap, sym, true, false, ◌&&◌, inl, inr, Bool-cases, none, some,
  List, ◌∷◌, arith, eqb, eqb_iff, ltb, if◌then◌else◌, length, nat_eq,
}
use gocacheprog.Prelude.Maps.{
  lookup, insert, remove, lookup-insert, lookup-insert_self, lookup-remove, lookup-insert-inv,
  lookup-remove-inv,
}
use gocacheprog.RecordPool.{Page, Class, set_page, free_slot, contains}
use gocacheprog.RecordPool.View.{page_view, class_view, AreSlots, IsPage, IsClass}
use gocacheprog.RecordPool.Pages.{
  written, page_view-written_self, page_view-written_ne, written-IsPage,
}
use gocacheprog.RecordPool.Allocation.{Takes, class_view-listed}
use gocacheprog.RecordPool.Slots.{contains_of_full}

pub class_view-insert :
    (c : Class) (n m t next : ℕ) (pg : Page)
    → class_view (record c { pages = insert n pg c.pages; next_page = next }) m t
      ≡ (if eqb n m then page_view c.record_size c.capacity pg t else class_view c m t)
unfolding class_view
class_view-insert c n m t next pg = ground (arith, lookup-insert n m pg c.pages)

pub class_view-remove :
    (c : Class) (n m t : ℕ)
    → class_view (record c { pages = remove n c.pages }) m t
      ≡ (if eqb n m then none else class_view c m t)
unfolding class_view
class_view-remove c n m t = ground (arith, lookup-remove n m c.pages)

pub insert-IsClass :
    (size : ℕ) (c : Class) (n next : ℕ) (pg : Page)
    → IsClass size c
    → c.next_page ≤ next
    → n ≤ next
    → IsPage size c.capacity pg
    → IsClass size (record c { pages = insert n pg c.pages; next_page = next })
insert-IsClass size c n next pg v grows listed ok = record {
  sized = v.sized;
  roomy = v.roomy;
  pages = λ m q h. elim (lookup-insert-inv n m pg q c.pages h) [
    | inl (same, page) ↦ rw (← same, ← page) (listed, ok)
    | inr e ↦ (omega (arith, (v.pages m q e).0), (v.pages m q e).1)
  ];
}

remove-IsClass :
    (size : ℕ) (c : Class) (n : ℕ)
    → IsClass size c
    → IsClass size (record c { pages = remove n c.pages })
remove-IsClass size c n v = record {
  sized = v.sized;
  roomy = v.roomy;
  pages = λ m q h. v.pages m q (lookup-remove-inv n m q c.pages h).0;
}

-- All pages but `n`, and the slots of page `n` but `s`, are as in the class before.
module _ (size : ℕ) (c : Class) (n s : ℕ) (body : List ℕ) (c' : Class)
    (t : Takes size c n s c') where
  abbrev pub filled : Page
  filled = written size c.capacity t.page s body

  class_view-taken :
      (m u : ℕ)
      → class_view c' m u
        ≡ (if eqb n m then page_view c.record_size c.capacity t.page u else class_view c m u)
  class_view-taken m u = rw (t.made) (class_view-insert c n m u t.next t.page)

  class_view-set_page :
      (pg : Page) (m u : ℕ)
      → class_view (set_page c' n pg) m u
        ≡ (if eqb n m then page_view c.record_size c.capacity pg u else class_view c m u)
  class_view-set_page pg m u = rw (t.made) (
      class_view-insert taken n m u t.next pg
      ∙ ground (arith, class_view-insert c n m u t.next t.page))
    where
      taken : Class
      taken = record c { pages = insert n t.page c.pages; next_page = t.next }

  module _ (v : IsClass size c) where
    class_view-replaced :
        (pg : Page) (m u : ℕ)
        → class_view (set_page c' n pg) m u
          ≡ (if eqb n m then page_view size c.capacity pg u else class_view c m u)
    class_view-replaced pg m u =
        class_view-set_page pg m u
        ∙ ap (λ k. if eqb n m then page_view k c.capacity pg u else class_view c m u) v.sized

    pub page_view-filled_ne :
        (bytes : List ℕ) (u : ℕ)
        → length bytes ≤ size
        → s ≢ u
        → page_view size c.capacity (written size c.capacity t.page s bytes) u ≡ class_view c n u
    page_view-filled_ne bytes u fits apart =
        page_view-written_ne size c.capacity t.page s bytes u t.valid t.inside fits apart
        ∙ t.others u apart

    -- The body stands in the slot, and every other slot of the class is as before.
    pub class_view-filled :
        (m u : ℕ)
        → length body ≡ size
        → class_view (set_page c' n filled) m u
          ≡ (if eqb n m && eqb s u then some body else class_view c m u)
    class_view-filled m u fits = class_view-replaced filled m u ∙ elim (Bool-cases (eqb n m)) [
      | inl e ↦ elim (Bool-cases (eqb s u)) [
        | inl q ↦
            rw (e, q, ← (eqb_iff s u).0 q)
              (page_view-written_self size c.capacity t.page s body t.valid t.inside t.taken fits)
        | inr q ↦
            rw (e, q, ← (eqb_iff n m).0 e) (page_view-filled_ne body u (omega arith) (ground arith))
      ]
      | inr e ↦ rw e
    ]

    set_page-IsClass : (pg : Page) → IsPage size c.capacity pg → IsClass size (set_page c' n pg)
    set_page-IsClass pg ok = rw (t.made) (
        insert-IsClass size (record c { pages = insert n t.page c.pages; next_page = t.next }) n
          t.next pg (insert-IsClass size c n t.next t.page v t.grows t.listed t.valid) (omega arith)
          t.listed ok)

    pub filled-IsClass : length body ≡ size → IsClass size (set_page c' n filled)
    filled-IsClass fits =
        set_page-IsClass filled
          (written-IsPage size c.capacity t.page s body t.valid t.inside (omega arith))

page_view-push :
    (size capacity : ℕ) (pg : Page) (s u : ℕ)
    → page_view size capacity (record pg { free = s ∷ pg.free }) u
      ≡ (if eqb s u then none else page_view size capacity pg u)
unfolding page_view contains
page_view-push size capacity pg s u = ground arith

page_view-full :
    (size capacity : ℕ) (pg : Page) (s u : ℕ)
    → AreSlots capacity (s ∷ pg.free)
    → capacity ≤ suc (length pg.free)
    → eqb s u ≡ false
    → page_view size capacity pg u ≡ none
unfolding page_view
page_view-full size capacity pg s u slots all apart = elim (Bool-cases (ltb u capacity)) [
  | inl e ↦
      let there = contains_of_full capacity u (s ∷ pg.free) slots all (ground arith) in
      unfold contains in ground (arith, there)
  | inr e ↦ rw e
]

-- Giving a slot back: it is free, and every other slot of the class is as before.
module _ (size : ℕ) (c : Class) (n s : ℕ) (v : IsClass size c) where
  pub class_view-free_slot_listed :
      (pg : Page) (m u : ℕ)
      → lookup n c.pages ≡ some pg
      → s < c.capacity
      → contains pg.free s ≡ false
      → class_view (free_slot c n s) m u ≡ (if eqb n m && eqb s u then none else class_view c m u)
  unfolding free_slot
  class_view-free_slot_listed pg m u e inside busy =
      elim (Bool-cases (ltb (suc (length pg.free)) c.capacity)) [
        | inl few ↦
            rw (e, few, free_slot)
              (class_view-insert c n m u c.next_page (record pg { free = s ∷ pg.free })
                ∙ ground (arith, page_view-push c.record_size c.capacity pg s u, here))
        | inr all ↦
            let hidden =
              page_view-full c.record_size c.capacity pg s u (inside, busy, slots) (ground arith) in
            rw (e, all, free_slot) (class_view-remove c n m u ∙ ground (arith, hidden, here))
      ]
    where
      slots : AreSlots c.capacity pg.free
      slots = (v.pages n pg e).1.slots

      here : eqb n m ≡ true → class_view c m u ≡ page_view c.record_size c.capacity pg u
      here q = rw (← (eqb_iff n m).0 q) (class_view-listed c n u pg e)

  pub free_slot-IsClass_listed :
      (pg : Page)
      → lookup n c.pages ≡ some pg
      → s < c.capacity
      → contains pg.free s ≡ false
      → IsClass size (free_slot c n s)
  unfolding free_slot
  free_slot-IsClass_listed pg e inside busy =
      elim (Bool-cases (ltb (suc (length pg.free)) c.capacity)) [
        | inl few ↦
            let (listed, ok) = v.pages n pg e in
            rw (e, few, free_slot)
              (insert-IsClass size c n c.next_page (record pg { free = s ∷ pg.free }) v
                (omega arith) listed (record { full = ok.full; slots = (inside, busy, ok.slots) }))
        | inr all ↦ rw (e, all, free_slot) (remove-IsClass size c n v)
      ]

-- A write that fails and gives its slot back changes no record of the class.
module _ (size : ℕ) (c : Class) (n s : ℕ) (bytes : List ℕ) (c' : Class) (t : Takes size c n s c')
    (v : IsClass size c) (fits : length bytes ≤ size) where
  abbrev pub torn : Class
  torn = set_page c' n (written size c.capacity t.page s bytes)

  torn-IsClass : IsClass size torn
  torn-IsClass =
      set_page-IsClass size c n s bytes c' t v (written size c.capacity t.page s bytes)
        (written-IsPage size c.capacity t.page s bytes t.valid t.inside fits)

  inside_torn : s < torn.capacity
  inside_torn = rw (t.made) (t.inside)

  torn_listed : lookup n torn.pages ≡ some (written size c.capacity t.page s bytes)
  torn_listed = lookup-insert_self n (written size c.capacity t.page s bytes) c'.pages

  pub torn_freed-IsClass : IsClass size (free_slot torn n s)
  torn_freed-IsClass =
      free_slot-IsClass_listed size torn n s torn-IsClass _ torn_listed inside_torn t.taken

  pub class_view-torn_freed : (m u : ℕ) → class_view (free_slot torn n s) m u ≡ class_view c m u
  class_view-torn_freed m u =
      class_view-free_slot_listed size torn n s torn-IsClass _ m u torn_listed inside_torn t.taken
      ∙ elim (Bool-cases (eqb n m)) [
        | inl e ↦ elim (Bool-cases (eqb s u)) [
          | inl q ↦ rw (e, q, ← (eqb_iff n m).0 e, ← (eqb_iff s u).0 q) (sym t.fresh)
          | inr q ↦
              rw (e, q)
                (class_view-replaced size c n s bytes c' t v _ m u
                  ∙ rw (e, ← (eqb_iff n m).0 e)
                      (page_view-filled_ne size c n s bytes c' t v bytes u fits (ground arith)))
        ]
        | inr e ↦ rw e (class_view-set_page size c n s bytes c' t _ m u ∙ rw e)
      ]
