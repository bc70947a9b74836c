-- ===== src/RecordPool/Allocation.antt =====
-- Proofs about allocateLocked: the slot that it returns, and what becomes of the others.
use gocacheprog.Prelude.{
  ℕ, zero, suc, ◌+◌, ◌*◌, ◌%◌, ◌≤◌, ◌<◌, ◌≡◌, ◌≢◌, [], refl, false, inl, inr, ◌⊎◌, Option-cases,
  List-cases, none, some, List, ◌∷◌, ◌∙◌, arith, length-replicate, replicate, sym, nat_eq,
}
use gocacheprog.Prelude.Maps.{lookup, insert}
use native.Mathlib.Nat.{mod-eq_of_lt}
use gocacheprog.RecordPool.{
  Io, Page, Class, allocated, u32_mod, contains, slots_below, create_page, pop_slot, no_slot,
  find_free, add_page, allocate,
}
use gocacheprog.RecordPool.View.{page_view, class_view, IsPage, IsClass}
use gocacheprog.RecordPool.Pages.{
  contains-slots_below, slots_below-AreSlots, AreSlots-mono, not-contains-slots_below,
}

-- Slot `s` of page `n` was free in `c`, and `c'` is `c` with that slot taken.
pub record Takes (size : ℕ) (c : Class) (n s : ℕ) (c' : Class) : Type 0 where
  pub page : Page
  pub next : ℕ
  pub made : c' ≡ record c { pages = insert n page c.pages; next_page = next }
  pub grows : c.next_page ≤ next
  pub listed : n ≤ next
  pub positive : 0 < n
  pub fresh : class_view c n s ≡ none
  pub others : (t : ℕ) → s ≢ t → page_view size c.capacity page t ≡ class_view c n t
  pub valid : IsPage size c.capacity page
  pub taken : contains page.free s ≡ false
  pub inside : s < c.capacity

-- What the loop over the pages finds: a page with `s` on top of its stack.
abbrev Popped : List (ℕ × Page) → ℕ → ℕ → ℕ → ℕ → Page → Type 0
Popped pages lo hi n s rest =
    (file : List ℕ) × (lookup n pages ≡ some (record { file = file; free = s ∷ rest.free }))
    × (rest.file ≡ file)
    × (lo ≤ n)
    × (n < hi)

find_free-Popped :
    (rounds pn : ℕ) (pages : List (ℕ × Page)) (n s : ℕ) (rest : Page)
    → find_free rounds pn pages ≡ some (n, s, rest)
    → Popped pages pn (pn + rounds) n s rest
unfolding find_free
find_free-Popped zero pn pages n s rest h = cc
find_free-Popped (suc rounds) pn pages n s rest h = elim (Option-cases (lookup pn pages)) [
  | inl e ↦
      let (file, listed, same, above, below) =
        find_free-Popped rounds (suc pn) pages n s rest (rw (e, find_free) at h) in
      (file, listed, same, omega arith, omega arith)
  | inr (pg, e) ↦ elim (List-cases pg.free) [
    | inl q ↦
        let (file, listed, same, above, below) =
          find_free-Popped rounds (suc pn) pages n s rest (rw (e, q, find_free, pop_slot) at h) in
        (file, listed, same, omega arith, omega arith)
    | inr (t, l, q) ↦ (pg.file, ground arith, ground arith, ground arith, ground arith)
  ]
]

pub class_view-listed :
    (c : Class) (n t : ℕ) (pg : Page)
    → lookup n c.pages ≡ some pg
    → class_view c n t ≡ page_view c.record_size c.capacity pg t
unfolding class_view
class_view-listed c n t pg h = rw (h, class_view)

pub class_view-absent : (c : Class) (n t : ℕ) → lookup n c.pages ≡ none → class_view c n t ≡ none
unfolding class_view
class_view-absent c n t h = rw (h, class_view)

-- A slot comes from a page that has one.
reused-Takes :
    (size : ℕ) (c : Class) (n s : ℕ) (rest : Page)
    → IsClass size c
    → find_free c.next_page 1 c.pages ≡ some (n, s, rest)
    → Takes size c n s (record c { pages = insert n rest c.pages })
reused-Takes size c n s rest v h =
    let (file, listed, same, above, below) = find_free-Popped c.next_page 1 c.pages n s rest h in
    let old : Page = record { file = file; free = s ∷ rest.free } in
    let (bound, ok) = v.pages n old listed in
    record {
      page = rest;
      next = c.next_page;
      made = refl;
      grows = omega arith;
      listed = bound;
      positive = omega arith;
      fresh = class_view-listed c n s old listed ∙ (unfold page_view contains in ground arith);
      others = λ t apart.
          rw (class_view-listed c n t old listed, v.sized)
            (unfold page_view contains in ground arith);
      valid = record { full = ground (arith, ok.full); slots = ok.slots.2 };
      taken = ok.slots.1;
      inside = ok.slots.0;
    }

-- The page that is new, and the class with it when its top slot is taken.
module _ (c : Class) (k : ℕ) where
  abbrev new_page : Page
  new_page = record { file = replicate (c.capacity * c.record_size) 0; free = slots_below k }

  abbrev with_new_page : Class
  with_new_page = record c {
    pages = insert (c.next_page + 1) new_page c.pages;
    next_page = c.next_page + 1;
  }

  page_view-new_page :
      (size t : ℕ) → c.capacity ≡ suc k → k ≢ t → page_view size c.capacity new_page t ≡ none
  unfolding page_view
  page_view-new_page size t e apart = ground (arith, contains-slots_below k t)

  -- A slot comes from a new page, the first that has no number yet.
  with_new_page-Takes :
      (size : ℕ)
      → IsClass size c
      → c.capacity ≡ suc k
      → Takes size c (c.next_page + 1) k with_new_page
  with_new_page-Takes size v e =
      let absent : lookup (c.next_page + 1) c.pages ≡ none =
        elim (Option-cases (lookup (c.next_page + 1) c.pages)) [
          | inl q ↦ q
          | inr (pg, q) ↦ absurd (omega (arith, (v.pages (c.next_page + 1) pg q).0))
        ] in
      record {
        page = new_page;
        next = c.next_page + 1;
        made = refl;
        grows = omega arith;
        listed = omega arith;
        positive = omega arith;
        fresh = class_view-absent c (c.next_page + 1) k absent;
        others = λ t apart.
            page_view-new_page size t e apart
            ∙ sym (class_view-absent c (c.next_page + 1) t absent);
        valid = record {
          full = rw v.sized (length-replicate (c.capacity * size) 0);
          slots =
              rw e (AreSlots-mono k (suc k) (slots_below k) (omega arith) (slots_below-AreSlots k));
        };
        taken = not-contains-slots_below k k (omega arith);
        inside = omega arith;
      }

allocated-injective :
    {n s n' s' : ℕ} {c c' : Class}
    → allocated n s c ≡ allocated n' s' c'
    → (n ≡ n') × (s ≡ s') × (c ≡ c')
allocated-injective h = (cc, cc, cc)

create_page-cases :
    (io : Io) (seq : ℕ) (c : Class)
    → ((create_page io seq c).0 ≡ none)
      ⊎ ((create_page io seq c).0
          ≡ some (record {
            file = replicate (c.capacity * c.record_size) 0;
            free = slots_below c.capacity;
          }))
unfolding create_page
create_page-cases io seq c = ground arith

add_page-some :
    (c : Class) (m n n' s : ℕ) (file : List ℕ) (c' : Class)
    → add_page c n (some (record { file = file; free = slots_below m })) ≡ allocated n' s c'
    → (n' ≡ n)
      × (m ≡ suc s)
      × (c' ≡ record c {
        pages = insert n (record { file = file; free = slots_below s }) c.pages;
        next_page = n;
      })
unfolding add_page slots_below
add_page-some c zero n n' s file c' h = cc
add_page-some c (suc k) n n' s file c' h = (cc, cc, cc)

add_page-Takes :
    (size : ℕ) (c : Class) (io : Io) (seq n s : ℕ) (c' : Class)
    → IsClass size c
    → add_page c (c.next_page + 1) (create_page io seq c).0 ≡ allocated n s c'
    → Takes size c n s c'
add_page-Takes size c io seq n s c' v h = elim (create_page-cases io seq c) [
  | inl e ↦ unfold add_page in cc (rw e at h)
  | inr e ↦
      let (n_lem, cap, made) = add_page-some c c.capacity (c.next_page + 1) n s _ c' (rw e at h) in
      rw (n_lem, made) (with_new_page-Takes c s size v cap)
]

-- On a well-formed class with page numbers left, a slot that allocate hands out lies below the
-- capacity, on a page numbered above zero and at most the class's new next number, showed no
-- record, and is no longer free; the page is well formed and its other slots show what they showed;
-- and the class differs from the old one in that page and in a next number that has not gone down.
pub allocate-Takes :
    (io : Io) (seq : ℕ) (size : ℕ) (c : Class) (n s : ℕ) (c' : Class)
    → IsClass size c
    → c.next_page + 1 < u32_mod
    → (allocate io seq c).0 ≡ allocated n s c'
    → Takes size c n s c'
unfolding allocate
allocate-Takes io seq size c n s c' v room h =
    elim (Option-cases (find_free c.next_page 1 c.pages)) [
      | inl e ↦
          let small : (c.next_page + 1) % u32_mod ≡ c.next_page + 1 = mod-eq_of_lt room in
          add_page-Takes size c io seq n s c' v (rw (e, allocate, small) at h)
      | inr ((n', s', rest), e) ↦
          let (page, slot, class) = allocated-injective (rw (e, allocate) at h) in
          rw (← page, ← slot, ← class) (reused-Takes size c n' s' rest v e)
    ]

-- On a well-formed class, allocate does not take a slot from an empty free list, whatever the file
-- system answers.
pub allocate-ne-no_slot :
    (io : Io) (seq : ℕ) (size : ℕ) (c : Class) → IsClass size c → (allocate io seq c).0 ≢ no_slot
unfolding allocate add_page create_page
allocate-ne-no_slot io seq size c v h = elim (Option-cases (find_free c.next_page 1 c.pages)) [
  | inl e ↦ elim (create_page-cases io seq c) [
    | inl q ↦ cc (rw (e, allocate, q) at h)
    | inr q ↦ elim (List-cases (slots_below c.capacity)) [
      | inl none_left ↦ absurd (omega (arith, slots_below-ne c.capacity v.roomy none_left))
      | inr (t, l, r) ↦ cc (rw (e, allocate, q, add_page, pop_slot, r) at h)
    ]
  ]
  | inr ((n', s', rest), e) ↦ cc (rw (e, allocate) at h)
]
  where
    slots_below-ne : (n : ℕ) → 0 < n → slots_below n ≡ [] → ⊥
    slots_below-ne zero h e = elim h [ ]
    slots_below-ne (suc n) h e = cc
