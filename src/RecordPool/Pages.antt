-- ===== src/RecordPool/Pages.antt =====
-- One page: what a write to a slot, taking a slot and giving one back do to its view.
use gocacheprog.Prelude.{
  ℕ, zero, suc, ◌+◌, ◌*◌, ◌≤◌, ◌<◌, ◌≡◌, ◌≢◌, ◌⊎◌, inl, inr, refl, true, false, Bool-cases, some,
  List, [], ◌∷◌, arith, ltb, length, ◌∙◌,
}
use gocacheprog.RecordPool.{Page, contains, slots_below}
use gocacheprog.RecordPool.Files.{
  write_at, read_at, length-write_at, read_at-write_at_self, read_at-write_at_before,
  read_at-write_at_after,
}
use gocacheprog.RecordPool.View.{page_view, AreSlots, IsPage}

-- Slots below the capacity end inside the file, and different ones do not overlap.
pub slot_inside : (s capacity size : ℕ) → s < capacity → s * size + size ≤ capacity * size
slot_inside s capacity size h = grind arith

slot_apart : (s t size : ℕ) → s < t → s * size + size ≤ t * size
slot_apart s t size h = grind arith

pub ne-cases : (s t : ℕ) → s ≢ t → (s < t) ⊎ (t < s)
ne-cases s t h = elim (Bool-cases (ltb s t)) [
  | inl e ↦ inl (ground arith)
  | inr e ↦ inr (ground arith)
]

-- Another slot of the file keeps its bytes, also when the write was cut short.
pub read_at-write_at_slot :
    (f body : List ℕ) (s t capacity size : ℕ)
    → length f ≡ capacity * size
    → length body ≤ size
    → s < capacity
    → s ≢ t
    → read_at (write_at f (s * size) body) (t * size) size ≡ read_at f (t * size) size
read_at-write_at_slot f body s t capacity size full fits inside apart = elim (ne-cases s t apart) [
  | inl h ↦
      read_at-write_at_after f (s * size) body (t * size) size
        (omega (arith, slot_inside s capacity size inside)) (omega (arith, slot_apart s t size h))
  | inr h ↦
      read_at-write_at_before f (s * size) body (t * size) size
        (omega (arith, slot_inside s capacity size inside)) (slot_apart t s size h)
]

pub contains-slots_below : (n s : ℕ) → s < n → contains (slots_below n) s ≡ true
unfolding contains slots_below
contains-slots_below zero s h = elim h [ ]
contains-slots_below (suc n) s h = ground (arith, contains-slots_below n s)

pub not-contains-slots_below : (n s : ℕ) → n ≤ s → contains (slots_below n) s ≡ false
unfolding contains slots_below
not-contains-slots_below zero s h = refl
not-contains-slots_below (suc n) s h = ground (arith, not-contains-slots_below n s)

pub AreSlots-mono : (n m : ℕ) (l : List ℕ) → n ≤ m → AreSlots n l → AreSlots m l
AreSlots-mono n m [] h v = tt
AreSlots-mono n m (s ∷ l) h v = (omega arith, v.1, AreSlots-mono n m l h v.2)

pub slots_below-AreSlots : (n : ℕ) → AreSlots n (slots_below n)
unfolding slots_below
slots_below-AreSlots zero = tt
slots_below-AreSlots (suc n) = (
  omega arith,
  not-contains-slots_below n n (omega arith),
  AreSlots-mono n (suc n) (slots_below n) (omega arith) (slots_below-AreSlots n),
)

-- A write to a slot that was just taken fills that slot and no other.
module _ (size capacity : ℕ) (pg : Page) (s : ℕ) (body : List ℕ) where
  abbrev pub written : Page
  written = record pg { file = write_at pg.file (s * size) body }

  pub page_view-written_self :
      IsPage size capacity pg
      → s < capacity
      → contains pg.free s ≡ false
      → length body ≡ size
      → page_view size capacity written s ≡ some body
  unfolding page_view
  page_view-written_self v inside taken fits =
      let back =
        read_at-write_at_self pg.file (s * size) body
          (omega (arith, slot_inside s capacity size inside, v.full)) in
      rw (taken) (ground (arith, rw fits at back))

  pub page_view-written_ne :
      (t : ℕ)
      → IsPage size capacity pg
      → s < capacity
      → length body ≤ size
      → s ≢ t
      → page_view size capacity written t ≡ page_view size capacity pg t
  unfolding page_view
  page_view-written_ne t v inside fits apart =
      rw (read_at-write_at_slot pg.file body s t capacity size v.full fits inside apart)

  pub written-IsPage :
      IsPage size capacity pg → s < capacity → length body ≤ size → IsPage size capacity written
  written-IsPage v inside fits = record {
    full =
        length-write_at pg.file (s * size) body
          (omega (arith, slot_inside s capacity size inside, v.full))
        ∙ v.full;
    slots = v.slots;
  }
