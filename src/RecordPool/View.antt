-- ===== src/RecordPool/View.antt =====
-- The abstract view of a pool, a map from sizes and locations to bodies, and its invariant.
use gocacheprog.Prelude.{
  ℕ, ◌*◌, ◌≤◌, ◌<◌, ◌≡◌, false, not, ◌&&◌, Option, none, some, List, [], ◌∷◌, ltb, if◌then◌else◌,
  length, nat_eq,
}
use gocacheprog.Prelude.Maps.{lookup}
use gocacheprog.RecordPool.{Loc, Page, Class, Pool, u32_mod, contains, read_at}

-- The body in a slot; none in a free slot.
unfoldable pub page_view : ℕ → ℕ → Page → ℕ → Option (List ℕ)
page_view size capacity pg s =
    if ltb s capacity && not (contains pg.free s) then read_at pg.file (s * size) size else none

unfoldable pub class_view : Class → ℕ → ℕ → Option (List ℕ)
unfolding page_view
class_view c n s = elim (lookup n c.pages) [
  | none ↦ none
  | some pg ↦ page_view c.record_size c.capacity pg s
]

-- What the pool holds at a size and a location.
unfoldable pub view : Pool → ℕ → Loc → Option (List ℕ)
unfolding class_view
view p size loc = elim (lookup size p.classes) [
  | none ↦ none
  | some c ↦ class_view c loc.page loc.slot
]

-- A stack of free slots: each below the capacity, none twice.
abbrev pub AreSlots : ℕ → List ℕ → Type 0
AreSlots capacity [] = Unit
AreSlots capacity (s ∷ l) = (s < capacity) × (contains l s ≡ false) × AreSlots capacity l

pub record IsPage (size capacity : ℕ) (pg : Page) : Type 0 where
  pub full : length pg.file ≡ capacity * size
  pub slots : AreSlots capacity pg.free

pub record IsClass (size : ℕ) (c : Class) : Type 0 where
  pub sized : c.record_size ≡ size
  pub roomy : 0 < c.capacity
  pub pages :
      (n : ℕ) (pg : Page)
      → lookup n c.pages ≡ some pg
      → (n ≤ c.next_page) × IsPage size c.capacity pg

-- Every class is well formed, and a record that the pool takes fits a page.
pub record IsPool (p : Pool) : Type 0 where
  pub fits : p.max_record_bytes ≤ p.page_bytes
  pub bounded : p.page_bytes < u32_mod
  pub classes : (size : ℕ) (c : Class) → lookup size p.classes ≡ some c → IsClass size c
