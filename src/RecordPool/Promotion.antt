-- ===== src/RecordPool/Promotion.antt =====
-- Proofs about promote against the abstract view.
use gocacheprog.Prelude.{
  ℕ, ◌+◌, ◌/◌, ◌≤◌, ◌<◌, ◌≡◌, refl, true, false, inl, inr, none, some, [], arith, eqb, eqb_iff, ltb,
  if◌then◌else◌, nat_eq,
}
use gocacheprog.Prelude.Maps.{
  lookup, insert, remove, lookup-insert, lookup-insert_self, lookup-insert-inv,
}
use native.Mathlib.Nat.{mod-eq_of_lt}
use gocacheprog.RecordPool.{count_of, Loc, Class, Pool, u32_mod, set_class, promote, page_capacity}
use gocacheprog.RecordPool.View.{class_view, view, IsClass, IsPool}

abbrev pub SameRecords : Pool → Pool → Type 0
SameRecords p p' = (k : ℕ) (l : Loc) → view p' k l ≡ view p k l

pub view-set_class :
    (p : Pool) (size : ℕ) (c : Class) (k : ℕ) (l : Loc)
    → view (set_class p size c) k l
      ≡ (if eqb size k then class_view c l.page l.slot else view p k l)
unfolding view
view-set_class p size c k l = ground (arith, lookup-insert size k c p.classes)

pub view-listed :
    (p : Pool) (size : ℕ) (c : Class) (l : Loc)
    → lookup size p.classes ≡ some c
    → view p size l ≡ class_view c l.page l.slot
unfolding view
view-listed p size c l h = rw (h, view)

pub set_class-IsPool :
    (p : Pool) (size : ℕ) (c : Class) → IsPool p → IsClass size c → IsPool (set_class p size c)
set_class-IsPool p size c v ok = record {
  fits = v.fits;
  bounded = v.bounded;
  classes = λ k d h. elim (lookup-insert-inv size k c d p.classes h) [
    | inl (same, class) ↦ rw (← same, ← class) ok
    | inr e ↦ v.classes k d e
  ];
}

-- What promote hands on: the class of the size, in a pool that shows the same records.
pub record Promoted (p : Pool) (size : ℕ) (c : Class) (p' : Pool) : Type 0 where
  pub listed : lookup size p'.classes ≡ some c
  pub valid : IsPool p'
  pub class : IsClass size c
  pub same : SameRecords p p'
  pub pages : c.next_page + 1 < u32_mod

page_capacity_pos : (b size : ℕ) → 0 < size → size ≤ b → b < u32_mod → 0 < page_capacity b size
page_capacity_pos b size pos le small =
    let low : 1 ≤ b / size = grind arith in
    let high : b / size ≤ b = grind arith in
    let small' : b / size < u32_mod = omega (arith, high) in rw (mod-eq_of_lt small') low

-- The class of a size that is promoted now has no page yet.
abbrev pub new_class : Pool → ℕ → Class
new_class p size = record {
  record_size = size;
  capacity = page_capacity p.page_bytes size;
  pages = [];
  next_page = 0;
}

new_class-IsClass :
    (p : Pool) (size : ℕ)
    → IsPool p
    → 0 < size
    → size ≤ p.max_record_bytes
    → IsClass size (new_class p size)
new_class-IsClass p size v pos le = record {
  sized = refl;
  roomy = page_capacity_pos p.page_bytes size pos (omega (arith, v.fits)) v.bounded;
  pages = λ n pg h. cc;
}

new_class-SameRecords :
    (p : Pool) (size : ℕ)
    → lookup size p.classes ≡ none
    → SameRecords p (set_class p size (new_class p size))
unfolding view class_view
new_class-SameRecords p size e k l =
    ground (arith, lookup-insert size k (new_class p size) p.classes, eqb_iff size k)

abbrev pub new_pool : Pool → ℕ → Pool
new_pool p size = record (set_class p size (new_class p size)) { counts = remove size p.counts }

pub promote-known :
    (p : Pool) (size : ℕ) (c : Class)
    → lookup size p.classes ≡ some c
    → promote p size ≡ (some c, p)
promote-known p size c e = unfold promote in rw (e, promote)

pub promote-few :
    (p : Pool) (size : ℕ)
    → lookup size p.classes ≡ none
    → ltb (count_of p size + 1) p.breakeven ≡ true
    → promote p size ≡ (none, record p { counts = insert size (count_of p size + 1) p.counts })
promote-few p size e few = unfold promote in rw (e, promote, few)

pub promote-new :
    (p : Pool) (size : ℕ)
    → lookup size p.classes ≡ none
    → ltb (count_of p size + 1) p.breakeven ≡ false
    → promote p size ≡ (some (new_class p size), new_pool p size)
promote-new p size e enough = unfold promote in rw (e, promote, enough)

pub new_pool-Promoted :
    (p : Pool) (size : ℕ)
    → IsPool p
    → 0 < size
    → size ≤ p.max_record_bytes
    → lookup size p.classes ≡ none
    → Promoted p size (new_class p size) (new_pool p size)
unfolding view
new_pool-Promoted p size v pos le e =
    let ok = new_class-IsClass p size v pos le in
    let valid = set_class-IsPool p size (new_class p size) v ok in
    record {
      listed = lookup-insert_self size (new_class p size) p.classes;
      valid = record { fits = valid.fits; bounded = valid.bounded; classes = valid.classes };
      class = ok;
      same = new_class-SameRecords p size e;
      pages = omega arith;
    }
